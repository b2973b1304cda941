-- ===== src/Uart/Receiver.antt =====
-- What UARTSIM makes of the bits on the line.
use mathlib.Core.Path.{subst}
use native.Mathlib.Nat.{zero-add, suc-add}
use dbgbus.Base.{
  ℕ, zero, suc, ◌+◌, ◌-◌, ◌*◌, ◌/◌, ◌%◌, ◌^◌, ◌≤◌, ◌<◌, ◌≡◌, refl, sym, ap, ◌∙◌, Bool, true, false,
  arith, bit_and, bit_or, leb, ◌==◌,
}
use dbgbus.Uart.{Uart, note_edge, rx_begin, rx_sample, rx_tick}
use dbgbus.Uart.Frame.{Settings, settings, frame_bits, Receiving, sample_left, count_suc, bits_suc}

module _ (network : Bool) where
  abbrev pub step : ℕ → Uart → Uart
  step i_tx u = rx_tick i_tx network true (note_edge i_tx u)

  -- `n` clocks with the line at `i_tx`, as the receiving half of rawtick takes them.
  abbrev pub hold : ℕ → ℕ → Uart → Uart
  hold zero i_tx u = u
  hold (suc n) i_tx u = hold n i_tx (step i_tx u)

  rx_tick-count :
      (i_tx : ℕ) (u : Uart)
      → u.rx_idle ≡ false
      → (u.rx_baudcounter == 0) ≡ false
      → rx_tick i_tx network true u ≡ record u { rx_baudcounter = u.rx_baudcounter - 1 }
  unfolding rx_tick
  rx_tick-count i_tx u e f = rw (rx_tick, e, f) refl

  pub rx_tick-sample :
      (i_tx : ℕ) (u : Uart)
      → u.rx_idle ≡ false
      → (u.rx_baudcounter == 0) ≡ true
      → rx_tick i_tx network true u ≡ rx_sample i_tx network true u
  unfolding rx_tick
  rx_tick-sample i_tx u e f = rw (rx_tick, e, f) refl

  -- A clock between two samples.
  pub step-count :
      (c : Settings) (i_tx k m v : ℕ) (u : Uart)
      → Receiving c (suc k) m v u
      → Receiving c k m v (step i_tx u)
  unfolding note_edge
  step-count c i_tx k m v u r =
      let later : (u.rx_baudcounter == 0) ≡ false = rw r.clocks (ground arith) in
      rw (rx_tick-count i_tx (note_edge i_tx u) r.busy_receiving later) record {
        busy_receiving = r.busy_receiving;
        clocks = omega (arith, r.clocks);
        count = r.count;
        bits = r.bits;
        same = r.same;
      }

  -- Several clocks between two samples.
  pub hold-count :
      (c : Settings) (n i_tx k m v : ℕ) (u : Uart)
      → Receiving c (n + k) m v u
      → Receiving c k m v (hold n i_tx u)
  hold-count c zero i_tx k m v u r = rw (← zero-add k) r
  hold-count c (suc n) i_tx k m v u r =
      hold-count c n i_tx k m v (step i_tx u)
        (step-count c i_tx (n + k) m v u (let e = suc-add n k in rw e at r))

  sampled :
      (i_tx : ℕ) (u : Uart)
      → leb (2 ^ (frame_bits (settings u) - 1)) u.rx_busy ≡ false
      → rx_sample i_tx network true u ≡ record u {
        rx_busy = bit_or (u.rx_busy * 2) 1;
        rx_data = bit_or (bit_and i_tx 1 * 2 ^ 31) (u.rx_data / 2);
        rx_baudcounter = u.baud_counts - 1;
      }
  unfolding rx_sample
  sampled i_tx u e = rw (rx_sample, e) refl

  -- A sample.
  step-sample :
      (c : Settings) (i_tx m v : ℕ) (u : Uart)
      → i_tx < 2
      → m < frame_bits c
      → frame_bits c ≤ 32
      → v / 2 ^ m % 2 ≡ i_tx
      → Receiving c 0 m v u
      → Receiving c (c.baud_counts - 1) (suc m) v (step i_tx u)
  unfolding note_edge
  step-sample c i_tx m v u b lt fits e r =
      let now : (u.rx_baudcounter == 0) ≡ true = rw r.clocks (ground arith) in
      let more : leb (2 ^ (frame_bits (settings u) - 1)) u.rx_busy ≡ false =
        ap (λ (d : Settings). leb (2 ^ (frame_bits d - 1)) u.rx_busy) r.same
        ∙ ap (λ (n : ℕ). leb (2 ^ (frame_bits c - 1)) n) r.count
        ∙ sample_left c m lt in
      rw
        (
          rx_tick-sample i_tx (note_edge i_tx u) r.busy_receiving now,
          sampled i_tx (note_edge i_tx u) more,
        )
        record {
          busy_receiving = r.busy_receiving;
          clocks = ap (λ (d : Settings). d.baud_counts - 1) r.same;
          count = rw r.count (count_suc m);
          bits = rw r.bits (bits_suc i_tx m v b (omega arith) e);
          same = r.same;
        }

  pub hold-add : (m n i_tx : ℕ) (u : Uart) → hold (m + n) i_tx u ≡ hold n i_tx (hold m i_tx u)
  hold-add zero n i_tx u = rw (zero-add n) refl
  hold-add (suc m) n i_tx u = rw (suc-add m n) (hold-add m n i_tx (step i_tx u))

  -- A bit, held for as many clocks as the settings say.
  hold-bit :
      (c : Settings) (m v : ℕ) (u : Uart)
      → 0 < c.baud_counts
      → m < frame_bits c
      → frame_bits c ≤ 32
      → Receiving c (c.baud_counts / 2) m v u
      → Receiving c (c.baud_counts / 2) (suc m) v (hold c.baud_counts (v / 2 ^ m % 2) u)
  hold-bit c m v u pos lt fits r =
      let b = c.baud_counts in
      let i_tx = v / 2 ^ m % 2 in
      let ahead : b / 2 ≡ b / 2 + 0 = omega arith in
      let after : b - 1 ≡ (b - b / 2 - 1) + b / 2 = omega arith in
      let split : b ≡ b / 2 + suc (b - b / 2 - 1) = omega arith in
      let r0 = hold-count c (b / 2) i_tx 0 m v u (subst (λ (k : ℕ). Receiving c k m v u) ahead r) in
      let r1 = step-sample c i_tx m v (hold (b / 2) i_tx u) (omega arith) lt fits refl r0 in
      let r2 =
        hold-count c (b - b / 2 - 1) i_tx (b / 2) (suc m) v (step i_tx (hold (b / 2) i_tx u))
          (subst (λ (k : ℕ). Receiving c k (suc m) v (step i_tx (hold (b / 2) i_tx u))) after r1) in
      subst (λ g. Receiving c (b / 2) (suc m) v g)
        (sym (ap (λ (k : ℕ). hold k i_tx u) split ∙ hold-add (b / 2) (suc (b - b / 2 - 1)) i_tx u))
        r2

  -- The bits of `v` from number `m` on, `n` of them, each held for `b` clocks.
  abbrev pub send : ℕ → ℕ → ℕ → ℕ → Uart → Uart
  send b zero m v u = u
  send b (suc n) m v u = send b n (suc m) v (hold b (v / 2 ^ m % 2) u)

  pub send-bits :
      (c : Settings) (n m v : ℕ) (u : Uart)
      → 0 < c.baud_counts
      → m + n ≡ frame_bits c
      → frame_bits c ≤ 32
      → Receiving c (c.baud_counts / 2) m v u
      → Receiving c (c.baud_counts / 2) (frame_bits c) v (send c.baud_counts n m v u)
  send-bits c zero m v u pos e fits r =
      let all : m ≡ frame_bits c = omega (arith, e) in
      subst (λ (k : ℕ). Receiving c (c.baud_counts / 2) k v u) all r
  send-bits c (suc n) m v u pos e fits r =
      send-bits c n (suc m) v (hold c.baud_counts (v / 2 ^ m % 2) u) pos (omega (arith, e)) fits
        (hold-bit c m v u pos (omega (arith, e)) fits r)

  -- The falling edge of the start bit, and the rest of it.
  pub hold-start :
      (v : ℕ) (u : Uart)
      → u.rx_idle ≡ true
      → (u.last_tx == 0) ≡ false
      → 0 < u.baud_counts
      → Receiving (settings u) (u.baud_counts / 2) 0 v (hold u.baud_counts 0 u)
  unfolding note_edge rx_tick rx_begin
  hold-start v u idle high pos =
      let b = u.baud_counts in
      let all : b ≡ suc (b - 1) = omega arith in
      let first : Receiving (settings u) ((b - 1) + b / 2) 0 v (step 0 u) =
        rw (rx_tick, idle, high)
          record {
            busy_receiving = refl;
            clocks = omega arith;
            count = omega arith;
            bits = omega arith;
            same = refl;
          } in
      let rest = hold-count (settings u) (b - 1) 0 (b / 2) 0 v (step 0 u) first in
      subst (λ (k : ℕ). Receiving (settings u) (b / 2) 0 v (hold k 0 u)) (sym all) rest
