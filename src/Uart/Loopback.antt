-- ===== src/Uart/Loopback.antt =====
-- A frame on the line of UARTSIM is one character, and what one UARTSIM sends another receives.
use mathlib.Core.Path.{subst}
use native.Mathlib.Nat.{mul-div_cancel}
use dbgbus.Base.{
  ℕ, ◌+◌, ◌-◌, ◌*◌, ◌/◌, ◌%◌, ◌^◌, ◌≤◌, ◌<◌, ◌≡◌, refl, sym, ap, ◌∙◌, Bool, true, false, [], ◌∷◌,
  ◌++◌, some, arith, bit_and, bit_and_low, bit_or_split, and_digit, ◌⊎◌, inl, inr, leb, ◌==◌,
}
use dbgbus.Uart.{Uart, note_edge, deliver, rx_sample, rx_tick, rx_char, tx_frame}
use dbgbus.Uart.Frame.{Settings, settings, frame_bits, Receiving, Received, positive, sample_over}
use dbgbus.Uart.Receiver.{hold, send, hold-add, send-bits, hold-start, hold-count, rx_tick-sample}

module _ (network : Bool) where
  -- The character that the bits of a frame make.
  rx_char-frame :
      (c : Settings) (v : ℕ) (u : Uart)
      → frame_bits c ≤ 32
      → u.rx_data ≡ v % 2 ^ frame_bits c * 2 ^ (32 - frame_bits c)
      → settings u ≡ c
      → rx_char u ≡ v % 2 ^ frame_bits c % 2 ^ 8
  rx_char-frame c v u fits bits same =
      let n = frame_bits c in
      let up : 32 - u.nbits - u.nstop - u.nparity ≡ 32 - n = omega (arith, ap frame_bits same) in
      let down : v % 2 ^ n * 2 ^ (32 - n) / 2 ^ (32 - n) ≡ v % 2 ^ n =
        mul-div_cancel (v % 2 ^ n) (positive (32 - n)) in
      rw (up, bits, down) (bit_and_low 8 (v % 2 ^ n))

  ended :
      (i_tx fd : ℕ) (u : Uart)
      → leb (2 ^ (frame_bits (settings u) - 1)) u.rx_busy ≡ true
      → u.conwr ≡ some fd
      → rx_sample i_tx network true u ≡ record u {
        rx_idle = true;
        rx_baudcounter = u.baud_counts - 1;
        taken = u.taken ++ rx_char u ∷ [];
      }
  unfolding rx_sample deliver
  ended i_tx fd u e conn = rw (rx_sample, e, deliver, conn) refl

  -- The clock at which the frame ends.
  pub step-end :
      (c : Settings) (i_tx v fd : ℕ) (u : Uart)
      → c.conwr ≡ some fd
      → 0 < frame_bits c
      → frame_bits c ≤ 32
      → Receiving c 0 (frame_bits c) v u
      → Received c v (rx_tick i_tx network true (note_edge i_tx u))
  unfolding note_edge
  step-end c i_tx v fd u conn pos fits r =
      let now : (u.rx_baudcounter == 0) ≡ true = rw r.clocks (ground arith) in
      let over : leb (2 ^ (frame_bits (settings u) - 1)) u.rx_busy ≡ true =
        ap (λ (d : Settings). leb (2 ^ (frame_bits d - 1)) u.rx_busy) r.same
        ∙ ap (λ (n : ℕ). leb (2 ^ (frame_bits c - 1)) n) r.count
        ∙ sample_over c pos in
      let open_end : u.conwr ≡ some fd = ap (λ (d : Settings). d.conwr) r.same ∙ conn in
      let char = rx_char-frame c v u fits r.bits r.same in
      rw
        (
          rx_tick-sample network i_tx (note_edge i_tx u) r.busy_receiving now,
          ended i_tx fd (note_edge i_tx u) over open_end,
        )
        record {
          idle_again = refl;
          sent =
              ap (λ (d : Settings). d.taken ++ rx_char u ∷ []) r.same
              ∙ ap (λ (x : ℕ). c.taken ++ x ∷ []) char;
          kept =
              ap (λ (d : Settings). record d { taken = d.taken ++ rx_char u ∷ [] }) r.same
              ∙ ap (λ (x : ℕ). record c { taken = c.taken ++ x ∷ [] }) char;
        }

  -- A frame on the line of UARTSIM, which is idle with the line high and connected to something
  -- that takes what is written: the line falls and stays low for one bit, then has the bits of `v`,
  -- the lowest first, as many as the settings say and each for as many clocks as they say, and then
  -- anything for half a bit and one clock. The receiver has then sent one character, the low eight
  -- of those bits, and is idle again.
  pub hold-frame :
      (v i_tx fd : ℕ) (u : Uart)
      → u.rx_idle ≡ true
      → (u.last_tx == 0) ≡ false
      → u.conwr ≡ some fd
      → 0 < u.baud_counts
      → 0 < frame_bits (settings u)
      → frame_bits (settings u) ≤ 32
      → let b = u.baud_counts in
        Received (settings u) v (
          hold network
            (b / 2 + 1)
            i_tx
            (send network b (frame_bits (settings u)) 0 v (hold network b 0 u)))
  hold-frame v i_tx fd u idle high conn pos some_bits fits =
      let c = settings u in
      let b = u.baud_counts in
      let n = frame_bits c in
      let g = send network b n 0 v (hold network b 0 u) in
      let all : 0 + n ≡ n = omega arith in
      let none_left : b / 2 ≡ b / 2 + 0 = omega arith in
      let bits =
        send-bits network c n 0 v (hold network b 0 u) pos all fits
          (hold-start network v u idle high pos) in
      let due =
        hold-count network c (b / 2) i_tx 0 n v g
          (subst (λ (k : ℕ). Receiving c k n v g) none_left bits) in
      subst (λ f. Received c v f) (sym (hold-add network (b / 2) 1 i_tx g))
        (step-end c i_tx v fd (hold network (b / 2) i_tx g) conn some_bits fits due)

-- What tx_frame makes of a character in a setting of eight bits without parity.
pub tx_frame-eight :
    (t : Uart) (c : ℕ)
    → t.nbits ≡ 8
    → t.nparity ≡ 0
    → c < 2 ^ 8
    → tx_frame t c ≡ (2 ^ 23 - 1) * 2 ^ 9 + c * 2
unfolding tx_frame
tx_frame-eight t c eight plain small =
    let half : c * 2 / 2 ≡ c = omega arith in
    let low : bit_and c 0xff ≡ c = omega (arith, bit_and_low 8 c) in
    let digits : bit_and (c * 2) 0x1fe ≡ c * 2 =
      and_digit (c * 2) 0x1fe ∙ rw (half, low) (omega arith) in
    rw (tx_frame, eight, plain, digits) (bit_or_split 9 (2 ^ 23 - 1) (c * 2) (omega arith))

-- A character that a UARTSIM `t` sends in eight bits without parity is the one that a UARTSIM `u`
-- with the same setting receives from the bits of its frame, where `u` is idle with the line high
-- and connected to something that takes what is written: the frame is a low start bit, the bits
-- that follow it in `tx_frame t c`, and anything for half a bit and one clock.
hold-tx_frame :
    (network : Bool) (c i_tx fd : ℕ) (t u : Uart)
    → c < 2 ^ 8
    → t.nbits ≡ 8
    → t.nparity ≡ 0
    → u.nbits ≡ 8
    → u.nparity ≡ 0
    → (u.nstop ≡ 1) ⊎ (u.nstop ≡ 2)
    → u.rx_idle ≡ true
    → (u.last_tx == 0) ≡ false
    → u.conwr ≡ some fd
    → 0 < u.baud_counts
    → let b = u.baud_counts in
      let bits =
        send network b (frame_bits (settings u)) 0 (tx_frame t c / 2) (hold network b 0 u) in
      (tx_frame t c % 2 ≡ 0) × ((hold network (b / 2 + 1) i_tx bits).taken ≡ u.taken ++ c ∷ [])
hold-tx_frame network c i_tx fd t u small t8 tn u8 un stop idle high conn pos =
    let frame = tx_frame-eight t c t8 tn small in
    let char : tx_frame t c / 2 % 2 ^ frame_bits (settings u) % 2 ^ 8 ≡ c =
      rw (frame, u8, un) (elim stop [ inl e ↦ rw e (omega arith) | inr e ↦ rw e (omega arith) ]) in
    let n : (0 < frame_bits (settings u)) × (frame_bits (settings u) ≤ 32) =
      rw (u8, un)
        (elim stop [
          | inl e ↦ rw e (omega arith, omega arith)
          | inr e ↦ rw e (omega arith, omega arith)
        ]) in
    let got = hold-frame network (tx_frame t c / 2) i_tx fd u idle high conn pos n.0 n.1 in
    (omega (arith, frame), got.sent ∙ ap (λ (x : ℕ). u.taken ++ x ∷ []) char)
