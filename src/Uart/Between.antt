-- ===== src/Uart/Between.antt =====
-- The receiver of UARTSIM between two frames: the next one may begin before the last one is over.
use mathlib.Core.Path.{subst}
use dbgbus.Base.{
  ℕ, zero, suc, ◌+◌, ◌-◌, ◌/◌, ◌≤◌, ◌<◌, ◌≡◌, refl, sym, ap, ◌∙◌, Bool, true, false, some, arith,
  ◌==◌,
}
use dbgbus.Uart.{Uart, note_edge, deliver, rx_begin, rx_sample, rx_tick}
use dbgbus.Uart.Frame.{Settings, settings, frame_bits, with_char, Receiving}
use dbgbus.Uart.Receiver.{step, hold, hold-add, hold-count, hold-start}
use dbgbus.Uart.Loopback.{step-end}

module _ (network : Bool) where
  pub rx_tick-edges :
      (i_tx : ℕ) (u : Uart)
      → ((rx_tick i_tx network true u).rx_changectr ≡ u.rx_changectr)
        × ((rx_tick i_tx network true u).last_tx ≡ u.last_tx)
  unfolding rx_tick rx_begin rx_sample deliver
  rx_tick-edges i_tx u = ground arith

  -- How long the line has been low.
  hold-low :
      (n : ℕ) (u : Uart)
      → u.last_tx ≡ 0
      → ((hold network n 0 u).rx_changectr ≡ u.rx_changectr + n)
        × ((hold network n 0 u).last_tx ≡ 0)
  unfolding note_edge
  hold-low zero u low = (omega arith, low)
  hold-low (suc n) u low =
      let x : Uart = note_edge 0 u in
      let (count, last) = rx_tick-edges 0 x in
      let one : x.rx_changectr ≡ u.rx_changectr + 1 = rw low refl in
      let (c, l) = hold-low n (rx_tick 0 network true x) last in (omega (arith, c, count, one), l)

  hold-falling :
      (n : ℕ) (u : Uart)
      → (u.last_tx == 0) ≡ false
      → ((hold network (suc n) 0 u).rx_changectr ≡ n) × ((hold network (suc n) 0 u).last_tx ≡ 0)
  unfolding note_edge
  hold-falling n u high =
      let x : Uart = note_edge 0 u in
      let (count, last) = rx_tick-edges 0 x in
      let none_yet : x.rx_changectr ≡ 0 = rw high refl in
      let (c, l) = hold-low n (rx_tick 0 network true x) last in
      (omega (arith, c, count, none_yet), l)

  -- The line is low when the receiver becomes idle: it takes the edge where it was.
  step-late :
      (v k : ℕ) (u : Uart)
      → u.rx_idle ≡ true
      → u.last_tx ≡ 0
      → u.rx_changectr ≡ k
      → Receiving
          (settings u)
          (u.baud_counts + u.baud_counts / 2 - 1 - (k + 1))
          0
          v
          (step network 0 u)
  unfolding note_edge rx_tick rx_begin
  step-late v k u idle low count =
      rw (rx_tick, idle, low)
        record {
          busy_receiving = refl;
          clocks = omega arith;
          count = omega arith;
          bits = omega arith;
          same = refl;
        }

  -- Whatever the next frame is, its start bit leaves the receiver half a bit before the first
  -- sample, with `d` for its settings.
  abbrev pub Waits : Settings → Uart → Type 0
  Waits d u = (v : ℕ) → Receiving d (d.baud_counts / 2) 0 v (hold network d.baud_counts 0 u)

  pub Waits-idle :
      (u : Uart)
      → u.rx_idle ≡ true
      → (u.last_tx == 0) ≡ false
      → 0 < u.baud_counts
      → Waits (settings u) u
  Waits-idle u idle high pos v = hold-start network v u idle high pos

  pub Waits-frame :
      (c : Settings) (v fd : ℕ) (u : Uart)
      → c.conwr ≡ some fd
      → 2 ≤ c.baud_counts
      → 0 < frame_bits c
      → frame_bits c ≤ 32
      → (u.last_tx == 0) ≡ false
      → Receiving c (c.baud_counts / 2 - 1) (frame_bits c) v u
      → Waits (with_char c v) u
  Waits-frame c v fd u conn two some_bits fits high r v' =
      let b = c.baud_counts in
      let p = b / 2 - 1 in
      let g = hold network p 0 u in
      let e = step network 0 g in
      let d = with_char c v in
      let to_end : p ≡ p + 0 = omega arith in
      let due =
        hold-count network c p 0 0 (frame_bits c) v u
          (subst (λ (k : ℕ). Receiving c k (frame_bits c) v u) to_end r) in
      let ended = step-end network c 0 v fd g conn some_bits fits due in
      let there : hold network (suc p) 0 u ≡ e =
        ap (λ (k : ℕ). hold network k 0 u) (let x : suc p ≡ p + 1 = omega arith in x)
        ∙ hold-add network p 1 0 u in
      let (count, low) = hold-falling p u high in
      let count' : e.rx_changectr ≡ p = ap (λ (x : Uart). x.rx_changectr) (sym there) ∙ count in
      let low' : e.last_tx ≡ 0 = ap (λ (x : Uart). x.last_tx) (sym there) ∙ low in
      let late = step-late v' p e ended.idle_again low' count' in
      let clocks : e.baud_counts + e.baud_counts / 2 - 1 - (p + 1) ≡ (b - b / 2 - 1) + b / 2 =
        omega (arith, ap (λ (s : Settings). s.baud_counts) ended.kept) in
      let late' : Receiving d ((b - b / 2 - 1) + b / 2) 0 v' (step network 0 e) =
        subst (λ (k : ℕ). Receiving d k 0 v' (step network 0 e)) clocks
          (subst
            (λ s.
              Receiving s (e.baud_counts + e.baud_counts / 2 - 1 - (p + 1)) 0 v' (step network 0 e))
            ended.kept late) in
      let rest = hold-count network d (b - b / 2 - 1) 0 (b / 2) 0 v' (step network 0 e) late' in
      let split : b ≡ suc p + suc (b - b / 2 - 1) = omega arith in
      let whole : hold network b 0 u ≡ hold network (b - b / 2 - 1) 0 (step network 0 e) =
        ap (λ (k : ℕ). hold network k 0 u) split
        ∙ hold-add network (suc p) (suc (b - b / 2 - 1)) 0 u
        ∙ ap (hold network (suc (b - b / 2 - 1)) 0) there in
      subst (λ g'. Receiving d (b / 2) 0 v' g') (sym whole) rest
