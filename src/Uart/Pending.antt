-- ===== src/Uart/Pending.antt =====
-- The receiver of UARTSIM from one frame to the next: the last character may still be on its way.
use mathlib.Core.Path.{subst}
use dbgbus.Base.{
  ℕ, zero, suc, ◌+◌, ◌-◌, ◌/◌, ◌≤◌, ◌<◌, ◌≡◌, refl, sym, ap, ◌∙◌, Bool, true, false, some, arith,
  ◌==◌,
}
use dbgbus.Uart.{Uart, note_edge}
use dbgbus.Uart.Frame.{Settings, settings, frame_bits, with_char, Receiving}
use dbgbus.Uart.Receiver.{step, hold, hold-add, hold-count, send, send-bits, step-count}
use dbgbus.Uart.Loopback.{step-end}
use dbgbus.Uart.Between.{rx_tick-edges, Waits, Waits-idle, Waits-frame}
use dbgbus.Uart.Wire.{quiet_line}

-- Settings that a frame can be received in.
pub record Usable (fd : ℕ) (d : Settings) : Type 0 where
  pub open_end : d.conwr ≡ some fd
  pub two_clocks : 2 ≤ d.baud_counts
  pub some_bits : 0 < frame_bits d
  pub fits : frame_bits d ≤ 32

-- The line is high, and the characters of `d` are all received but for what is left of the last
-- stop bit.
pub data Pending (network : Bool) (d : Settings) (u : Uart) : Type 0 where
  quiet : u.rx_idle ≡ true → settings u ≡ d → (u.last_tx == 0) ≡ false → Pending network d u
  finishing :
      (c : Settings) (v fd : ℕ)
      → Usable fd c
      → d ≡ with_char c v
      → (u.last_tx == 0) ≡ false
      → Receiving c (c.baud_counts / 2 - 1) (frame_bits c) v u
      → Pending network d u

module _ (network : Bool) where
  -- The next frame can begin.
  pub Pending-Waits :
      (fd : ℕ) (d : Settings) (u : Uart) → Usable fd d → Pending network d u → Waits network d u
  Pending-Waits fd d u able (quiet idle same high) =
      let pos : 0 < u.baud_counts =
        omega (arith, able.two_clocks, ap (λ (s : Settings). s.baud_counts) same) in
      subst (λ s. Waits network s u) same (Waits-idle network u idle high pos)
  Pending-Waits fd d u able (finishing c v gd a e high r) =
      subst (λ s. Waits network s u) (sym e)
        (Waits-frame network c v gd u a.open_end a.two_clocks a.some_bits a.fits high r)

  hold-quiet : (n : ℕ) (u : Uart) → u.rx_idle ≡ true → (hold network n 1 u).taken ≡ u.taken
  unfolding note_edge
  hold-quiet zero u idle = refl
  hold-quiet (suc n) u idle =
      let x : Uart = note_edge 1 u in
      let still = quiet_line network x idle in
      hold-quiet n (step network 1 u) (ap (λ (y : Uart). y.rx_idle) still ∙ idle)
      ∙ ap (λ (y : Uart). y.taken) still

  -- Half a bit later all of the last character is there.
  pub Pending-taken :
      (fd : ℕ) (d : Settings) (u : Uart)
      → Usable fd d
      → Pending network d u
      → (hold network (d.baud_counts / 2) 1 u).taken ≡ d.taken
  Pending-taken fd d u able (quiet idle same high) =
      hold-quiet (d.baud_counts / 2) u idle ∙ ap (λ (s : Settings). s.taken) same
  Pending-taken fd d u able (finishing c v gd a e high r) =
      let p = c.baud_counts / 2 - 1 in
      let half : d.baud_counts / 2 ≡ p + 1 =
        omega (arith, a.two_clocks, ap (λ (s : Settings). s.baud_counts) e) in
      let to_end : p ≡ p + 0 = omega arith in
      let due =
        hold-count network c p 1 0 (frame_bits c) v u
          (subst (λ (k : ℕ). Receiving c k (frame_bits c) v u) to_end r) in
      let ended =
        step-end network c 1 v gd (hold network p 1 u) a.open_end a.some_bits a.fits due in
      ap (λ (k : ℕ). (hold network k 1 u).taken) half
      ∙ ap (λ (y : Uart). y.taken) (hold-add network p 1 1 u)
      ∙ ended.sent
      ∙ ap (λ (s : Settings). s.taken) (sym e)

  step-high : (u : Uart) → (step network 1 u).last_tx ≡ 1
  unfolding note_edge
  step-high u = (rx_tick-edges network 1 (note_edge 1 u)).1

  -- The frame whose bits after the start bit are those of `v`, and the clock after it.
  pub Pending-frame :
      (fd : ℕ) (d : Settings) (v : ℕ) (u : Uart)
      → Usable fd d
      → Pending network d u
      → let b = d.baud_counts in
        Pending network
          (with_char d v)
          (step network 1 (send network b (frame_bits d) 0 v (hold network b 0 u)))
  Pending-frame fd d v u able p =
      let b = d.baud_counts in
      let n = frame_bits d in
      let g = send network b n 0 v (hold network b 0 u) in
      let all : 0 + n ≡ n = omega arith in
      let pos : 0 < b = omega (arith, able.two_clocks) in
      let bits =
        send-bits network d n 0 v (hold network b 0 u) pos all able.fits
          (Pending-Waits fd d u able p v) in
      let later : b / 2 ≡ suc (b / 2 - 1) = omega (arith, able.two_clocks) in
      let after =
        step-count network d 1 (b / 2 - 1) n v g
          (subst (λ (k : ℕ). Receiving d k n v g) later bits) in
      let high : ((step network 1 g).last_tx == 0) ≡ false = rw (step-high g) refl in
      finishing d v fd able refl high after
