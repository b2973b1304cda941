-- ===== src/Uart/Stream.antt =====
-- A stream of characters from one UARTSIM to another.
use mathlib.Core.Path.{subst}
use mathlib.Core.List.{append_assoc, append-nil}
use native.Mathlib.Nat.{zero-mul, suc-mul}
use dbgbus.Base.{
  ℕ, suc, ◌+◌, ◌*◌, ◌/◌, ◌%◌, ◌^◌, ◌<◌, ◌≡◌, refl, sym, ap, ◌∙◌, Bool, true, false, ◌⊎◌, some, List,
  [], ◌∷◌, ◌++◌, length, All, arith, ◌==◌,
}
use dbgbus.Uart.{Uart, opened, tx_frame, note_edge}
use dbgbus.Uart.Frame.{Settings, settings, frame_bits, with_char}
use dbgbus.Uart.Receiver.{step, hold, send}
use dbgbus.Uart.Framing.{tx_frame-eight_frame}
use dbgbus.Uart.Sender.{SendSettings, line, line_bits}
use dbgbus.Uart.Pending.{Pending, quiet, Pending-taken, Pending-frame}
use dbgbus.Uart.Wire.{link, link-none, Ready, Runs, Runs-cons}
use dbgbus.Uart.Wire.Ticks.{Free, rest_clocks}
use dbgbus.Uart.Clocks.{Runs-clocks, char_clocks, after_frame, after_frame-Ready, frame_clocks}
use dbgbus.Uart.Pairs.{
  Paired, received, received-Paired, Paired-Eight, Paired-Usable, Paired-bits, Framed,
  eight_frame-Framed, Eight,
}

module _ (sending receiving : Bool) (fd gd back : ℕ) (l : SendSettings)
    (conn : l.conrd ≡ some fd) where
  abbrev AtRest : Uart → Type 0
  AtRest = Free sending receiving fd back l conn

  -- What the sender and the receiver are like when `cs` are sent.
  record Streamed (cs : List ℕ) (d : Settings) (t u : Uart) : Type 0 where
    got : Uart
    runs : Runs (length cs * char_clocks l) cs t u [] got AtRest
    pending : Pending receiving (received d cs) got
    listens : Ready receiving back got

  -- The frame of a character at the sender.
  frame-Framed :
      (d : Settings) (c : ℕ) (t : Uart)
      → Paired fd gd l d
      → c < 2 ^ 8
      → AtRest t
      → Framed (line_bits l) c (tx_frame (note_edge 1 t) c)
  unfolding note_edge
  frame-Framed d c t p small (rest, s) =
      let x = note_edge 1 t in
      let eight = ap (λ (k : SendSettings). k.nbits) rest.same ∙ p.bits in
      let with_parity : (t.nparity ≡ 0) ⊎ (t.nparity ≡ 1) =
        subst (λ (n : ℕ). (n ≡ 0) ⊎ (n ≡ 1)) (sym (ap (λ (k : SendSettings). k.nparity) rest.same))
          p.parity_bits in
      let even : t.evenp < 2 =
        omega (arith, p.even, ap (λ (k : SendSettings). k.evenp) rest.same) in
      let (first, bit, frame) = tx_frame-eight_frame x c eight with_parity even small in
      subst (λ v. Framed (line_bits l) c v) (sym frame)
        (eight_frame-Framed (line_bits l) first c
          (subst Eight (sym (Paired-bits fd gd l d p)) (Paired-Eight fd gd l d p)) bit small)

  -- One character.
  char_clocks-Pending :
      (d : Settings) (c v : ℕ) (u : Uart)
      → Paired fd gd l d
      → Framed (line_bits l) c v
      → Pending receiving d u
      → Pending receiving (received d (c ∷ [])) (after_frame receiving l v u)
  char_clocks-Pending d c v u p f pending =
      let same = Paired-bits fd gd l d p in
      let char : with_char d (v / 2) ≡ received d (c ∷ []) =
        ap (λ n. record d { taken = d.taken ++ v / 2 % 2 ^ n % 2 ^ 8 ∷ [] }) (sym same)
        ∙ ap (λ (x : ℕ). record d { taken = d.taken ++ x ∷ [] }) f.char in
      let one = Pending-frame receiving gd d (v / 2) u (Paired-Usable fd gd l d p) pending in
      let there : step receiving 1 (
            send receiving d.baud_counts (frame_bits d) 0 (v / 2)
              (hold receiving d.baud_counts 0 u))
          ≡ after_frame receiving l v u =
        ap
          (λ (b : ℕ).
            step receiving 1 (send receiving b (frame_bits d) 0 (v / 2) (hold receiving b 0 u)))
          (sym p.clocks)
        ∙ ap
            (λ (n : ℕ).
              step receiving 1
                (send receiving l.baud_counts n 0 (v / 2) (hold receiving l.baud_counts 0 u)))
            (sym same) in
      subst (λ s. Pending receiving s (after_frame receiving l v u)) char
        (subst (Pending receiving (with_char d (v / 2))) there one)

  streamed :
      (cs : List ℕ) (d : Settings) (t u : Uart)
      → All (λ c. c < 2 ^ 8) cs
      → Paired fd gd l d
      → AtRest t
      → Ready receiving back u
      → Pending receiving d u
      → Streamed cs d t u
  streamed [] d t u small p f r pending = record {
    got = u;
    runs =
        Runs-clocks (sym (zero-mul (char_clocks l)))
          record { after = t; run = link-none [] t u; holds = f };
    pending =
        subst (λ cs. Pending receiving (record d { taken = cs }) u) (sym (append-nil d.taken))
          pending;
    listens = r;
  }
  streamed (c ∷ cs) d t u (fits, small) p f r pending =
      let v = tx_frame (note_edge 1 t) c in
      let frame = frame-Framed d c t p fits f in
      let pos : 0 < l.baud_counts = omega (arith, p.two_clocks, p.clocks) in
      let one =
        frame_clocks sending receiving fd back l conn pos v c cs t u refl frame.low frame.high f
          r in
      let rest =
        streamed cs (received d (c ∷ [])) one.after (after_frame receiving l v u) small
          (received-Paired fd gd l d (c ∷ []) p) one.holds
          (after_frame-Ready sending receiving fd back l conn pos v u r)
          (char_clocks-Pending d c v u p frame pending) in
      let clocks : char_clocks l + length cs * char_clocks l ≡ suc (length cs) * char_clocks l =
        omega (arith, suc-mul (length cs) (char_clocks l)) in
      record {
        got = rest.got;
        runs = Runs-clocks clocks (Runs-cons one rest.runs);
        pending =
            subst (λ xs. Pending receiving (record d { taken = xs }) rest.got)
              (append_assoc d.taken (c ∷ []) cs) rest.pending;
        listens = rest.listens;
      }

-- Two UARTSIMs, the line out of the first being the line into the second, each called once in every
-- clock, where nobody else connects and every write succeeds. Both are connected and have eight
-- bits, the same number of stop bits, one or two, and the same count of clocks for a bit, two or
-- more; both have a parity bit or neither, and the parity flag of the first is 0 or 1. The first is
-- idle in both directions and its own input stays high; the second is idle in both directions, its
-- line was high, and it has nothing to send. Where the first has characters to send, each below 2 ^
-- 8, then after as many clocks as their frames have, one clock more for each, and half a bit, none
-- is left, the first is idle again, and the second has received those characters, in their order,
-- behind those it had received before.
pub link-received :
    (cs : List ℕ) (fd gd back : ℕ) (t u : Uart)
    → All (λ c. c < 2 ^ 8) cs
    → Paired fd gd (line t) (settings u)
    → t.tx_idle ≡ true
    → t.rx_idle ≡ true
    → u.tx_idle ≡ true
    → u.rx_idle ≡ true
    → u.conrd ≡ some back
    → (u.last_tx == 0) ≡ false
    → let (left, t', u') = link (length cs * char_clocks (line t) + u.baud_counts / 2) cs t u in
      (left ≡ []) × (t'.tx_idle ≡ true) × (u'.taken ≡ u.taken ++ cs)
link-received cs fd gd back t u small p resting deaf mute idle conn high =
    let l = line t in
    let from = opened t.skt in
    let to = opened u.skt in
    let d = settings u in
    let s =
      streamed from to fd gd back l p.source cs d t u small p
        (record { idle = resting; same = refl }, record { quiet = deaf; mode = refl })
        (record { idle = mute; source = conn; mode = refl }) (quiet idle refl high) in
    let after = Runs-cons s.runs (
      rest_clocks from to fd back l p.source (u.baud_counts / 2) s.runs.after s.got s.runs.holds
        s.listens) in
    let taken =
      Pending-taken to gd (received d cs) s.got
        (Paired-Usable fd gd l (received d cs) (received-Paired fd gd l d cs p)) s.pending in
    rw after.run (refl, after.holds.0.idle, taken)
