-- ===== src/Hexbus/Receive/Fuel.antt =====
-- HEXBUS::readidle never waits: the fuel of its loop is enough.
use dbgbus.Base.{
  ℕ, zero, suc, ◌<◌, true, Bool-cases, Option-cases, ◌&&◌, inl, inr, List, [], ◌∷◌, arith, length,
}
use dbgbus.Comms
use dbgbus.Comms.{Event, byte, quiet, closed, gone}
use dbgbus.Outcome.Ends.{Ends, bound-Ends}
use dbgbus.Text.Ctype.{isspace}
use dbgbus.Text.Hex.{hex_value}
use dbgbus.Hexbus.Link.{Link, readidle_char, readidle_command}
use dbgbus.Hexbus.State.{Hexbus, on_link, lclreadcode}
use dbgbus.Hexbus.Receive.{enough, readidle_loop, readidle}
use dbgbus.Hexbus.Receive.Replies.{received, with_link}
use dbgbus.Hexbus.Receive.Round.{lclreadcode_one}
use dbgbus.Hexbus.Receive.Idle.{on_input}

readidle_command-Ends : (w : ℕ) (l : Link) → Ends (readidle_command w l).0
unfolding readidle_command
readidle_command-Ends w l = ground arith

readidle_char-Ends : (c w : ℕ) (l : Link) → Ends (readidle_char c w l).0
unfolding readidle_char
readidle_char-Ends c w l = elim (Option-cases (hex_value c)) [
  | inl e ↦
      rw (e, readidle_char)
        (elim (Bool-cases (isspace c && l.isspace_seen)) [
          | inl b ↦ rw b tt
          | inr b ↦ rw b (bound-Ends (readidle_command w l) _ (readidle_command-Ends w l) (λ _. tt))
        ])
  | inr (n, e) ↦ rw (e, readidle_char) tt
]

readidle_loop-Ends :
    (es : List Event) (f w : ℕ) (h : Hexbus)
    → length es < f
    → Ends (readidle_loop f w (on_input es h)).0
unfolding readidle_loop Comms.available
readidle_loop-Ends es zero w h p = absurd (omega arith)
readidle_loop-Ends [] (suc f) w h p = tt
readidle_loop-Ends (quiet ∷ es) (suc f) w h p = tt
readidle_loop-Ends (closed ∷ es) (suc f) w h p = unfold lclreadcode Comms.read in tt
readidle_loop-Ends (gone ∷ es) (suc f) w h p = tt
readidle_loop-Ends (byte c ∷ es) (suc f) w h p = rw (lclreadcode_one c [] (on_input es h)) (
    bound-Ends (on_link (readidle_char c w) (on_input es (received 1 h))) (readidle_loop f)
      (readidle_char-Ends c w h.link)
      (λ v.
        readidle_loop-Ends es f v (with_link (readidle_char c w h.link).1 (received 1 h))
          (omega arith)))

-- readidle always ends, whatever is to arrive: it returns or throws, and never waits.
pub readidle-Ends : (h : Hexbus) → Ends (readidle h).0
unfolding readidle
readidle-Ends h =
    readidle_loop-Ends h.dev.input (enough h) 0 (record h { last_readidle = true }) (omega arith)
