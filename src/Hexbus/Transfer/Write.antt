-- ===== src/Hexbus/Transfer/Write.antt =====
-- The loop of HEXBUS::writev against the acknowledgements of the target.
use mathlib.Core.List.{append_assoc, append-nil}
use dbgbus.Base.{
  ℕ, suc, ◌+◌, ◌^◌, ◌≤◌, ◌<◌, ◌≡◌, ap, ◌∙◌, true, none, List, [], ◌∷◌, ◌++◌, arith, length,
  length-append,
}
use dbgbus.Comms.{Event}
use dbgbus.Comms.Laws.{IsRoomy, sent, write-sent}
use dbgbus.Outcome.{ok, ◌>>◌}
use dbgbus.Text.Hex.{hex, length-hex-le}
use dbgbus.Hexbus.State.{Hexbus}
use dbgbus.Hexbus.Receive.Replies.{Item, settled}
use dbgbus.Hexbus.Receive.Idle.{on_input}
use dbgbus.Hexbus.Receive.Idle.Mild.{AreMild}
use dbgbus.Hexbus.Transfer.{wait_acks, write_command, writev_loop}
use dbgbus.Hexbus.Transfer.Position.{position, IsCalm, settled-calm}
use dbgbus.Hexbus.Transfer.Read.{Leaves, steps}
use dbgbus.Hexbus.Transfer.Acks.{
  acked, ack_input, calm-AreMild, nacks-settled, after_ack, after_ack-Leaves, wait_acks-one,
  nacks-after_ack,
}

abbrev pub AllCalm : List (List Item) → Type 0
AllCalm [] = Unit {0}
AllCalm (b ∷ bs) = IsCalm b × AllCalm bs

abbrev pub commands : List ℕ → List ℕ
commands [] = []
commands (v ∷ vs) = write_command v ++ commands vs

pub length-write_command-le :
    (v : ℕ) → (0 < length (write_command v)) × (length (write_command v) ≤ 10)
unfolding write_command
length-write_command-le v = ground (arith, length-hex-le v, length-append (hex v) (b'\n' ∷ []))

abbrev pub writing : List ℕ → Hexbus → Hexbus
writing message h = record h { dev = sent message h.dev }

-- A round of the loop.
pub writev_loop-cons :
    (nw v n : ℕ) (vs head : List ℕ) (es : List Event) (h next : Hexbus)
    → IsRoomy h.dev
    → length head ≤ 9
    → wait_acks nw (on_input es (writing (head ++ write_command v) h)) ≡ (ok tt, next)
    → (writev_loop nw head (v ∷ vs) >> wait_acks n) (on_input es h)
      ≡ (writev_loop (nw + 1) [] vs >> wait_acks n) next
unfolding writev_loop
writev_loop-cons nw v n vs head es h next roomy short e =
    let size = length-write_command-le v in
    let whole = length-append head (write_command v) in
    rw (
      write-sent (head ++ write_command v) (on_input es h).dev roomy (omega (arith, whole, size))
          (omega (arith, whole, size)),
      e,
    )

-- The rest of the loop from index `nw`, and the wait behind it, when the replies to one write are
-- outstanding: they come in order, with only interrupts and idle marks between.
pub writev_loop-acks :
    (nw : ℕ) (vs : List ℕ) (b : List Item) (bs : List (List Item)) (es : List Event) (h : Hexbus)
    → length bs ≡ length vs
    → AreMild none (acked b)
    → (settled none b h.link).nacks ≡ h.nacks
    → AllCalm bs
    → IsRoomy h.dev
    → h.isspace_seen ≡ true
    → h.nacks + 1 ≡ nw
    → nw + length vs < 2 ^ 32
    → (g : Hexbus) × ((writev_loop nw [] vs >> wait_acks (nw + length vs))
          (on_input (ack_input (b ∷ bs) es) h)
        ≡ (ok tt, g))
      × Leaves
          (record h.dev { input = es })
          (commands vs)
          (steps (suc (length vs)) (position (settled none b h.link)))
          g
writev_loop-acks nw [] b [] es h e m n c roomy s k fits = (
  after_ack b es h,
  unfold writev_loop in wait_acks-one b es (nw + 0) h m n s (omega arith) (omega arith),
  after_ack-Leaves b es h,
)
writev_loop-acks nw [] b (x ∷ bs) es h e m n c roomy s k fits = absurd (omega arith)
writev_loop-acks nw (v ∷ vs) b [] es h e m n c roomy s k fits = absurd (omega arith)
writev_loop-acks nw (v ∷ vs) b (x ∷ bs) es h e m n (c, cs) roomy s k fits =
    let h' = writing (write_command v) h in
    let later = ack_input (x ∷ bs) es in
    let next = after_ack b later h' in
    let l = after_ack-Leaves b later h' in
    let (g, rest, left) =
      writev_loop-acks (nw + 1) vs x bs es next (omega arith) (calm-AreMild none x tt c)
        (nacks-settled none x next.link c) cs (rw l.room roomy) l.between_lines
        (omega (arith, nacks-after_ack b later h')) (omega arith) in
    let end : nw + 1 + length vs ≡ nw + length (v ∷ vs) = omega arith in
    (
      g,
      writev_loop-cons nw v (nw + length (v ∷ vs)) vs [] (ack_input (b ∷ x ∷ bs) es) h next roomy
            (omega arith) (wait_acks-one b later nw h' m n s k (omega arith))
          ∙ rw end at rest,
      record {
        input = left.input;
        output =
            left.output
            ∙ ap (λ o. o ++ commands vs) (l.output ∙ append-nil (h.dev.output ++ write_command v))
            ∙ append_assoc h.dev.output (write_command v) (commands vs);
        room = left.room ∙ l.room;
        between_lines = left.between_lines;
        at = left.at ∙ ap (steps (suc (length vs))) (settled-calm none x next.link c ∙ l.at);
      },
    )
