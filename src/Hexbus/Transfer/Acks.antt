-- ===== src/Hexbus/Transfer/Acks.antt =====
-- HEXBUS::writev waits for the acknowledgements of the target.
use dbgbus.Base.{
  ℕ, suc, ◌+◌, ◌^◌, ◌≤◌, ◌<◌, ◌≡◌, refl, sym, ◌∙◌, true, Option, none, some, List, [], ◌∷◌, ◌++◌,
  arith, u32, length, lt→ltb, le→ltb,
}
use mathlib.Core.List.{append-nil}
use dbgbus.Comms.{Event, quiet}
use dbgbus.Outcome.{ok}
use dbgbus.Hexbus.Link.{Link}
use dbgbus.Hexbus.State.{Hexbus}
use dbgbus.Hexbus.Receive.{readidle}
use dbgbus.Hexbus.Receive.Replies.{
  Reply, address, word, ack, interrupt, idle, reset, Item, reply, newline, text, pending, follow,
  complete, holding, arrives, unread, with_link, received, received-dev, settled,
}
use dbgbus.Hexbus.Receive.Idle.{paused, on_input}
use dbgbus.Hexbus.Receive.Idle.Mild.{AreMild, IsNoReset, readidle-mild_replies}
use dbgbus.Hexbus.Transfer.{wait_acks_loop, wait_acks}
use dbgbus.Hexbus.Transfer.Position.{position, stepped, IsCalm}
use dbgbus.Hexbus.Transfer.Read.{Leaves}

-- The replies to one write: others, then the acknowledgement and a line end.
abbrev pub acked : List Item → List Item
acked b = b ++ reply (ack 0) ∷ newline ∷ []

-- They come with a pause behind each acknowledgement.
abbrev pub ack_input : List (List Item) → List Event → List Event
ack_input [] es = es
ack_input (b ∷ bs) es = arrives (text (acked b)) (quiet ∷ ack_input bs es)

pub calm-AreMild : (p : Option Reply) (b : List Item) → IsNoReset p → IsCalm b → AreMild p (acked b)
calm-AreMild p [] o c = (o, omega arith, (tt, tt))
calm-AreMild p (reply (address a) ∷ is) o c = absurd c
calm-AreMild p (reply (word v) ∷ is) o c = absurd c
calm-AreMild p (reply (ack v) ∷ is) o c = absurd c
calm-AreMild p (reply interrupt ∷ is) o c = (o, omega arith, calm-AreMild (some interrupt) is tt c)
calm-AreMild p (reply idle ∷ is) o c = (o, omega arith, calm-AreMild (some idle) is tt c)
calm-AreMild p (reply reset ∷ is) o c = absurd c
calm-AreMild p (newline ∷ is) o c = (o, calm-AreMild none is tt c)

-- Calm items acknowledge nothing.
pub nacks-settled :
    (p : Option Reply) (b : List Item) (l : Link)
    → IsCalm b
    → (settled p b l).nacks ≡ (complete p l).nacks
nacks-settled p [] l c = refl
nacks-settled p (reply (address a) ∷ is) l c = absurd c
nacks-settled p (reply (word v) ∷ is) l c = absurd c
nacks-settled p (reply (ack v) ∷ is) l c = absurd c
nacks-settled p (reply interrupt ∷ is) l c = nacks-settled (some interrupt) is (complete p l) c
nacks-settled p (reply idle ∷ is) l c = nacks-settled (some idle) is (complete p l) c
nacks-settled p (reply reset ∷ is) l c = absurd c
nacks-settled p (newline ∷ is) l c = nacks-settled none is (complete p l) c

follow-ack :
    (p : Option Reply) (b : List Item) (l : Link)
    → (follow p (acked b) l ≡ complete (some (ack 0)) (settled p b l))
      × (pending p (acked b) ≡ none)
follow-ack p [] l = (refl, refl)
follow-ack p (reply r ∷ is) l = follow-ack (some r) is (complete p l)
follow-ack p (newline ∷ is) l = follow-ack none is (complete p l)

-- The state when the replies to one write are read.
abbrev pub after_ack : List Item → List Event → Hexbus → Hexbus
after_ack b es h = on_input es (
    with_link (holding none (complete (some (ack 0)) (settled none b h.link)))
      (received (length (text (acked b))) (record h { last_readidle = true })))

pub nacks-after_ack :
    (b : List Item) (es : List Event) (h : Hexbus)
    → (after_ack b es h).nacks ≡ u32 ((settled none b h.link).nacks + 1)
nacks-after_ack b es h = ground arith

pub after_ack-Leaves :
    (b : List Item) (es : List Event) (h : Hexbus)
    → Leaves
        (record h.dev { input = es })
        []
        (stepped (position (settled none b h.link)))
        (after_ack b es h)
after_ack-Leaves b es h =
    let k = received-dev (length (text (acked b))) (record h { last_readidle = true }) in
    record {
      input = refl;
      output = k.1 ∙ sym (append-nil h.dev.output);
      room = k.2;
      between_lines = refl;
      at = ground arith;
    }

wait_acks_loop-enough :
    (f n : ℕ) (h : Hexbus) → n ≤ h.nacks → wait_acks_loop (suc f) n h ≡ (ok tt, h)
unfolding wait_acks_loop
wait_acks_loop-enough f n h e = rw (le→ltb h.nacks n e, wait_acks_loop)

pub wait_acks-enough : (n : ℕ) (h : Hexbus) → n ≤ h.nacks → wait_acks n h ≡ (ok tt, h)
unfolding wait_acks
wait_acks-enough n h e = wait_acks_loop-enough (length h.dev.input) n h e

wait_acks_loop-round :
    (f n : ℕ) (h g : Hexbus)
    → h.nacks < n
    → readidle h ≡ (ok tt, g)
    → n ≤ g.nacks
    → wait_acks_loop (suc (suc f)) n h ≡ (ok tt, g)
unfolding wait_acks_loop
wait_acks_loop-round f n h g lt e ge =
    rw (lt→ltb h.nacks n lt, wait_acks_loop, e) (wait_acks_loop-enough f n g ge)

length-arrives :
    (cs : List ℕ) (es : List Event) → (m : ℕ) × (length (arrives cs (quiet ∷ es)) ≡ suc m)
length-arrives [] es = (length es, refl)
length-arrives (c ∷ cs) es = (length (arrives cs (quiet ∷ es)), refl)

-- Waiting for one more acknowledgement takes the replies to one write.
pub wait_acks-one :
    (b : List Item) (es : List Event) (n : ℕ) (h : Hexbus)
    → AreMild none (acked b)
    → (settled none b h.link).nacks ≡ h.nacks
    → h.isspace_seen ≡ true
    → h.nacks + 1 ≡ n
    → n < 2 ^ 32
    → wait_acks n (on_input (arrives (text (acked b)) (quiet ∷ es)) h) ≡ (ok tt, after_ack b es h)
unfolding wait_acks
wait_acks-one b es n h m same s e fits =
    let (k, size) = length-arrives (text (acked b)) es in
    let (f, p) = follow-ack none b h.link in
    let read = rw (f, p) at (readidle-mild_replies (acked b) es h m s) in
    rw (wait_acks, size)
      (wait_acks_loop-round k n (unread (text (acked b)) (paused es h)) (after_ack b es h)
        (omega arith) read (omega (arith, nacks-after_ack b es h)))
