-- ===== src/Hexbus/Receive/Idle/Mild.antt =====
-- HEXBUS::readidle where no reset is complete: the replies then mean what they mean to readword.
use dbgbus.Base.{ℕ, ◌≡◌, refl, true, Option, none, some, List, [], ◌∷◌, ◌++◌, length}
use dbgbus.Comms.{Event}
use dbgbus.Outcome.{ok}
use dbgbus.Text.Hex.{hex_value}
use dbgbus.Hexbus.Link.{Link, readidle_char, start_command}
use dbgbus.Hexbus.State.{Hexbus}
use dbgbus.Hexbus.Receive.{readidle}
use dbgbus.Hexbus.Receive.Replies.{
  Reply, address, word, ack, interrupt, idle, reset, Fits, holding, complete, pending_value, Item,
  reply, newline, text, pending, follow, unread, with_link, received,
}
use dbgbus.Hexbus.Receive.Idle.{
  readidle_from, paused, on_input, cleared, run_down, AreFit, char_cleared, readidle_fit_items,
  readidle-replies,
}

abbrev pub IsNoReset : Option Reply → Type 0
IsNoReset (some reset) = ⊥
IsNoReset _ = Unit {0}

-- Items with no reset that another item completes, each with a payload that fits a word.
abbrev pub AreMild : Option Reply → List Item → Type 0
AreMild p [] = Unit {0}
AreMild p (reply r ∷ is) = IsNoReset p × Fits r × AreMild (some r) is
AreMild p (newline ∷ is) = IsNoReset p × AreMild none is

-- Where no reset is complete, the registers are as readword would leave them.
cleared-complete : (p : Option Reply) (l : Link) → IsNoReset p → cleared p l ≡ complete p l
cleared-complete none l o = refl
cleared-complete (some (address a)) l o = refl
cleared-complete (some (word v)) l o = refl
cleared-complete (some (ack v)) l o = refl
cleared-complete (some interrupt) l o = refl
cleared-complete (some idle) l o = refl
cleared-complete (some reset) l o = absurd o

run_down-follow :
    (p : Option Reply) (is : List Item) (l : Link) → AreMild p is → run_down p is l ≡ follow p is l
run_down-follow p [] l m = refl
run_down-follow p (reply r ∷ is) l (o, fits, later) =
    rw (cleared-complete p l o) (run_down-follow (some r) is (complete p l) later)
run_down-follow p (newline ∷ is) l (o, later) =
    rw (cleared-complete p l o) (run_down-follow none is (complete p l) later)

AreMild-AreFit : (p : Option Reply) (is : List Item) → AreMild p is → AreFit is
AreMild-AreFit p [] m = tt
AreMild-AreFit p (reply r ∷ is) (o, fits, later) = (fits, AreMild-AreFit (some r) is later)
AreMild-AreFit p (newline ∷ is) (o, later) = AreMild-AreFit none is later

pub char_other :
    (p : Option Reply) (c : ℕ) (l : Link)
    → hex_value c ≡ none
    → IsNoReset p
    → readidle_char c (pending_value p) (holding p l) ≡ (ok 0, start_command c (complete p l))
char_other p c l e o = rw (cleared-complete p l o) at (char_cleared p c l e)

pub readidle_items :
    (p : Option Reply) (is : List Item) (bs : List ℕ) (l : Link) (h : Hexbus)
    → AreMild p is
    → readidle_from (pending_value p) (unread (text is ++ bs) (with_link (holding p l) h))
      ≡ readidle_from (pending_value (pending p is)) (
          unread bs
            (with_link (holding (pending p is) (follow p is l)) (received (length (text is)) h)))
readidle_items p is bs l h m =
    rw (run_down-follow p is l m) at (readidle_fit_items p is bs l h (AreMild-AreFit p is m))

-- Where no reset is complete.
pub readidle-mild_replies :
    (is : List Item) (es : List Event) (h : Hexbus)
    → AreMild none is
    → h.isspace_seen ≡ true
    → readidle (unread (text is) (paused es h)) ≡ (
      ok tt,
      on_input es (
          with_link
            (holding (pending none is) (follow none is h.link))
            (received (length (text is)) (record h { last_readidle = true }))),
    )
readidle-mild_replies is es h m s =
    rw (run_down-follow none is h.link m) at (readidle-replies is es h (AreMild-AreFit none is m) s)
