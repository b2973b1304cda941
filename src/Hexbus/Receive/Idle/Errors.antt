-- ===== src/Hexbus/Receive/Idle/Errors.antt =====
-- How HEXBUS::readidle ends when the target reports a bus error.
use dbgbus.Base.{ℕ, suc, ◌≡◌, refl, ap, ◌∙◌, true, none, List, ◌∷◌, ◌++◌, arith, length}
use dbgbus.Outcome.{bus_error}
use dbgbus.Text.Hex.{hex_value}
use dbgbus.Hexbus.Link.{Link, readidle_char, readidle_command, hexb_err}
use dbgbus.Hexbus.State.{Hexbus}
use dbgbus.Hexbus.Receive.{readidle}
use dbgbus.Hexbus.Receive.Replies.{
  Item, text, pending, pending_value, follow, settled, holding, unread, with_link, received,
  received-suc,
}
use dbgbus.Hexbus.Receive.Letters.{holding-none}
use dbgbus.Hexbus.Receive.Words.Errors.{failing}
use dbgbus.Hexbus.Receive.Idle.{readidle_from, readidle_round, readidle_throws}
use dbgbus.Hexbus.Receive.Idle.Mild.{IsNoReset, AreMild, readidle_items, char_other}

-- Here the character behind the error is not noted.
abbrev pub alarmed : Link → Link
alarmed l = record (failing l) { bus_err = true }

char_error :
    (c : ℕ) (l : Link)
    → hex_value c ≡ none
    → readidle_char c 0 (failing l) ≡ (bus_error l.lastaddr, alarmed l)
unfolding readidle_char readidle_command
char_error c l e = rw (e, readidle_char) (ground arith)

-- Where no reset comes before it, an error reply ends readidle as soon as a character that is no
-- digit follows it: it throws BUSERR of the address register as the replies before leave it, with
-- the error flag set, and it has taken that character and nothing more.
pub readidle-error :
    (is : List Item) (c : ℕ) (bs : List ℕ) (h : Hexbus)
    → AreMild none is
    → IsNoReset (pending none is)
    → hex_value c ≡ none
    → h.isspace_seen ≡ true
    → let l = settled none is h.link in
      readidle (unread (text is ++ hexb_err ∷ c ∷ bs) h) ≡ (
        bus_error l.lastaddr,
        unread bs (
            with_link
              (alarmed l)
              (received (suc (suc (length (text is)))) (record h { last_readidle = true }))),
      )
unfolding readidle
readidle-error is c bs h mild last e s =
    let h' : Hexbus = record h { last_readidle = true } in
    let k = length (text is) in
    let l = settled none is h.link in
    let start = readidle_items none is (hexb_err ∷ c ∷ bs) h.link h' mild in
    rw (holding-none h.link s) at start
    ∙ readidle_round (pending_value (pending none is)) hexb_err 0 (c ∷ bs) (failing l)
        (with_link (holding (pending none is) (follow none is h.link)) (received k h'))
        (char_other (pending none is) hexb_err (follow none is h.link) (unfold hex_value in refl)
          last)
    ∙ ap (λ g. readidle_from 0 (unread (c ∷ bs) (with_link (failing l) g))) (received-suc k h')
    ∙ readidle_throws 0 c l.lastaddr bs (alarmed l) (with_link (failing l) (received (suc k) h'))
        (char_error c l e)
    ∙ ap (λ g. (bus_error l.lastaddr, unread bs (with_link (alarmed l) g)))
        (received-suc (suc k) h')
