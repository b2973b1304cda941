-- ===== src/Hexbus/Receive/Idle.antt =====
-- What HEXBUS::readidle does with the replies of the target.
pub mod Mild
pub mod Errors
use mathlib.Core.List.{append_assoc, append-nil}
use native.Mathlib.Nat.{suc-add}
use dbgbus.Base.{
  ℕ, zero, suc, ◌≡◌, refl, ◌∙◌, true, false, Option, none, some, List, [], ◌∷◌, ◌++◌, arith, length,
  All, length-append,
}
use dbgbus.Comms
use dbgbus.Comms.{Event, byte, quiet}
use dbgbus.Outcome.{Outcome, ok, bus_error}
use dbgbus.Text.Hex.{hex_value, shift_in, read_hex, IsHex}
use dbgbus.Hexbus.Link.{Link, readidle_char, start_command, hexb_reset}
use dbgbus.Hexbus.State.{Hexbus}
use dbgbus.Hexbus.Receive.{enough, readidle_loop, readidle}
use dbgbus.Hexbus.Receive.Round.{lclreadcode_one}
use dbgbus.Hexbus.Receive.Letters.{
  letter-hex_value, start_command-letter, payload-IsHex, read_hex-payload, holding-none,
}
use dbgbus.Hexbus.Receive.Replies.{
  Reply, address, word, ack, interrupt, idle, reset, letter, payload, value, Fits, holding,
  complete, pending_value, Item, reply, newline, text, pending, follow, unread, with_link, received,
  received-add,
}

abbrev pub readidle_from : ℕ → Hexbus → Outcome (Unit {0}) × Hexbus
readidle_from w h = readidle_loop (enough h) w h

pub readidle_round :
    (w c v : ℕ) (bs : List ℕ) (l : Link) (h : Hexbus)
    → readidle_char c w h.link ≡ (ok v, l)
    → readidle_from w (unread (c ∷ bs) h) ≡ readidle_from v (unread bs (with_link l (received 1 h)))
unfolding readidle_loop Comms.available
readidle_round w c v bs l h e = rw (lclreadcode_one c bs h, e)

-- The round that throws.
pub readidle_throws :
    (w c a : ℕ) (bs : List ℕ) (l : Link) (h : Hexbus)
    → readidle_char c w h.link ≡ (bus_error a, l)
    → readidle_from w (unread (c ∷ bs) h) ≡ (bus_error a, unread bs (with_link l (received 1 h)))
unfolding readidle_loop Comms.available
readidle_throws w c a bs l h e = rw (lclreadcode_one c bs h, e)

char_digit :
    (c n w : ℕ) (l : Link) → hex_value c ≡ some n → readidle_char c w l ≡ (ok (shift_in w n), l)
unfolding readidle_char
char_digit c n w l e = rw (e, readidle_char)

readidle_digits :
    (cs bs : List ℕ) (w : ℕ) (l : Link) (h : Hexbus)
    → All IsHex cs
    → readidle_from w (unread (cs ++ bs) (with_link l h))
      ≡ readidle_from (read_hex w cs) (unread bs (with_link l (received (length cs) h)))
unfolding read_hex
readidle_digits [] bs w l h a = refl
readidle_digits (c ∷ cs) bs w l h ((d, e, lt), a) =
    readidle_round w c (shift_in w d) (cs ++ bs) l (with_link l h) (char_digit c d w l e)
    ∙ readidle_digits cs bs (shift_in w d) l (received 1 h) a
    ∙ rw (e, read_hex)

-- What a complete reply changes here: a reset also clears the error flag, unlike in readword.
abbrev pub cleared : Option Reply → Link → Link
cleared (some reset) l = record l { addr_set = false; bus_err = false; cmd = hexb_reset }
cleared p l = complete p l

-- The registers behind some items.
abbrev pub run_down : Option Reply → List Item → Link → Link
run_down p [] l = l
run_down p (reply r ∷ is) l = run_down (some r) is (cleared p l)
run_down p (newline ∷ is) l = run_down none is (cleared p l)

-- Each payload fits a word.
abbrev pub AreFit : List Item → Type 0
AreFit [] = Unit {0}
AreFit (reply r ∷ is) = Fits r × AreFit is
AreFit (newline ∷ is) = AreFit is

pub char_cleared :
    (p : Option Reply) (c : ℕ) (l : Link)
    → hex_value c ≡ none
    → readidle_char c (pending_value p) (holding p l) ≡ (ok 0, start_command c (cleared p l))
unfolding readidle_char
char_cleared none c l e = rw (e, readidle_char) (ground arith)
char_cleared (some (address a)) c l e = rw (e, readidle_char) (ground arith)
char_cleared (some (word v)) c l e = rw (e, readidle_char) (ground arith)
char_cleared (some (ack v)) c l e = rw (e, readidle_char) (ground arith)
char_cleared (some interrupt) c l e = rw (e, readidle_char) (ground arith)
char_cleared (some idle) c l e = rw (e, readidle_char) (ground arith)
char_cleared (some reset) c l e = rw (e, readidle_char) (ground arith)

readidle_reply :
    (p : Option Reply) (r : Reply) (bs : List ℕ) (l : Link) (h : Hexbus)
    → Fits r
    → readidle_from
        (pending_value p)
        (unread (letter r ∷ (payload r ++ bs)) (with_link (holding p l) h))
      ≡ readidle_from (value r) (
          unread bs
            (with_link (holding (some r) (cleared p l)) (received (suc (length (payload r))) h)))
readidle_reply p r bs l h fits =
    readidle_round (pending_value p) (letter r) 0 (payload r ++ bs) (holding (some r) (cleared p l))
      (with_link (holding p l) h)
      (rw (start_command-letter r (cleared p l)) at
        (char_cleared p (letter r) l (letter-hex_value r)))
    ∙ rw (read_hex-payload r fits) at digits
  where
    after : Hexbus
    after = with_link (holding (some r) (cleared p l)) (received 1 h)

    digits :
        readidle_from 0 (unread (payload r ++ bs) after)
        ≡ readidle_from
            (read_hex 0 (payload r))
            (unread bs (with_link after.link (received (suc (length (payload r))) h)))
    digits =
        readidle_digits (payload r) bs 0 (holding (some r) (cleared p l)) (received 1 h)
          (payload-IsHex r)

pub readidle_fit_items :
    (p : Option Reply) (is : List Item) (bs : List ℕ) (l : Link) (h : Hexbus)
    → AreFit is
    → readidle_from (pending_value p) (unread (text is ++ bs) (with_link (holding p l) h))
      ≡ readidle_from (pending_value (pending p is)) (
          unread bs
            (with_link (holding (pending p is) (run_down p is l)) (received (length (text is)) h)))
readidle_fit_items p [] bs l h m = refl
readidle_fit_items p (reply r ∷ is) bs l h (fits, later) =
    let k = length (payload r) in
    rw (append_assoc (payload r) (text is) bs) (readidle_reply p r (text is ++ bs) l h fits)
    ∙ readidle_fit_items (some r) is bs (cleared p l) (received (suc k) h) later
    ∙ rw (
      received-add (suc k) (length (text is)) h,
      length-append (payload r) (text is),
      suc-add k (length (text is)),
    )
readidle_fit_items p (newline ∷ is) bs l h later =
    readidle_round (pending_value p) b'\n' 0 (text is ++ bs) (start_command b'\n' (cleared p l))
      (with_link (holding p l) h) (char_cleared p b'\n' l (unfold hex_value in refl))
    ∙ readidle_fit_items none is bs (cleared p l) (received 1 h) later

-- Nothing more at hand, and then `es`.
abbrev pub paused : List Event → Hexbus → Hexbus
paused es h = record h { dev = record h.dev { input = quiet ∷ es } }

abbrev pub on_input : List Event → Hexbus → Hexbus
on_input es h = record h { dev = record h.dev { input = es } }

readidle_pause :
    (w : ℕ) (es : List Event) (h : Hexbus) → readidle_from w (paused es h) ≡ (ok tt, on_input es h)
unfolding readidle_loop Comms.available
readidle_pause w es h = refl

received-paused :
    (n : ℕ) (es : List Event) (h : Hexbus) → received n (paused es h) ≡ paused es (received n h)
received-paused zero es h = refl
received-paused (suc n) es h = received-paused n es (received 1 h)

-- With the last reply ended, readidle takes all the replies that are at hand up to a pause, each with
-- a payload that fits a word, with line ends anywhere, and leaves the registers as the replies mean
-- them one after the other, where a reset also clears the error flag; the last one is still pending
-- if no character follows it.
pub readidle-replies :
    (is : List Item) (es : List Event) (h : Hexbus)
    → AreFit is
    → h.isspace_seen ≡ true
    → readidle (unread (text is) (paused es h)) ≡ (
      ok tt,
      on_input es (
          with_link
            (holding (pending none is) (run_down none is h.link))
            (received (length (text is)) (record h { last_readidle = true }))),
    )
unfolding readidle
readidle-replies is es h m s =
    let h' : Hexbus = record h { last_readidle = true } in
    let l = holding (pending none is) (run_down none is h.link) in
    let read = readidle_fit_items none is [] h.link (paused es h') m in
    rw (holding-none h.link s, append-nil (text is), received-paused (length (text is)) es h') at
      read
    ∙ readidle_pause (pending_value (pending none is)) es
        (with_link l (received (length (text is)) h'))
