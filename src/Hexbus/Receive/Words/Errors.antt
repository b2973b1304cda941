-- ===== src/Hexbus/Receive/Words/Errors.antt =====
-- How HEXBUS::readword ends when the target has no data for it: a bus error, or a third idle mark.
use dbgbus.Base.{
  ℕ, suc, ◌+◌, ◌<◌, ◌≡◌, refl, ap, ◌∙◌, true, false, not, Option, none, some, List, [], ◌∷◌, ◌++◌,
  arith, length, if◌then◌else◌,
}
use dbgbus.Outcome.{bus_error}
use dbgbus.Text.Ctype.{isspace}
use dbgbus.Text.Hex.{hex_value}
use dbgbus.Hexbus.Link.{Link, readword_char, readword_other, hexb_err, hexb_idle, start_command}
use dbgbus.Hexbus.State.{Hexbus}
use dbgbus.Hexbus.Receive.{readword}
use dbgbus.Hexbus.Receive.Replies.{
  Reply, address, word, ack, interrupt, idle, reset, Item, reply, newline, text, pending, follow,
  settled, holding, unread, with_link, received, received-suc, IsBackground, idles,
}
use dbgbus.Hexbus.Receive.Letters.{holding-none}
use dbgbus.Hexbus.Receive.Round.{readword_from, readword_on, readword_throws}
use dbgbus.Hexbus.Receive.Words.{
  reading, countdown, Patient, IsOther, count_idles, Steady, spent, char_other, readword_items,
  IsBackground-Steady,
}

-- Steady items with one more reply are steady, and what they leave pending is no data.
Steady-last :
    (p : Option Reply) (n : ℕ) (is : List Item) (r : Reply)
    → Steady p n (is ++ reply r ∷ [])
    → Steady p n is × IsOther (pending p is) × Patient (pending p is) (count_idles p is n)
Steady-last p n [] r (o, q, f, s) = (tt, o, q)
Steady-last p n (reply x ∷ is) r (o, q, f, s) =
    let (a, b, c) = Steady-last (some x) (countdown p n) is r s in ((o, q, f, a), b, c)
Steady-last p n (newline ∷ is) r (o, q, s) =
    let (a, b, c) = Steady-last none (countdown p n) is r s in ((o, q, a), b, c)

-- The registers when the error is found, before the character behind it.
abbrev pub failing : Link → Link
failing l = record l { cmd = hexb_err; isspace_seen = false }

abbrev pub failed : ℕ → Link → Link
failed c l = record l {
  bus_err = true;
  isspace_seen = isspace c;
  cmd = if not (isspace c) then c else l.cmd;
}

char_error :
    (n c : ℕ) (l : Link)
    → hex_value c ≡ none
    → readword_char c (reading none n) (failing l) ≡ (bus_error l.lastaddr, failed c (failing l))
unfolding readword_char readword_other
char_error n c l e = rw (e, readword_char) (ground arith)

-- The idle mark that is one too many leaves the registers as they are.
char_idle :
    (c : ℕ) (l : Link)
    → hex_value c ≡ none
    → readword_char c (reading none 1) (holding (some idle) l)
      ≡ (bus_error 0, holding (some idle) l)
unfolding readword_char readword_other
char_idle c l e = rw (e, readword_char) (ground arith)

idles-reply : (r : Reply) (is : List Item) → idles (reply r ∷ is) ≡ spent (some r) + idles is
idles-reply idle is = omega arith
idles-reply (address a) is = omega arith
idles-reply (word v) is = omega arith
idles-reply (ack v) is = omega arith
idles-reply interrupt is = omega arith
idles-reply reset is = omega arith

countdown_lem : (p : Option Reply) (n : ℕ) → Patient p n → countdown p n + spent p ≡ n
countdown_lem none n q = omega arith
countdown_lem (some idle) n q = omega arith
countdown_lem (some _) n q = omega arith

-- The idle count, where one reply is pending at the start and one at the end.
count_idles_lem :
    (p : Option Reply) (n : ℕ) (is : List Item)
    → Steady p n is
    → count_idles p is n + spent p + idles is ≡ n + spent (pending p is)
count_idles_lem p n [] s = omega arith
count_idles_lem p n (reply r ∷ is) (o, q, f, s) =
    omega
      (arith, idles-reply r is, countdown_lem p n q, count_idles_lem (some r) (countdown p n) is s)
count_idles_lem p n (newline ∷ is) (o, q, s) =
    omega (arith, countdown_lem p n q, count_idles_lem none (countdown p n) is s)

module _ (is : List Item) (c : ℕ) (bs : List ℕ) (h : Hexbus) (back : IsBackground is)
    (few : idles is < 3) (other : hex_value c ≡ none) (between : h.isspace_seen ≡ true) where
  -- The registers once the replies are complete, and the idle count.
  abbrev before : Link
  before = settled none is h.link

  abbrev left : ℕ
  left = countdown (pending none is) (count_idles none is 3)

  steady :
      Steady none 3 is
      × IsOther (pending none is)
      × Patient (pending none is) (count_idles none is 3)
  steady =
      Steady-last none 3 is (word 0)
        (IsBackground-Steady none is 0 3 tt (omega arith) back (omega arith))

  left_lem : left + idles is ≡ 3
  left_lem =
      let (s, o, q) = steady in
      omega (arith, count_idles_lem none 3 is s, countdown_lem (pending none is) _ q)

  -- The letter behind the replies.
  readword-letter :
      (x : ℕ)
      → hex_value x ≡ none
      → readword (unread (text is ++ x ∷ c ∷ bs) h)
        ≡ readword_from (reading none left) (
            unread
              (c ∷ bs)
              (with_link (start_command x before) (received (suc (length (text is))) h)))
  unfolding readword
  readword-letter x e =
      let n = count_idles none is 3 in
      let k = length (text is) in
      let (s, o, q) = steady in
      let start = readword_items none is (x ∷ c ∷ bs) h.link 3 h s in
      rw (holding-none h.link between) at start
      ∙ readword_on (reading (pending none is) n) x (c ∷ bs)
          (with_link (holding (pending none is) (follow none is h.link)) (received k h))
          (char_other (pending none is) x n (follow none is h.link) e o q)
      ∙ ap
          (λ g.
            readword_from (reading none left)
              (unread (c ∷ bs) (with_link (start_command x before) g)))
          (received-suc k h)

  -- Where the replies before it are other than data, with at most two idle marks among them, an
  -- error reply ends readword as soon as a character that is no digit follows it: it throws BUSERR
  -- of the address register as those replies leave it, with the error flag set, and it has taken
  -- that character and nothing more.
  pub readword-error : readword (unread (text is ++ hexb_err ∷ c ∷ bs) h) ≡ (
    bus_error before.lastaddr,
    unread bs (with_link (failed c (failing before)) (received (suc (suc (length (text is)))) h)),
  )
  readword-error =
      let k = suc (length (text is)) in
      readword-letter hexb_err (unfold hex_value in refl)
      ∙ readword_throws (reading none left) c bs (with_link (failing before) (received k h))
          (char_error left c before other)
      ∙ ap (λ g. (bus_error before.lastaddr, unread bs (with_link (failed c (failing before)) g)))
          (received-suc k h)

  -- Where the replies before it are other than data, with two idle marks among them, one more idle
  -- mark ends readword as soon as a character that is no digit follows it: it throws BUSERR(0), the
  -- registers are as the replies before leave them with the idle mark still the command in
  -- progress, and it has taken that character and nothing more.
  pub readword-third_idle :
      idles is ≡ 2
      → readword (unread (text is ++ hexb_idle ∷ c ∷ bs) h) ≡ (
        bus_error 0,
        unread bs
            (with_link (holding (some idle) before) (received (suc (suc (length (text is)))) h)),
      )
  readword-third_idle two =
      let k = suc (length (text is)) in
      let last : left ≡ 1 = omega (arith, left_lem) in
      readword-letter hexb_idle (unfold hex_value in refl)
      ∙ ap
          (λ n.
            readword_from (reading none n)
              (unread (c ∷ bs) (with_link (holding (some idle) before) (received k h))))
          last
      ∙ readword_throws (reading none 1) c bs
          (with_link (holding (some idle) before) (received k h)) (char_idle c before other)
      ∙ ap (λ g. (bus_error 0, unread bs (with_link (holding (some idle) before) g)))
          (received-suc k h)
