-- ===== src/Hexbus/Receive/Words.antt =====
-- What HEXBUS::readword does with the replies of the target.
pub mod Errors
use dbgbus.Base.{
  ℕ, suc, ◌+◌, ◌-◌, ◌<◌, ◌^◌, ◌≡◌, refl, ap, ◌∙◌, true, Option, none, some, List, [], ◌∷◌, ◌++◌,
  arith, length, length-append,
}
use mathlib.Core.List.{append_assoc}
use native.Mathlib.Nat.{suc-add}
use dbgbus.Outcome.{ok}
use dbgbus.Text.Hex.{hex_value, read_hex}
use dbgbus.Hexbus.Link.{Link, Reading, on, result, readword_char, readword_other, start_command}
use dbgbus.Hexbus.State.{Hexbus}
use dbgbus.Hexbus.Receive.{readword}
use dbgbus.Hexbus.Receive.Replies.{
  Reply, address, word, ack, interrupt, idle, reset, letter, payload, Fits, holding, complete,
  pending_value, Item, reply, newline, text, pending, follow, unread, with_link, received,
  received-suc, received-add, IsBackground, idles,
}
use dbgbus.Hexbus.Receive.Letters.{
  letter-hex_value, start_command-letter, payload-IsHex, read_hex-payload, holding-none,
}
use dbgbus.Hexbus.Receive.Round.{readword_from, readword_on, readword_result, readword_digits}

-- What a reply that is complete leaves of the idle count.
abbrev pub countdown : Option Reply → ℕ → ℕ
countdown (some idle) n = n - 1
countdown _ n = n

-- The count of idle replies stays above its end.
abbrev pub Patient : Option Reply → ℕ → Type 0
Patient (some idle) n = 1 < n
Patient _ n = 0 < n

-- Not the data that readword waits for.
abbrev pub IsOther : Option Reply → Type 0
IsOther (some (word v)) = ⊥
IsOther _ = Unit {0}

abbrev pub reading : Option Reply → ℕ → Reading
reading p n = record { word = pending_value p; abort_countdown = n }

-- A character that is no digit completes the reply before it.
other_complete :
    (p : Option Reply) (c n : ℕ) (l : Link)
    → IsOther p
    → Patient p n
    → readword_other c (reading p n) (holding p l)
      ≡ (ok (on (reading none (countdown p n))), start_command c (complete p l))
unfolding readword_other
other_complete none c n l q s = ground arith
other_complete (some (address a)) c n l q s = ground arith
other_complete (some (word v)) c n l q s = absurd q
other_complete (some (ack v)) c n l q s = ground arith
other_complete (some interrupt) c n l q s = ground arith
other_complete (some idle) c n l q s = ground arith
other_complete (some reset) c n l q s = ground arith

-- What the items leave of the idle count.
abbrev pub count_idles : Option Reply → List Item → ℕ → ℕ
count_idles p [] n = n
count_idles p (reply r ∷ is) n = count_idles (some r) is (countdown p n)
count_idles p (newline ∷ is) n = count_idles none is (countdown p n)

-- No data reply is completed, and not too many idle ones.
abbrev pub Steady : Option Reply → ℕ → List Item → Type 0
Steady p n [] = Unit {0}
Steady p n (reply r ∷ is) = IsOther p × Patient p n × Fits r × Steady (some r) (countdown p n) is
Steady p n (newline ∷ is) = IsOther p × Patient p n × Steady none (countdown p n) is

-- A character that is no digit completes the pending reply and may start another.
pub char_other :
    (p : Option Reply) (c n : ℕ) (l : Link)
    → hex_value c ≡ none
    → IsOther p
    → Patient p n
    → readword_char c (reading p n) (holding p l)
      ≡ (ok (on (reading none (countdown p n))), start_command c (complete p l))
unfolding readword_char
char_other p c n l e o s = rw (e, readword_char) (other_complete p c n l o s)

-- A whole reply.
readword_reply :
    (p : Option Reply) (r : Reply) (bs : List ℕ) (l : Link) (n : ℕ) (h : Hexbus)
    → IsOther p
    → Patient p n
    → Fits r
    → readword_from
        (reading p n)
        (unread (letter r ∷ (payload r ++ bs)) (with_link (holding p l) h))
      ≡ readword_from (reading (some r) (countdown p n)) (
          unread bs
            (with_link (holding (some r) (complete p l)) (received (suc (length (payload r))) h)))
readword_reply p r bs l n h o s fits =
    readword_on (reading p n) (letter r) (payload r ++ bs) (with_link (holding p l) h)
      (char_other p (letter r) n l (letter-hex_value r) o s)
    ∙ rw (start_command-letter r (complete p l)) (rw (read_hex-payload r fits) at digits)
  where
    digits :
        readword_from
          (reading none (countdown p n))
          (unread (payload r ++ bs) (with_link (holding (some r) (complete p l)) (received 1 h)))
        ≡ readword_from
            (record { word = read_hex 0 (payload r); abort_countdown = countdown p n })
            (unread bs
              (with_link (holding (some r) (complete p l)) (received (suc (length (payload r))) h)))
    digits =
        readword_digits (payload r) bs r (complete p l) 0 (countdown p n) (received 1 h)
          (payload-IsHex r)

pub readword_items :
    (p : Option Reply) (is : List Item) (bs : List ℕ) (l : Link) (n : ℕ) (h : Hexbus)
    → Steady p n is
    → readword_from (reading p n) (unread (text is ++ bs) (with_link (holding p l) h))
      ≡ readword_from (reading (pending p is) (count_idles p is n)) (
          unread bs
            (with_link (holding (pending p is) (follow p is l)) (received (length (text is)) h)))
readword_items p [] bs l n h s = refl
readword_items p (reply r ∷ is) bs l n h (o, s, fits, later) =
    rw (append_assoc (payload r) (text is) bs) (readword_reply p r (text is ++ bs) l n h o s fits)
    ∙ readword_items (some r) is bs (complete p l) (countdown p n)
        (received (suc (length (payload r))) h) later
    ∙ rw (
      received-add (suc (length (payload r))) (length (text is)) h,
      length-append (payload r) (text is),
      suc-add (length (payload r)) (length (text is)),
    )
readword_items p (newline ∷ is) bs l n h (o, s, later) =
    readword_on (reading p n) b'\n' (text is ++ bs) (with_link (holding p l) h)
      (char_other p b'\n' n l (unfold hex_value in refl) o s)
    ∙ readword_items none is bs (complete p l) (countdown p n) (received 1 h) later

abbrev pub spent : Option Reply → ℕ
spent (some idle) = 1
spent _ = 0

Patient-of_spent : (p : Option Reply) (n : ℕ) → spent p < n → Patient p n
Patient-of_spent none n h = h
Patient-of_spent (some idle) n h = h
Patient-of_spent (some _) n h = h

countdown-lt : (p : Option Reply) (k n : ℕ) → spent p + k < n → k < countdown p n
countdown-lt none k n h = omega arith
countdown-lt (some idle) k n h = omega arith
countdown-lt (some _) k n h = omega arith

IsBackground-head :
    (r : Reply) (is : List Item)
    → IsBackground (reply r ∷ is)
    → IsOther (some r)
      × Fits r
      × IsBackground is
      × (idles (reply r ∷ is) ≡ spent (some r) + idles is)
IsBackground-head (address a) is b = (tt, b.0, b.1, omega arith)
IsBackground-head (word v) is b = absurd b
IsBackground-head (ack v) is b = (tt, b.0, b.1, omega arith)
IsBackground-head interrupt is b = (tt, b.0, b.1, omega arith)
IsBackground-head idle is b = (tt, b.0, b.1, omega arith)
IsBackground-head reset is b = (tt, b.0, b.1, omega arith)

pub IsBackground-Steady :
    (p : Option Reply) (is : List Item) (v n : ℕ)
    → IsOther p
    → spent p + idles is < n
    → IsBackground is
    → v < 2 ^ 32
    → Steady p n (is ++ reply (word v) ∷ [])
IsBackground-Steady p [] v n o i b f = (o, Patient-of_spent p n (omega arith), f, tt)
IsBackground-Steady p (newline ∷ is) v n o i b f = (
  o,
  Patient-of_spent p n (omega arith),
  IsBackground-Steady none is v (countdown p n) tt
      (let k = countdown-lt p (idles is) n i in omega (arith, k)) b f,
)
IsBackground-Steady p (reply r ∷ is) v n o i b f =
    let (other, fits, rest, e) = IsBackground-head r is b in
    let below : spent (some r) + idles is < countdown p n =
      countdown-lt p (spent (some r) + idles is) n (rw e at i) in
    (
      o,
      Patient-of_spent p n (omega arith),
      fits,
      IsBackground-Steady (some r) is v (countdown p n) other below rest f,
    )

pending-data :
    (p : Option Reply) (is : List Item) (v : ℕ)
    → pending p (is ++ reply (word v) ∷ []) ≡ some (word v)
pending-data p [] v = refl
pending-data p (reply r ∷ is) v = pending-data (some r) is v
pending-data p (newline ∷ is) v = pending-data none is v

-- The character behind a data reply returns its word.
char_data :
    (v c n : ℕ) (l : Link)
    → hex_value c ≡ none
    → readword_char c (reading (some (word v)) n) (holding (some (word v)) l)
      ≡ (ok (result v), start_command c (complete (some (word v)) l))
unfolding readword_char readword_other
char_data v c n l e = rw (e, readword_char) (ground arith)

-- Where the replies before it are addresses, acknowledgements, interrupts, resets and at most two
-- idle marks, with line ends anywhere between them, readword returns the word of the first data
-- reply as soon as a character that is no digit follows it. It has taken that character and
-- nothing more, and the registers are what the replies mean one after the other.
pub readword-data :
    (is : List Item) (v c : ℕ) (bs : List ℕ) (h : Hexbus)
    → IsBackground is
    → idles is < 3
    → v < 2 ^ 32
    → hex_value c ≡ none
    → h.isspace_seen ≡ true
    → let js = is ++ reply (word v) ∷ [] in
      readword (unread (text js ++ c ∷ bs) h) ≡ (
        ok v,
        unread bs (
            with_link
              (start_command c (complete (some (word v)) (follow none js h.link)))
              (received (suc (length (text js))) h)),
      )
unfolding readword
readword-data is v c bs h b i f e s =
    let js = is ++ reply (word v) ∷ [] in
    let n = count_idles none js 3 in
    let l = follow none js h.link in
    let steady = IsBackground-Steady none is v 3 tt (omega arith) b f in
    let start = readword_items none js (c ∷ bs) h.link 3 h steady in
    let later = received (length (text js)) h in
    let end =
      readword_result (reading (some (word v)) n) c bs (with_link (holding (some (word v)) l) later)
        (char_data v c n l e) in
    rw (holding-none h.link s, pending-data none is v) at start
    ∙ end
    ∙ ap (λ g. (ok v, unread bs (with_link (start_command c (complete (some (word v)) l)) g)))
        (received-suc (length (text js)) h)
