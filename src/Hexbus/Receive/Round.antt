-- ===== src/Hexbus/Receive/Round.antt =====
-- One round of the loop of HEXBUS::readword, and the digits of a payload.
use dbgbus.Base.{
  ℕ, ◌≡◌, refl, ◌∙◌, false, Bool-cases, inl, inr, some, List, [], ◌∷◌, ◌++◌, length, All,
}
use dbgbus.Comms
use dbgbus.Comms.{Event, byte}
use dbgbus.Outcome.{Outcome, ok, bus_error, bound}
use dbgbus.Text.Hex.{hex_value, shift_in, read_hex, IsHex}
use dbgbus.Hexbus.Link.{Link, Reading, on, result, readword_char}
use dbgbus.Hexbus.State.{Hexbus, on_link, lclreadcode, squeeze, is_idle_byte}
use dbgbus.Hexbus.Receive.{enough, unless_done, readword_loop}
use dbgbus.Hexbus.Receive.Replies.{Reply, holding, unread, with_link, received}

-- One byte is left as it is.
squeeze_one : (c : ℕ) → squeeze 1 0 0 0 (c ∷ []) ≡ c ∷ []
unfolding squeeze
squeeze_one c = elim (Bool-cases (is_idle_byte c)) [ inl e ↦ rw e | inr e ↦ rw e ]

pub lclreadcode_one :
    (c : ℕ) (bs : List ℕ) (h : Hexbus)
    → lclreadcode 0 (unread (c ∷ bs) h) ≡ (ok (c ∷ []), unread bs (received 1 h))
unfolding lclreadcode Comms.read
lclreadcode_one c bs h = rw (squeeze_one c)

abbrev pub readword_from : Reading → Hexbus → Outcome ℕ × Hexbus
readword_from r h = readword_loop (enough h) r h

pub readword_round :
    (r : Reading) (c : ℕ) (bs : List ℕ) (h : Hexbus)
    → readword_from r (unread (c ∷ bs) h)
      ≡ bound
          (on_link (readword_char c r) (unread bs (received 1 h)))
          (unless_done (readword_loop (enough (unread bs h))))
unfolding readword_loop
readword_round r c bs h = rw (lclreadcode_one c bs h)

module _ (r : Reading) (c : ℕ) (bs : List ℕ) (h : Hexbus) where
  -- A round that goes on.
  pub readword_on :
      {s : Reading} {l : Link}
      → readword_char c r h.link ≡ (ok (on s), l)
      → readword_from r (unread (c ∷ bs) h)
        ≡ readword_from s (unread bs (with_link l (received 1 h)))
  readword_on e = rw (readword_round r c bs h, e)

  -- The round that returns.
  pub readword_result :
      {v : ℕ} {l : Link}
      → readword_char c r h.link ≡ (ok (result v), l)
      → readword_from r (unread (c ∷ bs) h) ≡ (ok v, unread bs (with_link l (received 1 h)))
  readword_result e = rw (readword_round r c bs h, e)

  -- The round that throws.
  pub readword_throws :
      {a : ℕ} {l : Link}
      → readword_char c r h.link ≡ (bus_error a, l)
      → readword_from r (unread (c ∷ bs) h) ≡ (bus_error a, unread bs (with_link l (received 1 h)))
  readword_throws e = rw (readword_round r c bs h, e)

char_digit :
    (r : Reading) (c n : ℕ) (l : Link)
    → hex_value c ≡ some n
    → readword_char c r l
      ≡ (ok (on (record r { word = shift_in r.word n })), record l { isspace_seen = false })
unfolding readword_char
char_digit r c n l e = rw (e, readword_char)

-- Digits go into the register; a command is in progress.
pub readword_digits :
    (cs bs : List ℕ) (p : Reply) (l : Link) (w n : ℕ) (h : Hexbus)
    → All IsHex cs
    → readword_from
        (record { word = w; abort_countdown = n })
        (unread (cs ++ bs) (with_link (holding (some p) l) h))
      ≡ readword_from
          (record { word = read_hex w cs; abort_countdown = n })
          (unread bs (with_link (holding (some p) l) (received (length cs) h)))
unfolding read_hex
readword_digits [] bs p l w n h a = refl
readword_digits (c ∷ cs) bs p l w n h ((d, e, lt), a) =
    readword_on _ c (cs ++ bs) (with_link (holding (some p) l) h) (char_digit _ c d _ e)
    ∙ readword_digits cs bs p l (shift_in w d) n (received 1 h) a
    ∙ rw (e, read_hex)
