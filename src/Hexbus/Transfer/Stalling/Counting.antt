-- ===== src/Hexbus/Transfer/Stalling/Counting.antt =====
-- Which acknowledgements HEXBUS::readidle counts.
use dbgbus.Base.{
  ℕ, zero, suc, ◌+◌, ◌-◌, ◌^◌, ◌≤◌, ◌<◌, ◌≡◌, Bool, true, ◌&&◌, not, inl, inr, Bool-cases,
  Option-cases, some, List, [], ◌∷◌, ◌==◌, arith, length, if◌then◌else◌,
}
use dbgbus.Text.Ctype.{isspace}
use dbgbus.Text.Hex.{hex_value}
use dbgbus.Comms
use dbgbus.Comms.{Event, byte, quiet, closed, gone}
use dbgbus.Outcome.{Outcome, ok, bus_error, thrown, aborted, waiting, Run, bound}
use dbgbus.Hexbus.Link.{Link, readidle_char, readidle_command, start_command, hexb_ack}
use dbgbus.Hexbus.State.{Hexbus, lclreadcode}
use dbgbus.Hexbus.Receive.{enough, readidle, readidle_loop}
use dbgbus.Hexbus.Receive.Replies.{received, with_link}
use dbgbus.Hexbus.Receive.Round.{lclreadcode_one}
use dbgbus.Hexbus.Receive.Idle.{on_input}

-- 1 for the letter of an acknowledgement.
abbrev pub one_ack : ℕ → ℕ
one_ack c = if c == hexb_ack then 1 else 0

-- The acknowledgements that are to come, up to the end.
abbrev pub acks : List Event → ℕ
acks [] = 0
acks (byte c ∷ es) = one_ack c + acks es
acks (quiet ∷ es) = acks es
acks (closed ∷ es) = 0
acks (gone ∷ es) = 0

-- The one whose letter has come, and which is counted with the next character.
abbrev pub begun : Link → ℕ
begun l = if not l.isspace_seen && l.cmd == hexb_ack then 1 else 0

-- Those that are counted, begun and to come.
abbrev pub in_all : Hexbus → ℕ
in_all h = h.nacks + begun h.link + acks h.dev.input

-- Nothing more is to come.
abbrev pub IsOver : List Event → Type 0
IsOver [] = Unit {0}
IsOver (gone ∷ es) = Unit {0}
IsOver (_ ∷ es) = ⊥

-- How many events can be taken.
abbrev pub left : List Event → ℕ
left [] = 0
left (gone ∷ es) = 0
left (byte c ∷ es) = suc (left es)
left (quiet ∷ es) = suc (left es)
left (closed ∷ es) = suc (left es)

pub left-le : (es : List Event) → left es ≤ length es
left-le [] = omega arith
left-le (gone ∷ es) = omega arith
left-le (byte c ∷ es) = omega (arith, left-le es)
left-le (quiet ∷ es) = omega (arith, left-le es)
left-le (closed ∷ es) = omega (arith, left-le es)

-- What has been counted when a round is over.
abbrev Counts {ℓ} : {A : Type ℓ} → ℕ → Outcome A × Link → Type 0
Counts n (ok v, l) = l.nacks + begun l ≡ n
Counts n (_, l) = Unit {0}

-- The command in progress is over.
abbrev Counted : ℕ → Outcome (Unit {0}) × Link → Type 0
Counted n (ok v, l) = l.nacks ≡ n
Counted n (_, l) = Unit {0}

readidle_command-Counted :
    (w : ℕ) (l : Link)
    → l.nacks + begun l < 2 ^ 32
    → Counted (l.nacks + begun l) (readidle_command w l)
unfolding readidle_command
readidle_command-Counted w l fits = ground arith

start_command-Counts :
    (c : ℕ) (l : Link) → Counts {A = ℕ} (l.nacks + one_ack c) (ok 0, start_command c l)
start_command-Counts c l = ground arith

bound-Counts :
    (c n : ℕ) (x : Outcome (Unit {0}) × Link)
    → Counted n x
    → Counts {A = ℕ} (n + one_ack c) (bound x (λ _ m. (ok 0, start_command c m)))
bound-Counts c n (ok v, m) e = omega (arith, start_command-Counts c m)
bound-Counts c n (bus_error b, m) e = tt
bound-Counts c n (thrown, m) e = tt
bound-Counts c n (aborted, m) e = tt
bound-Counts c n (waiting, m) e = tt

-- Neither a digit nor a space is the letter of an acknowledgement.
one_ack-digit : (c n : ℕ) → hex_value c ≡ some n → one_ack c ≡ 0
unfolding hex_value
one_ack-digit c n e = ground arith

one_ack-space : (c : ℕ) (b : Bool) → (isspace c && b) ≡ true → one_ack c ≡ 0
one_ack-space c b e = ground arith

readidle_char-Counts :
    (c w : ℕ) (l : Link)
    → l.nacks + begun l < 2 ^ 32
    → Counts (l.nacks + begun l + one_ack c) (readidle_char c w l)
unfolding readidle_char
readidle_char-Counts c w l fits = elim (Option-cases (hex_value c)) [
  | inl e ↦
      rw (e, readidle_char)
        (elim (Bool-cases (isspace c && l.isspace_seen)) [
          | inl b ↦ rw b (omega (arith, one_ack-space c l.isspace_seen b))
          | inr b ↦ rw b (
              bound-Counts c (l.nacks + begun l) (readidle_command w l)
                (readidle_command-Counted w l fits))
        ])
  | inr (n, e) ↦ rw (e, readidle_char) (omega (arith, one_ack-digit c n e))
]

-- A call that returns leaves at most `k` events that can be taken, and `t` acknowledgements in all.
abbrev pub Leaves {ℓ} : {A : Type ℓ} → ℕ → ℕ → Outcome A × Hexbus → Type 0
Leaves k t (ok a, g) = (left g.dev.input ≤ k) × (in_all g ≡ t)
Leaves k t (_, g) = Unit {0}

Leaves-mono :
    {A : Type 0} (j k t : ℕ) (x : Outcome A × Hexbus) → j ≤ k → Leaves j t x → Leaves k t x
Leaves-mono j k t (ok a, s) h (l, e) = (omega arith, e)
Leaves-mono j k t (bus_error e, s) h l = tt
Leaves-mono j k t (thrown, s) h l = tt
Leaves-mono j k t (aborted, s) h l = tt
Leaves-mono j k t (waiting, s) h l = tt

round-Leaves :
    (k t n : ℕ) (x : Outcome ℕ × Link) (h : Hexbus) (f : ℕ → Run Hexbus (Unit {0}))
    → Counts n x
    → ((v : ℕ) (l : Link) → l.nacks + begun l ≡ n → Leaves k t (f v (with_link l h)))
    → Leaves k t (bound (x.0, record h { link = x.1 }) f)
round-Leaves k t n (ok v, l) h f e p = p v l e
round-Leaves k t n (bus_error b, l) h f e p = tt
round-Leaves k t n (thrown, l) h f e p = tt
round-Leaves k t n (aborted, l) h f e p = tt
round-Leaves k t n (waiting, l) h f e p = tt

module _ (t : ℕ) (fits : t < 2 ^ 32) where
  -- readidle takes an event where there is one, if it returns.
  readidle_loop-Leaves :
      (es : List Event) (f w : ℕ) (h : Hexbus)
      → in_all (on_input es h) ≡ t
      → Leaves (left es - 1) t (readidle_loop f w (on_input es h))
  unfolding readidle_loop Comms.available
  readidle_loop-Leaves es zero w h e = tt
  readidle_loop-Leaves [] (suc f) w h e = (omega arith, e)
  readidle_loop-Leaves (gone ∷ es) (suc f) w h e = (omega arith, e)
  readidle_loop-Leaves (quiet ∷ es) (suc f) w h e = (omega arith, e)
  readidle_loop-Leaves (closed ∷ es) (suc f) w h e = unfold lclreadcode Comms.read in tt
  readidle_loop-Leaves (byte c ∷ es) (suc f) w h e = rw (lclreadcode_one c [] (on_input es h)) (
      round-Leaves (suc (left es) - 1) t (h.nacks + begun h.link + one_ack c)
        (readidle_char c w h.link) (on_input es (received 1 h)) (readidle_loop f)
        (readidle_char-Counts c w h.link (omega arith))
        λ v l p.
          Leaves-mono (left es - 1) (suc (left es) - 1) t
            (readidle_loop f v (on_input es (with_link l (received 1 h)))) (omega arith)
            (readidle_loop-Leaves es f v (with_link l (received 1 h)) (omega arith)))

  pub readidle-Leaves : (h : Hexbus) → in_all h ≡ t → Leaves (left h.dev.input - 1) t (readidle h)
  unfolding readidle
  readidle-Leaves h e =
      readidle_loop-Leaves h.dev.input (enough h) 0 (record h { last_readidle = true }) e
