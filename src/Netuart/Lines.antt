-- ===== src/Netuart/Lines.antt =====
-- The line buffers of netuart.
use dbgbus.Base.{
  ℕ, zero, suc, ◌+◌, ◌-◌, ◌≤◌, ◌<◌, ◌≡◌, refl, ap, ◌∙◌, Bool, true, false, Option, none, some, List,
  [], ◌∷◌, ◌++◌, arith, length, length-set, take, ltb, leb, ◌||◌, Bool-cases, inl, inr, ◌==◌, set,
}
use mathlib.Core.List.{append_assoc, append-nil}
use dbgbus.Outcome.{ok}
use dbgbus.Outcome.Keeps.{bound-keeps}
use dbgbus.Netuart.{
  Line, put_char, put_chars, Bridge, Ready, got, silent, ended, broken, strange, Written, wrote,
  busy, failed, to_tty_loop, drop, from_tty, from_net, end_line, log_bytes, no_nul, check_incoming,
}

-- The buffer has its 512 bytes, and there is room for a byte and the NUL behind it.
pub record IsValid (l : Line) : Type 0 where
  pub size : length l.buf ≡ 512
  pub room : l.len < 511

sized_twice : (c : ℕ) (l : Line) (i : ℕ) → length (set (set l.buf l.len c) i 0) ≡ length l.buf
sized_twice c l i = length-set (set l.buf l.len c) i 0 ∙ length-set l.buf l.len c

abbrev ends : ℕ → Line → Bool
ends c l = c == b'\n' || (c == b'\r' || leb 511 (l.len + 1))

length-put_char : (c : ℕ) (l : Line) → length (put_char c l).buf ≡ length l.buf
unfolding put_char
length-put_char c l = elim (Bool-cases (ends c l)) [
  | inl e ↦ rw (put_char, e) (sized_twice c l _)
  | inr e ↦ rw (put_char, e) (length-set l.buf l.len c)
]

put_char-IsValid : (c : ℕ) (l : Line) → IsValid l → IsValid (put_char c l)
unfolding put_char
put_char-IsValid c l v = record {
  size = length-put_char c l ∙ v.size;
  room = let r = v.room in ground arith;
}

-- Whatever the bytes are, and however many: the line buffer is never left without room for one
-- more byte and the NUL, so that no write is outside of it.
pub put_chars-IsValid : (cs : List ℕ) (l : Line) → IsValid l → IsValid (put_chars cs l)
unfolding put_chars
put_chars-IsValid [] l v = v
put_chars-IsValid (c ∷ cs) l v = put_chars-IsValid cs (put_char c l) (put_char-IsValid c l v)

take-drop : (n : ℕ) (xs : List ℕ) → take n xs ++ drop n xs ≡ xs
take-drop zero [] = refl
take-drop (suc n) [] = refl
take-drop zero (x ∷ xs) = refl
take-drop (suc n) (x ∷ xs) = ap (◌∷◌ x) (take-drop n xs)

length-drop : (n : ℕ) (xs : List ℕ) → length (drop n xs) ≡ length xs - n
length-drop n [] = omega arith
length-drop zero (x ∷ xs) = omega arith
length-drop (suc n) (x ∷ xs) = omega (arith, length-drop n xs)

-- No write gives 0, which the program takes for a closed port, or fails but for EAGAIN.
abbrev pub IsOpen : List Written → Type 0
IsOpen [] = Unit {0}
IsOpen (busy ∷ ws) = IsOpen ws
IsOpen (failed ∷ ws) = ⊥
IsOpen (wrote n ∷ ws) = (0 < n) × IsOpen ws

-- How many bytes the port takes.
abbrev pub capacity : List Written → ℕ
capacity [] = 0
capacity (busy ∷ ws) = capacity ws
capacity (failed ∷ ws) = capacity ws
capacity (wrote n ∷ ws) = n + capacity ws

-- However the port splits the bytes over the writes, and however often it is busy: if it takes enough,
-- and no write gives 0 or fails but for EAGAIN, the loop returns and has written all of the bytes, in
-- order and once each.
pub to_tty_loop-all :
    (writes : List Written) (bs : List ℕ) (b : Bridge)
    → IsOpen writes
    → length bs ≤ capacity writes
    → to_tty_loop writes bs b ≡ (ok tt, record b { to_tty = b.to_tty ++ bs })
unfolding to_tty_loop
to_tty_loop-all writes [] b o le = rw (append-nil b.to_tty) refl
to_tty_loop-all [] (c ∷ cs) b o le = absurd (omega arith)
to_tty_loop-all (busy ∷ ws) (c ∷ cs) b o le = to_tty_loop-all ws (c ∷ cs) b o le
to_tty_loop-all (failed ∷ ws) (c ∷ cs) b o le = absurd o
to_tty_loop-all (wrote n ∷ ws) (c ∷ cs) b (pos, o) le =
    let bs = c ∷ cs in
    let b' : Bridge = record b { to_tty = b.to_tty ++ take n bs } in
    let rest = to_tty_loop-all ws (drop n bs) b' o (omega (arith, length-drop n bs)) in
    let some_bytes : (n == 0) ≡ false = ground arith in
    rw (some_bytes, rest, append_assoc b.to_tty (take n bs) (drop n bs), take-drop n bs) refl

pub record AreValid (b : Bridge) : Type 0 where
  pub tty : IsValid b.iline
  pub net : IsValid b.oline

from_tty-AreValid :
    (r : Ready) (confd : Option ℕ) (sends : Bool) (b : Bridge)
    → AreValid b
    → AreValid (from_tty r confd sends b).1
unfolding from_tty
from_tty-AreValid silent confd sends b v = v
from_tty-AreValid (got bs) none sends b v = record {
  tty = put_chars-IsValid bs b.iline v.tty;
  net = v.net;
}
from_tty-AreValid (got bs) (some fd) true b v = record {
  tty = put_chars-IsValid bs b.iline v.tty;
  net = v.net;
}
from_tty-AreValid (got bs) (some fd) false b v = record {
  tty = put_chars-IsValid bs b.iline v.tty;
  net = v.net;
}
from_tty-AreValid ended confd sends b v = v
from_tty-AreValid broken confd sends b v = v
from_tty-AreValid strange confd sends b v = v

to_tty_loop-AreValid :
    (ws : List Written) (bs : List ℕ) (b : Bridge) → AreValid b → AreValid (to_tty_loop ws bs b).1
unfolding to_tty_loop
to_tty_loop-AreValid ws [] b v = v
to_tty_loop-AreValid [] (c ∷ cs) b v = v
to_tty_loop-AreValid (busy ∷ ws) (c ∷ cs) b v = to_tty_loop-AreValid ws (c ∷ cs) b v
to_tty_loop-AreValid (failed ∷ ws) (c ∷ cs) b v = v
to_tty_loop-AreValid (wrote n ∷ ws) (c ∷ cs) b v =
    let b' : Bridge = record b { to_tty = b.to_tty ++ take n (c ∷ cs) } in
    let rest = to_tty_loop-AreValid ws (drop n (c ∷ cs)) b' (record { tty = v.tty; net = v.net }) in
    elim (Bool-cases (n == 0)) [ inl e ↦ rw (to_tty_loop, e) v | inr e ↦ rw (to_tty_loop, e) rest ]

end_line-IsValid : (l : Line) → IsValid l → IsValid (end_line l)
end_line-IsValid l v = record {
  size = elim (Bool-cases (ltb 0 l.len)) [
    | inl e ↦ rw e (length-set l.buf l.len 0 ∙ v.size)
    | inr e ↦ rw e v.size
  ];
  room = omega arith;
}

log_bytes-AreValid : (bs : List ℕ) (b : Bridge) → AreValid b → AreValid (log_bytes bs b).1
log_bytes-AreValid bs b v = elim (Bool-cases (no_nul bs)) [
  | inl e ↦ rw e record { tty = v.tty; net = put_chars-IsValid bs b.oline v.net }
  | inr e ↦ rw e v
]

from_net-AreValid :
    (r : Ready) (ws : List Written) (confd : Option ℕ) (b : Bridge)
    → AreValid b
    → AreValid (from_net r ws confd b).1
unfolding from_net
from_net-AreValid r ws none b v = v
from_net-AreValid silent ws (some fd) b v = v
from_net-AreValid (got bs) ws (some fd) b v =
    bound-keeps AreValid (to_tty_loop ws bs b) (λ _. log_bytes bs) (to_tty_loop-AreValid ws bs b v)
      (λ _ c w. log_bytes-AreValid bs c w)
from_net-AreValid ended ws (some fd) b v = record {
  tty = v.tty;
  net = end_line-IsValid b.oline v.net;
}
from_net-AreValid broken ws (some fd) b v = v
from_net-AreValid strange ws (some fd) b v = v

-- However a call of check_incoming ends, and whatever came from the two sides, both line buffers
-- are left with their 512 bytes and with room for one more byte and the NUL behind it.
pub check_incoming-AreValid :
    (tty net : Ready) (sends : Bool) (ws : List Written) (confd : Option ℕ) (b : Bridge)
    → AreValid b
    → AreValid (check_incoming tty net sends ws confd b).1
unfolding check_incoming
check_incoming-AreValid tty net sends ws confd b v =
    bound-keeps AreValid (from_tty tty confd sends b) (λ fd. from_net net ws fd)
      (from_tty-AreValid tty confd sends b v) (λ fd c w. from_net-AreValid net ws fd c w)
