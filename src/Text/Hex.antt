-- ===== src/Text/Hex.antt =====
-- The hexadecimal conversions of sprintf, and reading their digits back into a 32-bit register.
use dbgbus.Base.{
  ℕ, zero, suc, ◌+◌, ◌-◌, ◌*◌, ◌/◌, ◌%◌, ◌^◌, ◌≤◌, ◌<◌, ◌≡◌, refl, sym, ◌∙◌, ap, inl, inr,
  Bool-cases, Bool, true, false, ◌&&◌, Option, none, some, List, [], ◌∷◌, arith, ltb, leb, ◌==◌,
  if◌then◌else◌, u32, bit_and, bit_or, length, All, every, every_sound, bit_or_split, ==_iff,
}
use native.Mathlib.Nat.{div-le_self, div-div-eq-div-mul, pow-suc}
use dbgbus.Text.Ctype.{isdigit}

-- A digit of `%x`.
abbrev pub hex_digit : ℕ → ℕ
hex_digit d = if ltb d 10 then d + b'0' else d - 10 + b'a'

-- The `k` lowest hexadecimal digits, highest first.
unfoldable pub hex_pad : ℕ → ℕ → List ℕ
hex_pad zero v = []
hex_pad (suc k) v = hex_digit (v / 16 ^ k % 16) ∷ hex_pad k v

-- Leading zeros are dropped, but not the last digit.
unfoldable pub strip_zeros : List ℕ → List ℕ
strip_zeros [] = []
strip_zeros (c ∷ []) = c ∷ []
strip_zeros (c ∷ d ∷ r) = let rest = strip_zeros (d ∷ r) in if c == b'0' then rest else c ∷ d ∷ r

-- `%08x` of an unsigned.
unfoldable pub hex_08 : ℕ → List ℕ
unfolding hex_pad
hex_08 v = hex_pad 8 v

-- `%x` of an unsigned.
unfoldable pub hex : ℕ → List ℕ
unfolding hex_08 strip_zeros
hex v = strip_zeros (hex_08 v)

-- The value of a character that HEXBUS takes for a digit: `c & 0x0f`, or `(c - 'a' + 10) & 0x0f`.
unfoldable pub hex_value : ℕ → Option ℕ
hex_value c =
    if isdigit c
    then some (bit_and c 0x0f)
    else if leb b'a' c && leb c b'f'
    then some (bit_and (c - b'a' + 10) 0x0f)
    else none

-- `(word << 4) | n` in a 32-bit register.
unfoldable pub shift_in : ℕ → ℕ → ℕ
shift_in word n = bit_or (u32 (word * 2 ^ 4)) n

pub shift_in_lem : (word n : ℕ) → n < 16 → shift_in word n ≡ u32 (word * 16 + n)
unfolding shift_in
shift_in_lem word n h =
    let e : u32 (word * 2 ^ 4) ≡ (word % 2 ^ 28) * 2 ^ 4 = omega arith in
    rw e (omega (arith, bit_or_split 4 (word % 2 ^ 28) n (omega arith)))

-- Characters that are digits, with their values read into a register.
unfoldable pub read_hex : ℕ → List ℕ → ℕ
read_hex word [] = word
read_hex word (c ∷ cs) = read_hex (elim (hex_value c) [ none ↦ word | some n ↦ shift_in word n ]) cs

abbrev is_value : Option ℕ → ℕ → Bool
is_value none n = false
is_value (some m) n = m == n

is_value_lem : (o : Option ℕ) (n : ℕ) → is_value o n ≡ true → o ≡ some n
is_value_lem none n h = cc
is_value_lem (some m) n h = ap some ((==_iff m n).0 h)

digit_table : every (λ d. is_value (hex_value (hex_digit d)) d) 16 ≡ true
unfolding every hex_value
digit_table = refl

pub hex_value-hex_digit : (d : ℕ) → d < 16 → hex_value (hex_digit d) ≡ some d
hex_value-hex_digit d h =
    is_value_lem _ d (every_sound (λ d. is_value (hex_value (hex_digit d)) d) 16 d h digit_table)

-- A character that the register takes.
abbrev pub IsHex : ℕ → Type 0
IsHex c = (n : ℕ) × (hex_value c ≡ some n) × (n < 16)

-- A step of the reading: the next digit of `v` joins those above it.
shift_in_digit : (k v : ℕ) → v < 2 ^ 32 → shift_in (v / 16 ^ suc k) (v / 16 ^ k % 16) ≡ v / 16 ^ k
shift_in_digit k v h =
    let q : ℕ = v / 16 ^ k in
    let small : q ≤ v = div-le_self v (16 ^ k) in
    let above : v / 16 ^ suc k ≡ q / 16 =
      rw (pow-suc 16 k) (sym (div-div-eq-div-mul v (16 ^ k) 16)) in
    rw (above, shift_in_lem (q / 16) (q % 16) (omega arith)) (omega arith)

read_hex-cons :
    (word c n : ℕ) (cs : List ℕ)
    → hex_value c ≡ some n
    → read_hex word (c ∷ cs) ≡ read_hex (shift_in word n) cs
unfolding read_hex
read_hex-cons word c n cs e = rw (e, read_hex)

read_hex-hex_pad : (k v : ℕ) → v < 2 ^ 32 → read_hex (v / 16 ^ k) (hex_pad k v) ≡ v
unfolding read_hex hex_pad
read_hex-hex_pad zero v h = omega arith
read_hex-hex_pad (suc k) v h =
    read_hex-cons (v / 16 ^ suc k) (hex_digit (v / 16 ^ k % 16)) (v / 16 ^ k % 16) (hex_pad k v)
      (hex_value-hex_digit (v / 16 ^ k % 16) (omega arith))
    ∙ rw (shift_in_digit k v h) (read_hex-hex_pad k v h)

hex_pad-IsHex : (k v : ℕ) → All IsHex (hex_pad k v)
unfolding hex_pad
hex_pad-IsHex zero v = tt
hex_pad-IsHex (suc k) v = (
  (v / 16 ^ k % 16, hex_value-hex_digit (v / 16 ^ k % 16) (omega arith), omega arith),
  hex_pad-IsHex k v,
)

length-hex_pad : (k v : ℕ) → length (hex_pad k v) ≡ k
unfolding hex_pad
length-hex_pad zero v = refl
length-hex_pad (suc k) v = ap suc (length-hex_pad k v)

-- What `%08x` prints reads back as the number.
pub read_hex-hex_08 : (v : ℕ) → v < 2 ^ 32 → read_hex 0 (hex_08 v) ≡ v
unfolding hex_08
read_hex-hex_08 v h =
    let e : v / 16 ^ 8 ≡ 0 = omega arith in
    ap (λ w. read_hex w (hex_pad 8 v)) (sym e) ∙ read_hex-hex_pad 8 v h

pub hex_08-IsHex : (v : ℕ) → All IsHex (hex_08 v)
unfolding hex_08
hex_08-IsHex = hex_pad-IsHex 8

pub length-hex_08 : (v : ℕ) → length (hex_08 v) ≡ 8
unfolding hex_08
length-hex_08 = length-hex_pad 8

-- A leading zero leaves the empty register as it is.
read_hex_zero : (r : List ℕ) → read_hex 0 (b'0' ∷ r) ≡ read_hex 0 r
unfolding read_hex hex_value shift_in
read_hex_zero r = refl

read_hex-strip_zeros : (cs : List ℕ) → read_hex 0 (strip_zeros cs) ≡ read_hex 0 cs
unfolding strip_zeros
read_hex-strip_zeros [] = refl
read_hex-strip_zeros (c ∷ []) = refl
read_hex-strip_zeros (c ∷ d ∷ r) = elim (Bool-cases (c == b'0')) [
  | inl z ↦ rw z (
      read_hex-strip_zeros (d ∷ r)
      ∙ sym (read_hex_zero (d ∷ r))
      ∙ ap (λ x. read_hex 0 (x ∷ d ∷ r)) (sym ((==_iff c b'0').0 z)))
  | inr nz ↦ rw nz
]

strip_zeros-IsHex : (cs : List ℕ) → All IsHex cs → All IsHex (strip_zeros cs)
unfolding strip_zeros
strip_zeros-IsHex [] h = tt
strip_zeros-IsHex (c ∷ []) h = h
strip_zeros-IsHex (c ∷ d ∷ r) h = elim (Bool-cases (c == b'0')) [
  | inl z ↦ rw z (strip_zeros-IsHex (d ∷ r) h.1)
  | inr nz ↦ rw nz h
]

length-strip_zeros-le : (cs : List ℕ) → length (strip_zeros cs) ≤ length cs
unfolding strip_zeros
length-strip_zeros-le [] = omega arith
length-strip_zeros-le (c ∷ []) = omega arith
length-strip_zeros-le (c ∷ d ∷ r) = ground (arith, length-strip_zeros-le (d ∷ r))

-- What `%x` prints reads back as the number.
read_hex-hex : (v : ℕ) → v < 2 ^ 32 → read_hex 0 (hex v) ≡ v
unfolding hex
read_hex-hex v h = read_hex-strip_zeros (hex_08 v) ∙ read_hex-hex_08 v h

pub hex-IsHex : (v : ℕ) → All IsHex (hex v)
unfolding hex
hex-IsHex v = strip_zeros-IsHex (hex_08 v) (hex_08-IsHex v)

pub length-hex-le : (v : ℕ) → length (hex v) ≤ 8
unfolding hex
length-hex-le v = omega (arith, length-strip_zeros-le (hex_08 v), length-hex_08 v)
