-- ===== src/Scope/Trace/Values.antt =====
-- The values that SCOPE writes into a VCD file, read back as the format has them.
use native.Mathlib.Nat.{pow-suc, mod-mod}
use dbgbus.Base.{
  ℕ, zero, suc, ◌+◌, ◌-◌, ◌*◌, ◌/◌, ◌%◌, ◌^◌, ◌≤◌, ◌≡◌, ◌≢◌, refl, ap, ◌∙◌, false, Bool-cases, inl,
  inr, Option, none, some, List, [], ◌∷◌, ◌++◌, ◌==◌, ltb, leb, ◌||◌, if◌then◌else◌, arith, bit_and,
  bit_and_low, mod-pow_suc, All,
}
use dbgbus.Scope.Trace.{bits, write_binary}

-- Binary digits up to a blank, behind those that are read, and the rest.
abbrev pub read_bits : ℕ → List ℕ → Option (ℕ × List ℕ)
read_bits acc [] = none
read_bits acc (c ∷ cs) =
    let more = read_bits (acc * 2 + (c - b'0')) cs in
    if c == b' ' then some (acc, cs) else if c == b'0' || c == b'1' then more else none

-- What stands before the end of the line.
abbrev pub read_line : List ℕ → List ℕ
read_line [] = []
read_line (c ∷ cs) = let more = read_line cs in if c == b'\n' then [] else c ∷ more

abbrev named : Option (ℕ × List ℕ) → Option (ℕ × List ℕ)
named none = none
named (some (v, cs)) = some (v, read_line cs)

-- A line of a VCD file that gives a value: the value and the key.
abbrev pub read_value : List ℕ → Option (ℕ × List ℕ)
read_value [] = none
read_value (c ∷ cs) =
    if c == b'b'
    then named (read_bits 0 cs)
    else if c == b'0' || c == b'1'
    then some (c - b'0', read_line cs)
    else none

low_bit : (x : ℕ) → bit_and x 1 ≡ x % 2
low_bit x = bit_and_low 1 x

read_line-append : (key : List ℕ) → All (λ c. c ≢ b'\n') key → read_line (key ++ b'\n' ∷ []) ≡ key
read_line-append [] a = refl
read_line-append (c ∷ cs) (n, a) = ground (arith, read_line-append cs a)

spread : (a d p r : ℕ) → (a * 2 + d) * p + r ≡ a * (p * 2) + (r + d * p)
spread a d p r = grind arith

read_bits-bits :
    (k acc val : ℕ) (rest : List ℕ)
    → read_bits acc (bits k val ++ b' ' ∷ rest) ≡ some (acc * 2 ^ k + val % 2 ^ k, rest)
unfolding bits
read_bits-bits zero acc val rest = let e : acc * 1 + val % 1 ≡ acc = omega arith in rw e
read_bits-bits (suc k) acc val rest =
    let d = val / 2 ^ k % 2 in
    let digit : (b'0' + d) - b'0' ≡ d = omega arith in
    let value : (acc * 2 + d) * 2 ^ k + val % 2 ^ k ≡ acc * 2 ^ suc k + val % 2 ^ suc k =
      rw (mod-pow_suc val k, pow-suc 2 k) (spread acc d (2 ^ k) (val % 2 ^ k)) in
    rw (low_bit (val / 2 ^ k))
      (ground (arith, digit, value, read_bits-bits k (acc * 2 + (b'0' + d - b'0')) val rest))

-- The low bits of what write_binary_trace masks.
masked_low :
    (nbits val : ℕ)
    → nbits ≤ 32
    → (if ltb nbits 32 then bit_and val (2 ^ nbits - 1) else val) % 2 ^ nbits ≡ val % 2 ^ nbits
masked_low nbits val p = elim (Bool-cases (ltb nbits 32)) [
  | inl e ↦ rw (e, bit_and_low nbits val) (mod-mod val (2 ^ nbits))
  | inr e ↦ rw e
]

-- A value of one bit.
one_bit :
    (val : ℕ) (key : List ℕ)
    → All (λ c. c ≢ b'\n') key
    → read_value ((b'0' + bit_and val 1) ∷ (key ++ b'\n' ∷ [])) ≡ some (val % 2, key)
one_bit val key a =
    let digit : (b'0' + val % 2) - b'0' ≡ val % 2 = omega arith in
    rw (low_bit val) (ground (arith, digit, read_line-append key a))

-- A value of several.
several_bits :
    (nbits val : ℕ) (key : List ℕ)
    → All (λ c. c ≢ b'\n') key
    → read_value (b'b' ∷ (bits nbits val ++ b' ' ∷ (key ++ b'\n' ∷ [])))
      ≡ some (val % 2 ^ nbits, key)
several_bits nbits val key a =
    ap named (read_bits-bits nbits 0 val (key ++ b'\n' ∷ []))
    ∙ (let e : 0 * 2 ^ nbits + val % 2 ^ nbits ≡ val % 2 ^ nbits = omega arith in
        rw (e, read_line-append key a))

-- The line that SCOPE::write_binary_trace prints gives the low bits of the value, and its key.
pub write_binary-value :
    (nbits val : ℕ) (key : List ℕ)
    → 1 ≤ nbits
    → nbits ≤ 32
    → All (λ c. c ≢ b'\n') key
    → read_value (write_binary nbits val key) ≡ some (val % 2 ^ nbits, key)
unfolding write_binary
write_binary-value nbits val key p q a = elim (Bool-cases (leb nbits 1)) [
  | inl e ↦ let one : nbits ≡ 1 = ground arith in rw one (one_bit val key a)
  | inr e ↦ rw e (
      several_bits nbits (if ltb nbits 32 then bit_and val (2 ^ nbits - 1) else val) key a
      ∙ ap (λ v. some (v, key)) (masked_low nbits val q))
]

-- The line of a value of several bits, with any text behind the blank.
pub write_binary-line :
    (nbits val : ℕ) (str : List ℕ)
    → 2 ≤ nbits
    → nbits ≤ 32
    → read_value (write_binary nbits val str)
      ≡ some (val % 2 ^ nbits, read_line (str ++ b'\n' ∷ []))
unfolding write_binary
write_binary-line nbits val str p q =
    let several : leb nbits 1 ≡ false = ground arith in
    let v = if ltb nbits 32 then bit_and val (2 ^ nbits - 1) else val in
    let line = read_line (str ++ b'\n' ∷ []) in
    let sum : 0 * 2 ^ nbits + v % 2 ^ nbits ≡ val % 2 ^ nbits =
      omega (arith, masked_low nbits val q) in
    rw several
      (ap named (read_bits-bits nbits 0 v (str ++ b'\n' ∷ [])) ∙ ap (λ u. some (u, line)) sum)
