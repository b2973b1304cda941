-- ===== src/Base/Bits.antt =====
-- Bitwise operations on unsigned words, as arithmetic: `|` of disjoint fields, `&` with a mask
-- of low bits. The native operations stand for a recursion on binary digits with fuel.
use Prim.Native.Nat.{
  ℕ, zero, suc, ◌+◌, ◌-◌, ◌*◌, ◌/◌, ◌%◌, ◌^◌, ◌≤◌, ◌<◌, min, max, bit_and, bit_or, digits,
  bit_and-bitwise, bit_or-bitwise,
}
use mathlib.Core.Path.{◌≡◌, refl, sym, ap, ◌∙◌}
use native.Mathlib.Nat.{
  pow-suc, pow-succ', one-le-pow, div-div-eq-div-mul, div-add-mod', mod-eq-sub-div-mul,
  div-mul-le_self, zero-add, suc-add,
}
use native.Mathlib.Omega.{arith}

-- A value stored in an `unsigned`.
abbrev pub u32 : ℕ → ℕ
u32 n = n % 2 ^ 32

-- A value stored in an `unsigned long`.
abbrev pub u64 : ℕ → ℕ
u64 n = n % 2 ^ 64

module _ (z : ℕ → ℕ) (f : ℕ → ℕ → ℕ) where
  no_digits : (j y : ℕ) → digits z f j zero y ≡ z y
  no_digits zero y = refl
  no_digits (suc j) y = refl

  enough_fuel : (x y j k : ℕ) → (x ≤ j) × (x ≤ k) → digits z f j x y ≡ digits z f k x y
  enough_fuel zero y j k h = no_digits j y ∙ sym (no_digits k y)
  enough_fuel (suc x) y zero k (h, _) = absurd (omega arith)
  enough_fuel (suc x) y (suc j) zero (_, h) = absurd (omega arith)
  enough_fuel (suc x) y (suc j) (suc k) (h, i) =
      let rest = enough_fuel (suc x / 2) (y / 2) j k (omega arith, omega arith) in
      omega (arith, rest)

  half_fuel : (x y : ℕ) → digits z f x (suc x / 2) y ≡ digits z f (suc x / 2) (suc x / 2) y
  half_fuel x y = enough_fuel (suc x / 2) y x (suc x / 2) (omega arith, omega arith)

-- The lowest binary digit of `&`, and the rest.
pub and_digit : (a b : ℕ) → bit_and a b ≡ bit_and (a / 2) (b / 2) * 2 + min (a % 2) (b % 2)
and_digit zero b = rw (bit_and-bitwise 0 b, bit_and-bitwise 0 (b / 2)) (omega arith)
and_digit (suc x) b =
    let fuel = half_fuel (λ y. zero) min x (b / 2) in
    let halves = bit_and-bitwise (suc x / 2) (b / 2) in
    omega (arith, fuel, halves, bit_and-bitwise (suc x) b)

-- The lowest binary digit of `|`, and the rest.
pub or_digit : (a b : ℕ) → bit_or a b ≡ bit_or (a / 2) (b / 2) * 2 + max (a % 2) (b % 2)
or_digit zero b = rw (bit_or-bitwise 0 b, bit_or-bitwise 0 (b / 2)) (omega arith)
or_digit (suc x) b =
    let fuel = half_fuel (λ y. y) max x (b / 2) in
    let halves = bit_or-bitwise (suc x / 2) (b / 2) in
    omega (arith, fuel, halves, bit_or-bitwise (suc x) b)

-- Below any bound, `& 0` and `| 0` are as expected.
zero_below : (k x : ℕ) → x < suc k → (bit_and x 0 ≡ 0) × (bit_or x 0 ≡ x)
zero_below k zero h = (refl, refl)
zero_below zero (suc x) h = absurd (omega arith)
zero_below (suc k) (suc x) h =
    let (both, either) = zero_below k (suc x / 2) (omega arith) in
    (omega (arith, both, and_digit (suc x) 0), omega (arith, either, or_digit (suc x) 0))

pub bit_and-zero : (a : ℕ) → bit_and a 0 ≡ 0
bit_and-zero a = (zero_below a a (omega arith)).0

pub bit_or-zero : (a : ℕ) → bit_or a 0 ≡ a
bit_or-zero a = (zero_below a a (omega arith)).1

double_pow : (q k : ℕ) → q * 2 ^ suc k ≡ 2 * (q * 2 ^ k)
double_pow q k = omega (arith, ap (λ (t : ℕ). q * t) (pow-suc 2 k))

bit_and_split : (k q r : ℕ) → r < 2 ^ k → bit_and (q * 2 ^ k + r) (2 ^ k - 1) ≡ r
bit_and_split zero q r h = rw bit_and-zero (omega arith)
bit_and_split (suc k) q r h = ground (
  arith,
  and_digit (q * 2 ^ suc k + r) (2 ^ suc k - 1),
  pow-suc 2 k,
  double_pow q k,
  bit_and_split k q (r / 2) (omega arith),
)

-- `&` with a mask of `k` low bits is the remainder by `2 ^ k`.
pub bit_and_low : (k a : ℕ) → bit_and a (2 ^ k - 1) ≡ a % 2 ^ k
bit_and_low k a = ground (arith, one-le-pow k 2, bit_and_split k (a / 2 ^ k) (a % 2 ^ k))

-- `(q << k) | r` is a sum where `r` fits `k` bits.
pub bit_or_split : (k q r : ℕ) → r < 2 ^ k → bit_or (q * 2 ^ k) r ≡ q * 2 ^ k + r
bit_or_split zero q r h = ground (arith, bit_or-zero q)
bit_or_split (suc k) q r h =
    ground
      (arith, or_digit (q * 2 ^ suc k) r, double_pow q k, bit_or_split k q (r / 2) (omega arith))

half_pow : (a k : ℕ) → a / 2 ^ suc k ≡ a / 2 / 2 ^ k
half_pow a k = rw (pow-succ' 2 k, div-div-eq-div-mul a 2 (2 ^ k)) refl

-- The fields above `k` bits are joined on their own.
pub bit_or_above :
    (k q r x : ℕ) → r < 2 ^ k → bit_or (q * 2 ^ k + r) (x * 2 ^ k) ≡ bit_or q x * 2 ^ k + r
bit_or_above zero q r x h =
    let left : q * 2 ^ 0 + r ≡ q = omega arith in
    let right : x * 2 ^ 0 ≡ x = omega arith in rw (left, right) (omega arith)
bit_or_above (suc k) q r x h =
    let half : (q * 2 ^ suc k + r) / 2 ≡ q * 2 ^ k + r / 2 = omega (arith, double_pow q k) in
    let half' : x * 2 ^ suc k / 2 ≡ x * 2 ^ k = omega (arith, double_pow x k) in
    let rest = bit_or_above k q (r / 2) x (omega (arith, pow-suc 2 k)) in
    let low : max ((q * 2 ^ suc k + r) % 2) (x * 2 ^ suc k % 2) ≡ r % 2 =
      ground (arith, double_pow q k, double_pow x k) in
    or_digit (q * 2 ^ suc k + r) (x * 2 ^ suc k)
    ∙ rw (half, half', low, rest) (omega (arith, double_pow (bit_or q x) k))

-- `&` with the power of two that is bit `k`.
pub bit_and_power : (k a : ℕ) → bit_and a (2 ^ k) ≡ a / 2 ^ k % 2 * 2 ^ k
bit_and_power zero a = omega (arith, bit_and_low 1 a)
bit_and_power (suc k) a = ground (
  arith,
  and_digit a (2 ^ suc k),
  pow-suc 2 k,
  half_pow a k,
  bit_and_power k (a / 2),
  double_pow (a / 2 / 2 ^ k % 2) k,
)

mod_digit : (q p : ℕ) → q * p ≡ q / 2 * (p * 2) + q % 2 * p
mod_digit q p = omega (arith, ap (λ (t : ℕ). t * p) (div-add-mod' q 2))

-- The remainder by a power of two, one binary digit at a time.
pub mod-pow_suc : (v m : ℕ) → v % 2 ^ suc m ≡ v % 2 ^ m + v / 2 ^ m % 2 * 2 ^ m
mod-pow_suc v m =
    let p = 2 ^ m in
    let q = v / p in
    let whole : v % (p * 2) ≡ v - q / 2 * (p * 2) =
      mod-eq-sub-div-mul v (p * 2)
      ∙ ap (λ (t : ℕ). v - t * (p * 2)) (sym (div-div-eq-div-mul v p 2)) in
    rw (pow-suc 2 m, whole)
      (omega (arith, mod-eq-sub-div-mul v p, mod_digit q p, div-mul-le_self v p))

pow-add : (m n : ℕ) → 2 ^ m * 2 ^ n ≡ 2 ^ (m + n)
pow-add zero n = rw (zero-add n) (omega arith)
pow-add (suc m) n =
    rw (suc-add m n)
      (omega (arith, ap (λ (t : ℕ). t * 2 ^ n) (pow-suc 2 m), pow-suc 2 (m + n), pow-add m n))

-- `2 ^ m` and the power that is missing up to bit 31.
pub pow-complement : (m : ℕ) → m < 32 → 2 ^ m * 2 ^ (31 - m) ≡ 2 ^ 31
pow-complement m h =
    let e : m + (31 - m) ≡ 31 = omega arith in pow-add m (31 - m) ∙ ap (λ (n : ℕ). 2 ^ n) e
