-- ===== src/Uart/Frame.antt =====
-- A frame on the line of UARTSIM: where a receiver is in it, and the arithmetic of its bits.
use native.Mathlib.Nat.{pow-suc, one-le-pow, pow-le-pow_right, mul-lt-mul_of_pos_right, mod-lt}
use dbgbus.Base.{
  ℕ, suc, ◌+◌, ◌-◌, ◌*◌, ◌/◌, ◌%◌, ◌^◌, ◌≤◌, ◌<◌, ◌≡◌, refl, ap, ◌∙◌, true, false, List, [], ◌∷◌,
  ◌++◌, arith, bit_and, bit_or, bit_and_low, bit_or_split, mod-pow_suc, pow-complement, leb, Option,
}
use dbgbus.Uart.{Uart}

-- The members of UARTSIM that a frame does not change.
pub record Settings : Type 0 where
  pub nbits : ℕ
  pub nparity : ℕ
  pub nstop : ℕ
  pub baud_counts : ℕ
  pub conwr : Option ℕ
  pub taken : List ℕ

abbrev pub settings : Uart → Settings
settings u = record {
  nbits = u.nbits;
  nparity = u.nparity;
  nstop = u.nstop;
  baud_counts = u.baud_counts;
  conwr = u.conwr;
  taken = u.taken;
}

-- How many bits follow the start bit.
abbrev pub frame_bits : Settings → ℕ
frame_bits c = c.nbits + c.nparity + c.nstop

-- The settings when the character of the frame is sent.
abbrev pub with_char : Settings → ℕ → Settings
with_char c v = record c { taken = c.taken ++ v % 2 ^ frame_bits c % 2 ^ 8 ∷ [] }

-- In a frame, `k` clocks before the next sample, with `m` bits taken, the last ones of `v`.
pub record Receiving (c : Settings) (k m v : ℕ) (u : Uart) : Type 0 where
  pub busy_receiving : u.rx_idle ≡ false
  pub clocks : u.rx_baudcounter ≡ k
  pub count : u.rx_busy ≡ 2 ^ m - 1
  pub bits : u.rx_data ≡ v % 2 ^ m * 2 ^ (32 - m)
  pub same : settings u ≡ c

pub positive : (m : ℕ) → 0 < 2 ^ m
positive m = omega (arith, one-le-pow m 2)

pub one_more : (m : ℕ) → m < 32 → 32 - m ≡ suc (31 - m)
one_more m lt = omega arith

pub halved : (r q : ℕ) → r * (q * 2) / 2 ≡ r * q
halved r q = omega arith

le→leb : (a b : ℕ) → a ≤ b → leb a b ≡ true
le→leb a b h = ground arith

lt→leb : (a b : ℕ) → b < a → leb a b ≡ false
lt→leb a b h = ground arith

pub spread : (r i p q : ℕ) → (r + i * p) * q ≡ i * (p * q) + r * q
spread r i p q = omega arith

pub sample_over :
    (c : Settings) → 0 < frame_bits c → leb (2 ^ (frame_bits c - 1)) (2 ^ frame_bits c - 1) ≡ true
sample_over c pos =
    let up : frame_bits c ≡ suc (frame_bits c - 1) = omega arith in
    let double = ap (λ (n : ℕ). 2 ^ n) up ∙ pow-suc 2 (frame_bits c - 1) in
    let less : 2 ^ (frame_bits c - 1) ≤ 2 ^ frame_bits c - 1 =
      omega (arith, double, positive (frame_bits c - 1)) in
    le→leb _ _ less

pub sample_left :
    (c : Settings) (m : ℕ) → m < frame_bits c → leb (2 ^ (frame_bits c - 1)) (2 ^ m - 1) ≡ false
sample_left c m lt =
    let up : 2 ^ m ≤ 2 ^ (frame_bits c - 1) = pow-le-pow_right (omega arith) (omega arith) in
    let one : 0 < 2 ^ m = omega (arith, one-le-pow m 2) in
    let less : 2 ^ m - 1 < 2 ^ (frame_bits c - 1) = omega (arith, up, one) in lt→leb _ _ less

pub count_suc : (m : ℕ) → bit_or ((2 ^ m - 1) * 2) 1 ≡ 2 ^ suc m - 1
count_suc m = omega (arith, bit_or_split 1 (2 ^ m - 1) 1 (omega arith), pow-suc 2 m, one-le-pow m 2)

pub bits_suc :
    (i_tx m v : ℕ)
    → i_tx < 2
    → m < 32
    → v / 2 ^ m % 2 ≡ i_tx
    → bit_or (bit_and i_tx 1 * 2 ^ 31) (v % 2 ^ m * 2 ^ (32 - m) / 2)
      ≡ v % 2 ^ suc m * 2 ^ (32 - suc m)
bits_suc i_tx m v b lt e =
    let p = 2 ^ m in
    let q = 2 ^ (31 - m) in
    let r = v % p in
    let pos : 0 < p = omega (arith, one-le-pow m 2) in
    let next : 2 ^ (32 - m) ≡ q * 2 = ap (λ (n : ℕ). 2 ^ n) (one_more m lt) ∙ pow-suc 2 (31 - m) in
    let whole = pow-complement m lt in
    let fits : r * q < 2 ^ 31 =
      omega (arith, whole, mul-lt-mul_of_pos_right (mod-lt v pos) (positive (31 - m))) in
    let half : r * (q * 2) / 2 ≡ r * q = halved r q in
    let low : bit_and i_tx 1 ≡ i_tx = omega (arith, bit_and_low 1 i_tx) in
    let rest : 32 - suc m ≡ 31 - m = omega arith in
    let sum : (r + i_tx * p) * q ≡ i_tx * 2 ^ 31 + r * q =
      spread r i_tx p q ∙ ap (λ (t : ℕ). i_tx * t + r * q) whole in
    let digit : v % 2 ^ suc m ≡ r + i_tx * p = mod-pow_suc v m ∙ ap (λ (t : ℕ). r + t * p) e in
    rw (next, half, low, rest, digit, sum, bit_or_split 31 i_tx (r * q) fits) refl

-- The state when the frame is over.
pub record Received (c : Settings) (v : ℕ) (u : Uart) : Type 0 where
  pub idle_again : u.rx_idle ≡ true
  pub sent : u.taken ≡ c.taken ++ v % 2 ^ frame_bits c % 2 ^ 8 ∷ []
  pub kept : settings u ≡ with_char c v
