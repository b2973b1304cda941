-- ===== src/Uart/Framing.antt =====
-- The frame that UARTSIM makes of a character in eight bits, with a parity bit and without.
use Prim.Native.Nat.{bit_xor}
use dbgbus.Base.{
  ℕ, zero, suc, ◌+◌, ◌-◌, ◌*◌, ◌/◌, ◌^◌, ◌<◌, ◌≡◌, refl, ap, ◌∙◌, ◌⊎◌, inl, inr, arith, bit_and,
  bit_or, bit_and_low, bit_or_split, bit_or_above, and_digit, u32,
}
use dbgbus.Uart.{Uart, tx_frame, parity, parity_bit}
use dbgbus.Uart.Loopback.{tx_frame-eight}

bit_xor_bit : (a b : ℕ) → a < 2 → b < 2 → bit_xor a b < 2
bit_xor_bit zero zero _ _ = omega arith
bit_xor_bit zero (suc zero) _ _ = omega arith
bit_xor_bit (suc zero) zero _ _ = omega arith
bit_xor_bit (suc zero) (suc zero) _ _ = omega arith
bit_xor_bit zero (suc (suc b)) _ h = absurd (omega arith)
bit_xor_bit (suc zero) (suc (suc b)) _ h = absurd (omega arith)
bit_xor_bit (suc (suc a)) b h _ = absurd (omega arith)

parity_bit_bit : (t : Uart) (frame : ℕ) → t.evenp < 2 → parity_bit t frame < 2
unfolding parity_bit
parity_bit_bit t frame even =
    let odd : parity (bit_and (frame / 2) 0x0ff) < 2 = omega (arith, bit_and_low 1 _) in
    ground (arith, bit_xor_bit (parity (bit_and (frame / 2) 0x0ff)) t.evenp odd even)

-- The start bit, the character, the parity bit or a first one, and ones.
abbrev pub eight_frame : ℕ → ℕ → ℕ
eight_frame x c = ((2 ^ 22 - 1) * 2 + x) * 2 ^ 9 + c * 2

tx_frame-parity :
    (t : Uart) (c : ℕ)
    → t.nbits ≡ 8
    → t.nparity ≡ 1
    → t.evenp < 2
    → c < 2 ^ 8
    → (x : ℕ) × (x < 2) × (tx_frame t c ≡ eight_frame x c)
unfolding tx_frame
tx_frame-parity t c eight one even small =
    let half : c * 2 / 2 ≡ c = omega arith in
    let low : bit_and c 0xff ≡ c = omega (arith, bit_and_low 8 c) in
    let digits : bit_and (c * 2) 0x1fe ≡ c * 2 =
      and_digit (c * 2) 0x1fe ∙ rw (half, low) (omega arith) in
    let frame = ((2 ^ 22 - 1) * 2) * 2 ^ 9 + c * 2 in
    let ones : bit_or ((2 ^ 22 - 1) * 2 ^ 10) (c * 2) ≡ frame =
      omega (arith, bit_or_split 10 (2 ^ 22 - 1) (c * 2) (omega arith)) in
    let x = parity_bit t frame in
    let bit = parity_bit_bit t frame even in
    let word : u32 (x * 2 ^ 9) ≡ x * 2 ^ 9 = omega (arith, bit) in
    let above : bit_or ((2 ^ 22 - 1) * 2) x ≡ (2 ^ 22 - 1) * 2 + x =
      omega (arith, bit_or_split 1 (2 ^ 22 - 1) x bit) in
    let whole : bit_or frame (x * 2 ^ 9) ≡ eight_frame x c =
      bit_or_above 9 ((2 ^ 22 - 1) * 2) (c * 2) x (omega arith)
      ∙ ap (λ (y : ℕ). y * 2 ^ 9 + c * 2) above in
    (x, bit, rw (tx_frame, eight, one, digits, ones, word, whole) refl)

pub tx_frame-eight_frame :
    (t : Uart) (c : ℕ)
    → t.nbits ≡ 8
    → (t.nparity ≡ 0) ⊎ (t.nparity ≡ 1)
    → t.evenp < 2
    → c < 2 ^ 8
    → (x : ℕ) × (x < 2) × (tx_frame t c ≡ eight_frame x c)
tx_frame-eight_frame t c eight (inl plain) even small =
    (1, omega arith, tx_frame-eight t c eight plain small ∙ omega arith)
tx_frame-eight_frame t c eight (inr one) even small = tx_frame-parity t c eight one even small
