-- ===== src/Hexbus/Transfer/Address.antt =====
-- The address words of the protocol: bit 0 says not to increment, and bit 1 is clear.
use dbgbus.Base.{
  ℕ, ◌+◌, ◌-◌, ◌*◌, ◌/◌, ◌%◌, ◌^◌, ◌<◌, ◌≡◌, ap, ◌∙◌, Bool, true, false, arith, bit_and, bit_or,
  if◌then◌else◌, and_digit, bit_and_low, bit_or_split, bit_or-zero,
}
use dbgbus.Hexbus.Link.{Link, set_address}
use dbgbus.Hexbus.Transfer.Position.{position}

-- `a | ((inc) ? 0 : 1)`.
abbrev pub address_word : ℕ → Bool → ℕ
address_word a inc = bit_or a (if inc then 0 else 1)

pub address_word_lem :
    (a : ℕ) (inc : Bool) → a % 4 ≡ 0 → address_word a inc ≡ a + (if inc then 0 else 1)
address_word_lem a true h = bit_or-zero a ∙ omega arith
address_word_lem a false h =
    let e : a ≡ a / 2 * 2 ^ 1 = omega arith in
    omega (arith, ap (λ (x : ℕ). bit_or x 1) e, bit_or_split 1 (a / 2) 1 (omega arith))

-- `word & -4` in 32 bits.
pub word_mask : (w : ℕ) → w < 2 ^ 32 → bit_and w 0xfffffffc ≡ w - w % 4
word_mask w h =
    omega (arith, and_digit w 0xfffffffc, and_digit (w / 2) 0x7ffffffe, bit_and_low 30 (w / 2 / 2))

-- The echo of an address word puts its two parts back into the registers.
pub position-echo :
    (a : ℕ) (inc : Bool) (l : Link)
    → a < 2 ^ 32
    → a % 4 ≡ 0
    → position (set_address (address_word a inc) l)
      ≡ record { lastaddr = a; inc = inc; addr_set = true }
position-echo a true l h m =
    ground
      (arith, address_word_lem a true m, word_mask (a + 0) (omega arith), bit_and_low 1 (a + 0))
position-echo a false l h m =
    ground
      (arith, address_word_lem a false m, word_mask (a + 1) (omega arith), bit_and_low 1 (a + 1))
