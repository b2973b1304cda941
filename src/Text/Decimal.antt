-- ===== src/Text/Decimal.antt =====
-- The decimal conversion of printf, and `%8s`.
use dbgbus.Base.{
  ℕ, zero, suc, ◌+◌, ◌-◌, ◌/◌, ◌%◌, ◌^◌, List, [], ◌∷◌, ◌++◌, ltb, if◌then◌else◌, length, replicate,
}
use dbgbus.Text.Hex.{strip_zeros}

-- The `k` lowest decimal digits, highest first.
unfoldable pub dec_pad : ℕ → ℕ → List ℕ
dec_pad zero v = []
dec_pad (suc k) v = (v / 10 ^ k % 10 + b'0') ∷ dec_pad k v

-- `%d` of an unsigned, which is taken for an int.
unfoldable pub dec : ℕ → List ℕ
unfolding dec_pad strip_zeros
dec v =
    if ltb v (2 ^ 31)
    then strip_zeros (dec_pad 10 v)
    else b'-' ∷ strip_zeros (dec_pad 10 (2 ^ 32 - v))

-- `%8s`.
abbrev pub field_8 : List ℕ → List ℕ
field_8 s = replicate (8 - length s) 32 ++ s
