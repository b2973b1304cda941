-- ===== src/Memscope/Fields.antt =====
-- The fields of MEMSCOPE make up its word, but for one bit.
use dbgbus.Base.{
  ℕ, ◌+◌, ◌*◌, ◌/◌, ◌%◌, ◌^◌, ◌<◌, ◌≡◌, Bool, not, ◌==◌, if◌then◌else◌, arith, bit_and, bit_and_low,
}
use dbgbus.Memscope.{Decoded, decode}

abbrev pub weight : Bool → ℕ → ℕ
weight b k = if b then 2 ^ k else 0

-- A word with the given fields.
abbrev pub encoded : Decoded → ℕ
encoded d =
    weight d.cyc 31
    + weight d.stb 30
    + weight d.we 29
    + weight d.ack 28
    + weight d.stall 27
    + d.addr * 2 ^ 21
    + d.odata * 2 ^ 10
    + d.idata

flag : (x k : ℕ) → weight (not (bit_and x 1 == 0)) k ≡ x % 2 * 2 ^ k
flag x k = rw (bit_and_low 1 x) (ground arith)

-- The fields that decode prints are all of the word but bit 20.
encoded-decode : (val : ℕ) → val < 2 ^ 32 → encoded (decode val) + val / 2 ^ 20 % 2 * 2 ^ 20 ≡ val
unfolding decode
encoded-decode val h = omega (
  arith,
  flag (val / 2 ^ 31) 31,
  flag (val / 2 ^ 30) 30,
  flag (val / 2 ^ 29) 29,
  flag (val / 2 ^ 28) 28,
  flag (val / 2 ^ 27) 27,
  bit_and_low 6 (val / 2 ^ 21),
  bit_and_low 10 (val / 2 ^ 10),
  bit_and_low 10 val,
)
