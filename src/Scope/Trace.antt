-- ===== src/Scope/Trace.antt =====
-- The traces of SCOPE, and how one value is written into a VCD file.
pub mod Values
pub mod Keys
use dbgbus.Base.{
  ℕ, zero, suc, ◌+◌, ◌-◌, ◌/◌, ◌^◌, List, [], ◌∷◌, ◌++◌, ltb, leb, if◌then◌else◌, bit_and, length,
}

pub record TraceInfo : Type 0 where
  pub name : List ℕ
  pub key : List ℕ
  pub nbits : ℕ
  pub nshift : ℕ

-- The character that numbers a trace.
unfoldable pub key_char : ℕ → ℕ
key_char nkey =
    if ltb nkey 26
    then b'a' + nkey
    else if ltb nkey (26 + 26)
    then b'A' + nkey - 26
    else b'0' + nkey - 26 - 26

-- SCOPE::register_trace, on the traces that are registered; the key is a C string.
unfoldable pub register_trace : List ℕ → ℕ → ℕ → List TraceInfo → List TraceInfo
unfolding key_char
register_trace name nbits nshift traces =
    traces
    ++ record {
      name = name;
      nbits = nbits;
      nshift = nshift;
      key = b'v' ∷ key_char (length traces) ∷ [];
    }
      ∷ []

-- `fprintf(fp, "%d", (val>>(nbits-1-i))&1)` for i from 0 to nbits - 1.
unfoldable pub bits : ℕ → ℕ → List ℕ
bits zero val = []
bits (suc k) val = (b'0' + bit_and (val / 2 ^ k) 1) ∷ bits k val

-- SCOPE::write_binary_trace of a value; `~(-1 << nbits)` is a mask of `nbits` ones.
unfoldable pub write_binary : ℕ → ℕ → List ℕ → List ℕ
unfolding bits
write_binary nbits val str =
    if leb nbits 1
    then (b'0' + bit_and val 1) ∷ (str ++ b'\n' ∷ [])
    else (let masked = if ltb nbits 32 then bit_and val (2 ^ nbits - 1) else val in
        b'b' ∷ (bits nbits masked ++ b' ' ∷ (str ++ b'\n' ∷ [])))

-- SCOPE::write_binary_trace of one trace of a data word.
unfoldable pub write_binary_trace : TraceInfo → ℕ → List ℕ
unfolding write_binary
write_binary_trace info value = write_binary info.nbits (value / 2 ^ info.nshift) info.key
