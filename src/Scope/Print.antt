-- ===== src/Scope/Print.antt =====
-- SCOPE::print: the lines it prints of the buffer.
pub mod Rows
use dbgbus.Base.{
  ℕ, ◌+◌, ◌^◌, Bool, true, false, not, ◌&&◌, Option, none, some, List, [], ◌∷◌, ◌==◌, ltb,
  if◌then◌else◌, u32, u64,
}
use dbgbus.Outcome.{Outcome, ok, aborted, Run, ◌>>=◌, ◌>>◌}
use dbgbus.Devbus.{Devbus}
use dbgbus.Scope.Device.{Scope, Session, rawread, words, getaddresslen}
use dbgbus.Scope.Vcd.{is_jump, jump_length, trigger_offset}

pub data Row : Type 0 where
  -- ` ** (+0x…)`.
  jump : ℕ → Row
  -- The number of a sample, its word, and whether `<--- TRIGGER` follows.
  sample : ℕ → ℕ → Bool → Row
  -- ` **** ****`.
  stars : Row

-- The loop over the words of a compressed scope.
unfoldable pub compressed_rows : ℕ → ℕ → List ℕ → List Row
compressed_rows offset addrv [] = []
compressed_rows offset addrv (w ∷ ws) = elim (is_jump w) [
  | true ↦ jump (jump_length w) ∷ compressed_rows offset (u64 (addrv + jump_length w + 1)) ws
  | false ↦ sample addrv w (u32 (addrv + 1) == offset) ∷ compressed_rows offset (u64 (addrv + 1)) ws
]

-- The loop over the `n` words of a plain scope, from index `i`: `p` is m_data[i-1] and `q` is
-- m_data[i-2], where there are such words.
unfoldable pub plain_rows : ℕ → ℕ → ℕ → ℕ → ℕ → List ℕ → List Row
plain_rows n offset i p q [] = []
plain_rows n offset i p q (w ∷ ws) =
    let rest = plain_rows n offset (i + 1) w p ws in
    if ltb 0 i && (w == p && ltb (i + 1) n)
    then (if ltb 2 i && not (w == q) then stars ∷ rest else rest)
    else sample i w (i == offset) ∷ rest

abbrev pub print_words : Scope → Option (List ℕ) → Outcome (List Row)
print_words s none = aborted
print_words s (some ws) =
    let offset = trigger_offset (getaddresslen s ws) s.holdoff in
    ok (if s.compressed then compressed_rows offset 0 ws else plain_rows s.scoplen offset 0 0 0 ws)

module _ {B : Type 0} (fpga : Devbus B) where
  -- SCOPE::print.
  unfoldable pub print : (ℕ → List ℕ) → Run (Session B) (List Row)
  unfolding rawread words compressed_rows plain_rows trigger_offset getaddresslen
  print memory = do rawread fpga memory; λ t. (print_words t.scope (words t.scope), t)
