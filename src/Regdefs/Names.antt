-- ===== src/Regdefs/Names.antt =====
-- The names and the addresses of the registers.
use mathlib.Core.Option.{some-injective, some-ne-none}
use dbgbus.Base.{
  ℕ, ◌≡◌, refl, sym, ap, ◌∙◌, some, List, [], ◌∷◌, ◌==◌, ==_iff, Bool-cases, inl, inr, All,
}
use dbgbus.Outcome.{Outcome, ok}
use dbgbus.Regdefs.{Regname, bregs, find_name, addrdecode, find_addr, addrname}

-- What is so of every entry is so of the one that the loop of addrname finds.
find_addr_sound :
    (decode : List ℕ → Outcome ℕ) (v : ℕ) (name : List ℕ) (rs : List Regname)
    → All (λ r. decode r.name ≡ ok r.addr) rs
    → find_addr v rs ≡ some name
    → decode name ≡ ok v
unfolding find_addr
find_addr_sound decode v name [] p e = absurd (some-ne-none name (sym e))
find_addr_sound decode v name (r ∷ rs) (f, p) e = elim (Bool-cases (r.addr == v)) [
  | inl here ↦
      let same : r.name ≡ name = some-injective _ _ (rw here at e) in
      ap decode (sym same) ∙ f ∙ ap (λ a. ok a) ((==_iff r.addr v).0 here)
  | inr later ↦ find_addr_sound decode v name rs p (rw later at e)
]

bregs-decoded : (strtoul : List ℕ → ℕ) → All (λ r. addrdecode strtoul r.name ≡ ok r.addr) bregs
unfolding addrdecode find_name
bregs-decoded strtoul = (refl, (refl, (refl, (refl, (refl, (refl, (refl, (refl, (refl, tt)))))))))

-- The name that addrname gives for an address is one that addrdecode takes back to that address.
pub addrdecode-addrname :
    (strtoul : List ℕ → ℕ) (v : ℕ) (name : List ℕ)
    → addrname v ≡ some name
    → addrdecode strtoul name ≡ ok v
unfolding addrname
addrdecode-addrname strtoul v name e =
    find_addr_sound (addrdecode strtoul) v name bregs (bregs-decoded strtoul) e
