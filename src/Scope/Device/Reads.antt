-- ===== src/Scope/Device/Reads.antt =====
-- What SCOPE::rawread reads.
use dbgbus.Base.{
  ℕ, ◌+◌, ◌^◌, ◌≤◌, ◌<◌, ◌≡◌, refl, ap, ◌∙◌, true, false, ◌||◌, Option, none, some, List, ◌==◌, leb,
  arith, u32,
}
use native.Mathlib.Nat.{pow-le-pow_right}
use dbgbus.Outcome.{Outcome, ok, bound}
use dbgbus.Devbus.{Devbus}
use dbgbus.Scope.Device.{
  Scope, Session, length_field, holdoff_field, scoplen, learn_length, rawread, rawread_sized, fill,
}

-- The scope when its length and its holdoff are known.
abbrev pub known : ℕ → Scope → Scope
known v s = record s { scoplen = 2 ^ length_field v; holdoff = holdoff_field v }

pub sizes : (k : ℕ) → 3 ≤ k → k ≤ 30 → (8 ≤ 2 ^ k) × (2 ^ k < 2 ^ 31)
sizes k low high =
    let a : 2 ^ 3 ≤ 2 ^ k = pow-le-pow_right (omega arith) low in
    let b : 2 ^ k ≤ 2 ^ 30 = pow-le-pow_right (omega arith) high in
    (omega (arith, a), omega (arith, b))

module _ {B : Type 0} (fpga : Devbus B) where
  learn_length-known :
      (v : ℕ) (s : Scope) → 3 ≤ length_field v → length_field v ≤ 30 → learn_length v s ≡ known v s
  unfolding learn_length
  learn_length-known v s low high =
      let some_length : (length_field v == 0) ≡ false = ground arith in
      let whole : u32 (2 ^ length_field v) ≡ 2 ^ length_field v =
        omega (arith, sizes (length_field v) low high) in
      rw (some_length, whole) refl

  has_length : (n : ℕ) → 8 ≤ n → n < 2 ^ 31 → (leb n 4 || leb (2 ^ 31) n) ≡ false
  has_length n low high = ground arith

  sized :
      (memory : ℕ → List ℕ) (n : ℕ) (s : Session B)
      → (leb n 4 || leb (2 ^ 31) n) ≡ false
      → rawread_sized fpga memory n s ≡ fill fpga memory s
  sized memory n s e = rw (rawread_sized, e) refl

  rawread_new :
      (memory : ℕ → List ℕ) (s : Session B)
      → s.samples ≡ none
      → rawread fpga memory s ≡ bound (scoplen fpga s) (rawread_sized fpga memory)
  unfolding rawread
  rawread_new memory s new =
      ap
        (λ (o : Option (List ℕ)). elim o as (λ _. Outcome (Unit {0}) × Session B) [
          | some vs ↦ (ok tt, s)
          | none ↦ bound (scoplen fpga s) (rawread_sized fpga memory)
        ])
        new

  scoplen_new :
      (v : ℕ) (s : Session B) (b : B)
      → s.scoplen ≡ 0
      → fpga.readio s.addr s.bus ≡ (ok v, b)
      → scoplen fpga s
        ≡ (ok (learn_length v s.scope).scoplen, record { scope = learn_length v s.scope; bus = b })
  unfolding scoplen
  scoplen_new v s b unknown control =
      let absent : (s.scoplen == 0) ≡ true = rw unknown refl in rw (scoplen, absent, control) refl

  -- rawread of a scope that is read for the first time, over a bus that takes vectors: where the
  -- control word gives a length of 8 words up to 2^30, it keeps that length, the holdoff and the
  -- words that readz gives of the data register.
  pub rawread-vector :
      (memory : ℕ → List ℕ) (v : ℕ) (vs : List ℕ) (s : Session B) (b c : B)
      → s.samples ≡ none
      → s.scoplen ≡ 0
      → s.vector_read ≡ true
      → 3 ≤ length_field v
      → length_field v ≤ 30
      → fpga.readio s.addr s.bus ≡ (ok v, b)
      → fpga.readz (u32 (s.addr + 4)) (2 ^ length_field v) b ≡ (ok vs, c)
      → rawread fpga memory s
        ≡ (ok tt, record { scope = record (known v s.scope) { samples = some vs }; bus = c })
  rawread-vector memory v vs s b c new unknown vector low high control data_words =
      let learned = learn_length-known v s.scope low high in
      let size = sizes (length_field v) low high in
      let t : Session B = record { scope = known v s.scope; bus = b } in
      let length_read =
        scoplen_new v s b unknown control
        ∙ ap (λ (u : Scope). (ok u.scoplen, record { scope = u; bus = b })) learned in
      let first =
        rawread_new memory s new ∙ ap (λ x. bound x (rawread_sized fpga memory)) length_read in
      let second : fill fpga memory t
          ≡ (ok tt, record { scope = record (known v s.scope) { samples = some vs }; bus = c }) =
        rw (vector, data_words) refl in
      first ∙ sized memory (2 ^ length_field v) t (has_length _ size.0 size.1) ∙ second
