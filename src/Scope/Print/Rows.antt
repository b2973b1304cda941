-- ===== src/Scope/Print/Rows.antt =====
-- What the lines of SCOPE::print show of the buffer.
use dbgbus.Base.{
  ℕ, zero, suc, ◌+◌, ◌-◌, ◌≤◌, ◌<◌, ◌≡◌, refl, sym, ap, ◌∙◌, Bool, true, false, Bool-cases, not,
  ◌&&◌, inl, inr, List, [], ◌∷◌, ◌++◌, ◌==◌, ltb, arith, length, replicate, if◌then◌else◌,
}
use dbgbus.Scope.Print.{Row, jump, sample, stars, plain_rows}

-- The words that the rows stand for: those that are not printed are as the last one that is.
abbrev pub filled : ℕ → ℕ → List Row → List ℕ
filled next prev [] = []
filled next prev (jump k ∷ rs) = filled next prev rs
filled next prev (stars ∷ rs) = filled next prev rs
filled next prev (sample i w t ∷ rs) = replicate (i - next) prev ++ w ∷ filled (i + 1) w rs

replicate-snoc : (n w : ℕ) (ws : List ℕ) → replicate n w ++ w ∷ ws ≡ replicate (suc n) w ++ ws
replicate-snoc zero w ws = refl
replicate-snoc (suc n) w ws = ap (◌∷◌ w) (replicate-snoc n w ws)

filled_stars :
    (b : Bool) (next p : ℕ) (rs : List Row)
    → filled next p (if b then stars ∷ rs else rs) ≡ filled next p rs
filled_stars true next p rs = refl
filled_stars false next p rs = refl

abbrev is_left_out : ℕ → ℕ → ℕ → ℕ → Bool
is_left_out n i p w = ltb 0 i && (w == p && ltb (i + 1) n)

filled-plain_rows :
    (n offset i next p q : ℕ) (ws : List ℕ)
    → i + length ws ≡ n
    → next ≤ i
    → (length ws ≡ 0 → next ≡ i)
    → filled next p (plain_rows n offset i p q ws) ≡ replicate (i - next) p ++ ws
unfolding plain_rows
filled-plain_rows n offset i next p q [] e le last =
    let z : i - next ≡ 0 = omega (arith, last refl) in rw z refl
filled-plain_rows n offset i next p q (w ∷ ws) e le last = elim (Bool-cases (is_left_out n i p w)) [
  | inr shown ↦
      let z : (i + 1) - (i + 1) ≡ 0 = omega arith in
      let rest =
        filled-plain_rows n offset (i + 1) (i + 1) w p ws (omega arith) (omega arith) (λ h. refl) in
      rw (shown, rest, z) refl
  | inl skipped ↦
      let same : w ≡ p = ground arith in
      let more : i + 1 < n = ground arith in
      let rest =
        filled-plain_rows n offset (i + 1) next w p ws (omega arith) (omega arith)
          (λ h. absurd (omega arith)) in
      let up : (i + 1) - next ≡ suc (i - next) = omega arith in
      let whole = rest ∙ ap (λ k. replicate k w ++ ws) up ∙ sym (replicate-snoc (i - next) w ws) in
      let rows = plain_rows n offset (i + 1) w p ws in
      rw skipped (
        filled_stars (ltb 2 i && not (w == q)) next p rows
        ∙ ap (λ x. filled next x rows) (sym same)
        ∙ whole
        ∙ ap (λ x. replicate (i - next) x ++ w ∷ ws) same)
]

-- The lines that print shows of a plain scope lose nothing: filling in the words that it leaves
-- out with the last one that it shows gives back the whole buffer. `n` is the length of the
-- buffer; the first word is always shown, and so is the last.
pub plain_rows-filled :
    (n offset : ℕ) (ws : List ℕ) → length ws ≡ n → filled 0 0 (plain_rows n offset 0 0 0 ws) ≡ ws
plain_rows-filled n offset ws e =
    filled-plain_rows n offset 0 0 0 0 ws (omega arith) (omega arith) (λ h. refl)
