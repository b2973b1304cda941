-- ===== src/System/Made.antt =====
-- The calls that have been made where a chain of calls has a result.
use dbgbus.Base.{length, ℕ, ◌≡◌, refl, Option, none, some, [], ◌∷◌, ◌++◌}
use dbgbus.Outcome.{Outcome, ok, bus_error, thrown, aborted, waiting, Run, bound}
use dbgbus.System.{
  Call, Answer, fails, gives, attributes, ends, System, ask, or_exit, must, or_quit,
}

-- `P` holds of the result, if there is one.
abbrev pub Gives : {S A : Type 0} → (A → S → Type 0) → Outcome A × S → Type 0
Gives P (ok a, s) = P a s
Gives P _ = Unit {0}

pub result-Gives :
    {S A : Type 0} (P : A → S → Type 0) (x : Outcome A × S) (a : A) (s : S)
    → Gives P x
    → x ≡ (ok a, s)
    → P a s
result-Gives P x a s g e = rw e at g

pub bound-Gives :
    {S A B : Type 0} (P : B → S → Type 0) (Q : A → S → Type 0) (x : Outcome A × S) (f : A → Run S B)
    → Gives Q x
    → ((a : A) (s : S) → Q a s → Gives P (f a s))
    → Gives P (bound x f)
bound-Gives P Q (ok a, s) f g k = k a s g
bound-Gives P Q (bus_error n, s) f g k = tt
bound-Gives P Q (thrown, s) f g k = tt
bound-Gives P Q (aborted, s) f g k = tt
bound-Gives P Q (waiting, s) f g k = tt

-- `c` is the only call between two states, and `a` answers it.
abbrev pub Makes : System → Call → Answer → System → Type 0
Makes w c a v =
    (v.calls ≡ w.calls ++ c ∷ []) × (v.answers ≡ w.answers) × (w.answers (length w.calls) ≡ a)

must-Makes : (c : Call) (w : System) → Gives (λ n. Makes w c (gives n)) (must c w)
unfolding must ask
must-Makes c w =
    bound-Gives (λ n. Makes w c (gives n)) (Makes w c) (ask c w) or_exit (refl, refl, refl) go
  where
    go : (a : Answer) (v : System) → Makes w c a v → Gives (λ n. Makes w c (gives n)) (or_exit a v)
    go fails v p = tt
    go (gives n) v p = p
    go (attributes tb) v p = tt
    go (ends r w) v p = tt

module _ {B : Type 0} (P : B → System → Type 0) where
  -- A chain that begins with a call.
  pub then_ask :
      (c : Call) (w : System) (f : Answer → Run System B)
      → ((a : Answer) (v : System) → Makes w c a v → Gives P (f a v))
      → Gives P (bound (ask c w) f)
  unfolding ask
  then_ask c w f k = bound-Gives P (Makes w c) (ask c w) f (refl, refl, refl) k

  pub then_must :
      (c : Call) (w : System) (f : ℕ → Run System B)
      → ((n : ℕ) (v : System) → Makes w c (gives n) v → Gives P (f n v))
      → Gives P (bound (must c w) f)
  then_must c w f k = bound-Gives P (λ n. Makes w c (gives n)) (must c w) f (must-Makes c w) k

  pub then_quit :
      {A : Type 0} (o : Option A) (w : System) (f : A → Run System B)
      → ((a : A) → o ≡ some a → Gives P (f a w))
      → Gives P (bound (or_quit o w) f)
  then_quit none w f k = tt
  then_quit (some a) w f k = k a refl
