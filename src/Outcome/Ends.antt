-- ===== src/Outcome/Ends.antt =====
-- Calls that end.
use dbgbus.Outcome.{Outcome, ok, bus_error, thrown, aborted, waiting, Run, bound}

-- Not the result of a call that waits for good.
abbrev pub Ends {ℓ} : {A : Type ℓ} → Outcome A → Type 0
Ends waiting = ⊥
Ends _ = Unit {0}

pub bound-Ends {ℓ κ} :
    {S : Type ℓ} {A B : Type κ} (x : Outcome A × S) (f : A → Run S B)
    → Ends x.0
    → ((a : A) → Ends (f a x.1).0)
    → Ends (bound x f).0
bound-Ends (ok a, s) f p q = q a
bound-Ends (bus_error e, s) f p q = tt
bound-Ends (thrown, s) f p q = tt
bound-Ends (aborted, s) f p q = tt
bound-Ends (waiting, s) f p q = absurd p
