-- ===== src/Outcome/Keeps.antt =====
-- What calls keep of the state, however they end.
use dbgbus.Base.{Bool, true, false, if◌then◌else◌}
use dbgbus.Outcome.{Outcome, ok, bus_error, thrown, aborted, waiting, Run, bound}

-- A call after another keeps what both keep.
pub bound-keeps {ℓ κ μ} :
    {S : Type ℓ} {A B : Type κ} (P : S → Type μ) (x : Outcome A × S) (k : A → Run S B)
    → P x.1
    → ((a : A) (s : S) → P s → P (k a s).1)
    → P (bound x k).1
bound-keeps P (ok a, s) k v f = f a s v
bound-keeps P (bus_error e, s) k v f = v
bound-keeps P (thrown, s) k v f = v
bound-keeps P (aborted, s) k v f = v
bound-keeps P (waiting, s) k v f = v

-- A choice keeps what both sides keep.
pub elim-keeps {ℓ κ μ} :
    {S : Type ℓ} {A : Type κ} (P : S → Type μ) (b : Bool) (x y : Outcome A × S)
    → P x.1
    → P y.1
    → P (elim b as (λ _. Outcome A × S) [ true ↦ x | false ↦ y ]).1
elim-keeps P true x y v w = v
elim-keeps P false x y v w = w

pub if-keeps {ℓ κ μ} :
    {S : Type ℓ} {A : Type κ} (P : S → Type μ) (b : Bool) (x y : Outcome A × S)
    → P x.1
    → P y.1
    → P (if b then x else y).1
if-keeps P true x y v w = v
if-keeps P false x y v w = w

pub elim_run-keeps {ℓ κ μ} :
    {S : Type ℓ} {A : Type κ} (P : S → Type μ) (b : Bool) (m k : Run S A) (s : S)
    → P (m s).1
    → P (k s).1
    → P ((elim b as (λ _. Run S A) [ true ↦ m | false ↦ k ]) s).1
elim_run-keeps P true m k s v w = v
elim_run-keeps P false m k s v w = w
