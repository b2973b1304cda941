-- ===== src/Outcome.antt =====
-- How a call of the program ends, and the monad of calls on an object.
pub mod Ends
pub mod Keeps
use dbgbus.Base.{ℕ, Bool, true, false}

pub data Outcome {ℓ} (A : Type ℓ) : Type ℓ where
  -- A normal return.
  ok : A → Outcome A
  -- `throw BUSERR(addr)`.
  bus_error : ℕ → Outcome A
  -- `throw "…"`, a `const char *`.
  thrown : Outcome A
  -- A failed assertion, `exit`, or a read through a NULL pointer.
  aborted : Outcome A
  -- The call waits for input that never comes.
  waiting : Outcome A

-- A call on an object of type `S`: the object is left in some state however the call ends.
abbrev pub Run {ℓ κ} : Type ℓ → Type κ → Type (ℓ ⊔ κ)
Run S A = S → Outcome A × S

abbrev pub bound {ℓ κ} : {S : Type ℓ} {A B : Type κ} → Outcome A × S → (A → Run S B) → Outcome B × S
bound (ok a, s) f = f a s
bound (bus_error e, s) f = (bus_error e, s)
bound (thrown, s) f = (thrown, s)
bound (aborted, s) f = (aborted, s)
bound (waiting, s) f = (waiting, s)

infixl 5 ◌>>=◌ ◌>>◌
abbrev pub ◌>>=◌ {ℓ κ} : {S : Type ℓ} {A B : Type κ} → Run S A → (A → Run S B) → Run S B
◌>>=◌ m f s = bound (m s) f

abbrev pub ◌>>◌ {ℓ κ} : {S : Type ℓ} {A B : Type κ} → Run S A → Run S B → Run S B
◌>>◌ m k s = bound (m s) (λ _. k)

abbrev pub pure {ℓ κ} : {S : Type ℓ} {A : Type κ} → A → Run S A
pure a s = (ok a, s)

abbrev pub get {ℓ} : {S : Type ℓ} → Run S S
get s = (ok s, s)

abbrev pub modify {ℓ} : {S : Type ℓ} → (S → S) → Run S (Unit {0})
modify f s = (ok tt, f s)

-- `if (test) throw "…"`, and `assert(test)`.
abbrev pub throw_if {ℓ} : {S : Type ℓ} → Bool → Run S (Unit {0})
throw_if true s = (thrown, s)
throw_if false s = (ok tt, s)

abbrev pub assert {ℓ} : {S : Type ℓ} → Bool → Run S (Unit {0})
assert true s = (ok tt, s)
assert false s = (aborted, s)
