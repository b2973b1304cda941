-- ===== src/Comms/Laws.antt =====
-- Laws of LLCOMMSI.
use dbgbus.Base.{
  ℕ, ◌+◌, ◌≤◌, ◌<◌, ◌≡◌, refl, ap, ◌∙◌, List, [], ◌∷◌, ◌++◌, Bool, true, false, arith, u64, length,
  take,
}
use Prim.Native.Nat.{min}
use dbgbus.Outcome.{ok}
use dbgbus.Comms.{Comms, Event, Arrival, bytes, fails, never, quiet, sys_read, arrived, read, write}

take-length : (xs : List ℕ) → take (length xs) xs ≡ xs
take-length [] = refl
take-length (x ∷ xs) = ap (◌∷◌ x) (take-length xs)

-- A link that takes every message of at most 32 bytes whole.
abbrev pub IsRoomy : Comms → Type 0
IsRoomy c = (n : ℕ) → 32 ≤ c.room n

-- The link after a message is sent.
abbrev pub sent : List ℕ → Comms → Comms
sent buf c = record c { output = c.output ++ buf; total_nwrit = u64 (c.total_nwrit + length buf) }

pub write-sent :
    (buf : List ℕ) (c : Comms)
    → IsRoomy c
    → 0 < length buf
    → length buf ≤ 32
    → write buf c ≡ (ok tt, sent buf c)
unfolding write
write-sent buf c roomy pos short =
    let whole : min (c.room (length c.output)) (length buf) ≡ length buf =
      omega (arith, roomy (length c.output)) in
    rw (whole, take-length buf) (ground arith)

arrived-input :
    (x : Arrival × List Event) (es fs : List Event) (c : Comms)
    → arrived x (record c { input = es }) ≡ arrived x (record c { input = fs })
arrived-input (bytes cs, gs) es fs c = refl
arrived-input (fails, gs) es fs c = refl
arrived-input (never, gs) es fs c = refl

sys_read_quiet :
    (b : Bool) (n : ℕ) (es : List Event) → b ≡ false → sys_read b n (quiet ∷ es) ≡ sys_read b n es
sys_read_quiet true n es e = absurd (cc)
sys_read_quiet false n es e = refl

-- A blocking descriptor waits over a quiet time.
pub read-quiet :
    (n : ℕ) (es : List Event) (c : Comms)
    → c.nonblock ≡ false
    → read n (record c { input = quiet ∷ es }) ≡ read n (record c { input = es })
unfolding read
read-quiet n es c e =
    ap (λ x. arrived x (record c { input = quiet ∷ es })) (sys_read_quiet c.nonblock n es e)
    ∙ arrived-input (sys_read c.nonblock n es) (quiet ∷ es) es c
