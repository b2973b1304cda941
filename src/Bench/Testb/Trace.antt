-- ===== src/Bench/Testb/Trace.antt =====
-- The times in a trace, and that tracing changes nothing else.
use dbgbus.Base.{
  ℕ, zero, suc, ◌+◌, ◌-◌, ◌*◌, ◌^◌, ◌<◌, ◌≡◌, refl, Option, none, some, List, [], ◌∷◌, u64, arith,
}
use dbgbus.Bench.Testb.{Core, Testb, opentrace, closetrace, dump, tick, ticks}

-- The times fall, from the latest dump back, and all are below a bound.
abbrev pub Falls : ℕ → List ℕ → Type 0
Falls bound [] = Unit {0}
Falls bound (d ∷ ds) = (d < bound) × Falls d ds

abbrev pub TraceFalls : ℕ → Option (List ℕ) → Type 0
TraceFalls bound none = Unit {0}
TraceFalls bound (some ds) = Falls bound ds

Falls-le : (a b : ℕ) (ds : List ℕ) → a < b + 1 → Falls a ds → Falls b ds
Falls-le a b [] l f = tt
Falls-le a b (d ∷ ds) l (p, q) = (omega arith, q)

-- The three dumps of one tick.
dump_thrice :
    (n : ℕ) (o : Option (List ℕ))
    → 10 * (n + 2) < 2 ^ 64
    → TraceFalls (10 * n + 6) o
    → let m = u64 (n + 1) in
      TraceFalls
        (10 * (n + 1) + 6)
        (dump (u64 (10 * m + 5)) (dump (u64 (10 * m)) (dump (u64 (10 * m + (2 ^ 64 - 2))) o)))
dump_thrice n none fit f = tt
dump_thrice n (some ds) fit f =
    (omega arith, (omega arith, (omega arith, Falls-le (10 * n + 6) _ ds (omega arith) f)))

module _ {C : Type 0} (design : Core C) where
  ticks-Falls :
      (m k : ℕ) (t : Testb C)
      → t.tickcount ≡ k
      → 10 * (k + m + 1) < 2 ^ 64
      → TraceFalls (10 * k + 6) t.trace
      → TraceFalls (10 * (k + m) + 6) (ticks design m t).trace
  unfolding ticks
  ticks-Falls zero k t e fit f = let same : k + 0 ≡ k = omega arith in rw same f
  ticks-Falls (suc m) k t e fit f =
      let next : k + 1 + m ≡ k + suc m = omega arith in
      let counted : (tick design t).tickcount ≡ k + 1 = unfold tick in (rw e (omega arith)) in
      rw next at (
        ticks-Falls m (k + 1) (tick design t) counted (omega arith)
          (unfold tick in (rw e (dump_thrice k t.trace (omega arith) f))))

  -- Up to the wrap of the clock, each time dumped into a trace that is open from some tick on is
  -- later than the one before.
  pub opentrace-Falls :
      (m : ℕ) (t : Testb C)
      → t.trace ≡ none
      → 10 * (t.tickcount + m + 1) < 2 ^ 64
      → TraceFalls (10 * (t.tickcount + m) + 6) (ticks design m (opentrace t)).trace
  unfolding opentrace
  opentrace-Falls m t e fit = ticks-Falls m t.tickcount (opentrace t) (rw e) fit (rw e tt)

  abbrev untraced : List (List ℕ) → Testb C → Testb C
  untraced ts t = record t { trace = none; traces = ts }

  ticks_untraced :
      (m : ℕ) (ts : List (List ℕ)) (t : Testb C)
      → ticks design m (untraced ts t) ≡ untraced ts (ticks design m t)
  unfolding ticks
  ticks_untraced zero ts t = refl
  ticks_untraced (suc m) ts t = unfold tick in ticks_untraced m ts (tick design t)

  -- A trace changes nothing of the simulation: after any number of ticks the design and the clock
  -- are the same as when it was closed before.
  ticks-closetrace :
      (m : ℕ) (t : Testb C)
      → ticks design m (closetrace t)
        ≡ record (ticks design m t) { trace = none; traces = (closetrace t).traces }
  unfolding closetrace
  ticks-closetrace m t = ticks_untraced m (closetrace t).traces t
