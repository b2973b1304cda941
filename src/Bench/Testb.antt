-- ===== src/Bench/Testb.antt =====
-- bench/cpp/testb.h: TESTB, which clocks a design that Verilator builds. The design is a parameter.
pub mod Trace
use dbgbus.Base.{
  ℕ, zero, suc, ◌+◌, ◌-◌, ◌*◌, ◌^◌, Bool, true, false, Option, none, some, List, [], ◌∷◌, u64,
}

-- The members of the design class that the benches use.
pub record Core (C : Type 0) : Type 0 where
  pub eval : C → C
  pub i_clk : Bool → C → C
  pub i_reset : Bool → C → C
  pub i_uart : ℕ → C → C
  pub o_uart : C → ℕ
  pub o_halt : C → Bool
  -- Verilated::gotFinish.
  pub got_finish : C → Bool

-- The members of TESTB: a trace is the times of its dumps, the latest first, and `none` is NULL.
-- `traces` are the traces that were closed.
pub record Testb (C : Type 0) : Type 0 where
  pub core : C
  pub trace : Option (List ℕ)
  pub tickcount : ℕ
  pub traces : List (List ℕ)

abbrev closed_too : Option (List ℕ) → List (List ℕ) → List (List ℕ)
closed_too none ts = ts
closed_too (some ds) ts = ds ∷ ts

-- `if (m_trace) m_trace->dump(time)`.
abbrev pub dump : ℕ → Option (List ℕ) → Option (List ℕ)
dump time none = none
dump time (some ds) = some (time ∷ ds)

module _ {C : Type 0} where
  -- TESTB::opentrace.
  unfoldable pub opentrace : Testb C → Testb C
  opentrace t = elim t.trace [ none ↦ record t { trace = some [] } | some ds ↦ t ]

  -- TESTB::closetrace.
  unfoldable pub closetrace : Testb C → Testb C
  closetrace t = record t { trace = none; traces = closed_too t.trace t.traces }

  module _ (design : Core C) where
    -- TESTB::TESTB, on a new design.
    unfoldable pub init : C → Testb C
    init c = record {
      core = design.eval (design.i_clk false c);
      trace = none;
      tickcount = 0;
      traces = [];
    }

    -- TESTB::eval.
    unfoldable pub eval : Testb C → Testb C
    eval t = record t { core = design.eval t.core }

    abbrev pub set_clk : Bool → Testb C → Testb C
    set_clk b t = record t { core = design.i_clk b t.core }

    abbrev pub dump_at : ℕ → Testb C → Testb C
    dump_at time t = record t { trace = dump time t.trace }

    -- TESTB::tick.
    unfoldable pub tick : Testb C → Testb C
    unfolding eval
    tick t =
        let n = u64 (t.tickcount + 1) in
        let before = dump_at (u64 (10 * n + (2 ^ 64 - 2))) (eval (record t { tickcount = n })) in
        let high = dump_at (u64 (10 * n)) (eval (set_clk true before)) in
        dump_at (u64 (10 * n + 5)) (eval (set_clk false high))

    unfoldable pub ticks : ℕ → Testb C → Testb C
    unfolding tick
    ticks zero t = t
    ticks (suc n) t = ticks n (tick t)

    -- TESTB::~TESTB: the trace is closed before the design is deleted.
    unfoldable pub destroy : Testb C → List (List ℕ)
    destroy t = closed_too t.trace t.traces
