-- ===== src/Bench/Autotest/Start.antt =====
-- The start of the automatic test.
use dbgbus.Base.{ℕ, zero, suc, List, [], ◌∷◌}
use dbgbus.Uart.Calls.{Answers}
use dbgbus.Bench.Testb
use dbgbus.Bench.Testb.{Core, Testb}
use dbgbus.Bench.Autotest.{TestbusTb, tick}

module _ {C : Type 0} (design : Core C) where
  abbrev pub clocked : List Answers → TestbusTb C → TestbusTb C
  clocked [] s = s
  clocked (os ∷ later) s = clocked later (tick design os s)

  -- The bench clocked `n` times with its serial line high.
  unfoldable pub held : ℕ → Testb C → Testb C
  unfolding Testb.tick
  held zero t = t
  held (suc n) t = held n (Testb.tick design (record t { core = design.i_uart 1 t.core }))
