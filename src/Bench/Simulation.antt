-- ===== src/Bench/Simulation.antt =====
-- bench/cpp/testbus_tb.cpp: the design with a serial port, run until it halts.
use dbgbus.Base.{ℕ, Bool, true, false, Option, none, some, List, [], ◌∷◌, if◌then◌else◌}
use dbgbus.Uart.{Uart}
use dbgbus.Uart.Calls.{Answers, call_setup}
use dbgbus.Bench.Testb
use dbgbus.Bench.Testb.{Core, Testb, closetrace}

-- UARTSETUP.
abbrev pub uartsetup : ℕ
uartsetup = 25

-- The members of TESTBUS_TB.
pub record TestbusTb (C : Type 0) : Type 0 where
  pub testb : Testb C
  pub open testb use *
  pub uart : Uart
  pub is_done : Bool

module _ {C : Type 0} (design : Core C) where
  -- TESTBUS_TB::TESTBUS_TB, with a serial port and a new design.
  unfoldable pub init : Uart → C → TestbusTb C
  unfolding Testb.init
  init u c = record { testb = Testb.init design c; uart = u; is_done = false }

  -- `m_core->i_uart = m_uart(m_core->o_uart, UARTSETUP)`.
  unfoldable pub drive : Answers → TestbusTb C → TestbusTb C
  unfolding call_setup
  drive os s =
      let (wire, u) = call_setup (design.o_uart s.core) uartsetup os s.uart in
      record s { testb = record s.testb { core = design.i_uart wire s.core }; uart = u }

  -- TESTBUS_TB::tick.
  unfoldable pub tick : Answers → TestbusTb C → TestbusTb C
  unfolding drive Testb.tick
  tick os s =
      let driven = drive os s in
      if s.is_done then s else record driven { testb = Testb.tick design driven.testb }

  -- TESTB::reset, where tick() is the one of TESTBUS_TB.
  unfoldable pub reset : Answers → TestbusTb C → TestbusTb C
  unfolding tick
  reset os s =
      let t = tick os (record s { testb = record s.testb { core = design.i_reset true s.core } }) in
      record t { testb = record t.testb { core = design.i_reset false t.core } }

  -- TESTBUS_TB::done.
  unfoldable pub done : TestbusTb C → Bool × TestbusTb C
  done s =
      if s.is_done
      then (true, s)
      else if design.got_finish s.core
      then (true, record s { is_done = true })
      else if design.o_halt s.core
      then (true, record s { is_done = true })
      else (false, s)

  -- The loop of main, with the answers to the ticks to come; `none` is where it goes on behind them.
  unfoldable pub run : List Answers → TestbusTb C → Option (TestbusTb C)
  unfolding tick done
  run [] s = let (halts, t) = done s in if halts then some t else none
  run (os ∷ later) s =
      let (halts, t) = done s in let rest = run later (tick os t) in if halts then some t else rest

  -- TESTBUS_TB::close.
  unfoldable pub close : TestbusTb C → TestbusTb C
  unfolding closetrace
  close s = record s { testb = closetrace s.testb }

  -- main, where the answers to the tick of the reset come first.
  unfoldable pub main : Answers → List Answers → Uart → C → Option (TestbusTb C)
  unfolding init reset run close
  main os later u c = elim (run later (reset os (init u c))) [
    | none ↦ none
    | some s ↦ some (close s)
  ]
