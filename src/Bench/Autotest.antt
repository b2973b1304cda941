-- ===== src/Bench/Autotest.antt =====
-- bench/cpp/autotest.cpp: the test bench of the automatic test, which holds the serial line high at
-- its start.
pub mod Start
use dbgbus.Base.{
  ℕ, ◌+◌, ◌*◌, Bool, true, false, Option, none, some, List, [], ◌∷◌, ltb, if◌then◌else◌,
}
use dbgbus.Uart.{Uart}
use dbgbus.Uart.Calls.{Answers, call_setup}
use dbgbus.Bench.Testb
use dbgbus.Bench.Testb.{Core, Testb, opentrace, closetrace}

-- UARTSETUP.
abbrev pub uartsetup : ℕ
uartsetup = 25

-- The members of TESTBUS_TB.
pub record TestbusTb (C : Type 0) : Type 0 where
  pub testb : Testb C
  pub open testb use *
  pub uart : Uart
  pub is_done : Bool
  pub ticks : ℕ

module _ {C : Type 0} (design : Core C) where
  -- TESTBUS_TB::TESTBUS_TB, with a serial port and a new design.
  unfoldable pub init : Uart → C → TestbusTb C
  unfolding Testb.init
  init u c = record { testb = Testb.init design c; uart = u; is_done = false; ticks = 0 }

  -- TESTBUS_TB::trace.
  unfoldable pub trace : TestbusTb C → TestbusTb C
  unfolding opentrace
  trace s = record s { testb = opentrace s.testb }

  abbrev pub set_uart : ℕ → TestbusTb C → TestbusTb C
  set_uart wire s = record s { testb = record s.testb { core = design.i_uart wire s.core } }

  -- What is put on the serial line.
  unfoldable pub drive : Answers → TestbusTb C → TestbusTb C
  unfolding call_setup
  drive os s =
      let (wire, u) = call_setup (design.o_uart s.core) uartsetup os s.uart in
      if ltb s.ticks (25 * 20) then set_uart 1 s else set_uart wire (record s { uart = u })

  -- TESTBUS_TB::tick.
  unfoldable pub tick : Answers → TestbusTb C → TestbusTb C
  unfolding drive Testb.tick
  tick os s =
      let counted = record s { ticks = s.ticks + 1 } in
      let driven = drive os counted in
      if s.is_done then counted else record driven { testb = Testb.tick design driven.testb }

  -- TESTBUS_TB::done.
  unfoldable pub done : TestbusTb C → Bool × TestbusTb C
  done s =
      if s.is_done
      then (true, s)
      else if design.got_finish s.core
      then (true, record s { is_done = true })
      else if design.o_halt s.core
      then (true, record s { is_done = true })
      else (false, s)

  -- TESTBUS_TB::close.
  unfoldable pub close : TestbusTb C → TestbusTb C
  unfolding closetrace
  close s = record s { testb = closetrace s.testb }

  -- The loop of the child process, with the answers to the ticks to come; `none` is where it goes on
  -- behind them.
  unfoldable pub run : List Answers → TestbusTb C → Option (TestbusTb C)
  unfolding tick done
  run [] s = let (halts, t) = done s in if halts then some t else none
  run (os ∷ later) s =
      let (halts, t) = done s in let rest = run later (tick os t) in if halts then some t else rest

  -- The child process of main.
  unfoldable pub child : List Answers → Uart → C → Option (TestbusTb C)
  unfolding init trace run
  child answers u c = run answers (trace (init u c))
