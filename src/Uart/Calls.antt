-- ===== src/Uart/Calls.antt =====
-- The calls of UARTSIM that lead to rawtick, with what the operating system answers.
use dbgbus.Base.{ℕ, Bool, true, false, Option}
use dbgbus.Uart.{Incoming, Uart, setup, rawtick, tick}

pub record Answers : Type 0 where
  -- What `accept` gives.
  pub pending : Option ℕ
  -- Whether a write succeeds.
  pub sends : Bool
  pub incoming : Incoming

-- UARTSIM::nettick and UARTSIM::fdtick.
unfoldable pub nettick : ℕ → Answers → Uart → ℕ × Uart
nettick i_tx os u = rawtick i_tx true os.pending os.sends os.incoming u

unfoldable pub fdtick : ℕ → Answers → Uart → ℕ × Uart
fdtick i_tx os u = rawtick i_tx false os.pending os.sends os.incoming u

-- UARTSIM::operator(), without a setup word and with one.
unfoldable pub call : ℕ → Answers → Uart → ℕ × Uart
call i_tx os u = tick i_tx os.pending os.sends os.incoming u

unfoldable pub call_setup : ℕ → ℕ → Answers → Uart → ℕ × Uart
unfolding call
call_setup i_tx isetup os u = call i_tx os (setup isetup u)
