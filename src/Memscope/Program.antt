-- ===== src/Memscope/Program.antt =====
-- main of memscope.
use dbgbus.Base.{ℕ, Bool, true, false, List}
use dbgbus.Outcome.{Outcome, bound, Run, ◌>>=◌, ◌>>◌, pure}
use dbgbus.Devbus.{Devbus}
use dbgbus.Regdefs.{r_scope}
use dbgbus.Scope.Device
use dbgbus.Scope.Device.{Session, ready}
use dbgbus.Scope.Print.{Row, print}
use dbgbus.Scope.Vcd.{Printer}
use dbgbus.Scope.Control.{Control, decode_control, File, writevcd_file}
use dbgbus.Memscope.{define_traces}

-- What the program shows: that the scope is not ready, with its control word; or its rows, and the
-- file.
pub data Shown : Type 0 where
  not_ready : Control → Shown
  shown : List Row → File → Shown

-- MEMSCOPE::MEMSCOPE, on an open bus, with what is in m_holdoff.
unfoldable pub memscope : {B : Type 0} → B → ℕ → ℕ → Session B
memscope b addr holdoff = record { scope = Device.init addr false true holdoff; bus = b }

module _ {B : Type 0} (fpga : Devbus B) where
  abbrev pub report : Printer → Bool → (ℕ → List ℕ) → Bool → Run (Session B) Shown
  report p opens memory false = do c ← decode_control fpga; pure (not_ready c)
  report p opens memory true = do
    rows ← print fpga memory
    file ← writevcd_file fpga p opens memory
    pure (shown rows file)

  abbrev leaves : Run B (Unit {0}) → Outcome Shown × Session B → Outcome Shown × B
  leaves delete (r, s) = bound (r, s.bus) λ what. delete >> pure what

  -- main, on an open bus that `delete` closes, with what is in m_holdoff.
  unfoldable pub main : Printer → Bool → (ℕ → List ℕ) → ℕ → Run B (Unit {0}) → Run B Shown
  unfolding memscope ready print decode_control writevcd_file define_traces
  main p opens memory holdoff delete b =
      let traced = record p { define_traces = define_traces } in
      leaves delete ((ready fpga >>= report traced opens memory) (memscope b r_scope holdoff))
