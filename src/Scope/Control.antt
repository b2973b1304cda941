-- ===== src/Scope/Control.antt =====
-- SCOPE::decode_control and the remaining members of SCOPE.
pub mod Readiness
use dbgbus.Base.{ℕ, ◌+◌, ◌-◌, ◌^◌, Bool, true, false, not, List, [], ◌∷◌, ◌==◌, u32, bit_and, none}
use dbgbus.Outcome.{Outcome, ok, Run, bound, ◌>>=◌, ◌>>◌, pure, get}
use dbgbus.Devbus.{Devbus}
use dbgbus.Scope.Device.{Scope, Session, on_bus, rawread, words, getaddresslen, update}
use dbgbus.Scope.Vcd.{Entry, Printer, writevcd}

-- What SCOPE::decode_control prints of the control word: the word, the flags from bit 31 down to
-- bit 25, the length, the holdoff, and the location of the trigger in 32 bits.
pub record Control : Type 0 where
  pub word : ℕ
  pub reset_ongoing : Bool
  pub stopped : Bool
  pub triggered : Bool
  pub primed : Bool
  pub manual : Bool
  pub disabled : Bool
  pub zero_flag : Bool
  pub scoplen : ℕ
  pub holdoff : ℕ
  pub trigloc : ℕ

unfoldable pub control_lines : ℕ → ℕ → Control
control_lines scoplen v = record {
  word = v;
  reset_ongoing = not (bit_and v 0x80000000 == 0);
  stopped = not (bit_and v 0x40000000 == 0);
  triggered = not (bit_and v 0x20000000 == 0);
  primed = not (bit_and v 0x10000000 == 0);
  manual = not (bit_and v 0x08000000 == 0);
  disabled = not (bit_and v 0x04000000 == 0);
  zero_flag = not (bit_and v 0x02000000 == 0);
  scoplen = scoplen;
  holdoff = bit_and v 0x0fffff;
  trigloc = u32 (scoplen + 2 ^ 32 - bit_and v 0x0fffff);
}

-- SCOPE::set_clkfreq_hz and SCOPE::get_clkfreq_hz.
pub set_clkfreq_hz : ℕ → Scope → Scope
set_clkfreq_hz hz s = record s { clkfreq_hz = hz }

pub get_clkfreq_hz : Scope → ℕ
get_clkfreq_hz s = s.clkfreq_hz

-- SCOPE::~SCOPE: the traces and the data are freed.
pub destroy : Scope → Scope
destroy s = record s { traces = []; samples = none }

-- What becomes of a file: it cannot be opened, or this is written to it.
pub data File : Type 0 where
  unopened : File
  written : List Entry → File

module _ {B : Type 0} (fpga : Devbus B) where
  -- SCOPE::decode_control.
  unfoldable pub decode_control : Run (Session B) Control
  unfolding control_lines
  decode_control = do s ← get; v ← on_bus (fpga.readio s.addr); pure (control_lines s.scoplen v)

  -- SCOPE::writevcd of a file name; `opens` is whether the file can be opened.
  unfoldable pub writevcd_file : Printer → Bool → (ℕ → List ℕ) → Run (Session B) File
  unfolding writevcd
  writevcd_file p false memory s = (ok unopened, s)
  writevcd_file p true memory s = bound (writevcd fpga p memory s) λ es. pure (written es)
