-- ===== src/Netuart/Program.antt =====
-- main of netuart and myaccept: the steps of the program, for what the operating system gives. Where
-- a call ends the program there is no step.
use dbgbus.Base.{ℕ, ◌≡◌, Bool, true, false, ◌||◌, Option, none, some, List, [], ◌∷◌, if◌then◌else◌}
use dbgbus.Outcome.{Outcome, ok, aborted}
use dbgbus.Netuart.{Bridge, Ready, silent, Written, check_incoming}

-- What check_incoming returns: whether anything was ready.
abbrev has_event : Ready → Bool
has_event silent = false
has_event _ = true

unfoldable pub any_ready : Ready → Ready → Option ℕ → Bool
any_ready tty net none = has_event tty
any_ready tty net (some fd) = has_event tty || has_event net

-- What `poll` and `accept` give at the listening socket: nothing, a descriptor, or a failure.
pub data Caller : Type 0 where
  nobody : Caller
  caller : ℕ → Caller
  refused : Caller

-- myaccept; `none` is -1.
unfoldable pub myaccept : Caller → Outcome (Option ℕ)
myaccept nobody = ok none
myaccept (caller fd) = ok (some fd)
myaccept refused = aborted

-- Where main is: at myaccept, in the loop that empties the serial port, or in the loop that serves a
-- connection.
pub data Phase : Type 0 where
  accepting : Phase
  emptying serving : Option ℕ → Phase

-- The state of main; `accepted` are the connections so far, the latest first.
pub record Program : Type 0 where
  pub phase : Phase
  pub accepted : List ℕ
  pub bridge : Bridge

-- `if (con >= 0) lb.m_connected = true`.
abbrev pub connect : Option ℕ → Bridge → Bridge
connect none b = b
connect (some fd) b = record b { connected = true }

abbrev pub note : Option ℕ → List ℕ → List ℕ
note none fds = fds
note (some fd) fds = fd ∷ fds

-- The steps of main.
pub data Step : Program → Program → Type 0 where
  accept :
      (c : Caller) (con : Option ℕ) (fds : List ℕ) (b : Bridge)
      → myaccept c ≡ ok con
      → Step
          (record { phase = accepting; accepted = fds; bridge = b })
          (record { phase = emptying con; accepted = note con fds; bridge = connect con b })
  empty :
      (tty : Ready) (con : Option ℕ) (fds : List ℕ) (b c : Bridge)
      → check_incoming tty silent true [] none b ≡ (ok tt, c)
      → Step
          (record { phase = emptying con; accepted = fds; bridge = b })
          (record {
            phase = if any_ready tty silent none then emptying con else serving con;
            accepted = fds;
            bridge = c;
          })
  serve :
      (tty net : Ready) (sends : Bool) (writes : List Written) (con : Option ℕ) (fds : List ℕ)
      (b c : Bridge)
      → b.connected ≡ true
      → check_incoming tty net sends writes con b ≡ (ok tt, c)
      → Step
          (record { phase = serving con; accepted = fds; bridge = b })
          (record { phase = serving con; accepted = fds; bridge = c })
  leave :
      (con : Option ℕ) (fds : List ℕ) (b : Bridge)
      → b.connected ≡ false
      → Step
          (record { phase = serving con; accepted = fds; bridge = b })
          (record { phase = accepting; accepted = fds; bridge = b })

pub data Reach (p : Program) : Program → Type 0 where
  start : Reach p p
  then_step : {q r : Program} → Reach p q → Step q r → Reach p r

-- LINBUFS::LINBUFS, on what is in the buffers, and main where its loop begins.
unfoldable pub begins : List ℕ → List ℕ → Program
begins iline oline = record {
  phase = accepting;
  accepted = [];
  bridge = record {
    iline = record { buf = iline; len = 0; printed = [] };
    oline = record { buf = oline; len = 0; printed = [] };
    connected = false;
    to_tty = [];
    to_net = [];
    released = [];
  };
}
