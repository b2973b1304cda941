-- ===== src/System.antt =====
-- The calls by which the programs set up their descriptors. What the operating system answers is
-- given by the state, call by call.
pub mod Made
use dbgbus.Base.{length, ℕ, Bool, true, false, Option, none, some, List, [], ◌∷◌, ◌++◌}
use dbgbus.Outcome.{Outcome, ok, aborted, Run, bound, ◌>>=◌, pure}

-- What the programs look at or change in `struct termios`: the flags CRTSCTS and CSTOPB, the bits
-- CSIZE as a number of bits, and the rates as baud. `rest` is all that cfmakeraw may change else.
pub record Termios : Type 0 where
  pub crtscts : Bool
  pub cstopb : Bool
  pub csize : ℕ
  pub ispeed : ℕ
  pub ospeed : ℕ
  pub rest : ℕ

pub data Signal : Type 0 where
  sigstop sigbus sigsegv sigint sighup : Signal

pub data Call : Type 0 where
  -- `signal(SIGPIPE, SIG_IGN)`, and `signal` with a handler of the program.
  ignore_sigpipe : Call
  handle : Signal → Call
  -- A TCP socket; SO_REUSEADDR; any address of this computer at a port; the length of the queue.
  socket : Call
  reuse_address : ℕ → Call
  bind_any : ℕ → ℕ → Call
  listen : ℕ → ℕ → Call
  -- The address of a host, and a connection to an address at a port.
  gethostbyname : List ℕ → Call
  connect : ℕ → ℕ → ℕ → Call
  -- For reading and writing, O_NONBLOCK.
  open_device : List ℕ → Call
  isatty tcgetattr : ℕ → Call
  -- TCSANOW, and TCOON.
  tcsetattr : ℕ → Termios → Call
  tcflow : ℕ → Call
  -- Two ends of a pipe, a child process, and a signal to it.
  pipe fork : Call
  kill : ℕ → ℕ → Call
  -- Copying a descriptor, and closing one.
  dup close : ℕ → Call

pub data Answer : Type 0 where
  fails : Answer
  gives : ℕ → Answer
  attributes : Termios → Answer
  -- The end to read, and the end to write.
  ends : ℕ → ℕ → Answer

-- The calls so far, and what answers the call after so many.
pub record System : Type 0 where
  pub answers : ℕ → Answer
  pub calls : List Call

unfoldable pub ask : Call → Run System Answer
ask c w = (ok (w.answers (length w.calls)), record w { calls = w.calls ++ c ∷ [] })

-- The result of a call; a call that fails ends the program.
abbrev pub or_exit : Answer → Run System ℕ
or_exit (gives n) w = (ok n, w)
or_exit _ w = (aborted, w)

unfoldable pub must : Call → Run System ℕ
unfolding ask
must c = ask c >>= or_exit

-- The program ends where something is not there.
abbrev pub or_quit : {A : Type 0} → Option A → Run System A
or_quit (some a) w = (ok a, w)
or_quit none w = (aborted, w)
