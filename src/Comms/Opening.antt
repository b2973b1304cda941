-- ===== src/Comms/Opening.antt =====
-- sw/llcomms.cpp: how TTYCOMMS and NETCOMMS open their descriptor.
use dbgbus.Base.{ℕ, Bool, true, false, List}
use dbgbus.Comms
use dbgbus.Comms.{Comms, Event}
use dbgbus.Outcome.{Run, ◌>>=◌, ◌>>◌, pure}
use dbgbus.System.{
  Termios, Answer, gives, attributes, System, ask, must, socket, gethostbyname, connect,
  open_device, isatty, tcgetattr, tcsetattr, tcflow,
}

-- What `tcgetattr` fills in; where it fails the memory stays as it was.
abbrev pub filled : Termios → Answer → Termios
filled memory (attributes tb) = tb
filled memory _ = memory

-- Whether `isatty` says so.
abbrev pub is_terminal : Answer → Bool
is_terminal (gives n) = true
is_terminal _ = false

module _ (cfmakeraw : Termios → Termios) (input : List Event) (room : ℕ → ℕ) where
  -- The terminal is made raw, without flow control.
  unfoldable pub raw_terminal : ℕ → Termios → Run System (Unit {0})
  raw_terminal fd memory = do
    a ← ask (tcgetattr fd)
    _ ← ask (tcsetattr fd (record (cfmakeraw (filled memory a)) { crtscts = false }))
    _ ← ask (tcflow fd)
    pure tt

  -- TTYCOMMS::TTYCOMMS, with what arrives at the device.
  unfoldable pub ttycomms : List ℕ → Termios → Run System Comms
  unfolding raw_terminal Comms.init Comms.attach
  ttycomms dev memory = do
    fd ← must (open_device dev)
    a ← ask (isatty fd)
    elim (is_terminal a) [ true ↦ raw_terminal fd memory | false ↦ pure tt ]
    pure (Comms.attach fd (Comms.init true input room))

-- NETCOMMS::NETCOMMS.
module _ (input : List Event) (room : ℕ → ℕ) where
  unfoldable pub netcomms : List ℕ → ℕ → Run System Comms
  unfolding Comms.init Comms.attach
  netcomms host port = do
    fd ← must socket
    address ← must (gethostbyname host)
    _ ← must (connect fd address port)
    pure (Comms.attach fd (Comms.init false input room))
