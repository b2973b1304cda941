-- ===== src/Netuart/Setup.antt =====
-- sw/netuart.cpp: setup_listener, and how main opens and sets up the serial port.
pub mod Started
use dbgbus.Base.{
  ℕ, Bool, true, false, ◌&&◌, ◌||◌, Option, none, some, List, [], ◌∷◌, ◌==◌, if◌then◌else◌,
}
use dbgbus.Outcome.{Outcome, ok, aborted, Run, ◌>>=◌, ◌>>◌, pure}
use dbgbus.Text.Strings.{codes}
use dbgbus.Comms.Opening.{filled, is_terminal}
use dbgbus.System.{
  Termios, Answer, attributes, System, ask, must, or_quit, socket, reuse_address, bind_any, listen,
  ignore_sigpipe, handle, sigstop, sigbus, sigsegv, sigint, sighup, open_device, isatty, tcgetattr,
  tcsetattr, tcflow,
}

unfoldable pub setup_listener : ℕ → Run System ℕ
setup_listener port = do
  skt ← must socket
  _ ← must (reuse_address skt)
  _ ← must (bind_any skt port)
  _ ← must (listen skt 1)
  pure skt

-- The handlers that main sets.
unfoldable pub set_signals : Run System (Unit {0})
set_signals = do
  _ ← ask (handle sigstop)
  _ ← ask (handle sigbus)
  _ ← ask (handle sigsegv)
  _ ← ask ignore_sigpipe
  _ ← ask (handle sigint)
  _ ← ask (handle sighup)
  pure tt

-- `strstr(s, key) != NULL`.
abbrev begins_with : List ℕ → List ℕ → Bool
begins_with [] s = true
begins_with (k ∷ ks) [] = false
begins_with (k ∷ ks) (c ∷ cs) = k == c && begins_with ks cs

unfoldable pub contains : List ℕ → List ℕ → Bool
contains key [] = begins_with key []
contains key (c ∷ cs) = begins_with key (c ∷ cs) || contains key cs

-- The device that the arguments behind the program's name ask for.
unfoldable pub device : List (List ℕ) → Option (List ℕ)
unfolding contains
device [] = some (codes "/dev/ttyUSB2")
device (arg ∷ args) = if contains (codes "/ttyUSB") arg then some arg else none

-- The rate that is set for a rate that is asked for; the second test for 3000000 is never reached.
unfoldable pub speed : ℕ → Option ℕ
speed baud =
    if baud == 2400
    then some 2400
    else if baud == 9600
    then some 9600
    else if baud == 19200
    then some 19200
    else if baud == 38400
    then some 38400
    else if baud == 57600
    then some 57600
    else if baud == 115200
    then some 115200
    else if baud == 1000000
    then some 1000000
    else if baud == 2000000
    then some 2000000
    else if baud == 2500000
    then some 2500000
    else if baud == 3000000
    then some 3000000
    else if baud == 3000000
    then some 3500000
    else if baud == 4000000
    then some 4000000
    else none

-- A raw terminal of eight bits and one stop bit, without flow control.
abbrev pub framed : ℕ → Termios → Termios
framed rate tb = record tb {
  crtscts = false;
  cstopb = false;
  csize = 8;
  ispeed = rate;
  ospeed = rate;
}

abbrev got_attributes : Answer → Option Termios
got_attributes (attributes tb) = some tb
got_attributes _ = none

module _ (cfmakeraw : Termios → Termios) where
  unfoldable pub setup_tty : ℕ → ℕ → Run System (Unit {0})
  unfolding speed
  setup_tty baud tty = do
    a ← ask (tcgetattr tty)
    tb ← or_quit (got_attributes a)
    rate ← or_quit (speed baud)
    _ ← ask (tcsetattr tty (framed rate (cfmakeraw tb)))
    _ ← ask (tcflow tty)
    pure tt

  -- main up to its loop: the listening socket, the signals and the serial port.
  unfoldable pub open_both : ℕ → ℕ → List (List ℕ) → Run System (ℕ × ℕ)
  unfolding setup_listener set_signals device setup_tty
  open_both port baud args = do
    skt ← setup_listener port
    _ ← set_signals
    dev ← or_quit (device args)
    tty ← must (open_device dev)
    a ← ask (isatty tty)
    elim (is_terminal a) [ true ↦ setup_tty baud tty | false ↦ pure tt ]
    pure (skt, tty)
