-- ===== src/Uart.antt =====
-- bench/cpp/uartsim.h and bench/cpp/uartsim.cpp: UARTSIM, the serial port of the simulation.
pub mod Frame
pub mod Receiver
pub mod Loopback
pub mod Framing
pub mod Sender
pub mod Between
pub mod Wire
pub mod Clocks
pub mod Pending
pub mod Pairs
pub mod Stream
pub mod Calls
pub mod Listening
use Prim.Native.Nat.{bit_xor}
use dbgbus.Base.{
  ℕ, ◌+◌, ◌-◌, ◌*◌, ◌/◌, ◌^◌, Bool, true, false, not, ◌&&◌, ◌||◌, Option, none, some, List, [], ◌∷◌,
  ◌++◌, leb, ◌==◌, if◌then◌else◌, u32, bit_and, bit_or,
}

-- What the operating system has ready at one call of rawtick.
pub data Incoming : Type 0 where
  -- Nothing to read.
  nothing : Incoming
  -- A character, the end of the stream, an error.
  char : ℕ → Incoming
  eof failure : Incoming

-- The members of UARTSIM. A descriptor of -1 is `none`; the counters that may be negative when
-- they are compared with 0 are held at 0 there. `taken` are the characters sent, and `released` the
-- descriptors closed, the latest first.
pub record Uart : Type 0 where
  pub skt : Option ℕ
  pub conrd : Option ℕ
  pub conwr : Option ℕ
  pub setup_word : ℕ
  pub nparity : ℕ
  pub fixdp : ℕ
  pub evenp : ℕ
  pub nbits : ℕ
  pub nstop : ℕ
  pub baud_counts : ℕ
  pub rx_baudcounter : ℕ
  pub rx_busy : ℕ
  pub rx_changectr : ℕ
  pub rx_data : ℕ
  pub last_tx : ℕ
  pub rx_idle : Bool
  pub tx_baudcounter : ℕ
  pub tx_busy : ℕ
  pub tx_data : ℕ
  pub tx_idle : Bool
  pub taken : List ℕ
  pub released : List ℕ

-- UARTSIM::setup.
unfoldable pub setup : ℕ → Uart → Uart
setup isetup u = if isetup == u.setup_word then u else record u {
  setup_word = isetup;
  baud_counts = bit_and isetup 0x0ffffff;
  nbits = 8 - bit_and (isetup / 2 ^ 28) 0x03;
  nstop = bit_and (isetup / 2 ^ 27) 1 + 1;
  nparity = bit_and (isetup / 2 ^ 26) 1;
  fixdp = bit_and (isetup / 2 ^ 25) 1;
  evenp = bit_and (isetup / 2 ^ 24) 1;
}

-- UARTSIM::UARTSIM on what is in the memory: at port 0 it is on the standard streams, and
-- `listener` is the socket otherwise. m_tx_busy and others keep what was there.
unfoldable pub init : ℕ → ℕ → Uart → Uart
unfolding setup
init port listener u =
    let opened =
      if port == 0
      then record u { skt = none; conrd = some 0; conwr = some 1 }
      else record u { skt = some listener; conrd = none; conwr = none } in
    record (setup 25 opened) {
      rx_baudcounter = 0;
      tx_baudcounter = 0;
      rx_idle = true;
      tx_idle = true;
    }

abbrev opened : Option ℕ → Bool
opened none = false
opened (some fd) = true

abbrev unless_fd : ℕ → Option ℕ → Option ℕ
unless_fd k none = none
unless_fd k (some fd) = if fd == k then none else some fd

abbrev same_fd : Option ℕ → Option ℕ → Bool
same_fd none none = true
same_fd (some a) (some b) = a == b
same_fd _ _ = false

abbrev release : Option ℕ → List ℕ → List ℕ
release none fds = fds
release (some fd) fds = fd ∷ fds

-- UARTSIM::kill.
unfoldable pub kill : Uart → Uart
kill u =
    let rd = unless_fd 0 u.conrd in
    let wr = unless_fd 1 u.conwr in
    let read_closed = release rd u.released in
    let both = if not (same_fd wr rd) then release wr read_closed else read_closed in
    record u { released = release u.skt both; conrd = none; conwr = none; skt = none }

-- UARTSIM::check_for_new_connections, where `pending` is the descriptor that `accept` gives.
unfoldable pub check_for_new_connections : Option ℕ → Uart → Uart
check_for_new_connections pending u =
    if not (opened u.conrd) && (not (opened u.conwr) && (opened u.skt && opened pending))
    then record u { conrd = pending; conwr = pending }
    else u

-- The detection of edges at the start of rawtick.
unfoldable pub note_edge : ℕ → Uart → Uart
note_edge i_tx u = record u {
  rx_changectr = if i_tx == 0 && not (u.last_tx == 0) then 0 else u.rx_changectr + 1;
  last_tx = i_tx;
}

-- The character that has been shifted in.
abbrev pub rx_char : Uart → ℕ
rx_char u = bit_and (u.rx_data / 2 ^ (32 - u.nbits - u.nstop - u.nparity)) 0x0ff

-- What is done with a whole character: it is sent where there is a connection, and a failed write
-- closes it; `sends` is whether the write succeeds.
unfoldable pub deliver : Bool → Bool → Uart → Uart
deliver network sends u =
    if not (opened u.conwr)
    then u
    else if sends
    then record u { taken = u.taken ++ rx_char u ∷ [] }
    else record u {
      released = if network then release u.conwr u.released else u.released;
      conrd = none;
      conwr = none;
    }

-- The start of a frame: the middle of its first bit is a bit and a half away from the edge.
unfoldable pub rx_begin : Uart → Uart
rx_begin u = record u {
  rx_idle = false;
  rx_baudcounter = u.baud_counts + u.baud_counts / 2 - 1 - u.rx_changectr;
  rx_busy = 0;
  rx_data = 0;
}

-- The middle of a bit: one more bit, or the end of the frame.
unfoldable pub rx_sample : ℕ → Bool → Bool → Uart → Uart
unfolding deliver
rx_sample i_tx network sends u =
    if leb (2 ^ (u.nbits + u.nparity + u.nstop - 1)) u.rx_busy
    then deliver network sends (record u { rx_idle = true; rx_baudcounter = u.baud_counts - 1 })
    else record u {
      rx_busy = bit_or (u.rx_busy * 2) 1;
      rx_data = bit_or (bit_and i_tx 1 * 2 ^ 31) (u.rx_data / 2);
      rx_baudcounter = u.baud_counts - 1;
    }

-- The receiving half of rawtick.
unfoldable pub rx_tick : ℕ → Bool → Bool → Uart → Uart
unfolding rx_begin rx_sample
rx_tick i_tx network sends u =
    if u.rx_idle
    then (if i_tx == 0 then rx_begin u else u)
    else if u.rx_baudcounter == 0
    then rx_sample i_tx network sends u
    else record u { rx_baudcounter = u.rx_baudcounter - 1 }

-- The exclusive or of the low eight bits.
abbrev pub parity : ℕ → ℕ
parity c =
    let a = bit_xor c (c / 2 ^ 4) in let b = bit_xor a (a / 2 ^ 2) in bit_and (bit_xor b (b / 2)) 1

-- The parity bit of a frame.
unfoldable pub parity_bit : Uart → ℕ → ℕ
parity_bit u frame =
    if not (u.fixdp == 0) then u.evenp else bit_xor (parity (bit_and (frame / 2) 0x0ff)) u.evenp

-- The frame of a character: a start bit of 0, the character, the parity bit, and ones.
unfoldable pub tx_frame : Uart → ℕ → ℕ
unfolding parity_bit
tx_frame u c =
    let frame = bit_or (u32 (2 ^ 32 - 2 ^ (u.nbits + u.nparity + 1))) (bit_and (c * 2) 0x01fe) in
    if u.nparity == 0
    then frame
    else bit_or frame (u32 (parity_bit u frame * 2 ^ (u.nbits + u.nparity)))

-- The transmitting half of rawtick where it is idle, and the bit it puts out.
unfoldable pub tx_start : Bool → Incoming → Uart → ℕ × Uart
unfolding tx_frame
tx_start network nothing u = (1, u)
tx_start network (char c) u = (
  0,
  record u {
    tx_data = tx_frame u c;
    tx_busy = 2 ^ (u.nbits + u.nparity + u.nstop + 1) - 1;
    tx_idle = false;
    tx_baudcounter = u.baud_counts - 1;
  },
)
tx_start network eof u = (
  1,
  if network
      then record u { released = release u.conrd u.released; conrd = none; conwr = none }
      else u,
)
tx_start network failure u = (
  1,
  if network
      then record u { released = release u.conrd u.released; conrd = none; conwr = none }
      else record u { conrd = none },
)

-- The transmitting half of rawtick.
unfoldable pub tx_tick : Bool → Incoming → Uart → ℕ × Uart
unfolding tx_start
tx_tick network incoming u =
    if u.tx_idle && (network || opened u.conrd)
    then tx_start network incoming u
    else if u.tx_baudcounter == 0
    then (let shifted = u.tx_data / 2 in
        let busy = u.tx_busy / 2 in
        let moved = record u { tx_data = shifted; tx_busy = busy } in
        (
          bit_and shifted 1,
          if busy == 0
              then record moved { tx_idle = true }
              else record moved { tx_baudcounter = u.baud_counts - 1 },
        ))
    else (bit_and u.tx_data 1, record u { tx_baudcounter = u.tx_baudcounter - 1 })

-- UARTSIM::rawtick, with what the operating system answers; nettick is with `network`, and fdtick
-- without.
unfoldable pub rawtick : ℕ → Bool → Option ℕ → Bool → Incoming → Uart → ℕ × Uart
unfolding check_for_new_connections note_edge rx_tick tx_tick
rawtick i_tx network pending sends incoming u =
    let connected = if network then check_for_new_connections pending u else u in
    tx_tick network incoming (rx_tick i_tx network sends (note_edge i_tx connected))

-- UARTSIM::tick.
unfoldable pub tick : ℕ → Option ℕ → Bool → Incoming → Uart → ℕ × Uart
unfolding rawtick
tick i_tx pending sends incoming u = rawtick i_tx (opened u.skt) pending sends incoming u
