-- ===== src/Comms.antt =====
-- sw/llcomms.h and sw/llcomms.cpp: LLCOMMSI, the byte link under the bus.
-- What the operating system answers is given by the state: `input` is the schedule of what will
-- arrive at the descriptor, and a `::write` accepts at most `room n` bytes, where `n` bytes have
-- been accepted before.
pub mod Laws
pub mod Opening
use Prim.Native.Nat.{min}
use dbgbus.Base.{
  ℕ, zero, suc, ◌+◌, ◌≡◌, Bool, true, false, not, ◌&&◌, Option, none, some, List, [], ◌∷◌, ◌++◌,
  ltb, leb, ◌==◌, if◌then◌else◌, u64, length, take,
}
use dbgbus.Outcome.{Outcome, ok, thrown, aborted, waiting, Run, bound}

-- What happens next at the descriptor: a byte has arrived, nothing has arrived when the program
-- looks, the other end has closed, or the descriptor itself is -1 or was closed, from where on it
-- stays so.
pub data Event : Type 0 where
  byte : ℕ → Event
  quiet closed gone : Event

-- The members of LLCOMMSI (`none` is the descriptor -1), and its surroundings.
pub record Comms : Type 0 where
  pub fdw : Option ℕ
  pub fdr : Option ℕ
  pub total_nread : ℕ
  pub total_nwrit : ℕ
  -- The class: TTYCOMMS, whose descriptor is O_NONBLOCK, or else NETCOMMS.
  pub nonblock : Bool
  pub input : List Event
  pub room : ℕ → ℕ
  pub output : List ℕ
  -- The descriptors passed to `::close`, the latest first.
  pub released : List ℕ

-- LLCOMMSI::LLCOMMSI, in given surroundings.
unfoldable pub init : Bool → List Event → (ℕ → ℕ) → Comms
init nonblock input room = record {
  fdw = none;
  fdr = none;
  total_nread = 0;
  total_nwrit = 0;
  nonblock = nonblock;
  input = input;
  room = room;
  output = [];
  released = [];
}

-- The end of TTYCOMMS::TTYCOMMS and NETCOMMS::NETCOMMS: one open descriptor for both directions.
unfoldable pub attach : ℕ → Comms → Comms
attach fd c = record c { fdw = some fd; fdr = some fd }

-- What `::read` comes to. `never` is a blocking read with nothing left to arrive.
pub data Arrival : Type 0 where
  bytes : List ℕ → Arrival
  fails never : Arrival

-- At most `n` bytes that have arrived, and what comes after them.
abbrev pub gather : ℕ → List Event → List ℕ × List Event
gather zero es = ([], es)
gather (suc n) (byte c ∷ es) = let (cs, rest) = gather n es in (c ∷ cs, rest)
gather (suc n) es = ([], es)

-- `::read(fdr, buf, n + 1)`: a blocking descriptor waits over the quiet times.
abbrev pub sys_read : Bool → ℕ → List Event → Arrival × List Event
sys_read nonblock n [] = (if nonblock then fails else never, [])
sys_read nonblock n (quiet ∷ es) =
    let later = sys_read nonblock n es in if nonblock then (fails, es) else later
sys_read nonblock n (closed ∷ es) = (fails, closed ∷ es)
sys_read nonblock n (gone ∷ es) = (fails, gone ∷ es)
sys_read nonblock n (byte c ∷ es) =
    let (cs, rest) = gather (suc n) (byte c ∷ es) in (bytes cs, rest)

abbrev pub arrived : Arrival × List Event → Run Comms (List ℕ)
arrived (bytes cs, es) c =
    (ok cs, record c { input = es; total_nread = u64 (c.total_nread + length cs) })
arrived (fails, es) c = (thrown, record c { input = es })
arrived (never, es) c = (waiting, record c { input = es })

-- LLCOMMSI::read of up to `n + 1` bytes.
unfoldable pub read : ℕ → Run Comms (List ℕ)
read n c = arrived (sys_read c.nonblock n c.input) c

-- LLCOMMSI::write. `::write` gives 0 or less where the link takes nothing, as a descriptor that is not
-- open does.
unfoldable pub write : List ℕ → Run Comms (Unit {0})
write buf c =
    let nw = min (c.room (length c.output)) (length buf) in
    let sent = record c { output = c.output ++ take nw buf } in
    if nw == 0
    then (thrown, sent)
    else if not (nw == length buf)
    then (aborted, sent)
    else (ok tt, record sent { total_nwrit = u64 (sent.total_nwrit + nw) })

-- `::poll` for POLLIN: whether a read would return at once.
abbrev pub sys_poll : List Event → Bool × List Event
sys_poll [] = (false, [])
sys_poll (quiet ∷ es) = (false, es)
sys_poll (byte c ∷ es) = (true, byte c ∷ es)
sys_poll (closed ∷ es) = (true, closed ∷ es)
sys_poll (gone ∷ es) = (false, gone ∷ es)

abbrev polled : Bool × List Event → Run Comms Bool
polled (b, es) c = (ok b, record c { input = es })

-- LLCOMMSI::poll; how long it waits is part of the schedule.
unfoldable pub poll : ℕ → Run Comms Bool
poll ms c = polled (sys_poll c.input) c

-- LLCOMMSI::available.
unfoldable pub available : Run Comms Bool
unfolding poll
available = poll 0

abbrev same_fd : Option ℕ → Option ℕ → Bool
same_fd none none = true
same_fd (some a) (some b) = a == b
same_fd _ _ = false

-- `if (fd >= 0) ::close(fd)`.
abbrev pub release : Option ℕ → List ℕ → List ℕ
release none fds = fds
release (some fd) fds = fd ∷ fds

-- Behind a `::close` every read and write of the descriptor fails, and a poll reports no input: with
-- the members set to -1 by LLCOMMSI::close, and with those kept by NETCOMMS::close alike.
abbrev pub disconnect : Comms → Comms
disconnect c = record c { input = gone ∷ []; room = λ n. 0 }

-- LLCOMMSI::close.
unfoldable pub close : Comms → Comms
close c =
    let fds = release c.fdw c.released in
    disconnect (record c {
      released = if not (same_fd c.fdr c.fdw) then release c.fdr fds else fds;
      fdw = none;
      fdr = none;
    })

-- Reading until a read gives nothing or fails, or for good.
abbrev pub drain : List Event → Outcome (Unit {0}) × List Event
drain [] = (waiting, [])
drain (closed ∷ es) = (ok tt, closed ∷ es)
drain (gone ∷ es) = (ok tt, gone ∷ es)
drain (byte c ∷ es) = drain es
drain (quiet ∷ es) = drain es

-- NETCOMMS::close: shut the sending side, read until the other end closes, close the descriptor.
-- The members keep their values.
unfoldable pub net_close : Run Comms (Unit {0})
net_close c =
    let (r, es) = drain c.input in
    bound (r, record c { input = es })
      λ _ d. (ok tt, disconnect (record d { released = release d.fdw d.released }))

-- The virtual close() of either class.
unfoldable pub virtual_close : Run Comms (Unit {0})
unfolding close net_close
virtual_close c = if c.nonblock then (ok tt, close c) else net_close c

-- LLCOMMSI::~LLCOMMSI, where close() is the one of LLCOMMSI.
unfoldable pub destroy : Comms → Comms
unfolding close
destroy c = close c
