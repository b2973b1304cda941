-- ===== src/Netuart.antt =====
-- sw/netuart.cpp: the bridge between the serial port and one network connection.
pub mod Lines
pub mod Program
pub mod Setup
pub mod Serving
use dbgbus.Base.{
  ℕ, zero, suc, ◌+◌, ◌-◌, Bool, true, false, not, ◌&&◌, ◌||◌, Option, none, some, List, [], ◌∷◌,
  ◌++◌, ltb, leb, ◌==◌, if◌then◌else◌, set, length, take,
}
use dbgbus.Outcome.{Outcome, ok, aborted, waiting, Run, bound, ◌>>◌, pure}

-- One direction of LINBUFS: the line buffer of 512 bytes, and how many of them are in use; and the
-- lines printed so far, as the buffer and the index of its NUL.
pub record Line : Type 0 where
  pub buf : List ℕ
  pub len : ℕ
  pub printed : List (List ℕ)

-- One byte into the line buffer: the bodies of the two loops `for(int i=0; i<nr; i++)` of
-- check_incoming, but for an assertion. A line ends at \n, at \r or where the buffer is full.
unfoldable pub put_char : ℕ → Line → Line
put_char c l =
    let buf = set l.buf l.len c in
    let n = l.len + 1 in
    let full = leb 511 n in
    if c == b'\n' || (c == b'\r' || full)
    then (let at = if full then n else n - 1 in
        record {
          buf = set buf at 0;
          len = 0;
          printed = if ltb 1 n then l.printed ++ take at buf ∷ [] else l.printed;
        })
    else record l { buf = buf; len = n }

unfoldable pub put_chars : List ℕ → Line → Line
unfolding put_char
put_chars [] l = l
put_chars (c ∷ cs) l = put_chars cs (put_char c l)

-- LINBUFS, the connection, and what has been passed on: `to_tty` and `to_net`; `released` are the
-- descriptors closed, the latest first.
pub record Bridge : Type 0 where
  pub iline : Line
  pub oline : Line
  pub connected : Bool
  pub to_tty : List ℕ
  pub to_net : List ℕ
  pub released : List ℕ

-- What one `poll` and the `read` after it give of a descriptor: nothing, bytes (at most 256), the
-- end, a failed read, or an event without input.
pub data Ready : Type 0 where
  silent : Ready
  got : List ℕ → Ready
  ended broken strange : Ready

-- `write` to the connection of all the bytes, where it succeeds; or else the connection is closed.
abbrev forward : Option ℕ → Bool → List ℕ → Bridge → Option ℕ × Bridge
forward none sends bs b = (none, b)
forward (some fd) sends bs b =
    if sends
    then (some fd, record b { to_net = b.to_net ++ bs })
    else (none, record b { released = fd ∷ b.released; connected = false })

-- The half of check_incoming for the serial port. It gives the descriptor of the connection, which
-- is `none` from where a write to it failed.
unfoldable pub from_tty : Ready → Option ℕ → Bool → Run Bridge (Option ℕ)
unfolding put_chars
from_tty silent confd sends b = (ok confd, b)
from_tty (got bs) confd sends b =
    let (fd, c) = forward confd sends bs b in (ok fd, record c { iline = put_chars bs c.iline })
from_tty ended confd sends b = (aborted, b)
from_tty broken confd sends b = (aborted, b)
from_tty strange confd sends b = (aborted, b)

-- What is left after `n` bytes.
abbrev pub drop : ℕ → List ℕ → List ℕ
drop n [] = []
drop zero (x ∷ xs) = x ∷ xs
drop (suc n) (x ∷ xs) = drop n xs

-- What a `write` to the serial port gives: how many bytes it took, EAGAIN, or another failure.
pub data Written : Type 0 where
  wrote : ℕ → Written
  busy failed : Written

-- The loop that copies bytes to the serial port: `writes` are the results of `write`. A failure other
-- than EAGAIN is a failing assertion, and 0 ends the program.
unfoldable pub to_tty_loop : List Written → List ℕ → Run Bridge (Unit {0})
to_tty_loop writes [] b = (ok tt, b)
to_tty_loop [] (c ∷ cs) b = (waiting, b)
to_tty_loop (busy ∷ ws) (c ∷ cs) b = to_tty_loop ws (c ∷ cs) b
to_tty_loop (failed ∷ ws) (c ∷ cs) b = (aborted, b)
to_tty_loop (wrote n ∷ ws) (c ∷ cs) b =
    let rest =
      to_tty_loop ws (drop n (c ∷ cs)) (record b { to_tty = b.to_tty ++ take n (c ∷ cs) }) in
    if n == 0 then (aborted, b) else rest

abbrev pub no_nul : List ℕ → Bool
no_nul [] = true
no_nul (c ∷ cs) = not (c == 0) && no_nul cs

-- The assertion in the loop fails at a NUL, which is in the buffer by then.
abbrev pub log_bytes : List ℕ → Run Bridge (Unit {0})
log_bytes bs b =
    if no_nul bs then (ok tt, record b { oline = put_chars bs b.oline }) else (aborted, b)

abbrev pub end_line : Line → Line
end_line l = record {
  buf = if ltb 0 l.len then set l.buf l.len 0 else l.buf;
  len = 0;
  printed = if ltb 0 l.len then l.printed ++ take l.len l.buf ∷ [] else l.printed;
}

-- The half of check_incoming for the connection, if there is one.
unfoldable pub from_net : Ready → List Written → Option ℕ → Run Bridge (Unit {0})
unfolding to_tty_loop put_chars
from_net r writes none b = (ok tt, b)
from_net silent writes (some fd) b = (ok tt, b)
from_net (got bs) writes (some fd) b = (to_tty_loop writes bs >> log_bytes bs) b
from_net ended writes (some fd) b =
    (ok tt, record b { connected = false; oline = end_line b.oline; released = fd ∷ b.released })
from_net broken writes (some fd) b = (ok tt, b)
from_net strange writes (some fd) b = (aborted, b)

-- check_incoming, with what is ready at the two descriptors, whether the write to the connection
-- succeeds, and the results of the writes to the serial port.
unfoldable pub check_incoming :
    Ready → Ready → Bool → List Written → Option ℕ → Run Bridge (Unit {0})
unfolding from_tty from_net
check_incoming tty net sends writes confd b =
    bound (from_tty tty confd sends b) (λ fd. from_net net writes fd)
