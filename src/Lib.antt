-- ===== src/Lib.antt =====
-- A verification library of dbgbus, the debugging bus between a host and an FPGA: the C++ of the
-- host and of the simulation.
--
-- The program's parts. A client holds a DEVBUS (sw/devbus.h); HEXBUS (hexbus/sw) is one, which
-- writes commands in hexadecimal to an LLCOMMSI (sw/llcomms) and reads the replies of the target
-- from it. SCOPE (sw/scopecls) reads a logic analyzer over a DEVBUS, prints what it reads and writes
-- a VCD file. netuart (sw/netuart.cpp) stands between the serial port and a network connection.
-- UARTSIM (bench/cpp/uartsim) is the serial port of the simulation, TESTB (bench/cpp/testb.h) clocks
-- the simulated design, and autotest (bench/cpp/autotest.cpp) talks to it. regdefs (sw/regdefs) names
-- addresses. wbregs (sw/wbregs.cpp) reads or writes one word of the bus, and memscope
-- (sw/memscope.cpp) shows one scope.
--
-- The files:
--   Base, Base/Tests, Base/Lists, Base/Bits: shared names, Boolean tests on native numbers, lists
--     indexed by them, `&` and `|` as arithmetic, 32-bit and 64-bit words.
--   Text, Text/Ctype, Text/Decimal, Text/Hex, Text/Strings: <ctype.h>, `%d`, `%x` and `%08x`, and
--     how HEXBUS reads digits; text literals as bytes.
--   Outcome, Outcome/Ends, Outcome/Keeps: how a call ends (a value, an exception, an abort,
--     waiting for good), the monad of calls on an object, and rules for what a chain of calls
--     keeps.
--   System, System/Made: the calls that set up descriptors, with what the operating system answers
--     to each, and rules for the calls that a program has made.
--   Comms, Comms/Laws, Comms/Opening: LLCOMMSI, and how TTYCOMMS and NETCOMMS are opened. What the
--     operating system does is part of the state: `input` is the schedule of bytes, of pauses and
--     of the end, and `room` bounds what a write takes. A close puts in their place what a
--     descriptor does that is not open: nothing arrives, and nothing is taken.
--   Hexbus/State: the members of HEXBUS, init, bufalloc, lclreadcode and the short members.
--   Hexbus/Link: the registers of the protocol and one round of readword and of readidle.
--   Hexbus/Receive: readword, readidle, usleep, wait. Below it: Replies (the replies of the target
--     and what they mean), Round and Letters (one round of a loop, and one reply), Words
--     (readword), Idle (readidle, and Idle/Mild without a reset), Words/Errors and Idle/Errors (a
--     bus error, a third idle mark), Fuel (that readidle ends), Waiting (when wait ends).
--   Hexbus/Transfer: encode_address, writev, readv, readio, writeio, readi, readz, writei, writez.
--     Below it: Address and Position (the address registers), Read and Reads (readv), Acks, Write
--     and Writes (writev), Reads/Faults and Writes/Faults (bus errors), Reads/Nonblocking (a read
--     of nothing), Stalling (when writev returns and when it waits for good), and below it Counting
--     (which acknowledgements readidle counts).
--   Hexbus/Target: a target with a memory, a specification as in hexbus/README.md, and below it
--     where it stands in a transfer (Standing), readv (Reading), writev (Writing), the calls of
--     DEVBUS in a row (Session, and below it where the target stands before each (Placing), one call
--     (Calls) and all of them (Requests)), a writev of no words (Unsent), and a read behind a writei
--     (Drift).
--   Hexbus/Buffer, Hexbus/Closing: the buffer of HEXBUS and the loop of lclreadcode; the
--     descriptor when HEXBUS is destroyed, and what HEXBUS does once it is closed.
--   Devbus: the calls of DEVBUS as a record, and HEXBUS as such a bus.
--   Scope/Trace, Scope/Device, Scope/Vcd, Scope/Print, Scope/Control: SCOPE over any DEVBUS. Below
--     them: Trace/Values and Trace/Keys (the lines and the keys of the traces), Device/Reads (what
--     rawread reads), Device/Wired (rawread over HEXBUS), Vcd/Marks (where a VCD file marks the
--     trigger), Vcd/Reader (a reader of a VCD file), Vcd/Contents and Vcd/Recorded (what it sees of
--     a compressed scope), Vcd/Plain (of a plain one), Vcd/Wired (writevcd over HEXBUS), Print/Rows
--     (what print shows), Control/Readiness (what the control word says).
--   Uart, Uart/Calls, Uart/Listening: UARTSIM, the calls that lead to rawtick, and the listener.
--     Below Uart: Frame, Receiver and Loopback (what its receiver makes of a frame), Framing and
--     Sender (what it sends), Between and Pending (the receiver from one frame to the next), Wire
--     and Wire/Ticks (two UARTSIMs clock by clock), Clocks, Pairs and Stream (characters from one to
--     the other).
--   Netuart, Netuart/Lines, Netuart/Program, Netuart/Serving, Netuart/Setup, Setup/Started:
--     check_incoming of netuart, its line buffers, the steps of its main, the states that they
--     reach, and what main sets up before.
--   Regdefs, Regdefs/Names: addrdecode and addrname.
--   Memscope, Memscope/Fields, Memscope/Program: the traces and the fields of MEMSCOPE, and main.
--   Wbregs/Usage, Wbregs/Options, Wbregs/Access: the text, the options and the accesses of wbregs.
--     Below them: Options/Parsing (what becomes of the arguments), Access/Faults (bus errors).
--   Bench/Testb, Bench/Simulation: TESTB, and the bench of bench/cpp/testbus_tb.cpp. Below them:
--     Testb/Trace (the times of a trace).
--   Bench/Autotest, Bench/Response, Bench/Processes: the bench, the tests and the processes of
--     autotest. Below them: Autotest/Start (the first ticks), Response/Cleaning (what getresponse
--     makes of a reply).
--   Tests, Tests/Bus, Tests/Faults, Tests/Host, Tests/Programs, Tests/Scopes, Tests/Serial,
--     Tests/Sessions: the theorems at concrete inputs.
--
-- Bounds and fuel. `unsigned` and `unsigned long` wrap at 2^32 and 2^64 (u32, u64). The loops of
-- readword, readidle and wait take an event of the schedule in each round but the last, and run on
-- fuel that is one more than the length of the schedule; with a schedule that has run out, a call
-- that would block for good, or poll for good as wait does, ends in `waiting`. The loop of writev
-- that waits for acknowledgements takes a pause of the schedule in each round, and has the same
-- fuel; so has the inner loop of getresponse. The loop of main of a bench takes what the operating
-- system answers to each tick, and is followed as far as that goes. main of netuart has no end, and
-- is a relation of steps.
--
-- Not modelled: what the signal handlers do, which only end a program; messages about failures, and
-- debugging output; the floating point arithmetic of times, which is a parameter of the VCD file;
-- the Verilog cores and the design that Verilator builds of them, which is a parameter of the
-- benches. A buffer is the list of its words, so that a length is never negative.
pub mod Base
pub mod Text
pub mod System
pub mod Outcome
pub mod Comms
pub mod Hexbus
pub mod Devbus
pub mod Scope
pub mod Regdefs
pub mod Uart
pub mod Wbregs
pub mod Bench
pub mod Netuart
pub mod Memscope
mod Tests
