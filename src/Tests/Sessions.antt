-- ===== src/Tests/Sessions.antt =====
-- Sessions of several calls, waiting, and setting up, at concrete inputs.
use dbgbus.Base.{
  ◌==◌, if◌then◌else◌, ℕ, ◌+◌, ◌≡◌, inl, inr, refl, true, false, some, List, [], ◌∷◌, ◌++◌, map,
  arith, replicate,
}
use dbgbus.Comms
use dbgbus.Comms.{Event, byte, quiet}
use dbgbus.Outcome.{ok, aborted, ◌>>◌}
use dbgbus.Text.Strings.{codes}
use dbgbus.Devbus.{hexbus}
use dbgbus.Hexbus.State.{Hexbus}
use dbgbus.Hexbus.Receive.{wait}
use dbgbus.Hexbus.Receive.Replies.{text, unread, arrives}
use dbgbus.Hexbus.Receive.Idle.{on_input}
use dbgbus.Hexbus.Receive.Waiting.{wait-Interrupts}
use dbgbus.Hexbus.Transfer.{readv, readi, writei, writev, encode_address}
use dbgbus.Hexbus.Transfer.Position.{position}
use dbgbus.Hexbus.Transfer.Read.{requests}
use dbgbus.Hexbus.Transfer.Reads.Nonblocking.{readv-quiet}
use dbgbus.Hexbus.Target.{fetch, serve, contents, stored, played, spell_rounds}
use dbgbus.Hexbus.Target.Session.{
  Request, load_one, load, store_one, store_all, store_run, left_by, calls, answers, session,
  dialogue,
}
use dbgbus.Hexbus.Target.Session.Requests.{calls-refine}
use dbgbus.Hexbus.Transfer.Stalling.{Settles, writev-Settles}
use dbgbus.Hexbus.Target.Writing.{messages}
use dbgbus.Hexbus.Target.Drift.{writei-strays}
use dbgbus.Hexbus.Target.Unsent.{writei-readi}
use dbgbus.Scope.Trace.Keys.{Declared}
use dbgbus.System.{
  must, Termios, Answer, gives, attributes, socket, reuse_address, bind_any, listen, open_device,
  isatty, tcgetattr, tcsetattr, tcflow, System, ignore_sigpipe, handle, sigstop, sigbus, sigsegv,
  sigint, sighup,
}
use dbgbus.Netuart.Setup.{device, open_both}
use dbgbus.Netuart.Setup.Started.{handled, open_both-calls}
use dbgbus.Tests.Bus.{fresh, roomy, sevens, sevens-Synced}

-- Two words read, one written and read again, two written to one address, and two to addresses
-- that count up.
abbrev asked : List Request
asked =
    load 0x2048 true 1
    ∷ store_one 0x40 5
    ∷ load_one 0x40
    ∷ store_all 0x44 1 (2 ∷ 3 ∷ [])
    ∷ load 0x44 false 1
    ∷ store_run 0x50 8 (9 ∷ [])
    ∷ load 0x50 true 1
    ∷ []

calls-refine_example :
    let (events, u) = session asked (position fresh.link) sevens (quiet ∷ []) in
    (g : Hexbus) × (calls hexbus asked (on_input events fresh)
      ≡ (ok (answers asked sevens.memory).0, g))
    × (g.dev.input ≡ quiet ∷ [])
    × (g.dev.output ≡ fresh.dev.output ++ dialogue asked (position fresh.link))
    × (u.memory ≡ (answers asked sevens.memory).1)
    × (position g.link ≡ left_by asked (position fresh.link))
calls-refine_example =
    calls-refine asked sevens (quiet ∷ []) fresh (omega arith) (omega arith) (λ x. omega arith)
      sevens-Synced roomy refl

calls-refine_answers :
    (answers asked sevens.memory).0
    ≡ (15 ∷ 19 ∷ []) ∷ [] ∷ (5 ∷ []) ∷ [] ∷ (3 ∷ 3 ∷ []) ∷ [] ∷ (8 ∷ 9 ∷ []) ∷ []
calls-refine_answers = refl

-- An interrupt behind a pause and an idle mark.
abbrev late : Hexbus
late = on_input (quiet ∷ byte b'Z' ∷ quiet ∷ byte b'I' ∷ []) fresh

wait-Interrupts_example :
    (g : Hexbus) × (wait late ≡ (ok tt, g))
    × (g.interrupt_flag ≡ true)
    × (g.dev.output ≡ late.dev.output)
wait-Interrupts_example = wait-Interrupts late (inr (inl refl))

-- A master that counts up.
abbrev counting : Hexbus
counting = record fresh { link = record fresh.link { inc = true } }

writei-readi_example :
    let (replies, u) = serve (replicate 2 fetch) sevens in
    (g : Hexbus) × ((writei 0x2048 [] >> readi 0x2048 2) (unread (text replies) counting)
      ≡ (ok (contents sevens.memory 0x40 true 0 2), g))
    × (g.dev.output ≡ counting.dev.output ++ requests 2)
writei-readi_example =
    writei-readi 0x2048 (omega arith) refl 1 sevens counting (λ x. omega arith) (omega arith) refl
      refl roomy refl

writei-strays_example :
    let rounds = messages (encode_address 0x2048 fresh.link) 0x2048 5 (0 ∷ []) in
    let (before, u) = played rounds sevens [] in
    let replies = (serve (replicate 3 fetch) u).0 in
    (g : Hexbus) × ((writei 0x2048 (5 ∷ 0 ∷ []) >> readi 0x2058 3)
        (on_input (played rounds sevens (arrives (text replies) [])).0 fresh)
      ≡ (ok (contents (stored sevens.memory 0x2048 true 0 (5 ∷ 0 ∷ [])) 0x2050 true 0 3), g))
    × (g.dev.output ≡ fresh.dev.output ++ spell_rounds rounds ++ requests 3)
writei-strays_example =
    writei-strays 0x2048 (omega arith) refl 5 (0 ∷ []) 2 [] sevens fresh
      (omega arith, (omega arith, tt)) (omega arith) (λ x. omega arith) sevens-Synced roomy refl

readv-quiet_example : (readv 0x2048 true 1 (on_input (quiet ∷ byte b'R' ∷ []) fresh)).0 ≡ aborted
unfolding Comms.attach Comms.init
readv-quiet_example = readv-quiet 0x2048 true 0 (byte b'R' ∷ []) fresh refl roomy

-- The traces of MEMSCOPE.
abbrev declared : List Declared
declared =
    record { name = codes "wb_cyc"; nbits = 1; nshift = 31 }
    ∷ record { name = codes "wb_addr"; nbits = 6; nshift = 21 }
    ∷ record { name = codes "wb_idata"; nbits = 10; nshift = 0 }
    ∷ []

-- A terminal, where every call succeeds.
abbrev before : Termios
before = record { crtscts = true; cstopb = true; csize = 7; ispeed = 9600; ospeed = 9600; rest = 0 }

abbrev granted : ℕ → Answer
granted n = if n == 12 then attributes before else gives (n + 3)

abbrev set_up : System
set_up = record {
  answers = granted;
  calls =
      socket
      ∷ reuse_address 3
      ∷ bind_any 3 9401
      ∷ listen 3 1
      ∷ handle sigstop
      ∷ handle sigbus
      ∷ handle sigsegv
      ∷ ignore_sigpipe
      ∷ handle sigint
      ∷ handle sighup
      ∷ open_device (codes "/dev/ttyUSB0")
      ∷ isatty 13
      ∷ tcgetattr 13
      ∷ tcsetattr 13 (record before {
        crtscts = false;
        cstopb = false;
        csize = 8;
        ispeed = 4000000;
        ospeed = 4000000;
      })
      ∷ tcflow 13
      ∷ [];
}

open_both-calls_run :
    open_both
      (λ tb. tb)
      9401
      4000000
      (codes "/dev/ttyUSB0" ∷ [])
      (record { answers = granted; calls = [] })
    ≡ (ok (3, 13), set_up)
unfolding open_both must
open_both-calls_run = refl

open_both-calls_example :
    (dev : List ℕ) × (tb : Termios) × (device (codes "/dev/ttyUSB0" ∷ []) ≡ some dev)
    × (granted 12 ≡ attributes tb)
    × (set_up.calls
        ≡ (socket ∷ reuse_address 3 ∷ bind_any 3 9401 ∷ listen 3 1 ∷ [])
          ++ handled
          ++ open_device dev
            ∷ isatty 13
            ∷ tcgetattr 13
            ∷ tcsetattr 13 (record tb {
              crtscts = false;
              cstopb = false;
              csize = 8;
              ispeed = 4000000;
              ospeed = 4000000;
            })
            ∷ tcflow 13
            ∷ [])
open_both-calls_example =
    open_both-calls (λ tb. tb) 9401 4000000 3 13 (codes "/dev/ttyUSB0" ∷ []) granted set_up refl
      open_both-calls_run

-- A write that is acknowledged, and a bus error.
abbrev troubled : Hexbus
troubled =
    on_input (map byte (codes "A00000041\nK00000000\n") ++ quiet ∷ map byte (codes "E\n")) fresh

-- Two words, of which one is acknowledged.
writev-Settles_example : Settles 1 2 (writev 0x40 true (5 ∷ 6 ∷ []) troubled)
unfolding Comms.attach Comms.init
writev-Settles_example = writev-Settles 0x40 true (5 ∷ 6 ∷ []) troubled (omega arith)
