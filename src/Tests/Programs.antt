-- ===== src/Tests/Programs.antt =====
-- autotest and netuart at concrete inputs.
use dbgbus.Base.{
  ℕ, suc, ◌+◌, ◌*◌, ◌≡◌, refl, true, false, none, some, List, [], ◌∷◌, ◌++◌, arith, replicate,
}
use dbgbus.Outcome.{ok}
use dbgbus.Text.Strings.{codes}
use dbgbus.Comms.{byte, quiet}
use dbgbus.Hexbus.Receive.Replies.{arrives}
use dbgbus.Uart.{nothing}
use dbgbus.Uart.Calls.{Answers}
use dbgbus.Tests.Serial.{connected}
use dbgbus.Bench.Testb.{Core}
use dbgbus.Bench.Autotest
use dbgbus.Bench.Response.{Pipes, getresponse, skip_spaces}
use dbgbus.Bench.Response.Cleaning.{tidy, getresponse-tidy}
use dbgbus.Netuart.Program.{
  Program, caller, Reach, start, then_step, accept, begins, myaccept, emptying,
}
use dbgbus.Netuart.Serving.{IsSound, begins-IsSound}

-- A design that counts its evaluations, and sends a low line.
abbrev counter : Core ℕ
counter = record {
  eval = suc;
  i_clk = λ b c. c;
  i_reset = λ b c. c;
  i_uart = λ w c. c + 100 * w;
  o_uart = λ c. 0;
  o_halt = λ c. false;
  got_finish = λ c. false;
}

abbrev automatic : Autotest.TestbusTb ℕ
automatic = record {
  testb = record { core = 0; trace = none; tickcount = 0; traces = [] };
  uart = connected;
  is_done = false;
  ticks = 0;
}

abbrev sent : Answers
sent = record { pending = none; sends = true; incoming = nothing }

abbrev pipes : Pipes
pipes = record { requests = []; input = []; out = [] }

getresponse-tidy_example :
    let text = tidy 0 (codes "\r\nK0\r") ++ b'\n' ∷ [] in
    getresponse
      (codes "W" ++ b'\n' ∷ [])
      (record pipes { input = arrives (codes "\r\nK0\r" ++ b'\n' ∷ []) (quiet ∷ byte b'I' ∷ []) })
    ≡ (
      ok text,
      record {
        requests = codes "W" ++ b'\n' ∷ [];
        input = byte b'I' ∷ [];
        out = codes "< " ++ (codes "W" ++ b'\n' ∷ []) ++ codes "> " ++ skip_spaces text;
      },
    )
getresponse-tidy_example =
    getresponse-tidy (codes "W") (codes "\r\nK0\r") (byte b'I' ∷ []) pipes (omega arith, tt)
      (omega arith)

abbrev blank : List ℕ
blank = replicate 512 0

abbrev served : Program
served = record {
  phase = emptying (some 5);
  accepted = 5 ∷ [];
  bridge = record (begins blank blank).bridge { connected = true };
}

called : Reach (begins blank blank) served
unfolding begins myaccept
called = then_step start (accept (caller 5) (some 5) [] (begins blank blank).bridge refl)

begins-IsSound_example : IsSound served
begins-IsSound_example = begins-IsSound blank blank served refl refl called
