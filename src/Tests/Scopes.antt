-- ===== src/Tests/Scopes.antt =====
-- SCOPE over HEXBUS, and its VCD files, at concrete inputs.
use dbgbus.Base.{
  Bool, ℕ, ◌+◌, ◌≡◌, refl, true, false, none, some, List, [], ◌∷◌, ◌++◌, arith, replicate,
}
use dbgbus.Outcome.{ok}
use dbgbus.Text.Hex.{hex_08}
use dbgbus.Text.Strings.{codes}
use dbgbus.Devbus.{hexbus}
use dbgbus.Hexbus.Link.{hexb_addr}
use dbgbus.Hexbus.State.{Hexbus}
use dbgbus.Hexbus.Receive.Replies.{idle, interrupt, reply, newline, unread}
use dbgbus.Hexbus.Transfer.{encode_address}
use dbgbus.Hexbus.Transfer.Read.{Answer, answer_text, values, requests}
use dbgbus.Hexbus.Transfer.Reads.{echoed}
use dbgbus.Scope.Device.{Scope, rawread}
use dbgbus.Scope.Device.Reads.{known}
use dbgbus.Scope.Device.Wired.{rawread-hexbus}
use dbgbus.Scope.Trace.Keys.{Declared, register_all}
use dbgbus.Scope.Vcd.{Entry, Printer, writevcd, write_body}
use dbgbus.Scope.Vcd.Contents.{of_sample}
use dbgbus.Scope.Vcd.Plain.{IsClock}
use dbgbus.Scope.Vcd.Reader.{value_at, trace_key, trace_bits}
use dbgbus.Scope.Vcd.Recorded.{write_body-recorded}
use dbgbus.Scope.Vcd.Wired.{writevcd-hexbus}
use dbgbus.Tests.Bus.{fresh, roomy}

-- A clock with its falling edge in the middle, and two traces.
abbrev printer : Printer
printer = record {
  now_ns = λ hz i. i;
  rise_ns = λ hz i. i + i;
  fall_ns = λ hz i. i + i + 1;
  raw_data = codes "_raw_data";
  clk = codes "clk";
  trigger_name = codes "_trigger";
  define_traces = λ s. s;
}

ticking : IsClock (printer.rise_ns 1000) (printer.fall_ns 1000)
ticking = record {
  rising = λ a b lt. omega arith;
  high = λ a. omega arith;
  low = λ a b lt. omega arith;
}

abbrev strobe : Declared
strobe = record { name = codes "strobe"; nbits = 1; nshift = 31 }

abbrev level : Declared
level = record { name = codes "level"; nbits = 6; nshift = 4 }

abbrev scope : Bool → Scope
scope compressed = record {
  addr = 0x2050;
  compressed = compressed;
  vector_read = true;
  scoplen = 0;
  holdoff = 0;
  samples = none;
  clkfreq_hz = 1000;
  traces = register_all (strobe ∷ level ∷ []) [];
}

-- The control word of a scope of 8 words, behind an idle mark, and the words.
abbrev control_answer : Answer
control_answer = record { before = reply idle ∷ newline ∷ []; value = 0x300005 }

abbrev answer_of : ℕ → Answer
answer_of v = record { before = []; value = v }

abbrev more_answers : List Answer
more_answers =
    record { before = reply interrupt ∷ newline ∷ []; value = 0x80000120 }
    ∷ replicate 6 (answer_of 0x30)

rawread-hexbus_example :
    let head = encode_address 0x2051 fresh.link in
    let next = hexb_addr ∷ hex_08 0x2055 in
    (g : Hexbus) × (rawread hexbus
        (λ n. replicate n 0)
        (record {
          scope = scope false;
          bus =
              unread
                (answer_text (echoed head 0x2051 control_answer ∷ []))
                (unread (answer_text (echoed next 0x2055 (answer_of 7) ∷ more_answers)) fresh);
        })
      ≡ (
        ok tt,
        record {
          scope = record (known 0x300005 (scope false)) {
            samples = some (values (answer_of 7 ∷ more_answers));
          };
          bus = g;
        },
      ))
    × (g.dev.input ≡ fresh.dev.input)
    × (g.dev.output ≡ fresh.dev.output ++ (head ++ requests 1) ++ (next ++ requests 8))
rawread-hexbus_example =
    rawread-hexbus (λ n. replicate n 0) control_answer (answer_of 7) more_answers (scope false)
      fresh refl refl refl refl (omega arith) (omega arith) (omega arith) refl (omega arith) roomy
      refl

writevcd-hexbus_example :
    let head = encode_address 0x2051 fresh.link in
    let next = hexb_addr ∷ hex_08 0x2055 in
    (g : Hexbus) × (file : List Entry) × (writevcd hexbus printer
        (λ n. replicate n 0)
        (record {
          scope = scope false;
          bus =
              unread
                (answer_text (echoed head 0x2051 control_answer ∷ []))
                (unread (answer_text (echoed next 0x2055 (answer_of 7) ∷ more_answers)) fresh);
        })
      ≡ (
        ok file,
        record {
          scope = record (known 0x300005 (scope false)) {
            samples = some (values (answer_of 7 ∷ more_answers));
          };
          bus = g;
        },
      ))
    × (value_at 2 (trace_key 1) file none ≡ some (trace_bits level 0x80000120))
writevcd-hexbus_example =
    writevcd-hexbus printer (λ n. replicate n 0) control_answer (answer_of 7) more_answers strobe
      (level ∷ []) (scope false) fresh 1 1 0x80000120 level ticking refl refl (omega arith)
      (omega arith) refl refl refl refl (omega arith) (omega arith) (omega arith) refl (omega arith)
      roomy refl refl refl

-- A sample that stays for three clocks more, and another.
abbrev squeezed : List ℕ
squeezed = 0x120 ∷ 0x80000002 ∷ 0x30 ∷ []

write_body-recorded_example :
    value_at 3 (trace_key 1) (write_body printer (scope true) squeezed) none
    ≡ of_sample (trace_bits level) (some 0x120)
write_body-recorded_example =
    write_body-recorded printer (scope true) (strobe ∷ level ∷ []) 1 3 level squeezed (some 0x120)
      (λ a b lt. lt) refl refl (omega arith) (omega arith) refl (omega arith) refl
