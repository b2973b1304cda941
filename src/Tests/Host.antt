-- ===== src/Tests/Host.antt =====
-- The programs on the host at concrete inputs.
use dbgbus.Base.{
  ℕ, ◌+◌, ◌≡◌, refl, Bool, true, false, none, some, [], ◌∷◌, arith, length, All, replicate,
}
use dbgbus.Outcome.{ok}
use dbgbus.Text.Strings.{codes}
use dbgbus.Regdefs.{addrname, addrdecode}
use dbgbus.Regdefs.Names.{addrdecode-addrname}
use dbgbus.Netuart.{Bridge, Line, got, wrote, busy, to_tty_loop, check_incoming}
use dbgbus.Netuart.Lines.{IsValid, AreValid, to_tty_loop-all, check_incoming-AreValid}
use dbgbus.Devbus.{Devbus}
use dbgbus.Scope.Device.{Scope}
use dbgbus.Scope.Vcd.{Printer, write_body}
use dbgbus.Scope.Vcd.Marks.{marks, flags, IsLow, write_body-marks, write_body-unmarked}
use dbgbus.Scope.Print.{plain_rows}
use dbgbus.Scope.Print.Rows.{filled, plain_rows-filled}

addrdecode-addrname_example : addrdecode length (codes "PWRCOUNT") ≡ ok 0x204c
addrdecode-addrname_example =
    addrdecode-addrname length 0x204c (codes "PWRCOUNT") (unfold addrname in refl)

abbrev empty_line : Line
empty_line = record { buf = replicate 512 0; len = 0; printed = [] }

abbrev empty_line-IsValid : IsValid empty_line
empty_line-IsValid = record { size = refl; room = omega arith }

abbrev bridge : Bridge
bridge = record {
  iline = empty_line;
  oline = empty_line;
  connected = true;
  to_tty = [];
  to_net = [];
  released = [];
}

to_tty_loop-all_example :
    to_tty_loop (wrote 2 ∷ busy ∷ wrote 1 ∷ []) (codes "A0R") bridge
    ≡ (ok tt, record bridge { to_tty = codes "A0R" })
to_tty_loop-all_example =
    to_tty_loop-all (wrote 2 ∷ busy ∷ wrote 1 ∷ []) (codes "A0R") bridge
      (omega arith, (omega arith, tt)) (omega arith)

check_incoming-AreValid_example :
    AreValid
      (check_incoming
        (got (codes "K00000000"))
        (got (codes "A0R"))
        true
        (wrote 3 ∷ [])
        (some 5)
        bridge).1
check_incoming-AreValid_example =
    check_incoming-AreValid (got (codes "K00000000")) (got (codes "A0R")) true (wrote 3 ∷ [])
      (some 5) bridge (record { tty = empty_line-IsValid; net = empty_line-IsValid })

abbrev printer : Printer
printer = record {
  now_ns = λ hz i. i;
  rise_ns = λ hz i. i;
  fall_ns = λ hz i. i;
  raw_data = codes "_raw_data";
  clk = codes "clk";
  trigger_name = codes "_trigger";
  define_traces = λ s. s;
}

abbrev scope : Bool → Scope
scope compressed = record {
  addr = 0x2080;
  compressed = compressed;
  vector_read = true;
  scoplen = 4;
  holdoff = 1;
  samples = none;
  clkfreq_hz = 100000000;
  traces = record { name = codes "state"; key = codes "va"; nbits = 4; nshift = 2 } ∷ [];
}

write_body-marks_example :
    marks (write_body printer (scope false) (1 ∷ 1 ∷ 5 ∷ 7 ∷ [])) ≡ flags 2 0 4
write_body-marks_example =
    write_body-marks printer (scope false) (1 ∷ 1 ∷ 5 ∷ 7 ∷ []) refl refl (omega arith)
      (omega arith)

write_body-unmarked_example :
    All IsLow (marks (write_body printer (scope true) (1 ∷ 0x80000003 ∷ 5 ∷ 7 ∷ [])))
write_body-unmarked_example =
    write_body-unmarked printer (scope true) (1 ∷ 0x80000003 ∷ 5 ∷ 7 ∷ []) refl refl
      (omega arith, (omega arith, (omega arith, (omega arith, tt)))) (omega arith) (omega arith)

plain_rows-filled_example :
    filled 0 0 (plain_rows 4 2 0 0 0 (1 ∷ 1 ∷ 1 ∷ 7 ∷ [])) ≡ 1 ∷ 1 ∷ 1 ∷ 7 ∷ []
plain_rows-filled_example = plain_rows-filled 4 2 (1 ∷ 1 ∷ 1 ∷ 7 ∷ []) refl

-- A bus of which every read is answered: the control word has a length of 2^3 and a holdoff of 5.
abbrev ready_bus : Devbus ℕ
ready_bus = record {
  kill = λ b. (ok tt, b);
  close = λ b. (ok tt, b);
  writeio = λ a v b. (ok tt, b);
  readio = λ a b. (ok 0x300005, b + 1);
  readi = λ a n b. (ok (replicate n 7), b + n);
  readz = λ a n b. (ok (replicate n 7), b + n);
  writei = λ a vs b. (ok tt, b);
  writez = λ a vs b. (ok tt, b);
  poll = λ b. false;
  usleep = λ ms b. (ok tt, b);
  wait = λ b. (ok tt, b);
  bus_err = λ b. false;
  reset_err = λ b. b;
  clear = λ b. b;
}

abbrev unread_scope : Scope
unread_scope = record (scope false) { scoplen = 0; holdoff = 0 }
