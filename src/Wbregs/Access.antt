-- ===== src/Wbregs/Access.antt =====
-- main of wbregs, once it has its arguments, over any bus. What it prints on stdout and stderr is
-- kept; `ok` holds the status of its exit, and `aborted` is an exit or a failed assertion in what it
-- calls.
pub mod Faults
use dbgbus.Base.{
  ℕ, zero, suc, ◌+◌, ◌/◌, ◌%◌, ◌^◌, Bool, true, false, ◌||◌, Option, none, some, List, [], ◌∷◌,
  ◌++◌, ltb, leb, ◌==◌, if◌then◌else◌, u32, bit_and, get_or,
}
use dbgbus.Outcome.{
  Outcome, ok, bus_error, thrown, aborted, waiting, Run, bound, ◌>>=◌, ◌>>◌, pure, get, modify,
}
use dbgbus.Text.Ctype.{isgraph}
use dbgbus.Text.Decimal.{dec, field_8}
use dbgbus.Text.Hex.{hex_08}
use dbgbus.Text.Strings.{codes}
use dbgbus.Devbus.{Devbus}
use dbgbus.Regdefs.{addrname}
use dbgbus.Wbregs.Options.{Args, Parsed, runs, quits, options, resolve}

-- The bus of the program, and what it has printed.
pub record Session (B : Type 0) : Type 0 where
  pub bus : B
  pub out : List ℕ
  pub err : List ℕ

-- `printf("%08x (%8s)", address, nm)`.
abbrev pub label : ℕ → List ℕ → List ℕ
label address nm = hex_08 address ++ codes " (" ++ field_8 nm ++ codes ")"

-- `isgraph(a)?a:'.'` for the byte `v >> shift`.
abbrev pub graphic : ℕ → ℕ
graphic c = if isgraph c then c else b'.'

abbrev pub word_text : ℕ → List ℕ
word_text v =
    graphic (bit_and (v / 2 ^ 24) 0xff)
    ∷ graphic (bit_and (v / 2 ^ 16) 0xff)
    ∷ graphic (bit_and (v / 2 ^ 8) 0xff)
    ∷ graphic (bit_and v 0xff)
    ∷ []

-- `nm`, or the empty string.
abbrev pub name_of : ℕ → List ℕ
name_of address = elim (addrname address) [ none ↦ [] | some nm ↦ nm ]

-- What a statement of a try block comes to: on, or an exit with a status.
abbrev pub Block : Type 0 → Type 0
Block B = Run (Session B) (Option ℕ)

module _ {B : Type 0} (fpga : Devbus B) where
  -- The try block of a read and its handlers; `what` is the text of a `const char *` exception.
  abbrev pub peeked :
      List ℕ → Bool → ℕ → Outcome ℕ × B → List ℕ → List ℕ → Outcome (Option ℕ) × Session B
  peeked what decimal a (ok v, b) out err = (
    ok none,
    record {
      bus = b;
      out =
          out
          ++ (if decimal
              then dec v ++ codes "\n"
              else label a (name_of a)
                ++ codes " : ["
                ++ word_text v
                ++ codes "] "
                ++ hex_08 v
                ++ codes "\n");
      err = err;
    },
  )
  peeked what decimal a (bus_error e, b) out err = (
    ok none,
    record { bus = b; out = out ++ label a (name_of a) ++ codes " : BUS-ERROR\n"; err = err },
  )
  peeked what decimal a (thrown, b) out err = (
    ok (some 1),
    record { bus = b; out = out ++ codes "Caught bug: " ++ what ++ codes "\n"; err = err },
  )
  peeked what decimal a (aborted, b) out err = (aborted, record { bus = b; out = out; err = err })
  peeked what decimal a (waiting, b) out err = (waiting, record { bus = b; out = out; err = err })

  unfoldable pub peek : List ℕ → Bool → ℕ → Block B
  peek what decimal a s = peeked what decimal a (fpga.readio a s.bus) s.out s.err

  -- The try block of a write and its handlers.
  abbrev pub poked :
      List ℕ → ℕ → ℕ → Outcome (Unit {0}) × B → List ℕ → List ℕ → Outcome (Option ℕ) × Session B
  poked what a v (ok u, b) out err = (
    ok none,
    record {
      bus = b;
      out = out ++ label a (name_of a) ++ codes "-> " ++ hex_08 v ++ codes "\n";
      err = err;
    },
  )
  poked what a v (bus_error e, b) out err = (
    ok (some 1),
    record { bus = b; out = out ++ label a (name_of a) ++ codes " : BUS-ERR)R\n"; err = err },
  )
  poked what a v (thrown, b) out err = (
    ok (some 1),
    record { bus = b; out = out ++ codes "Caught bug on write: " ++ what ++ codes "\n"; err = err },
  )
  poked what a v (aborted, b) out err = (aborted, record { bus = b; out = out; err = err })
  poked what a v (waiting, b) out err = (waiting, record { bus = b; out = out; err = err })

  unfoldable pub poke : List ℕ → ℕ → ℕ → Block B
  poke what a v s = poked what a v (fpga.writeio a v s.bus) s.out s.err

  -- The end of main, unless it has exited: the interrupt, and `delete`.
  unfoldable pub finish : Run B (Unit {0}) → Option ℕ → Run (Session B) ℕ
  finish delete (some status) s = (ok status, s)
  finish delete none s =
      let text = if fpga.poll s.bus then codes "FPGA was interrupted\n" else [] in
      let (r, b) = delete s.bus in bound (r, record s { bus = b; out = s.out ++ text }) λ _. pure 0

  -- main from the address on.
  unfoldable pub access : (List ℕ → ℕ) → List ℕ → ℕ → Args → Block B
  unfolding peek poke resolve
  access strtoul what argc a s =
      bound (resolve strtoul (get_or a.argv 0 []), s)
        λ address.
          if ltb argc 2
          then peek what a.use_decimal address
          else poke what address (u32 (strtoul (get_or a.argv 1 [])))

  -- closeup: what the signals do.
  unfoldable pub closeup : Run (Session B) ℕ
  closeup s = let (r, b) = fpga.kill s.bus in bound (r, record s { bus = b }) λ _. pure 0

  -- What main leaves: its status, stdout and stderr.
  abbrev printed : Outcome ℕ × Session B → Outcome ℕ × List ℕ × List ℕ
  printed (r, s) = (r, s.out, s.err)

  abbrev run_with :
      (List ℕ → ℕ) → List ℕ → Run B (Unit {0}) → ℕ → Args → Option B → Outcome ℕ × List ℕ × List ℕ
  run_with strtoul what delete argc a none = (aborted, [], [])
  run_with strtoul what delete argc a (some b) =
      if argc == 0 || ltb 2 argc
      then (ok 255, codes "USAGE: wbregs address [value]\n", [])
      else printed
          ((access strtoul what argc a >>= finish delete) (record { bus = b; out = []; err = [] }))

  abbrev after_options :
      (List ℕ → ℕ)
      → List ℕ
      → (List ℕ → ℕ → Option B)
      → Run B (Unit {0})
      → Parsed
      → Outcome ℕ × List ℕ × List ℕ
  after_options strtoul what connect delete (quits out err) = (ok 0, out, err)
  after_options strtoul what connect delete (runs argc a) =
      run_with strtoul what delete argc a (connect a.host a.port)

  -- main, where `connect` opens the bus at a host and a port, or ends the program.
  unfoldable pub main :
      (List ℕ → ℕ)
      → List ℕ
      → (List ℕ → ℕ → Option B)
      → Run B (Unit {0})
      → List (List ℕ)
      → Outcome ℕ × List ℕ × List ℕ
  unfolding access finish options
  main strtoul what connect delete argv =
      after_options strtoul what connect delete (options strtoul argv)
