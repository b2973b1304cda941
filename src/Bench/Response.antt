-- ===== src/Bench/Response.antt =====
-- bench/cpp/autotest.cpp: getresponse, the tests, and the parent process of main. The bytes that come
-- back follow a schedule as in Comms: the pipe blocks, `quiet` is where nothing comes within the
-- timeout, and `closed` is the end of the file. A response is the list of its bytes, so that its
-- length is not bounded by the 512 bytes of the buffer; it has no NUL in it.
pub mod Cleaning
use dbgbus.Base.{
  ℕ, zero, suc, ◌+◌, Bool, true, false, not, ◌&&◌, List, [], ◌∷◌, ◌++◌, ltb, ◌==◌, if◌then◌else◌,
  get_or, length,
}
use dbgbus.Comms.{Event, Arrival, bytes, fails, never, sys_read, sys_poll}
use dbgbus.Outcome.{Outcome, ok, bus_error, thrown, aborted, waiting, Run, bound, ◌>>=◌}
use dbgbus.Text.Ctype.{isspace}
use dbgbus.Text.Decimal.{dec}
use dbgbus.Text.Strings.{codes}

-- `rptr[posn-1]`.
abbrev pub last : List ℕ → ℕ
last [] = 0
last (c ∷ []) = c
last (c ∷ d ∷ cs) = last (d ∷ cs)

-- A carriage return, or a second line end.
unfoldable pub skipped : ℕ → List ℕ → Bool
skipped c got = if c == b'\r' then true else ltb 0 (length got) && (c == b'\n' && last got == b'\n')

-- What a round of the inner loop comes to: on, with what has been read, or its end.
pub data Next : Type 0 where
  goes : List ℕ → List Event → Next
  stops : Outcome (List ℕ) → List Event → Next

abbrev if_more : List ℕ → Bool × List Event → Next
if_more got (true, es) = goes got es
if_more got (false, es) = stops (ok got) es

-- What is done with a byte, and what is to come behind it.
unfoldable pub take_byte : ℕ → List ℕ → List Event → Next
unfolding skipped
take_byte c got es =
    if skipped c got
    then goes got es
    else if c == b'\n'
    then if_more (got ++ c ∷ []) (sys_poll es)
    else goes (got ++ c ∷ []) es

abbrev on_read : List ℕ → Arrival × List Event → Next
on_read got (bytes cs, es) = take_byte (get_or cs 0 0) got es
on_read got (fails, es) = stops (ok got) es
on_read got (never, es) = stops waiting es

-- The inner loop, with what was read of this response so far.
unfoldable pub read_loop : ℕ → List ℕ → Run (List Event) (List ℕ)
unfolding take_byte
read_loop zero got es = (waiting, es)
read_loop (suc fuel) got es = elim (on_read got (sys_read false 0 es)) [
  | goes more rest ↦ read_loop fuel more rest
  | stops r rest ↦ (r, rest)
]

-- `while(*ptr && isspace(*ptr)) ptr++`.
unfoldable pub skip_spaces : List ℕ → List ℕ
skip_spaces [] = []
skip_spaces (c ∷ cs) =
    let rest = skip_spaces cs in if not (c == 0) && isspace c then rest else c ∷ cs

-- The pipes: the requests written so far, what is to come back, and what is printed.
pub record Pipes : Type 0 where
  pub requests : List ℕ
  pub input : List Event
  pub out : List ℕ

-- A line with its end, and what follows it; `false` is where no line end is left.
abbrev pub split_line : List ℕ → Bool × List ℕ × List ℕ
split_line [] = (false, [], [])
split_line (c ∷ cs) =
    let (found, line, rest) = split_line cs in
    if c == b'\n' then (true, c ∷ [], cs) else (found, c ∷ line, rest)

-- A request and its response, behind what was responded before: the blanks at its start are not
-- printed, but are left in the response, since only `rptr` moves over them.
unfoldable pub request : List ℕ → List ℕ → Run Pipes (List ℕ)
unfolding read_loop skip_spaces
request response line p =
    let (r, rest) = read_loop (suc (length p.input)) [] p.input in
    let asked : Pipes = record {
      requests = p.requests ++ line;
      input = rest;
      out = p.out ++ codes "< " ++ line;
    } in
    bound (r, asked)
      λ got q.
        let text = skip_spaces got in
        (ok (response ++ got), record q { out = q.out ++ codes "> " ++ text })

abbrev unless_nul : (List ℕ → List ℕ → Run Pipes (List ℕ)) → List ℕ → List ℕ → Run Pipes (List ℕ)
unless_nul again response [] p = (ok response, p)
unless_nul again response (c ∷ cs) p = elim (c == 0) [
  | true ↦ (ok response, p)
  | false ↦ again response (c ∷ cs) p
]

abbrev ask :
    (List ℕ → List ℕ → Run Pipes (List ℕ)) → List ℕ → Bool × List ℕ × List ℕ → Run Pipes (List ℕ)
ask again response (false, line, rest) p = (ok response, p)
ask again response (true, line, rest) p =
    bound (request response line p) λ r. unless_nul again r (skip_spaces rest)

-- The outer loop, over the lines of the command that are left.
unfoldable pub respond : ℕ → List ℕ → List ℕ → Run Pipes (List ℕ)
unfolding request skip_spaces
respond zero response cmd p = (waiting, p)
respond (suc fuel) response cmd p = ask (respond fuel) response (split_line cmd) p

-- getresponse: the response that it leaves.
unfoldable pub getresponse : List ℕ → Run Pipes (List ℕ)
unfolding respond
getresponse cmd p = respond (suc (length cmd)) [] cmd p

-- `strcmp(...) == 0`, of texts without NUL.
abbrev pub same_text : List ℕ → List ℕ → Bool
same_text [] [] = true
same_text [] (d ∷ ds) = false
same_text (c ∷ cs) [] = false
same_text (c ∷ cs) (d ∷ ds) = c == d && same_text cs ds

-- A test that compares: what it sends, and what it takes for right.
unfoldable pub compare_test : List ℕ → List ℕ → List ℕ → Run Pipes ℕ
unfolding getresponse
compare_test number cmd check p = bound (getresponse cmd p) λ response q.
    let text = skip_spaces response in
    if same_text text check then (ok 0, q) else (
      ok 1,
      record q {
        out =
            q.out
            ++ codes "CHECK"
            ++ number
            ++ codes ": -- FAILS\n"
            ++ codes "RCV: "
            ++ text
            ++ codes "PAT: "
            ++ check;
      },
    )

unfoldable pub test1_read : Run Pipes ℕ
unfolding compare_test
test1_read = compare_test (codes "1") (codes "A2040R\n") (codes "A00002040R20170622\n")

unfoldable pub test2_multiread : Run Pipes ℕ
unfolding getresponse
test2_multiread p = bound (getresponse (codes "A204dR\nR\nR\nR\n") p) λ response q. (ok 0, q)

unfoldable pub test3_interrupts : Run Pipes ℕ
unfolding compare_test
test3_interrupts =
    compare_test (codes "3") (codes "A2051RW1\nW0\nW1\nW0\n")
      (codes "A00002051R00000000K00000000I\nK00000000\nK00000000I\nK00000000\n")

unfoldable pub test4_scope_trigger : Run Pipes ℕ
unfolding compare_test
test4_scope_trigger = compare_test (codes "4") (codes "A2080R\nA4000Wdeadbeef\nA2080R\nA4000R\n") (
    codes "A00002080R12a001fc\nA00004000\nK00000000\nA00002080IR72a001fc\n"
    ++ codes "A00004000Rdeadbeef\n")

unfoldable pub test5_scope_data : Run Pipes ℕ
unfolding compare_test
test5_scope_data =
    compare_test (codes "5") (codes "A02080R\nA4000Wdeadbeef\nA2080R\nA2085R\nR\nR\nR\nR\nR\n") (
      codes "A00002080R72a001fc\n"
      ++ codes "A00004000\nK00000000\n"
      ++ codes "A00002080R72a001fc\n"
      ++ codes "A00002085R001b6c00\n"
      ++ codes "R001b6c00\n"
      ++ codes "R001b6c00\n"
      ++ codes "R001b6c00\n"
      ++ codes "R001b6c00\n"
      ++ codes "R001b6c00\n")

-- `if (0 == err) err = test(...)`.
abbrev and_then : Run Pipes ℕ → ℕ → Run Pipes ℕ
and_then test err p = elim (err == 0) [ true ↦ test p | false ↦ (ok err, p) ]

abbrev verdict : ℕ → Run Pipes ℕ
verdict err p =
    if not (err == 0)
    then (ok 1, record p { out = p.out ++ codes "ERR " ++ dec err ++ codes "\nTEST_FAILURE!\n" })
    else (ok 0, record p { out = p.out ++ codes "SUCCESS!\n" })

-- The parent process of main, and its status.
unfoldable pub parent : Run Pipes ℕ
unfolding test1_read test2_multiread test3_interrupts test4_scope_trigger test5_scope_data dec
parent =
    test1_read
    >>= and_then test2_multiread
    >>= and_then test3_interrupts
    >>= and_then test4_scope_trigger
    >>= and_then test5_scope_data
    >>= verdict
