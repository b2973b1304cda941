-- ===== src/Bench/Response/Cleaning.antt =====
-- What getresponse makes of a reply.
use mathlib.Core.List.{append_assoc, append-nil}
use dbgbus.Base.{
  ℕ, zero, suc, ◌<◌, ◌≡◌, ◌≢◌, refl, ap, ◌∙◌, Bool, true, false, ◌&&◌, Bool-cases, inl, inr, List,
  [], All, ◌∷◌, ◌++◌, ltb, ◌==◌, ne→==, if◌then◌else◌, length, length-append, arith,
}
use dbgbus.Comms.{Event, quiet, sys_poll}
use dbgbus.Outcome.{ok, bound}
use dbgbus.Text.Strings.{codes}
use dbgbus.Hexbus.Receive.Replies.{arrives}
use dbgbus.Bench.Response.{
  goes, stops, Pipes, last, skipped, take_byte, read_loop, skip_spaces, getresponse, ask,
  unless_nul, split_line, respond, request, test1_read,
}

-- A carriage return, or a line end right behind another.
abbrev pub is_extra : ℕ → ℕ → Bool
is_extra before c = if c == b'\r' then true else c == b'\n' && before == b'\n'

-- A text without these, where `before` is the character before it.
abbrev pub tidy : ℕ → List ℕ → List ℕ
tidy before [] = []
tidy before (c ∷ cs) =
    let drop = tidy before cs in
    let keep = c ∷ tidy c cs in if is_extra before c then drop else keep

last-append : (got : List ℕ) (c : ℕ) → last (got ++ c ∷ []) ≡ c
last-append [] c = refl
last-append (d ∷ []) c = refl
last-append (d ∷ e ∷ ds) c = last-append (e ∷ ds) c

-- Whether a byte is skipped depends on the byte before.
skipped-last : (c : ℕ) (got : List ℕ) → skipped c got ≡ is_extra (last got) c
unfolding skipped
skipped-last c [] = ground arith
skipped-last c (d ∷ ds) =
    let some_byte : ltb 0 (suc (length ds)) ≡ true = ground arith in rw some_byte

-- More is at hand behind a line end that is not the last.
poll-more :
    (bs : List ℕ) (es : List Event)
    → sys_poll (arrives (bs ++ b'\n' ∷ []) es) ≡ (true, arrives (bs ++ b'\n' ∷ []) es)
poll-more [] es = refl
poll-more (c ∷ cs) es = refl

-- A byte that is skipped, and one that is kept with more to come.
take_byte-extra :
    (c : ℕ) (got : List ℕ) (es : List Event)
    → is_extra (last got) c ≡ true
    → take_byte c got es ≡ goes got es
unfolding take_byte
take_byte-extra c got es e = rw (skipped-last c got, e)

take_byte-kept :
    (c : ℕ) (got bs : List ℕ) (es : List Event)
    → is_extra (last got) c ≡ false
    → let rest = arrives (bs ++ b'\n' ∷ []) es in take_byte c got rest ≡ goes (got ++ c ∷ []) rest
unfolding take_byte
take_byte-kept c got bs es e = elim (Bool-cases (c == b'\n')) [
  | inl n ↦ rw (skipped-last c got, e, n, poll-more bs es)
  | inr n ↦ rw (skipped-last c got, e, n)
]

-- The line end that is the last.
take_byte-end :
    (got : List ℕ) (es : List Event)
    → last got ≢ b'\n'
    → take_byte b'\n' got (quiet ∷ es) ≡ stops (ok (got ++ b'\n' ∷ [])) es
unfolding take_byte
take_byte-end got es e =
    let more : is_extra (last got) b'\n' ≡ false = ne→== (last got) b'\n' e in
    rw (skipped-last b'\n' got, more)

tidy-kept :
    (c : ℕ) (got bs : List ℕ)
    → got ++ c ∷ [] ++ tidy (last (got ++ c ∷ [])) bs ≡ got ++ c ∷ tidy c bs
tidy-kept c got bs = rw (last-append got c, append_assoc got (c ∷ []) (tidy c bs))

-- A text with its last line end, and then a pause, behind what was read before: it is read to its
-- end, without its carriage returns and doubled line ends.
read_loop-tidy :
    (fuel : ℕ) (bs got : List ℕ) (es : List Event)
    → length bs < fuel
    → last (got ++ tidy (last got) bs) ≢ b'\n'
    → read_loop fuel got (arrives (bs ++ b'\n' ∷ []) (quiet ∷ es))
      ≡ (ok (got ++ tidy (last got) bs ++ b'\n' ∷ []), es)
unfolding read_loop
read_loop-tidy zero bs got es l e = absurd (omega arith)
read_loop-tidy (suc f) [] got es l e =
    let open_end : last got ≢ b'\n' = rw (append-nil got) at e in
    rw (append-nil got, read_loop, take_byte-end got es open_end)
read_loop-tidy (suc f) (c ∷ bs) got es l e = elim (Bool-cases (is_extra (last got) c)) [
  | inl x ↦
      rw (read_loop, take_byte-extra c got (arrives (bs ++ b'\n' ∷ []) (quiet ∷ es)) x, x)
        (read_loop-tidy f bs got es (omega arith) (rw x at e))
  | inr x ↦
      rw (read_loop, take_byte-kept c got bs (quiet ∷ es) x, x)
        (rw (tidy-kept c got bs) at (
          read_loop-tidy f bs (got ++ c ∷ []) es (omega arith)
            (rw (tidy-kept c got bs) (rw x at e))))
]

length-arrives : (bs : List ℕ) (es : List Event) → length bs < suc (length (arrives bs es))
length-arrives [] es = omega arith
length-arrives (c ∷ cs) es = omega (arith, length-arrives cs es)

-- One request and its reply.
request-tidy :
    (response line bs : List ℕ) (es : List Event) (p : Pipes)
    → last (tidy 0 bs) ≢ b'\n'
    → let text = tidy 0 bs ++ b'\n' ∷ [] in
      request response line (record p { input = arrives (bs ++ b'\n' ∷ []) (quiet ∷ es) }) ≡ (
        ok (response ++ text),
        record {
          requests = p.requests ++ line;
          input = es;
          out = p.out ++ codes "< " ++ line ++ codes "> " ++ skip_spaces text;
        },
      )
unfolding request
request-tidy response line bs es p e =
    let input = arrives (bs ++ b'\n' ∷ []) (quiet ∷ es) in
    let long : length bs < suc (length input) =
      omega
        (arith, length-arrives (bs ++ b'\n' ∷ []) (quiet ∷ es), length-append bs (b'\n' ∷ [])) in
    rw (read_loop-tidy (suc (length input)) bs [] es long e)

-- A request without its line end.
abbrev pub IsLine : List ℕ → Type 0
IsLine = All (λ c. c ≢ b'\n')

split_line-end :
    (line : List ℕ) → IsLine line → split_line (line ++ b'\n' ∷ []) ≡ (true, line ++ b'\n' ∷ [], [])
split_line-end [] i = refl
split_line-end (c ∷ cs) (n, i) = rw (split_line-end cs i, ne→== c b'\n' n)

-- getresponse of one line, to which a text comes back whose last line end is followed by a pause, and
-- does not follow another: it leaves that text without its carriage returns and doubled line ends, it
-- has sent the line, has printed it and that text without the blanks at its start, and has read
-- nothing more.
pub getresponse-tidy :
    (line bs : List ℕ) (es : List Event) (p : Pipes)
    → IsLine line
    → last (tidy 0 bs) ≢ b'\n'
    → let text = tidy 0 bs ++ b'\n' ∷ [] in
      getresponse
        (line ++ b'\n' ∷ [])
        (record p { input = arrives (bs ++ b'\n' ∷ []) (quiet ∷ es) })
      ≡ (
        ok text,
        record {
          requests = p.requests ++ (line ++ b'\n' ∷ []);
          input = es;
          out = p.out ++ codes "< " ++ (line ++ b'\n' ∷ []) ++ codes "> " ++ skip_spaces text;
        },
      )
unfolding getresponse
getresponse-tidy line bs es p i e =
    let start : Pipes = record p { input = arrives (bs ++ b'\n' ∷ []) (quiet ∷ es) } in
    ap (λ x. ask (respond (length (line ++ b'\n' ∷ []))) [] x start) (split_line-end line i)
    ∙ ap (λ x. bound x (λ r. unless_nul (respond (length (line ++ b'\n' ∷ []))) r []))
        (request-tidy [] (line ++ b'\n' ∷ []) bs es p e)

-- The first test passes with any reply that ends in a pause behind a line end, and that reads
-- A00002040R20170622 without its carriage returns, doubled line ends, and blanks at its start.
pub test1_read-passes :
    (bs : List ℕ) (es : List Event) (p : Pipes)
    → last (tidy 0 bs) ≢ b'\n'
    → skip_spaces (tidy 0 bs ++ b'\n' ∷ []) ≡ codes "A00002040R20170622\n"
    → (test1_read (record p { input = arrives (bs ++ b'\n' ∷ []) (quiet ∷ es) })).0 ≡ ok 0
unfolding test1_read
test1_read-passes bs es p e f =
    let i : IsLine (codes "A2040R") = (
      omega arith,
      (omega arith, (omega arith, (omega arith, (omega arith, (omega arith, tt))))),
    ) in
    rw (getresponse-tidy (codes "A2040R") bs es p i e, f)
