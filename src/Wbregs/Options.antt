-- ===== src/Wbregs/Options.antt =====
-- The arguments of wbregs. `argv` is written in place while it is read, and a write ahead of its
-- start, at a negative index, is only counted.
pub mod Parsing
use dbgbus.Base.{
  ℕ, zero, suc, ◌+◌, ◌-◌, Bool, true, false, ◌||◌, List, [], ◌∷◌, ◌++◌, ltb, leb, ◌==◌,
  if◌then◌else◌, u32, length, get_or, set,
}
use dbgbus.Outcome.{Outcome}
use dbgbus.Text.Ctype.{isspace, isdigit, tolower}
use dbgbus.Text.Strings.{codes}
use dbgbus.Regdefs.{addrdecode}
use dbgbus.Outcome.{ok}
use dbgbus.Wbregs.Usage.{fpgahost, fpgaport, usage}

-- `*ptr` and `ptr++` in a string that ends with its NUL.
abbrev pub first : List ℕ → ℕ
first v = get_or v 0 0

abbrev pub next : List ℕ → List ℕ
next [] = []
next (c ∷ cs) = cs

-- `while(isspace(*ptr)) ptr++`.
unfoldable pub skip_spaces : List ℕ → List ℕ
skip_spaces [] = []
skip_spaces (c ∷ cs) = let rest = skip_spaces cs in if isspace c then rest else c ∷ cs

unfoldable pub isvalue : List ℕ → Bool
unfolding skip_spaces
isvalue v =
    let p = skip_spaces v in
    let q = if first p == b'+' || first p == b'-' then next p else p in
    let r = if first q == b'+' then next q else q in
    let x = next r in
    isdigit (first (if first r == b'0' then if tolower (first x) == b'x' then next x else x else r))

-- The address that an argument names.
unfoldable pub resolve : (List ℕ → ℕ) → List ℕ → Outcome ℕ
unfolding isvalue
resolve strtoul v = if isvalue v then ok (u32 (strtoul v)) else addrdecode strtoul v

-- The variables of the option loop; the index `argn` is `i - skp`.
pub record Args : Type 0 where
  pub argv : List (List ℕ)
  pub skp : ℕ
  pub use_decimal : Bool
  pub host : List ℕ
  pub port : ℕ
  -- How often `argv` was written ahead of its start.
  pub stray : ℕ

pub data Parsed : Type 0 where
  -- The loop has ended, and `argc` is what is left.
  runs : ℕ → Args → Parsed
  -- `exit(EXIT_SUCCESS)`, after a text on stdout and one on stderr.
  quits : List ℕ → List ℕ → Parsed

-- `argv[argn] = argv[i]`.
abbrev pub keep : ℕ → Args → Args
keep i a =
    if leb a.skp i
    then record a { argv = set a.argv (i - a.skp) (get_or a.argv i []) }
    else record a { stray = a.stray + 1 }

-- The option loop, at `argv[i]`, with `left` arguments from there on. An option that takes a value
-- counts `skp` up by two, but goes on only by one. What is left of `argc` may be negative in the
-- source, which then does the same as at 0.
unfoldable pub option_loop : (List ℕ → ℕ) → ℕ → ℕ → Args → Parsed
unfolding usage
option_loop strtoul zero i a = runs (i - a.skp) a
option_loop strtoul (suc left) i a =
    let arg = get_or a.argv i [] in
    let value = get_or a.argv (i + 1) [] in
    let letter = get_or arg 1 0 in
    let flag =
      option_loop strtoul left (i + 1) (record a { use_decimal = true; skp = a.skp + 1 }) in
    let named = option_loop strtoul left (i + 1) (record a { host = value; skp = a.skp + 2 }) in
    let numbered =
      option_loop strtoul left (i + 1) (record a { port = u32 (strtoul value); skp = a.skp + 2 }) in
    let plain = option_loop strtoul left (i + 1) (keep i a) in
    if first arg == b'-'
    then if letter == b'd'
      then flag
      else if letter == b'n'
      then (if left == 0 then quits [] (codes "ERR: No network host given\n") else named)
      else if letter == b'p'
      then (if left == 0 then quits [] (codes "ERR: No network port # given\n") else numbered)
      else quits usage []
    else plain

-- The option loop of main, for the arguments with the program's name in front.
unfoldable pub options : (List ℕ → ℕ) → List (List ℕ) → Parsed
unfolding option_loop
options strtoul argv = option_loop strtoul (length argv - 1) 1 (record {
  argv = argv;
  skp = 1;
  use_decimal = false;
  host = fpgahost;
  port = fpgaport;
  stray = 0;
})
