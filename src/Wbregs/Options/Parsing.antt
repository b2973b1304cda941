-- ===== src/Wbregs/Options/Parsing.antt =====
-- What wbregs makes of its arguments.
use mathlib.Core.List.{append_assoc, append-nil}
use native.Mathlib.Nat.{zero-add}
use dbgbus.Base.{
  ℕ, zero, suc, ◌+◌, ◌-◌, ◌≡◌, refl, ap, ◌∙◌, ◌<◌, length-append, true, false, Bool-cases, inl, inr,
  ◌≢◌, List, [], ◌∷◌, ◌++◌, arith, leb, ◌==◌, ne→==, length, get_or, set, All,
}
use dbgbus.Text.Ctype.{isalpha}
use dbgbus.Regdefs.{addrdecode}
use dbgbus.Wbregs.Usage.{fpgahost, fpgaport}
use dbgbus.Wbregs.Options.{
  Args, runs, option_loop, options, keep, first, isvalue, skip_spaces, resolve,
}

isvalue-alpha : (v : List ℕ) → isalpha (first v) ≡ true → isvalue v ≡ false
unfolding isvalue skip_spaces
isvalue-alpha [] e = refl
isvalue-alpha (c ∷ cs) e = ground arith

-- What isvalue says makes no difference: the address that an argument names is the one that
-- addrdecode gives.
resolve-addrdecode : (strtoul : List ℕ → ℕ) (v : List ℕ) → resolve strtoul v ≡ addrdecode strtoul v
unfolding resolve addrdecode
resolve-addrdecode strtoul v = elim (Bool-cases (isalpha (first v))) [
  | inl e ↦ rw (isvalue-alpha v e)
  | inr e ↦ rw e (ground arith)
]

-- Not an option.
abbrev pub IsPlain : List ℕ → Type 0
IsPlain v = first v ≢ b'-'

get_or-append :
    (xs : List (List ℕ)) (y : List ℕ) (ys : List (List ℕ)) (k : ℕ)
    → k ≡ length xs
    → get_or (xs ++ y ∷ ys) k [] ≡ y
get_or-append [] y ys zero e = refl
get_or-append [] y ys (suc k) e = absurd (omega arith)
get_or-append (x ∷ xs) y ys zero e = absurd (omega arith)
get_or-append (x ∷ xs) y ys (suc k) e = get_or-append xs y ys k (omega arith)

set-append :
    (xs : List (List ℕ)) (y v : List ℕ) (ys : List (List ℕ)) (k : ℕ)
    → k ≡ length xs
    → set (xs ++ y ∷ ys) k v ≡ xs ++ v ∷ ys
set-append [] y v ys zero e = refl
set-append [] y v ys (suc k) e = absurd (omega arith)
set-append (x ∷ xs) y v ys zero e = absurd (omega arith)
set-append (x ∷ xs) y v ys (suc k) e = ap (◌∷◌ x) (set-append xs y v ys k (omega arith))

-- The loop at an argument that is kept.
option_loop-plain :
    (strtoul : List ℕ → ℕ) (left i : ℕ) (v : List ℕ) (a : Args)
    → get_or a.argv i [] ≡ v
    → IsPlain v
    → option_loop strtoul (suc left) i a ≡ option_loop strtoul left (i + 1) (keep i a)
unfolding option_loop
option_loop-plain strtoul left i v a e p = rw (option_loop, e, ne→== (first v) b'-' p)

-- An argument that is kept goes to the end of those that are done, and the gap moves on.
keep-gap :
    (k : ℕ) (done gap : List (List ℕ)) (x y : List ℕ) (rest : List (List ℕ)) (a : Args)
    → length (x ∷ gap) ≡ k
    → (get_or (done ++ (x ∷ gap) ++ y ∷ rest) (length done + k) [] ≡ y)
      × (keep (length done + k) (record a { argv = done ++ (x ∷ gap) ++ y ∷ rest; skp = k })
          ≡ record a { argv = done ++ y ∷ [] ++ (gap ++ y ∷ []) ++ rest; skp = k })
keep-gap k done gap x y rest a e =
    let there : get_or (done ++ (x ∷ gap) ++ y ∷ rest) (length done + k) [] ≡ y =
      get_or-append (done ++ x ∷ gap) y rest (length done + k)
        (omega (arith, length-append done (x ∷ gap))) in
    let joined : done ++ y ∷ (gap ++ y ∷ rest) ≡ done ++ y ∷ [] ++ (gap ++ y ∷ []) ++ rest = rw (
      append_assoc (done ++ y ∷ []) (gap ++ y ∷ []) rest,
      append_assoc done (y ∷ []),
      append_assoc gap (y ∷ []) rest,
    ) in
    let moved : set (done ++ (x ∷ gap) ++ y ∷ rest) (length done) y
        ≡ done ++ y ∷ [] ++ (gap ++ y ∷ []) ++ rest =
      ap (λ v. set v (length done) y) (append_assoc done (x ∷ gap) (y ∷ rest))
      ∙ set-append done x y (gap ++ y ∷ rest) (length done) refl
      ∙ joined in
    let index : length done + k - k ≡ length done = omega arith in
    let ahead : leb k (length done + k) ≡ true = ground arith in
    (there, rw (ahead, index, there) (ap (λ v. record a { argv = v; skp = k }) moved))

-- The arguments `rest` move down over a gap to join those that are done.
plain_loop :
    (strtoul : List ℕ → ℕ) (k : ℕ) (rest done gap : List (List ℕ)) (a : Args)
    → length gap ≡ k
    → 0 < k
    → All IsPlain rest
    → (end : List (List ℕ)) × (option_loop strtoul
          (length rest)
          (length done + k)
          (record a { argv = done ++ gap ++ rest; skp = k })
        ≡ runs (length done + length rest) (record a { argv = done ++ (rest ++ end); skp = k }))
plain_loop strtoul k [] done gap a e n p =
    let none_left : length done + k - k ≡ length done + 0 = omega arith in
    (gap, unfold option_loop in rw (none_left, append-nil (done ++ gap)))
plain_loop strtoul k (y ∷ rest) done [] a e n p = absurd (omega arith)
plain_loop strtoul k (y ∷ rest) done (x ∷ gap) a e n (p, ps) =
    let (there, kept) = keep-gap k done gap x y rest a e in
    let size = length-append done (y ∷ []) in
    let on : length done + k + 1 ≡ length (done ++ y ∷ []) + k = omega (arith, size) in
    let all : length (done ++ y ∷ []) + length rest ≡ length done + length (y ∷ rest) =
      omega (arith, size) in
    let (end, rest_done) =
      plain_loop strtoul k rest (done ++ y ∷ []) (gap ++ y ∷ []) a
        (omega (arith, length-append gap (y ∷ []))) n ps in
    (
      end,
      option_loop-plain strtoul (length rest) (length done + k) y
            (record a { argv = done ++ (x ∷ gap) ++ y ∷ rest; skp = k }) there p
          ∙ ap (option_loop strtoul (length rest) (length done + k + 1)) kept
          ∙ ap
              (λ i.
                option_loop strtoul (length rest) i
                  (record a { argv = done ++ y ∷ [] ++ (gap ++ y ∷ []) ++ rest; skp = k }))
              on
          ∙ rest_done
          ∙ rw (all, append_assoc done (y ∷ [])),
    )

abbrev pub defaults : List (List ℕ) → Args
defaults argv = record {
  argv = argv;
  skp = 1;
  use_decimal = false;
  host = fpgahost;
  port = fpgaport;
  stray = 0;
}

less_one : (n : ℕ) → suc n - 1 ≡ n
less_one n = omega arith

-- The loop at `-n`, with an argument behind it.
option_loop-named :
    (strtoul : List ℕ → ℕ) (left i : ℕ) (cs : List ℕ) (a : Args)
    → get_or a.argv i [] ≡ b'-' ∷ b'n' ∷ cs
    → option_loop strtoul (suc (suc left)) i a
      ≡ option_loop strtoul
          (suc left)
          (i + 1)
          (record a { host = get_or a.argv (i + 1) []; skp = a.skp + 2 })
unfolding option_loop
option_loop-named strtoul left i cs a e =
    let more : (suc left == 0) ≡ false = ground arith in rw (option_loop, e) (rw more refl)

module _ (strtoul : List ℕ → ℕ) (name : List ℕ) where
  -- Without options, the arguments behind the program's name move to the front of `argv`, `argc` is
  -- their number, and every setting has its default.
  options-plain :
      (xs : List (List ℕ))
      → All IsPlain xs
      → (end : List (List ℕ)) × (options strtoul (name ∷ xs)
          ≡ runs (length xs) (defaults (xs ++ end)))
  unfolding options
  options-plain xs p =
      let (end, e) = plain_loop strtoul 1 xs [] (name ∷ []) (defaults []) refl (omega arith) p in
      (
        end,
        rw (less_one (length xs)) e
            ∙ ap (λ n. runs n (defaults (xs ++ end))) (zero-add (length xs)),
      )

  -- With `-n` and a host in front, the arguments behind them move to the front of `argv`, `argc` is
  -- their number, the host is set, and `argv` was written once ahead of its start.
  pub options-host :
      (cs host : List ℕ) (xs : List (List ℕ))
      → All IsPlain (host ∷ xs)
      → (end : List (List ℕ)) × (options strtoul (name ∷ (b'-' ∷ b'n' ∷ cs) ∷ host ∷ xs)
          ≡ runs (length xs) (record (defaults (xs ++ end)) { skp = 3; host = host; stray = 1 }))
  unfolding options
  options-host cs host xs (p, ps) =
      let argv = name ∷ (b'-' ∷ b'n' ∷ cs) ∷ host ∷ [] in
      let a : Args = record (defaults []) { host = host; stray = 1 } in
      let (end, e) = plain_loop strtoul 3 xs [] argv a refl (omega arith) ps in
      (
        end,
        rw (less_one (suc (suc (length xs)))) (
              option_loop-named strtoul (length xs) 1 cs
                (defaults (name ∷ (b'-' ∷ b'n' ∷ cs) ∷ host ∷ xs)) refl)
            ∙ option_loop-plain strtoul (length xs) 2 host
                (record (defaults (name ∷ (b'-' ∷ b'n' ∷ cs) ∷ host ∷ xs)) { host = host; skp = 3 })
                refl p
            ∙ e
            ∙ ap (λ n. runs n (record (defaults (xs ++ end)) { skp = 3; host = host; stray = 1 }))
                (zero-add (length xs)),
      )

  -- With `-n` and a host behind an address, the host takes the place of the address.
  pub options-host_last :
      (address cs host : List ℕ)
      → All IsPlain (address ∷ host ∷ [])
      → options strtoul (name ∷ address ∷ (b'-' ∷ b'n' ∷ cs) ∷ host ∷ [])
        ≡ runs 1 (record (defaults (host ∷ address ∷ (b'-' ∷ b'n' ∷ cs) ∷ host ∷ [])) {
          skp = 3;
          host = host;
        })
  unfolding options
  options-host_last address cs host (p, (q, _)) =
      option_loop-plain strtoul 2 1 address
        (defaults (name ∷ address ∷ (b'-' ∷ b'n' ∷ cs) ∷ host ∷ [])) refl p
      ∙ option_loop-named strtoul 0 2 cs
          (defaults (address ∷ address ∷ (b'-' ∷ b'n' ∷ cs) ∷ host ∷ [])) refl
      ∙ option_loop-plain strtoul 0 3 host
          (record (defaults (address ∷ address ∷ (b'-' ∷ b'n' ∷ cs) ∷ host ∷ [])) {
            host = host;
            skp = 3;
          })
          refl q
      ∙ (unfold option_loop in refl)
