-- ===== src/Scope/Trace/Keys.antt =====
-- The keys that SCOPE::register_trace gives, and what a reader of the VCD file sees of a sample.
use mathlib.Core.List.{append_assoc, append-nil}
use dbgbus.Base.{
  ℕ, zero, suc, Bool, true, false, ◌&&◌, ◌==◌, none, if◌then◌else◌, get_elem?, ◌+◌, ◌/◌, ◌%◌, ◌^◌,
  ◌≤◌, ◌<◌, ◌≡◌, ◌≢◌, refl, sym, ap, ◌∙◌, Option, some, List, [], ◌∷◌, ◌++◌, map, arith, length,
  length-append,
}
use dbgbus.Scope.Trace.{TraceInfo, key_char, register_trace, write_binary_trace}
use dbgbus.Scope.Trace.Values.{read_value, write_binary-value}

-- The first 69 keys are different.
pub key_char-injective : (i j : ℕ) → i < 69 → j < 69 → key_char i ≡ key_char j → i ≡ j
unfolding key_char
key_char-injective i j p q e = ground arith

key_char-printable : (i : ℕ) → key_char i ≢ b'\n'
unfolding key_char
key_char-printable i e = ground arith

-- A trace to register: its name, its width and its shift.
pub record Declared : Type 0 where
  pub name : List ℕ
  pub nbits : ℕ
  pub nshift : ℕ

abbrev pub register_all : List Declared → List TraceInfo → List TraceInfo
register_all [] ts = ts
register_all (d ∷ ds) ts = register_all ds (register_trace d.name d.nbits d.nshift ts)

abbrev pub info : ℕ → Declared → TraceInfo
info i d = record {
  name = d.name;
  key = b'v' ∷ key_char i ∷ [];
  nbits = d.nbits;
  nshift = d.nshift;
}

abbrev pub infos : ℕ → List Declared → List TraceInfo
infos i [] = []
infos i (d ∷ ds) = info i d ∷ infos (i + 1) ds

pub register_all-infos :
    (ds : List Declared) (ts : List TraceInfo) → register_all ds ts ≡ ts ++ infos (length ts) ds
unfolding register_trace
register_all-infos [] ts = sym (append-nil ts)
register_all-infos (d ∷ ds) ts =
    let more = ts ++ info (length ts) d ∷ [] in
    register_all-infos ds more
    ∙ append_assoc ts (info (length ts) d ∷ []) (infos (length more) ds)
    ∙ ap (λ i. ts ++ info (length ts) d ∷ infos i ds) (length-append ts (info (length ts) d ∷ []))

abbrev pub HaveWidth : List Declared → Type 0
HaveWidth [] = Unit {0}
HaveWidth (d ∷ ds) = ((1 ≤ d.nbits) × (d.nbits ≤ 32)) × HaveWidth ds

-- The fields of a word, under their keys.
abbrev pub fields : ℕ → ℕ → List Declared → List (Option (ℕ × List ℕ))
fields w i [] = []
fields w i (d ∷ ds) =
    some (w / 2 ^ d.nshift % 2 ^ d.nbits, b'v' ∷ key_char i ∷ []) ∷ fields w (i + 1) ds

pub infos-fields :
    (w i : ℕ) (ds : List Declared)
    → HaveWidth ds
    → map (λ t. read_value (write_binary_trace t w)) (infos i ds) ≡ fields w i ds
unfolding write_binary_trace
infos-fields w i [] h = refl
infos-fields w i (d ∷ ds) ((p, q), h) = rw (
  write_binary-value d.nbits (w / 2 ^ d.nshift) (b'v' ∷ key_char i ∷ []) p q
      ((λ e. absurd (omega arith)), (key_char-printable i, tt)),
  infos-fields w (i + 1) ds h,
)

-- What a reader of the lines knows of a key: the first value that is given for it.
abbrev pub same_key : List ℕ → List ℕ → Bool
same_key [] [] = true
same_key (a ∷ x) (b ∷ y) = a == b && same_key x y
same_key _ _ = false

abbrev pub seen : List ℕ → List (Option (ℕ × List ℕ)) → Option ℕ
seen key [] = none
seen key (none ∷ ls) = seen key ls
seen key (some (v, k) ∷ ls) = let later = seen key ls in if same_key k key then some v else later

pub get_elem?-lt :
    (ds : List Declared) (i : ℕ) (d : Declared) → get_elem? ds i ≡ some d → i < length ds
get_elem?-lt [] i d e = cc
get_elem?-lt (c ∷ ds) zero d e = omega arith
get_elem?-lt (c ∷ ds) (suc i) d e = omega (arith, get_elem?-lt ds i d e)

seen-fields :
    (w k i : ℕ) (d : Declared) (ds : List Declared)
    → get_elem? ds i ≡ some d
    → k + length ds ≤ 69
    → seen (b'v' ∷ key_char (k + i) ∷ []) (fields w k ds) ≡ some (w / 2 ^ d.nshift % 2 ^ d.nbits)
seen-fields w k i d [] e l = absurd (cc)
seen-fields w k zero d (c ∷ ds) e l =
    let here : k + 0 ≡ k = omega arith in let same : c ≡ d = cc in rw (here, same) (ground arith)
seen-fields w k (suc i) d (c ∷ ds) e l =
    let at : k + suc i ≡ k + 1 + i = omega arith in
    let inside = get_elem?-lt ds i d e in
    let other : (key_char k == key_char (k + suc i)) ≡ false =
      ground (arith, key_char-injective k (k + suc i)) in
    rw other (
      ap (λ j. seen (b'v' ∷ key_char j ∷ []) (fields w (k + 1) ds)) at
      ∙ seen-fields w (k + 1) i d ds e (omega arith))

-- Of up to 69 traces that are registered with SCOPE, each of 1 to 32 bits: a reader of the lines
-- that are written for a data word finds, under the key of any trace, the bits of the word that
-- the trace stands for.
pub register_all-seen :
    (ds : List Declared) (i w : ℕ) (d : Declared)
    → HaveWidth ds
    → length ds ≤ 69
    → get_elem? ds i ≡ some d
    → seen
        (b'v' ∷ key_char i ∷ [])
        (map (λ t. read_value (write_binary_trace t w)) (register_all ds []))
      ≡ some (w / 2 ^ d.nshift % 2 ^ d.nbits)
register_all-seen ds i w d h few e =
    let at : 0 + i ≡ i = omega arith in
    rw (register_all-infos ds [], infos-fields w 0 ds h)
      (rw at at (seen-fields w 0 i d ds e (omega arith)))
