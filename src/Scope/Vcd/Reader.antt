-- ===== src/Scope/Vcd/Reader.antt =====
-- A reader of a VCD file: what a variable holds at a time.
use dbgbus.Base.{
  ℕ, zero, suc, ◌+◌, ◌/◌, ◌%◌, ◌^◌, ◌≤◌, ◌<◌, ◌≡◌, refl, sym, ◌∙◌, ap, true, false, ◌==◌, Option,
  none, some, List, [], ◌∷◌, ◌++◌, map, arith, leb, if◌then◌else◌, length, get_elem?,
}
use dbgbus.Scope.Trace.{TraceInfo, key_char, write_binary, write_binary_trace}
use dbgbus.Scope.Trace.Values.{read_value, write_binary-line}
use dbgbus.Scope.Trace.Keys.{
  Declared, fields, key_char-injective, same_key, get_elem?-lt, register_all, HaveWidth,
  register_all-infos, infos-fields,
}
use dbgbus.Scope.Vcd.{
  Entry, preamble, timezero, open_scope, close_scope, var, stamp, trigger, clock, value,
  sample_values, key_r,
}

-- A line that gives a value, for the variable of a key.
abbrev pub taken : List ℕ → Option (ℕ × List ℕ) → Option ℕ → Option ℕ
taken key none cur = cur
taken key (some (v, k)) cur = if same_key k key then some v else cur

-- What the variable of a key holds at the time `t`, if it holds `cur` at first: every change up to
-- the first later stamp.
abbrev pub value_at : ℕ → List ℕ → List Entry → Option ℕ → Option ℕ
value_at t key [] cur = cur
value_at t key (stamp u ∷ es) cur = if leb u t then value_at t key es cur else cur
value_at t key (value l ∷ es) cur = value_at t key es (taken key (read_value l) cur)
value_at t key (preamble ∷ es) cur = value_at t key es cur
value_at t key (timezero u ∷ es) cur = value_at t key es cur
value_at t key (open_scope ∷ es) cur = value_at t key es cur
value_at t key (close_scope ∷ es) cur = value_at t key es cur
value_at t key (var w k n r ∷ es) cur = value_at t key es cur
value_at t key (trigger b ∷ es) cur = value_at t key es cur
value_at t key (clock b ∷ es) cur = value_at t key es cur

abbrev pub refresh : List ℕ → List (Option (ℕ × List ℕ)) → Option ℕ → Option ℕ
refresh key [] cur = cur
refresh key (l ∷ ls) cur = refresh key ls (taken key l cur)

pub value_at-sample_values :
    (t w : ℕ) (key : List ℕ) (traces : List TraceInfo) (es : List Entry) (cur : Option ℕ)
    → value_at t key (sample_values traces w ++ es) cur
      ≡ value_at t key es (refresh key (map (λ i. read_value (write_binary_trace i w)) traces) cur)
unfolding sample_values
value_at-sample_values t w key [] es cur = refl
value_at-sample_values t w key (i ∷ is) es cur =
    value_at-sample_values t w key is es (taken key (read_value (write_binary_trace i w)) cur)

taken_other :
    (j k v : ℕ) (cur : Option ℕ)
    → j < k
    → k < 69
    → taken (b'v' ∷ key_char j ∷ []) (some (v, b'v' ∷ key_char k ∷ [])) cur ≡ cur
taken_other j k v cur lt l =
    let other : (key_char k == key_char j) ≡ false = ground (arith, key_char-injective k j) in
    rw (other, taken) refl

taken_self :
    (k v : ℕ) (cur : Option ℕ)
    → taken (b'v' ∷ key_char k ∷ []) (some (v, b'v' ∷ key_char k ∷ [])) cur ≡ some v
taken_self k v cur =
    let self : (key_char k == key_char k) ≡ true = ground arith in rw (self, taken) refl

refresh_other :
    (w j k : ℕ) (ds : List Declared) (cur : Option ℕ)
    → j < k
    → k + length ds ≤ 69
    → refresh (b'v' ∷ key_char j ∷ []) (fields w k ds) cur ≡ cur
refresh_other w j k [] cur lt l = refl
refresh_other w j k (d ∷ ds) cur lt l =
    ap (refresh (b'v' ∷ key_char j ∷ []) (fields w (k + 1) ds))
      (taken_other j k (w / 2 ^ d.nshift % 2 ^ d.nbits) cur lt (omega arith))
    ∙ refresh_other w j (k + 1) ds cur (omega arith) (omega arith)

pub refresh_field :
    (w k i : ℕ) (d : Declared) (ds : List Declared) (cur : Option ℕ)
    → get_elem? ds i ≡ some d
    → k + length ds ≤ 69
    → refresh (b'v' ∷ key_char (k + i) ∷ []) (fields w k ds) cur
      ≡ some (w / 2 ^ d.nshift % 2 ^ d.nbits)
refresh_field w k i d [] cur e l = absurd (cc)
refresh_field w k zero d (c ∷ ds) cur e l =
    let here : k + 0 ≡ k = omega arith in
    let same : c ≡ d = cc in
    let v = w / 2 ^ d.nshift % 2 ^ d.nbits in
    rw (here, same)
      (ap (refresh (b'v' ∷ key_char k ∷ []) (fields w (k + 1) ds)) (taken_self k v cur)
        ∙ refresh_other w k (k + 1) ds (some v) (omega arith) (omega arith))
refresh_field w k (suc i) d (c ∷ ds) cur e l =
    let at : k + 1 + i ≡ k + suc i = omega arith in
    let inside = get_elem?-lt ds i d e in
    let key = λ (j : ℕ). b'v' ∷ key_char j ∷ [] in
    let now = taken (key (k + suc i)) (some (w / 2 ^ c.nshift % 2 ^ c.nbits, key k)) cur in
    ap (λ j. refresh (key j) (fields w (k + 1) ds) now) (sym at)
    ∙ refresh_field w (k + 1) i d ds now e (omega arith)

-- The key of trace number `i`, and the bits of a word that it stands for.
abbrev pub trace_key : ℕ → List ℕ
trace_key i = b'v' ∷ key_char i ∷ []

abbrev pub trace_bits : Declared → ℕ → ℕ
trace_bits d w = w / 2 ^ d.nshift % 2 ^ d.nbits

-- The values of one sample give the variable of a trace its bits.
pub shows :
    (ds : List Declared)
    → HaveWidth ds
    → length ds ≤ 69
    → (i : ℕ) (d : Declared) → get_elem? ds i ≡ some d
    → (nbits : ℕ) → 2 ≤ nbits
    → nbits ≤ 32
    → (t w : ℕ) (es : List Entry) (cur : Option ℕ)
    → value_at t
        (trace_key i)
        (value (write_binary nbits w (key_r ++ b'\n' ∷ []))
          ∷ (sample_values (register_all ds []) w ++ es))
        cur
      ≡ value_at t (trace_key i) es (some (trace_bits d w))
shows ds widths few i d has nbits low high t w es cur =
    let at : 0 + i ≡ i = omega arith in
    let raw : read_value (write_binary nbits w (key_r ++ b'\n' ∷ []))
        ≡ some (w % 2 ^ nbits, key_r) =
      write_binary-line nbits w (key_r ++ b'\n' ∷ []) low high in
    let lines : map (λ j. read_value (write_binary_trace j w)) (register_all ds [])
        ≡ fields w 0 ds =
      rw (register_all-infos ds []) (infos-fields w 0 ds widths) in
    ap
      (λ r.
        value_at t (trace_key i) (sample_values (register_all ds []) w ++ es)
          (taken (trace_key i) r cur))
      raw
    ∙ value_at-sample_values t w (trace_key i) (register_all ds []) es cur
    ∙ ap (λ ls. value_at t (trace_key i) es (refresh (trace_key i) ls cur)) lines
    ∙ ap (value_at t (trace_key i) es) (rw at at (refresh_field w 0 i d ds cur has (omega arith)))
