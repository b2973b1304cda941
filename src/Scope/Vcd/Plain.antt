-- ===== src/Scope/Vcd/Plain.antt =====
-- The VCD file of a plain scope against the words that it read.
use dbgbus.Base.{
  ℕ, zero, suc, ◌+◌, ◌-◌, ◌^◌, u32, ◌≤◌, ◌<◌, ◌≡◌, refl, ◌∙◌, ap, true, false, ◌==◌, Option, some,
  List, [], ◌∷◌, ◌++◌, arith, leb, length, get_elem?,
}
use dbgbus.Scope.Trace.{write_binary}
use dbgbus.Scope.Trace.Keys.{Declared, register_all, HaveWidth}
use dbgbus.Scope.Device.{Scope}
use dbgbus.Scope.Vcd.{
  Entry, stamp, trigger, clock, value, sample_values, plain_body, Printer, write_body, key_r,
}
use dbgbus.Scope.Vcd.Reader.{value_at, trace_key, trace_bits, shows}

-- The times of the rising and the falling edges of a clock, in turn.
pub record IsClock (rise fall : ℕ → ℕ) : Type 0 where
  pub rising : (a b : ℕ) → a < b → rise a < rise b
  pub high : (a : ℕ) → rise a < fall a
  pub low : (a b : ℕ) → a < b → fall a < rise b

module _ (rise fall : ℕ → ℕ) (ticks : IsClock rise fall) (ds : List Declared)
    (widths : HaveWidth ds) (few : length ds ≤ 69) (i : ℕ) (d : Declared)
    (has : get_elem? ds i ≡ some d) (offset : ℕ) where
  abbrev body : ℕ → List ℕ → List Entry
  body j ws = plain_body rise fall (register_all ds []) offset j ws

  risen :
      (j k : ℕ) (es : List Entry) (cur : Option ℕ)
      → value_at (rise (j + k)) (trace_key i) (stamp (rise j) ∷ es) cur
        ≡ value_at (rise (j + k)) (trace_key i) es cur
  risen j zero es cur =
      let e : j + 0 ≡ j = omega arith in
      let le : leb (rise j) (rise (j + 0)) ≡ true = rw e (ground arith) in rw le refl
  risen j (suc k) es cur =
      let le : leb (rise j) (rise (j + suc k)) ≡ true =
        ground (arith, ticks.rising j (j + suc k)) in
      rw le refl

  word_at :
      (j k w : ℕ) (ws : List ℕ) (cur : Option ℕ)
      → value_at (rise (j + k)) (trace_key i) (body j (w ∷ ws)) cur
        ≡ value_at
            (rise (j + k))
            (trace_key i)
            (stamp (fall j) ∷ clock false ∷ body (j + 1) ws)
            (some (trace_bits d w))
  unfolding plain_body
  word_at j k w ws cur =
      let es = stamp (fall j) ∷ clock false ∷ body (j + 1) ws in
      risen j k
        (clock true
          ∷ value (write_binary 32 w (key_r ++ b'\n' ∷ []))
          ∷ trigger (j == offset)
          ∷ (sample_values (register_all ds []) w ++ es))
        cur
      ∙ shows ds widths few i d has 32 (omega arith) (omega arith) (rise (j + k)) w es cur

  body-holds :
      (j k w : ℕ) (ws : List ℕ) (cur : Option ℕ)
      → get_elem? ws k ≡ some w
      → value_at (rise (j + k)) (trace_key i) (body j ws) cur ≡ some (trace_bits d w)
  body-holds j k w [] cur e = absurd (cc)
  body-holds j zero w (v ∷ ws) cur e =
      let same : v ≡ w = cc in
      let at : j + 0 ≡ j = omega arith in
      let gt : leb (fall j) (rise j) ≡ false = ground (arith, ticks.high j) in
      word_at j 0 v ws cur ∙ (rw (at, gt) (ap (λ u. some (trace_bits d u)) same))
  body-holds j (suc k) w (v ∷ ws) cur e =
      let at : j + suc k ≡ j + 1 + k = omega arith in
      let le : leb (fall j) (rise (j + suc k)) ≡ true = ground (arith, ticks.low j (j + suc k)) in
      word_at j (suc k) v ws cur
      ∙ (rw (le)
          (ap (λ t. value_at (rise t) (trace_key i) (body (j + 1) ws) (some (trace_bits d v))) at))
      ∙ body-holds (j + 1) k w ws (some (trace_bits d v)) e

-- In the VCD file of a plain scope the variable of each trace has, at each rising edge of the
-- clock, its bits of the word of that clock.
pub write_body-words :
    (p : Printer) (s : Scope) (ds : List Declared) (i k w : ℕ) (d : Declared) (ws : List ℕ)
    → IsClock (p.rise_ns s.clkfreq_hz) (p.fall_ns s.clkfreq_hz)
    → s.compressed ≡ false
    → s.traces ≡ register_all ds []
    → HaveWidth ds
    → length ds ≤ 69
    → get_elem? ds i ≡ some d
    → get_elem? ws k ≡ some w
    → (cur : Option ℕ)
    → value_at (p.rise_ns s.clkfreq_hz k) (trace_key i) (write_body p s ws) cur
      ≡ some (trace_bits d w)
unfolding write_body
write_body-words p s ds i k w d ws ticks c registered widths few has e cur =
    let at : 0 + k ≡ k = omega arith in
    rw (c, registered)
      (rw at at (
        body-holds (p.rise_ns s.clkfreq_hz) (p.fall_ns s.clkfreq_hz) ticks ds widths few i d has
          (u32 (s.scoplen + 2 ^ 33 - s.holdoff - 1)) 0 k w ws cur e))
