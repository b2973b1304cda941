-- ===== src/Scope/Vcd/Recorded.antt =====
-- The VCD file of a compressed scope against what the scope recorded.
use dbgbus.Base.{
  ℕ, ◌+◌, ◌^◌, ◌≤◌, ◌<◌, ◌≡◌, true, false, Bool-cases, inl, inr, Option, none, some, List, [], ◌∷◌,
  arith, length, get_elem?,
}
use dbgbus.Scope.Trace.Keys.{Declared, register_all, HaveWidth}
use dbgbus.Scope.Device.{Scope}
use dbgbus.Scope.Vcd.{is_jump, mark, compressed_body, Printer, write_body}
use dbgbus.Scope.Vcd.Reader.{value_at, trace_key, trace_bits, shows}
use dbgbus.Scope.Vcd.Contents.{signal, of_sample, follows, follows-sample}

-- What a compressed scope recorded, clock by clock, from its first sample on.
abbrev pub recorded : List ℕ → List (Option ℕ)
recorded [] = []
recorded (w ∷ ws) = elim (is_jump w) [ true ↦ signal none ws | false ↦ signal none (w ∷ ws) ]

module _ (ds : List Declared) (widths : HaveWidth ds) (few : length ds ≤ 69) (i : ℕ) (d : Declared)
    (has : get_elem? ds i ≡ some d) where
  body-follows :
      (now : ℕ → ℕ) (alen offset k : ℕ) (ws : List ℕ) (x : Option ℕ)
      → ((a b : ℕ) → a < b → now a < now b)
      → length ws < 2 ^ 31
      → get_elem? (recorded ws) k ≡ some x
      → value_at
          (now k)
          (trace_key i)
          (compressed_body now (register_all ds []) alen offset 0 0 true ws)
          none
        ≡ of_sample (trace_bits d) x
  unfolding compressed_body
  body-follows now alen offset k [] x rising fits e = absurd (cc)
  body-follows now alen offset k (w ∷ ws) x rising fits e =
      let file = register_all ds [] in
      let at : 0 + k ≡ k = omega arith in
      let last = (mark alen offset 0 true).1 in
      elim (Bool-cases (is_jump w)) [
        | inl jumped ↦
            let there : get_elem? (signal none ws) k ≡ some x = rw (jumped, recorded) at e in
            rw (compressed_body, jumped)
              (rw at at (
                follows now rising file (trace_key i) (trace_bits d)
                  (shows ds widths few i d has 31 (omega arith) (omega arith)) alen offset 1 0 k
                  true ws none x (omega arith) (omega arith) there))
        | inr steady ↦
            let there : get_elem? (signal none (w ∷ ws)) k ≡ some x = rw (steady, recorded) at e in
            rw at at (
              follows-sample now rising file (trace_key i) (trace_bits d)
                (shows ds widths few i d has 31 (omega arith) (omega arith)) alen offset 0 0 k w
                true ws none x steady (omega arith) there
                (λ j q.
                  follows now rising file (trace_key i) (trace_bits d)
                    (shows ds widths few i d has 31 (omega arith) (omega arith)) alen offset 1 1 j
                    last ws (some w) x (omega arith) (omega arith) q))
      ]

-- What SCOPE::writevcd writes below the header for a compressed scope, with up to 69 registered
-- traces of 1 to 32 bits, fewer than 2^31 words, and times that rise with the addresses: at the
-- time of every clock from the first sample on, the variable of each trace has its bits of the
-- word that the scope recorded for that clock, where a word whose top bit is set repeats the
-- sample before it, as often as its other bits say and once more; and no value where no sample
-- came before.
pub write_body-recorded :
    (p : Printer) (s : Scope) (ds : List Declared) (i k : ℕ) (d : Declared) (ws : List ℕ)
    (x : Option ℕ)
    → ((a b : ℕ) → a < b → p.now_ns s.clkfreq_hz a < p.now_ns s.clkfreq_hz b)
    → s.compressed ≡ true
    → s.traces ≡ register_all ds []
    → HaveWidth ds
    → length ds ≤ 69
    → get_elem? ds i ≡ some d
    → length ws < 2 ^ 31
    → get_elem? (recorded ws) k ≡ some x
    → value_at (p.now_ns s.clkfreq_hz k) (trace_key i) (write_body p s ws) none
      ≡ of_sample (trace_bits d) x
unfolding write_body
write_body-recorded p s ds i k d ws x rising c registered widths few has fits e =
    rw (c, registered)
      (body-follows ds widths few i d has (p.now_ns s.clkfreq_hz) _ _ k ws x rising fits e)
