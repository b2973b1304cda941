-- ===== src/Scope/Vcd/Marks.antt =====
-- Where writevcd marks the trigger.
use dbgbus.Base.{
  ℕ, zero, suc, ◌+◌, ◌-◌, ◌/◌, ◌%◌, ◌^◌, ◌≤◌, ◌<◌, ◌≡◌, refl, ap, ◌∙◌, Bool, true, false,
  Bool-cases, inl, inr, List, [], ◌∷◌, ◌++◌, ◌==◌, arith, u32, u64, length, if◌then◌else◌, bit_and,
  bit_and_low, bit_and_power, All, not, ◌&&◌,
}
use dbgbus.Scope.Trace.{TraceInfo}
use dbgbus.Scope.Device.{Scope, count_extra, getaddresslen}
use dbgbus.Scope.Vcd.{
  Entry, preamble, timezero, open_scope, close_scope, var, stamp, trigger, clock, value, is_jump,
  jump_length, trigger_offset, sample_values, mark, compressed_body, plain_body, Printer,
  write_body,
}

-- The values that the trigger variable is given, in order.
abbrev pub marks : List Entry → List Bool
marks [] = []
marks (trigger b ∷ es) = b ∷ marks es
marks (preamble ∷ es) = marks es
marks (timezero t ∷ es) = marks es
marks (open_scope ∷ es) = marks es
marks (close_scope ∷ es) = marks es
marks (var w k n r ∷ es) = marks es
marks (stamp t ∷ es) = marks es
marks (clock b ∷ es) = marks es
marks (value v ∷ es) = marks es

marks-sample_values :
    (traces : List TraceInfo) (w : ℕ) (es : List Entry)
    → marks (sample_values traces w ++ es) ≡ marks es
unfolding sample_values
marks-sample_values [] w es = refl
marks-sample_values (t ∷ ts) w es = marks-sample_values ts w es

-- Where the trigger is among the indices from `i`.
abbrev pub flags : ℕ → ℕ → ℕ → List Bool
flags offset i zero = []
flags offset i (suc n) = (i == offset) ∷ flags offset (i + 1) n

marks-plain_body :
    (rise_ns fall_ns : ℕ → ℕ) (traces : List TraceInfo) (offset i : ℕ) (ws : List ℕ)
    → marks (plain_body rise_ns fall_ns traces offset i ws) ≡ flags offset i (length ws)
unfolding plain_body
marks-plain_body rise_ns fall_ns traces offset i [] = refl
marks-plain_body rise_ns fall_ns traces offset i (w ∷ ws) =
    ap (◌∷◌ (i == offset))
      (marks-sample_values traces w _ ∙ marks-plain_body rise_ns fall_ns traces offset (i + 1) ws)

-- The file that writevcd makes of a plain scope gives the trigger one value for each word, and
-- the value is 1 at the word that is the holdoff before the last one, and nowhere else.
pub write_body-marks :
    (p : Printer) (s : Scope) (ws : List ℕ)
    → s.compressed ≡ false
    → length ws ≡ s.scoplen
    → s.holdoff < s.scoplen
    → s.scoplen < 2 ^ 31
    → marks (write_body p s ws) ≡ flags (s.scoplen - s.holdoff - 1) 0 s.scoplen
unfolding write_body getaddresslen trigger_offset
write_body-marks p s ws c e lt fits =
    let at : u32 (s.scoplen + 2 ^ 33 - s.holdoff - 1) ≡ s.scoplen - s.holdoff - 1 = omega arith in
    rw
      (
        c,
        marks-plain_body (p.rise_ns s.clkfreq_hz) (p.fall_ns s.clkfreq_hz) s.traces
            (u32 (s.scoplen + 2 ^ 33 - s.holdoff - 1)) 0 ws,
        at,
        e,
      )
      refl

-- The times that the jumps of the words from index `i` stand for, beyond one for each word; the
-- first word does not count.
abbrev pub jumps : ℕ → List ℕ → ℕ
jumps i [] = 0
jumps i (w ∷ ws) = (if is_jump w && not (i == 0) then jump_length w else 0) + jumps (i + 1) ws

jumps-jump :
    (i w : ℕ) (ws : List ℕ)
    → (is_jump w && not (i == 0)) ≡ true
    → jumps i (w ∷ ws) ≡ jump_length w + jumps (i + 1) ws
jumps-jump i w ws e = rw e refl

jumps-sample :
    (i w : ℕ) (ws : List ℕ)
    → (is_jump w && not (i == 0)) ≡ false
    → jumps i (w ∷ ws) ≡ jumps (i + 1) ws
jumps-sample i w ws e = rw e (omega arith)

abbrev pub IsLow : Bool → Type 0
IsLow b = b ≡ false

top_bit : (w : ℕ) → w < 2 ^ 32 → (bit_and w 0x80000000 == 0x80000000) ≡ is_jump w
top_bit w f = rw (bit_and_power 31 w, bit_and_low 1 (w / 2 ^ 31)) (ground arith)

count_extra_lem :
    (i alen : ℕ) (ws : List ℕ)
    → All (λ w. w < 2 ^ 32) ws
    → alen + jumps i ws < 2 ^ 32
    → count_extra i alen ws ≡ alen + jumps i ws
unfolding count_extra
count_extra_lem i alen [] a f = omega arith
count_extra_lem i alen (w ∷ ws) (b, a) f =
    let t = top_bit w b in
    let j : jump_length w ≡ w % 2 ^ 31 = bit_and_low 31 w in
    elim (Bool-cases (is_jump w && not (i == 0))) [
      | inl jumped ↦
          let e = jumps-jump i w ws jumped in
          let small : u32 (alen + jump_length w) ≡ alen + jump_length w = omega (arith, e) in
          let rest = count_extra_lem (i + 1) (alen + jump_length w) ws a (omega (arith, e)) in
          rw (count_extra, t, jumped, small, rest) (omega arith)
      | inr steady ↦
          let e = jumps-sample i w ws steady in
          let rest = count_extra_lem (i + 1) alen ws a (omega (arith, e)) in
          rw (count_extra, t, steady, rest) (omega arith)
    ]

-- A sample that is at an address below the length is not marked.
marks-mark :
    (alen offset addrv : ℕ) (last : Bool)
    → last ≡ true
    → (u32 (addrv + 2 ^ 32 - alen) == offset) ≡ false
    → mark alen offset addrv last ≡ (trigger false ∷ [], true)
unfolding mark
marks-mark alen offset addrv last l e = rw (e, l) refl

not_marked :
    (alen holdoff addrv : ℕ)
    → alen < 2 ^ 31
    → holdoff < alen
    → addrv < alen
    → (u32 (addrv + 2 ^ 32 - alen) == trigger_offset alen holdoff) ≡ false
unfolding trigger_offset
not_marked alen holdoff addrv fits lt le = ground arith

marks-compressed_body :
    (now_ns : ℕ → ℕ) (traces : List TraceInfo) (alen holdoff i addrv : ℕ) (ws : List ℕ)
    → alen < 2 ^ 31
    → holdoff < alen
    → addrv + length ws + jumps i ws ≤ alen
    → All IsLow
        (marks (compressed_body now_ns traces alen (trigger_offset alen holdoff) i addrv true ws))
unfolding compressed_body trigger_offset
marks-compressed_body now_ns traces alen holdoff i addrv [] fits lt le = tt
marks-compressed_body now_ns traces alen holdoff i addrv (w ∷ ws) fits lt le =
    elim (Bool-cases (is_jump w)) [
      | inl jumped ↦ elim (Bool-cases (i == 0)) [
        | inl first ↦
            let e = jumps-sample i w ws (rw (jumped, first) refl) in
            rw (compressed_body, jumped, first)
              (marks-compressed_body now_ns traces alen holdoff (i + 1) addrv ws fits lt
                (omega (arith, e)))
        | inr later ↦
            let e = jumps-jump i w ws (rw (jumped, later) refl) in
            let small : u64 (addrv + jump_length w + 1) ≡ addrv + jump_length w + 1 =
              omega (arith, e) in
            rw (compressed_body, jumped, later, small)
              (
                refl,
                marks-compressed_body now_ns traces alen holdoff (i + 1) (addrv + jump_length w + 1)
                    ws fits lt (omega (arith, e)),
              )
      ]
      | inr steady ↦
          let e = jumps-sample i w ws (rw steady refl) in
          let unmarked =
            marks-mark alen (trigger_offset alen holdoff) addrv true refl
              (not_marked alen holdoff addrv fits lt (omega (arith, e))) in
          let small : u64 (addrv + 1) ≡ addrv + 1 = omega (arith, e) in
          rw (compressed_body, steady, unmarked, small, marks-sample_values traces w _)
            (
              refl,
              marks-compressed_body now_ns traces alen holdoff (i + 1) (addrv + 1) ws fits lt
                  (omega (arith, e)),
            )
    ]

-- The file that writevcd makes of a compressed scope never marks the trigger, where the holdoff is
-- less than the length, as it is when the trigger is in the buffer, and the times fit 31 bits: the
-- trigger variable is only ever given the value 0.
pub write_body-unmarked :
    (p : Printer) (s : Scope) (ws : List ℕ)
    → s.compressed ≡ true
    → length ws ≡ s.scoplen
    → All (λ w. w < 2 ^ 32) ws
    → s.scoplen + jumps 0 ws < 2 ^ 31
    → s.holdoff < s.scoplen
    → All IsLow (marks (write_body p s ws))
unfolding write_body getaddresslen
write_body-unmarked p s ws c e a fits lt =
    rw (c, count_extra_lem 0 s.scoplen ws a (omega arith))
      (marks-compressed_body (p.now_ns s.clkfreq_hz) s.traces (s.scoplen + jumps 0 ws) s.holdoff 0 0
        ws fits (omega arith) (omega (arith, e)))
