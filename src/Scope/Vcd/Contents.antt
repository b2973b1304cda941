-- ===== src/Scope/Vcd/Contents.antt =====
-- What a reader of the VCD file of a compressed scope sees: the signal that was compressed.
use native.Mathlib.Decide.{dec_lt}
use dbgbus.Base.{
  ℕ, zero, suc, ◌+◌, ◌-◌, ◌*◌, ◌^◌, ◌≤◌, ◌<◌, ◌≡◌, refl, sym, ◌∙◌, ap, Bool, true, false,
  Bool-cases, inl, inr, ◌==◌, Option, none, some, List, [], ◌∷◌, ◌++◌, arith, leb, if◌then◌else◌,
  length, get_elem?, replicate, u32, u64, bit_and_low,
}
use dbgbus.Scope.Trace.{TraceInfo, write_binary}
use dbgbus.Scope.Vcd.{
  Entry, stamp, trigger, value, is_jump, jump_length, mark, sample_values, compressed_body,
}
use dbgbus.Scope.Vcd.Reader.{value_at}

-- A compressed signal: a word whose top bit is set says for how many clocks more the sample before
-- it stayed, less one.
abbrev pub signal : Option ℕ → List ℕ → List (Option ℕ)
signal last [] = []
signal last (w ∷ ws) = elim (is_jump w) [
  | true ↦ replicate (jump_length w + 1) last ++ signal last ws
  | false ↦ some w ∷ signal (some w) ws
]

jump_length-lt : (w : ℕ) → jump_length w < 2 ^ 31
jump_length-lt w = omega (arith, bit_and_low 31 w)

get_elem?-replicate :
    (n k : ℕ) (a : Option ℕ) (xs : List (Option ℕ))
    → k < n
    → get_elem? (replicate n a ++ xs) k ≡ some a
get_elem?-replicate zero k a xs l = absurd (omega arith)
get_elem?-replicate (suc n) zero a xs l = refl
get_elem?-replicate (suc n) (suc k) a xs l = get_elem?-replicate n k a xs (omega arith)

get_elem?-behind :
    (n k : ℕ) (a : Option ℕ) (xs : List (Option ℕ))
    → get_elem? (replicate n a ++ xs) (n + k) ≡ get_elem? xs k
get_elem?-behind zero k a xs = let e : 0 + k ≡ k = omega arith in rw e refl
get_elem?-behind (suc n) k a xs =
    let e : suc n + k ≡ suc (n + k) = omega arith in rw e (get_elem?-behind n k a xs)

signal-jump :
    (s : Option ℕ) (w : ℕ) (ws : List ℕ)
    → is_jump w ≡ true
    → signal s (w ∷ ws) ≡ replicate (jump_length w + 1) s ++ signal s ws
signal-jump s w ws e = rw (signal, e) refl

pub signal-sample :
    (s : Option ℕ) (w : ℕ) (ws : List ℕ)
    → is_jump w ≡ false
    → signal s (w ∷ ws) ≡ some w ∷ signal (some w) ws
signal-sample s w ws e = rw (signal, e) refl

abbrev pub of_sample : (ℕ → ℕ) → Option ℕ → Option ℕ
of_sample f none = none
of_sample f (some w) = some (f w)

-- The times of the addresses, the traces, and a variable whose value at a sample is given by `f`.
module _ (now : ℕ → ℕ) (rising : (a b : ℕ) → a < b → now a < now b) (traces : List TraceInfo)
    (key : List ℕ) (f : ℕ → ℕ)
    (shows : (t w : ℕ) (es : List Entry) (cur : Option ℕ)
      → value_at t key
          (value (write_binary 31 w (b'\'' ∷ b'R' ∷ b'\n' ∷ [])) ∷ (sample_values traces w ++ es))
          cur
        ≡ value_at t key es (some (f w))) where
  -- A stamp is passed at its time, and is not passed ahead of it.
  passed :
      (a t : ℕ) (es : List Entry) (cur : Option ℕ)
      → a ≤ t
      → value_at (now t) key (stamp (now a) ∷ es) cur ≡ value_at (now t) key es cur
  passed a t es cur l = elim (Bool-cases (a == t)) [
    | inl e ↦
        let same : a ≡ t = ground arith in
        let le : leb (now t) (now t) ≡ true = ground arith in rw (same, le) refl
    | inr e ↦ let le : leb (now a) (now t) ≡ true = ground (arith, rising a t) in rw le refl
  ]

  stopped :
      (a t : ℕ) (es : List Entry) (cur : Option ℕ)
      → t < a
      → value_at (now t) key (stamp (now a) ∷ es) cur ≡ cur
  stopped a t es cur l =
      let gt : leb (now a) (now t) ≡ false = ground (arith, rising t a) in rw gt refl

  value_at-mark :
      (t alen offset a : ℕ) (last : Bool) (es : List Entry) (cur : Option ℕ)
      → value_at t key ((mark alen offset a last).0 ++ es) cur ≡ value_at t key es cur
  unfolding mark
  value_at-mark t alen offset a true es cur =
      elim (Bool-cases (u32 (a + 2 ^ 32 - alen) == offset)) [
        | inl e ↦ rw (mark, e) refl
        | inr e ↦ rw (mark, e) refl
      ]
  value_at-mark t alen offset a false es cur =
      elim (Bool-cases (u32 (a + 2 ^ 32 - alen) == offset)) [
        | inl e ↦ rw (mark, e) refl
        | inr e ↦ rw (mark, e) refl
      ]

  module _ (alen offset : ℕ) where
    abbrev pub body : ℕ → ℕ → Bool → List ℕ → List Entry
    body i a last ws = compressed_body now traces alen offset i a last ws

    abbrev pub behind_jump : ℕ → Bool → List Entry → List Entry
    behind_jump a last es =
        (if last then stamp (now (u64 (a + 1))) ∷ trigger false ∷ [] else []) ++ es

    body-jump :
        (i a w : ℕ) (last : Bool) (ws : List ℕ)
        → is_jump w ≡ true
        → 0 < i
        → a + jump_length w + 1 < 2 ^ 64
        → body i a last (w ∷ ws) ≡ behind_jump a last (body (i + 1) (a + jump_length w + 1) last ws)
    unfolding compressed_body
    body-jump i a w last ws e pos fits =
        let later : (i == 0) ≡ false = ground arith in
        let whole : u64 (a + jump_length w + 1) ≡ a + jump_length w + 1 = omega arith in
        rw (compressed_body, e, later, whole) refl

    body-sample :
        (i a w : ℕ) (last : Bool) (ws : List ℕ)
        → is_jump w ≡ false
        → a + 1 < 2 ^ 64
        → let m = mark alen offset a last in
          body i a last (w ∷ ws)
          ≡ stamp (now a)
            ∷ (m.0
                ++ value (write_binary 31 w (b'\'' ∷ b'R' ∷ b'\n' ∷ []))
                  ∷ (sample_values traces w ++ body (i + 1) (a + 1) m.1 ws))
    unfolding compressed_body
    body-sample i a w last ws e fits =
        let whole : u64 (a + 1) ≡ a + 1 = omega arith in rw (compressed_body, e, whole) refl

    kept-behind_jump :
        (a t : ℕ) (last : Bool) (es : List Entry) (cur : Option ℕ)
        → value_at t key es cur ≡ cur
        → value_at t key (behind_jump a last es) cur ≡ cur
    kept-behind_jump a t true es cur e = elim (Bool-cases (leb (now (u64 (a + 1))) t)) [
      | inl l ↦ rw l e
      | inr l ↦ rw l refl
    ]
    kept-behind_jump a t false es cur e = e

    passed-behind_jump :
        (a t : ℕ) (last : Bool) (es : List Entry) (cur : Option ℕ)
        → a + 1 < 2 ^ 64
        → a < t
        → value_at (now t) key (behind_jump a last es) cur ≡ value_at (now t) key es cur
    passed-behind_jump a t true es cur fits lt =
        let whole : u64 (a + 1) ≡ a + 1 = omega arith in
        rw whole (passed (a + 1) t (trigger false ∷ es) cur (omega arith))
    passed-behind_jump a t false es cur fits lt = refl

    -- Ahead of the address `a` nothing changes.
    before :
        (i a t : ℕ) (last : Bool) (ws : List ℕ) (cur : Option ℕ)
        → t < a
        → 0 < i
        → a + length ws * 2 ^ 32 < 2 ^ 64
        → value_at (now t) key (body i a last ws) cur ≡ cur
    unfolding compressed_body
    before i a t last [] cur lt pos fits = refl
    before i a t last (w ∷ ws) cur lt pos fits = elim (Bool-cases (is_jump w)) [
      | inl e ↦
          let j = jump_length-lt w in
          rw (body-jump i a w last ws e pos (omega arith)) (
            kept-behind_jump a (now t) last (body (i + 1) (a + jump_length w + 1) last ws) cur (
              before (i + 1) (a + jump_length w + 1) t last ws cur (omega arith) (omega arith)
                (omega arith)))
      | inr e ↦
          let m = mark alen offset a last in
          let es =
            m.0
            ++ value (write_binary 31 w (b'\'' ∷ b'R' ∷ b'\n' ∷ []))
              ∷ (sample_values traces w ++ body (i + 1) (a + 1) m.1 ws) in
          rw (body-sample i a w last ws e (omega arith)) (stopped a t es cur lt)
    ]

    -- A sample, at its time or later.
    value_at-sample :
        (i a t w : ℕ) (last : Bool) (ws : List ℕ) (cur : Option ℕ)
        → is_jump w ≡ false
        → a + 1 < 2 ^ 64
        → a ≤ t
        → value_at (now t) key (body i a last (w ∷ ws)) cur
          ≡ value_at (now t) key (body (i + 1) (a + 1) (mark alen offset a last).1 ws) (some (f w))
    value_at-sample i a t w last ws cur e fits le =
        let m = mark alen offset a last in
        let es = body (i + 1) (a + 1) m.1 ws in
        let line = value (write_binary 31 w (b'\'' ∷ b'R' ∷ b'\n' ∷ [])) in
        ap (λ x. value_at (now t) key x cur) (body-sample i a w last ws e fits)
        ∙ passed a t (m.0 ++ line ∷ (sample_values traces w ++ es)) cur le
        ∙ value_at-mark (now t) alen offset a last (line ∷ (sample_values traces w ++ es)) cur
        ∙ shows (now t) w es cur

    -- At the address `t` the variable has the value that `x` gives.
    abbrev pub HoldsAt : ℕ → ℕ → ℕ → Bool → List ℕ → Option ℕ → Option ℕ → Type 0
    HoldsAt i a t last ws s x =
        value_at (now t) key (body i a last ws) (of_sample f s) ≡ of_sample f x

    -- While a jump lasts.
    follows-jump :
        (i a k w : ℕ) (last : Bool) (ws : List ℕ) (s x : Option ℕ)
        → is_jump w ≡ true
        → k < jump_length w + 1
        → 0 < i
        → a + length (w ∷ ws) * 2 ^ 32 < 2 ^ 64
        → get_elem? (signal s (w ∷ ws)) k ≡ some x
        → HoldsAt i a (a + k) last (w ∷ ws) s x
    follows-jump i a k w last ws s x jumped early pos fits e =
        let small = jump_length-lt w in
        let stays : some s ≡ some x =
          sym (get_elem?-replicate (jump_length w + 1) k s (signal s ws) early)
          ∙ ap (λ l. get_elem? l k) (sym (signal-jump s w ws jumped))
          ∙ e in
        let same : s ≡ x = cc in
        ap (λ es. value_at (now (a + k)) key es (of_sample f s))
          (body-jump i a w last ws jumped pos (omega arith))
        ∙ kept-behind_jump a (now (a + k)) last (body (i + 1) (a + jump_length w + 1) last ws)
            (of_sample f s)
            (before (i + 1) (a + jump_length w + 1) (a + k) last ws (of_sample f s) (omega arith)
              (omega arith) (omega arith))
        ∙ ap (of_sample f) same

    -- When a jump is over.
    follows-behind_jump :
        (i a k w : ℕ) (last : Bool) (ws : List ℕ) (s x : Option ℕ)
        → is_jump w ≡ true
        → 0 < i
        → a + length (w ∷ ws) * 2 ^ 32 < 2 ^ 64
        → HoldsAt (i + 1) (a + jump_length w + 1) (a + jump_length w + 1 + k) last ws s x
        → HoldsAt i a (a + (jump_length w + 1 + k)) last (w ∷ ws) s x
    follows-behind_jump i a k w last ws s x jumped pos fits ih =
        let small = jump_length-lt w in
        let at : a + (jump_length w + 1 + k) ≡ a + jump_length w + 1 + k = omega arith in
        let es = body (i + 1) (a + jump_length w + 1) last ws in
        ap (λ es. value_at (now (a + (jump_length w + 1 + k))) key es (of_sample f s))
          (body-jump i a w last ws jumped pos (omega arith))
        ∙ passed-behind_jump a (a + (jump_length w + 1 + k)) last es (of_sample f s) (omega arith)
            (omega arith)
        ∙ ap (λ t. value_at (now t) key es (of_sample f s)) at
        ∙ ih

    -- A sample, and what comes behind it.
    pub follows-sample :
        (i a k w : ℕ) (last : Bool) (ws : List ℕ) (s x : Option ℕ)
        → is_jump w ≡ false
        → a + length (w ∷ ws) * 2 ^ 32 < 2 ^ 64
        → get_elem? (signal s (w ∷ ws)) k ≡ some x
        → let last' = (mark alen offset a last).1 in
          ((j : ℕ)
            → get_elem? (signal (some w) ws) j ≡ some x
            → HoldsAt (i + 1) (a + 1) (a + 1 + j) last' ws (some w) x)
          → HoldsAt i a (a + k) last (w ∷ ws) s x
    follows-sample i a zero w last ws s x steady fits e ih =
        let first : some (some w) ≡ some x =
          ap (λ l. get_elem? l 0) (sym (signal-sample s w ws steady)) ∙ e in
        let same : some w ≡ x = cc in
        value_at-sample i a (a + 0) w last ws (of_sample f s) steady (omega arith) (omega arith)
        ∙ before (i + 1) (a + 1) (a + 0) (mark alen offset a last).1 ws (some (f w)) (omega arith)
            (omega arith) (omega arith)
        ∙ ap (of_sample f) same
    follows-sample i a (suc k) w last ws s x steady fits e ih =
        let at : a + suc k ≡ a + 1 + k = omega arith in
        let last' = (mark alen offset a last).1 in
        value_at-sample i a (a + suc k) w last ws (of_sample f s) steady (omega arith) (omega arith)
        ∙ ap (λ t. value_at (now t) key (body (i + 1) (a + 1) last' ws) (some (f w))) at
        ∙ ih k (ap (λ l. get_elem? l (suc k)) (sym (signal-sample s w ws steady)) ∙ e)

    -- From the address `a` on the variable follows the signal.
    pub follows :
        (i a k : ℕ) (last : Bool) (ws : List ℕ) (s x : Option ℕ)
        → 0 < i
        → a + length ws * 2 ^ 32 < 2 ^ 64
        → get_elem? (signal s ws) k ≡ some x
        → HoldsAt i a (a + k) last ws s x
    follows i a k last [] s x pos fits e = absurd (cc)
    follows i a k last (w ∷ ws) s x pos fits e = elim (Bool-cases (is_jump w)) [
      | inl jumped ↦ elim (dec_lt k (jump_length w + 1)) [
        | yes early ↦ follows-jump i a k w last ws s x jumped early pos fits e
        | no late ↦
            let n = jump_length w + 1 in
            let small = jump_length-lt w in
            let at : n + (k - n) ≡ k = omega arith in
            let there : get_elem? (signal s ws) (k - n) ≡ some x =
              sym (get_elem?-behind n (k - n) s (signal s ws))
              ∙ ap (get_elem? (replicate n s ++ signal s ws)) at
              ∙ ap (λ l. get_elem? l k) (sym (signal-jump s w ws jumped))
              ∙ e in
            let later = follows-behind_jump i a (k - n) w last ws s x jumped pos fits (
              follows (i + 1) (a + jump_length w + 1) (k - n) last ws s x (omega arith)
                (omega arith) there) in
            ap (λ j. value_at (now (a + j)) key (body i a last (w ∷ ws)) (of_sample f s)) (sym at)
            ∙ later
      ]
      | inr steady ↦ follows-sample i a k w last ws s x steady fits e (λ j there.
          follows (i + 1) (a + 1) j (mark alen offset a last).1 ws (some w) x (omega arith)
            (omega arith) there)
    ]
