-- ===== src/Hexbus/Buffer.antt =====
-- The buffer of HEXBUS: its size, and what lclreadcode leaves in it.
use dbgbus.Base.{
  ℕ, zero, suc, ◌+◌, ◌-◌, ◌%◌, ◌/◌, ◌^◌, ◌≤◌, ◌<◌, ◌≡◌, refl, ◌∙◌, Bool, true, false, Bool-cases,
  inl, inr, List, ◌++◌, arith, length, get_or, set, length-set, get_or-set_self, get_or-set_ne,
  set-get_or, lt_or_eq, and_digit, bit_and_low, bit_and, length-append, if◌then◌else◌,
}
use dbgbus.Comms.{Comms}
use dbgbus.Hexbus.Link.{Link}
use dbgbus.Hexbus.State.{Hexbus, bufalloc, init, squeeze, is_idle_byte}
use dbgbus.Hexbus.Transfer.{encode_address, write_command}
use dbgbus.Hexbus.Transfer.Reads.{length-encode_address-le}
use dbgbus.Hexbus.Transfer.Write.{length-write_command-le}

-- `len & -0x3f` keeps bit 0 and clears the five bits above it.
size_mask : (n : ℕ) → n < 2 ^ 32 → bit_and n 0xffffffc1 ≡ n - n % 64 + n % 2
size_mask n h = omega (
  arith,
  and_digit n 0xffffffc1,
  and_digit (n / 2) 0x7fffffe0,
  and_digit (n / 2 / 2) 0x3ffffff0,
  and_digit (n / 2 / 2 / 2) 0x1ffffff8,
  and_digit (n / 2 / 2 / 2 / 2) 0x0ffffffc,
  and_digit (n / 2 / 2 / 2 / 2 / 2) 0x07fffffe,
  bit_and_low 26 (n / 2 / 2 / 2 / 2 / 2 / 2),
)

-- bufalloc leaves a buffer of at least the length asked for, and no shorter than the one before.
bufalloc-le :
    (len : ℕ) (h : Hexbus)
    → len < 2 ^ 31
    → ((bufalloc len h).has_buf ≡ true)
      × (len ≤ (bufalloc len h).buflen)
      × ((if h.has_buf then h.buflen else 0) ≤ (bufalloc len h).buflen)
unfolding bufalloc
bufalloc-le len h f = ground (arith, size_mask len)

-- The longest command, with the NUL behind it, fits the buffer that the constructor allocates.
pub command-fits_buffer :
    (a v lastaddr : ℕ) (inc isspace_seen : Bool) (dev : Comms) (l : Link)
    → length (encode_address a l ++ write_command v) + 1
      ≤ (init lastaddr inc isspace_seen dev).buflen
unfolding init bufalloc
command-fits_buffer a v lastaddr inc isspace_seen dev l = omega (
  arith,
  length-append (encode_address a l) (write_command v),
  length-encode_address-le a l,
  length-write_command-le v,
)

abbrev at_index : List ℕ → ℕ → ℕ
at_index buf j = get_or buf j 0

-- From `k` on the bytes of `out` are idle bytes; before, they are those of `buf`.
pub record IdleFrom (k : ℕ) (buf out : List ℕ) : Type 0 where
  pub same_length : length out ≡ length buf
  pub kept : (j : ℕ) → j < k → at_index out j ≡ at_index buf j
  pub idle : (j : ℕ) → k ≤ j → j < length buf → is_idle_byte (at_index out j) ≡ true

-- The bytes of `buf` from `k` up to `i` are idle bytes.
abbrev AreIdle : ℕ → ℕ → List ℕ → Type 0
AreIdle k i buf = (j : ℕ) → k ≤ j → j < i → is_idle_byte (at_index buf j) ≡ true

AreIdle-suc :
    (k i : ℕ) (buf : List ℕ)
    → AreIdle k i buf
    → is_idle_byte (at_index buf i) ≡ true
    → AreIdle k (i + 1) buf
AreIdle-suc k i buf id e j p q = elim (lt_or_eq j i q) [
  | inl before ↦ id j p before
  | inr here ↦ rw here e
]

-- The copy of an idle byte to index `i`.
AreIdle-set :
    (k i dp : ℕ) (buf : List ℕ)
    → i < length buf
    → k ≤ dp
    → dp < i
    → AreIdle k i buf
    → AreIdle k (i + 1) (set buf i (at_index buf dp))
AreIdle-set k i dp buf lt lo hi id =
    AreIdle-suc k i (set buf i (at_index buf dp))
      (λ j p q. rw (get_or-set_ne buf i j (at_index buf dp) 0 (omega arith)) (id j p q))
      (rw (get_or-set_self buf i (at_index buf dp) 0 lt) (id dp lo hi))

IdleFrom-set :
    (k i v : ℕ) (buf out : List ℕ) → k ≤ i → IdleFrom k (set buf i v) out → IdleFrom k buf out
IdleFrom-set k i v buf out le r = record {
  same_length = r.same_length ∙ length-set buf i v;
  kept = λ j h. r.kept j h ∙ get_or-set_ne buf i j v 0 (omega arith);
  idle = λ j p q. r.idle j p (rw (length-set buf i v) q);
}

-- Behind the first idle byte only idle bytes are copied.
squeeze_behind :
    (left i dp k : ℕ) (buf : List ℕ)
    → i + left ≡ length buf
    → k ≤ dp
    → dp < i
    → AreIdle k i buf
    → IdleFrom k buf (squeeze left i i dp buf)
unfolding squeeze
squeeze_behind zero i dp k buf e lo hi id = record {
  same_length = refl;
  kept = λ j h. refl;
  idle = λ j p q. id j p (omega arith);
}
squeeze_behind (suc left) i dp k buf e lo hi id =
    let v = at_index buf dp in
    let in_range : i < length buf = omega arith in
    let size = length-set buf i v in
    elim (Bool-cases (is_idle_byte (at_index buf i))) [
      | inl skip ↦ rw skip (
          squeeze_behind left (i + 1) dp k buf (omega arith) lo (omega arith)
            (AreIdle-suc k i buf id skip))
      | inr copy ↦ rw copy (
          IdleFrom-set k i v buf _ (omega arith) (
            squeeze_behind left (i + 1) (dp + 1) k (set buf i v) (omega (arith, size)) (omega arith)
              (omega arith) (AreIdle-set k i dp buf in_range lo hi id)))
    ]

-- Where the first idle byte stands, if there is one, and what becomes of the buffer.
pub record Squeezed (i : ℕ) (buf out : List ℕ) : Type 0 where
  pub first : ℕ
  pub bounds : (i ≤ first) × (first ≤ length buf)
  pub none_before : (j : ℕ) → i ≤ j → j < first → is_idle_byte (at_index buf j) ≡ false
  pub is_idle : first < length buf → is_idle_byte (at_index buf first) ≡ true
  pub rest : IdleFrom first buf out

squeeze_ahead :
    (left i : ℕ) (buf : List ℕ) → i + left ≡ length buf → Squeezed i buf (squeeze left i i i buf)
unfolding squeeze
squeeze_ahead zero i buf e = record {
  first = i;
  bounds = (omega arith, omega arith);
  none_before = λ j p q. absurd (omega arith);
  is_idle = λ h. absurd (omega arith);
  rest = record { same_length = refl; kept = λ j h. refl; idle = λ j p q. absurd (omega arith) };
}
squeeze_ahead (suc left) i buf e = elim (Bool-cases (is_idle_byte (at_index buf i))) [
  | inl skip ↦ rw skip (record {
    first = i;
    bounds = (omega arith, omega arith);
    none_before = λ j p q. absurd (omega arith);
    is_idle = λ h. skip;
    rest =
        squeeze_behind left (i + 1) i i buf (omega arith) (omega arith) (omega arith)
          (AreIdle-suc i i buf (λ j p q. absurd (omega arith)) skip);
  })
  | inr copy ↦
      let same = set-get_or buf i 0 (let lt : i < length buf = omega arith in lt) in
      let ih = squeeze_ahead left (i + 1) buf (omega arith) in
      rw (copy, same)
        (record {
          first = ih.first;
          bounds = (omega (arith, ih.bounds), ih.bounds.1);
          none_before = λ j p q. before j p ih q copy;
          is_idle = ih.is_idle;
          rest = ih.rest;
        })
]
  where
    before :
        (j : ℕ)
        → i ≤ j
        → {out : List ℕ} → (s : Squeezed (i + 1) buf out) → j < s.first
        → is_idle_byte (at_index buf i) ≡ false
        → is_idle_byte (at_index buf j) ≡ false
    before j p s q copy = elim (lt_or_eq i j (omega arith)) [
      | inl after ↦ s.none_before j (omega arith) q
      | inr here ↦ rw (← here) copy
    ]

-- The loop of lclreadcode keeps the bytes ahead of the first idle byte, and drops none: everything
-- from the first idle byte on is overwritten by idle bytes, and the length stays.
pub squeeze-idle : (buf : List ℕ) → Squeezed 0 buf (squeeze (length buf) 0 0 0 buf)
squeeze-idle buf = squeeze_ahead (length buf) 0 buf (omega arith)
