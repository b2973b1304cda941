-- ===== src/Scope/Device.antt =====
-- The state of SCOPE, and what it reads from the bus.
pub mod Reads
pub mod Wired
use dbgbus.Base.{
  ℕ, zero, suc, ◌+◌, ◌-◌, ◌/◌, ◌^◌, Bool, true, false, not, ◌&&◌, ◌||◌, Option, none, some, List,
  [], ◌∷◌, ltb, leb, ◌==◌, if◌then◌else◌, u32, bit_and, get_or,
}
use dbgbus.Outcome.{ok, Run, bound, ◌>>=◌, ◌>>◌, pure, get, modify}
use dbgbus.Devbus.{Devbus}
use dbgbus.Scope.Trace.{TraceInfo}

pub record Scope : Type 0 where
  pub addr : ℕ
  pub compressed : Bool
  pub vector_read : Bool
  pub scoplen : ℕ
  pub holdoff : ℕ
  -- m_data; `none` is NULL.
  pub samples : Option (List ℕ)
  pub clkfreq_hz : ℕ
  pub traces : List TraceInfo

-- SCOPE::SCOPE, which does not set m_holdoff.
pub init : ℕ → Bool → Bool → ℕ → Scope
init addr compressed vecread holdoff = record {
  addr = addr;
  compressed = compressed;
  vector_read = vecread;
  scoplen = 0;
  holdoff = holdoff;
  samples = none;
  clkfreq_hz = 100000000;
  traces = [];
}

-- The fields of the control word.
abbrev pub length_field : ℕ → ℕ
length_field v = bit_and (v / 2 ^ 20) 0x1f

abbrev pub holdoff_field : ℕ → ℕ
holdoff_field v = bit_and v (2 ^ 20 - 1)

-- A scope and the bus that it is on.
pub record Session (B : Type 0) : Type 0 where
  pub scope : Scope
  pub open scope use *
  pub bus : B

abbrev pub on_bus {ℓ} : {B : Type 0} {A : Type ℓ} → Run B A → Run (Session B) A
on_bus m s = let (r, b) = m s.bus in (r, record s { bus = b })

abbrev pub update : {B : Type 0} → (Scope → Scope) → Run (Session B) (Unit {0})
update f = modify (λ s. record s { scope = f s.scope })

-- `1 << lgln` in 32 bits.
abbrev pub take_control : ℕ → Scope → Scope
take_control v s = record s { scoplen = u32 (2 ^ length_field v); holdoff = holdoff_field v }

-- What SCOPE::ready learns from the control word where the length is not known.
unfoldable pub learn : ℕ → Scope → Scope
learn v s = if s.scoplen == 0 then take_control v s else s

-- Stopped and triggered.
unfoldable pub is_ready : ℕ → Bool
is_ready v = bit_and (v / 2 ^ 28) 6 == 6

-- What SCOPE::scoplen learns: a length field of zero leaves the length zero.
unfoldable pub learn_length : ℕ → Scope → Scope
learn_length v s =
    let known = record s { holdoff = holdoff_field v } in
    if not (length_field v == 0) then record known { scoplen = u32 (2 ^ length_field v) } else known

module _ {B : Type 0} (fpga : Devbus B) where
  -- SCOPE::ready.
  unfoldable pub ready : Run (Session B) Bool
  unfolding learn is_ready
  ready = do s ← get; v ← on_bus (fpga.readio s.addr); update (learn v); pure (is_ready v)

  -- SCOPE::scoplen.
  unfoldable pub scoplen : Run (Session B) ℕ
  unfolding learn_length
  scoplen s = elim (s.scoplen == 0) [
    | true ↦
        bound (on_bus (fpga.readio s.addr) s)
          λ v t. (ok (learn_length v t.scope).scoplen, record t { scope = learn_length v t.scope })
    | false ↦ (ok s.scoplen, s)
  ]

  -- `n` single reads.
  unfoldable pub read_each : ℕ → ℕ → Run (Session B) (List ℕ)
  read_each a zero = pure []
  read_each a (suc n) = do v ← on_bus (fpga.readio a); vs ← read_each a n; pure (v ∷ vs)

  abbrev read_words : Run (Session B) (List ℕ)
  read_words s = elim s.vector_read [
    | true ↦ on_bus (fpga.readz (u32 (s.addr + 4)) s.scoplen) s
    | false ↦ read_each (u32 (s.addr + 4)) s.scoplen s
  ]

  -- `new DEVBUS::BUSW[n]`, where `memory n` is what is in it, and the reads into it. After an
  -- exception it is left as it was allocated: words that were read before are not kept track of.
  abbrev fill : (ℕ → List ℕ) → Run (Session B) (Unit {0})
  fill memory s =
      let allocated : Session B = record s {
        scope = record s.scope { samples = some (memory s.scoplen) };
      } in
      bound (read_words allocated)
        λ vs t. (ok tt, record t { scope = record t.scope { samples = some vs } })

  -- The length is compared as an int.
  abbrev rawread_sized : (ℕ → List ℕ) → ℕ → Run (Session B) (Unit {0})
  rawread_sized memory n s = elim (leb n 4 || leb (2 ^ 31) n) [
    | true ↦ (ok tt, s)
    | false ↦ fill memory s
  ]

  -- SCOPE::rawread.
  unfoldable pub rawread : (ℕ → List ℕ) → Run (Session B) (Unit {0})
  unfolding scoplen read_each
  rawread memory s = elim s.samples [
    | some vs ↦ (ok tt, s)
    | none ↦ bound (scoplen s) (rawread_sized memory)
  ]

-- The words that a loop over m_data reads: through a NULL pointer unless there are none to read.
-- The bound is `(int)m_scoplen`.
unfoldable pub words : Scope → Option (List ℕ)
words s = if leb (2 ^ 31) s.scoplen || s.scoplen == 0 then some [] else s.samples

-- The loop of SCOPE::getaddresslen, from index `i`.
unfoldable pub count_extra : ℕ → ℕ → List ℕ → ℕ
count_extra i alen [] = alen
count_extra i alen (w ∷ ws) =
    count_extra (i + 1)
      (if bit_and w 0x80000000 == 0x80000000 && not (i == 0)
        then u32 (alen + bit_and w 0x7fffffff)
        else alen)
      ws

-- SCOPE::getaddresslen.
unfoldable pub getaddresslen : Scope → List ℕ → ℕ
unfolding count_extra
getaddresslen s ws = if s.compressed then count_extra 0 s.scoplen ws else s.scoplen

-- SCOPE::operator[].
unfoldable pub at_index : Scope → ℕ → ℕ
at_index s addr = elim s.samples [
  | none ↦ 0
  | some vs ↦ if ltb 0 s.scoplen then get_or vs (bit_and addr (s.scoplen - 1)) 0 else 0
]
