-- ===== src/Scope/Vcd.antt =====
-- SCOPE::writevcd: the file as the sequence of what each statement prints. The times, which the
-- source computes in floating point, are parameters.
pub mod Marks
pub mod Reader
pub mod Contents
pub mod Recorded
pub mod Plain
pub mod Wired
use dbgbus.Base.{
  ℕ, ◌+◌, ◌-◌, ◌/◌, ◌^◌, Bool, true, false, not, ◌&&◌, Option, none, some, List, [], ◌∷◌, ◌++◌,
  ◌==◌, map, if◌then◌else◌, u32, u64, bit_and, ltb,
}
use dbgbus.Outcome.{Outcome, ok, aborted, Run, bound, ◌>>=◌, ◌>>◌, pure, get}
use dbgbus.Devbus.{Devbus}
use dbgbus.Scope.Trace.{TraceInfo, write_binary, write_binary_trace}
use dbgbus.Scope.Device.{Scope, Session, update, rawread, words, getaddresslen}

pub data Entry : Type 0 where
  -- `$version`, `$date`, `$timescale`.
  preamble : Entry
  -- `$timezero`, of an offset.
  timezero : ℕ → Entry
  open_scope close_scope : Entry
  -- `$var wire`: the width, the key, the name, and the upper bound of the range, if one is printed.
  var : ℕ → List ℕ → List ℕ → Option ℕ → Entry
  -- `#` and a time in nanoseconds.
  stamp : ℕ → Entry
  -- The lines for 'T and 'C.
  trigger clock : Bool → Entry
  -- A value, with its key.
  value : List ℕ → Entry

abbrev key_r : List ℕ
key_r = b'\'' ∷ b'R' ∷ []

abbrev key_t : List ℕ
key_t = b'\'' ∷ b'T' ∷ []

abbrev key_c : List ℕ
key_c = b'\'' ∷ b'C' ∷ []

-- `strchr`, as a test.
abbrev has_char : ℕ → List ℕ → Bool
has_char c [] = false
has_char c (x ∷ xs) = if x == c then true else has_char c xs

-- The line of one trace in the header.
unfoldable pub trace_entry : TraceInfo → Entry
trace_entry info =
    var info.nbits info.key info.name
      (if ltb 0 info.nbits && not (has_char b'[' info.name) then some (info.nbits - 1) else none)

-- SCOPE::write_trace_header, with write_trace_timescale and write_trace_timezero; `raw_data`,
-- `clk` and `trigger` are the names of the variables that are always there.
unfoldable pub write_trace_header : List ℕ → List ℕ → List ℕ → Scope → ℕ → List Entry
unfolding trace_entry
write_trace_header raw_data clk trigger_name s offset =
    preamble
    ∷ ((if offset == 0 then [] else timezero offset ∷ [])
        ++ open_scope
          ∷ ((if s.compressed
                then var 31 key_r raw_data (some 30) ∷ []
                else var 1 key_c clk none ∷ var 32 key_r raw_data (some 31) ∷ [])
              ++ var 1 key_t trigger_name none ∷ (map trace_entry s.traces ++ close_scope ∷ [])))

-- `(m_data[i]>>31)&1` and `m_data[i]&0x7fffffff`.
abbrev pub is_jump : ℕ → Bool
is_jump w = bit_and (w / 2 ^ 31) 1 == 1

abbrev pub jump_length : ℕ → ℕ
jump_length w = bit_and w 0x7fffffff

-- `alen - m_holdoff - 1` in an int, as its 32 bits.
unfoldable pub trigger_offset : ℕ → ℕ → ℕ
trigger_offset alen holdoff = u32 (alen + 2 ^ 33 - holdoff - 1)

-- The bytes that follow the stamp of a sample: the raw value and the traces.
unfoldable pub sample_values : List TraceInfo → ℕ → List Entry
sample_values traces w = map (λ info. value (write_binary_trace info w)) traces

-- What is printed of the trigger at the address `addrv` of a compressed buffer, and what
-- last_trigger is then.
unfoldable pub mark : ℕ → ℕ → ℕ → Bool → List Entry × Bool
mark alen offset addrv last_trigger =
    if u32 (addrv + 2 ^ 32 - alen) == offset
    then (trigger true ∷ [], true)
    else (if last_trigger then (trigger false ∷ [], last_trigger) else ([], last_trigger))

-- The loop over the words of a compressed scope, from index `i`.
unfoldable pub compressed_body :
    (ℕ → ℕ) → List TraceInfo → ℕ → ℕ → ℕ → ℕ → Bool → List ℕ → List Entry
unfolding mark sample_values
compressed_body now_ns traces alen offset i addrv last_trigger [] = []
compressed_body now_ns traces alen offset i addrv last_trigger (w ∷ ws) = elim (is_jump w) [
  | true ↦ elim (i == 0) [
    | true ↦ compressed_body now_ns traces alen offset (i + 1) addrv last_trigger ws
    | false ↦
        (if last_trigger then stamp (now_ns (u64 (addrv + 1))) ∷ trigger false ∷ [] else [])
        ++ compressed_body now_ns traces alen offset (i + 1) (u64 (addrv + jump_length w + 1))
            last_trigger ws
  ]
  | false ↦
      let (entries, last) = mark alen offset addrv last_trigger in
      stamp (now_ns addrv)
      ∷ (entries
          ++ value (write_binary 31 w (key_r ++ b'\n' ∷ []))
            ∷ (sample_values traces w
                ++ compressed_body now_ns traces alen offset (i + 1) (u64 (addrv + 1)) last ws))
]

-- The loop over the words of a plain scope, from index `i`.
unfoldable pub plain_body : (ℕ → ℕ) → (ℕ → ℕ) → List TraceInfo → ℕ → ℕ → List ℕ → List Entry
unfolding sample_values
plain_body rise_ns fall_ns traces offset i [] = []
plain_body rise_ns fall_ns traces offset i (w ∷ ws) =
    stamp (rise_ns i)
    ∷ clock true
    ∷ value (write_binary 32 w (key_r ++ b'\n' ∷ []))
    ∷ trigger (i == offset)
    ∷ (sample_values traces w
        ++ stamp (fall_ns i) ∷ clock false ∷ plain_body rise_ns fall_ns traces offset (i + 1) ws)

-- The times of an address, of a rising and of a falling edge, for a clock frequency; the names of
-- the header; and the virtual define_traces.
pub record Printer : Type 0 where
  pub now_ns : ℕ → ℕ → ℕ
  pub rise_ns : ℕ → ℕ → ℕ
  pub fall_ns : ℕ → ℕ → ℕ
  pub raw_data : List ℕ
  pub clk : List ℕ
  pub trigger_name : List ℕ
  pub define_traces : Scope → Scope

-- The two loops.
unfoldable pub write_body : Printer → Scope → List ℕ → List Entry
unfolding compressed_body plain_body getaddresslen trigger_offset
write_body p s ws =
    let alen = getaddresslen s ws in
    let offset = trigger_offset alen s.holdoff in
    if s.compressed
    then compressed_body (p.now_ns s.clkfreq_hz) s.traces alen offset 0 0 true ws
    else plain_body (p.rise_ns s.clkfreq_hz) (p.fall_ns s.clkfreq_hz) s.traces offset 0 ws

abbrev pub with_traces : Printer → Scope → Scope
with_traces p s = elim s.traces [ [] ↦ p.define_traces s | _ ↦ s ]

abbrev write_words : Printer → Scope → Option (List ℕ) → Outcome (List Entry)
write_words p s none = aborted
write_words p s (some ws) = ok (
    write_trace_header p.raw_data p.clk p.trigger_name s
      (trigger_offset (getaddresslen s ws) s.holdoff)
    ++ write_body p s ws)

module _ {B : Type 0} (fpga : Devbus B) (p : Printer) where
  -- SCOPE::writevcd: what it prints.
  unfoldable pub writevcd : (ℕ → List ℕ) → Run (Session B) (List Entry)
  unfolding rawread words write_body write_trace_header trigger_offset getaddresslen
  writevcd memory = do
    rawread fpga memory
    update (with_traces p)
    λ t. (write_words p t.scope (words t.scope), t)
