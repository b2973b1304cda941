-- ===== src/Scope/Vcd/Wired.antt =====
-- SCOPE::writevcd over HEXBUS: from the replies of the target to what the VCD file shows.
use dbgbus.Base.{
  ℕ, suc, ◌+◌, ◌%◌, ◌^◌, ◌≤◌, ◌<◌, ◌≡◌, refl, ◌∙◌, ap, true, false, ◌||◌, ◌==◌, Bool, Option, some,
  none, List, [], ◌∷◌, ◌++◌, map, All, arith, leb, length, get_elem?, if◌then◌else◌,
}
use dbgbus.Comms.Laws.{IsRoomy}
use dbgbus.Outcome.{Outcome, ok}
use dbgbus.Text.Hex.{hex_08}
use dbgbus.Devbus.{Devbus, hexbus}
use dbgbus.Hexbus.Link.{hexb_addr}
use dbgbus.Hexbus.State.{Hexbus}
use dbgbus.Hexbus.Receive.Replies.{unread}
use dbgbus.Hexbus.Transfer.{encode_address}
use dbgbus.Hexbus.Transfer.Address.{address_word}
use dbgbus.Hexbus.Transfer.Read.{Answer, answer_text, values, AreCalm}
use dbgbus.Hexbus.Transfer.Reads.{echoed}
use dbgbus.Scope.Trace.{TraceInfo}
use dbgbus.Scope.Trace.Keys.{Declared, register_all, register_all-infos, HaveWidth, infos, info}
use dbgbus.Scope.Device.{Scope, Session, length_field, rawread, words, getaddresslen}
use dbgbus.Scope.Device.Reads.{known, sizes}
use dbgbus.Scope.Device.Wired.{rawread-hexbus}
use dbgbus.Scope.Vcd.{
  Entry, preamble, timezero, open_scope, close_scope, var, stamp, trigger, clock, value,
  trace_entry, trigger_offset, write_trace_header, Printer, write_body, writevcd, with_traces,
  write_words,
}
use dbgbus.Scope.Vcd.Reader.{value_at, trace_key, trace_bits}
use dbgbus.Scope.Vcd.Plain.{IsClock, write_body-words}

-- A line of the header.
abbrev IsSilent : Entry → Type 0
IsSilent (stamp t) = ⊥
IsSilent (value l) = ⊥
IsSilent _ = Unit {0}

value_at-silent :
    (t : ℕ) (key : List ℕ) (hs es : List Entry) (cur : Option ℕ)
    → All IsSilent hs
    → value_at t key (hs ++ es) cur ≡ value_at t key es cur
value_at-silent t key [] es cur a = refl
value_at-silent t key (preamble ∷ hs) es cur (x, a) = value_at-silent t key hs es cur a
value_at-silent t key (timezero u ∷ hs) es cur (x, a) = value_at-silent t key hs es cur a
value_at-silent t key (open_scope ∷ hs) es cur (x, a) = value_at-silent t key hs es cur a
value_at-silent t key (close_scope ∷ hs) es cur (x, a) = value_at-silent t key hs es cur a
value_at-silent t key (var w k n r ∷ hs) es cur (x, a) = value_at-silent t key hs es cur a
value_at-silent t key (stamp u ∷ hs) es cur (x, a) = absurd x
value_at-silent t key (trigger b ∷ hs) es cur (x, a) = value_at-silent t key hs es cur a
value_at-silent t key (clock b ∷ hs) es cur (x, a) = value_at-silent t key hs es cur a
value_at-silent t key (value l ∷ hs) es cur (x, a) = absurd x

IsSilent-append : (xs ys : List Entry) → All IsSilent xs → All IsSilent ys → All IsSilent (xs ++ ys)
IsSilent-append [] ys a b = b
IsSilent-append (x ∷ xs) ys (h, a) b = (h, IsSilent-append xs ys a b)

IsSilent-map : (ts : List TraceInfo) → All IsSilent (map trace_entry ts)
unfolding trace_entry
IsSilent-map [] = tt
IsSilent-map (t ∷ ts) = (tt, IsSilent-map ts)

IsSilent-if :
    (b : Bool) (xs ys : List Entry)
    → All IsSilent xs
    → All IsSilent ys
    → All IsSilent (if b then xs else ys)
IsSilent-if true xs ys a c = a
IsSilent-if false xs ys a c = c

header-IsSilent :
    (raw_data clk trigger_name : List ℕ) (s : Scope) (offset : ℕ)
    → All IsSilent (write_trace_header raw_data clk trigger_name s offset)
unfolding write_trace_header
header-IsSilent raw_data clk trigger_name s offset = (
  tt,
  IsSilent-append _ _ (IsSilent-if (offset == 0) _ _ tt (tt, tt)) (
    tt,
    IsSilent-append _ _ (IsSilent-if s.compressed _ _ (tt, tt) (tt, (tt, tt))) (
      tt,
      IsSilent-append (map trace_entry s.traces) (close_scope ∷ []) (IsSilent-map s.traces)
          (tt, tt),
    ),
  ),
)

-- The traces that are registered stay.
with_traces-registered :
    (p : Printer) (s : Scope) (d : Declared) (ds : List Declared)
    → s.traces ≡ register_all (d ∷ ds) []
    → with_traces p s ≡ s
with_traces-registered p s d ds e =
    let some_traces : s.traces ≡ info 0 d ∷ infos 1 ds = e ∙ register_all-infos (d ∷ ds) [] in
    ap (λ (ts : List TraceInfo). elim ts as (λ _. Scope) [ [] ↦ p.define_traces s | _ ↦ s ])
      some_traces

write_words-samples :
    (p : Printer) (s : Scope) (vs : List ℕ)
    → s.samples ≡ some vs
    → 0 < s.scoplen
    → s.scoplen < 2 ^ 31
    → write_words p s (words s)
      ≡ ok (
          write_trace_header p.raw_data p.clk p.trigger_name s
            (trigger_offset (getaddresslen s vs) s.holdoff)
          ++ write_body p s vs)
unfolding words
write_words-samples p s vs e pos low =
    let has : (leb (2 ^ 31) s.scoplen || s.scoplen == 0) ≡ false = ground arith in
    rw has (ap (write_words p s) e)

module _ {B : Type 0} (fpga : Devbus B) where
  writevcd-rawread :
      (p : Printer) (memory : ℕ → List ℕ) (s : Session B) (t : Scope) (b : B) (vs : List ℕ)
      (d : Declared) (ds : List Declared)
      → rawread fpga memory s ≡ (ok tt, record { scope = t; bus = b })
      → t.traces ≡ register_all (d ∷ ds) []
      → t.samples ≡ some vs
      → 0 < t.scoplen
      → t.scoplen < 2 ^ 31
      → writevcd fpga p memory s ≡ (
        ok (
            write_trace_header p.raw_data p.clk p.trigger_name t
              (trigger_offset (getaddresslen t vs) t.holdoff)
            ++ write_body p t vs),
        record { scope = t; bus = b },
      )
  unfolding writevcd
  writevcd-rawread p memory s t b vs d ds run registered samples pos low = rw run (
      ap (λ (u : Scope). (write_words p u (words u), record { scope = u; bus = b }))
        (with_traces-registered p t d ds registered)
      ∙ ap (λ (o : Outcome (List Entry)). (o, record { scope = t; bus = b }))
          (write_words-samples p t vs samples pos low))

-- From the wire to the file: SCOPE::writevcd over HEXBUS of a plain scope that is read for the
-- first time, by vectors, with 1 to 69 registered traces of 1 to 32 bits and a clock whose edges
-- rise and fall in turn; the target answers the read of the control register at an aligned
-- address, and then one read of the data register behind it for each word of the length that the
-- control word gives, of 8 up to 2^30, each answer with only interrupts, line ends and at most two
-- idle marks before its word of 32 bits, and the first to each address with an echo of it where it
-- is sent; the link takes every short message whole, and the last reply is ended. It returns a
-- file in which, at each rising edge, the variable of each trace has its bits of the word that the
-- target answered for that clock; the scope keeps the length, the holdoff and the words.
pub writevcd-hexbus :
    (p : Printer) (memory : ℕ → List ℕ) (c w : Answer) (ws : List Answer) (d : Declared)
    (ds : List Declared) (s : Scope) (h : Hexbus) (i k v : ℕ) (e : Declared)
    → IsClock (p.rise_ns s.clkfreq_hz) (p.fall_ns s.clkfreq_hz)
    → s.compressed ≡ false
    → s.traces ≡ register_all (d ∷ ds) []
    → HaveWidth (d ∷ ds)
    → length (d ∷ ds) ≤ 69
    → s.samples ≡ none
    → s.scoplen ≡ 0
    → s.vector_read ≡ true
    → s.addr % 4 ≡ 0
    → s.addr + 4 < 2 ^ 32
    → 3 ≤ length_field c.value
    → length_field c.value ≤ 30
    → suc (length ws) ≡ 2 ^ length_field c.value
    → AreCalm (c ∷ w ∷ ws)
    → IsRoomy h.dev
    → h.isspace_seen ≡ true
    → get_elem? (d ∷ ds) i ≡ some e
    → get_elem? (values (w ∷ ws)) k ≡ some v
    → let control = address_word s.addr false in
      let data_word = address_word (s.addr + 4) false in
      let head = encode_address control h.link in
      let next = hexb_addr ∷ hex_08 data_word in
      (g : Hexbus) × (file : List Entry) × (writevcd hexbus p memory (record {
        scope = s;
        bus =
            unread
              (answer_text (echoed head control c ∷ []))
              (unread (answer_text (echoed next data_word w ∷ ws)) h);
      })
        ≡ (
          ok file,
          record { scope = record (known c.value s) { samples = some (values (w ∷ ws)) }; bus = g },
        ))
      × (value_at (p.rise_ns s.clkfreq_hz k) (trace_key i) file none ≡ some (trace_bits e v))
writevcd-hexbus p memory c w ws d ds s h i k v e ticks plain registered widths few new unknown
      vector aligned below low high size calm roomy between has at =
    let t : Scope = record (known c.value s) { samples = some (values (w ∷ ws)) } in
    let (g, run, input, output) =
      rawread-hexbus memory c w ws s h new unknown vector aligned below low high size calm roomy
        between in
    let sizes' : (0 < t.scoplen) × (t.scoplen < 2 ^ 31) =
      let size = sizes (length_field c.value) low high in (omega arith, omega arith) in
    let hs =
      write_trace_header p.raw_data p.clk p.trigger_name t
        (trigger_offset (getaddresslen t (values (w ∷ ws))) t.holdoff) in
    (
      g,
      hs ++ write_body p t (values (w ∷ ws)),
      writevcd-rawread hexbus p memory _ t g (values (w ∷ ws)) d ds run registered refl sizes'.0
          sizes'.1,
      value_at-silent (p.rise_ns s.clkfreq_hz k) (trace_key i) hs (write_body p t (values (w ∷ ws)))
            none (header-IsSilent p.raw_data p.clk p.trigger_name t _)
          ∙ write_body-words p t (d ∷ ds) i k v e (values (w ∷ ws)) ticks plain registered widths
              few has at none,
    )
