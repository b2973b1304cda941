-- ===== src/Memscope.antt =====
-- sw/memscope.cpp: MEMSCOPE, the scope on the memory bus.
pub mod Fields
pub mod Program
use dbgbus.Base.{ℕ, ◌/◌, ◌^◌, Bool, List, ◌==◌, not, bit_and}
use dbgbus.Text.Strings.{codes}
use dbgbus.Scope.Trace.{TraceInfo, register_trace}
use dbgbus.Scope.Device.{Scope}

-- MEMSCOPE::define_traces.
unfoldable pub define_traces : Scope → Scope
unfolding register_trace
define_traces s =
    let t0 = register_trace (codes "wb_cyc") 1 31 s.traces in
    let t1 = register_trace (codes "wb_stb") 1 30 t0 in
    let t2 = register_trace (codes "wb_we") 1 29 t1 in
    let t3 = register_trace (codes "wb_ack") 1 28 t2 in
    let t4 = register_trace (codes "wb_stall") 1 27 t3 in
    let t5 = register_trace (codes "wb_addr") 6 21 t4 in
    let t6 = register_trace (codes "wb_odata") 10 10 t5 in
    let t7 = register_trace (codes "wb_idata") 10 0 t6 in record s { traces = t7 }

-- What MEMSCOPE::decode prints of a word: the flags and the numbers.
pub record Decoded : Type 0 where
  pub cyc : Bool
  pub stb : Bool
  pub we : Bool
  pub addr : ℕ
  pub odata : ℕ
  pub idata : ℕ
  pub ack : Bool
  pub stall : Bool

-- MEMSCOPE::decode.
unfoldable pub decode : ℕ → Decoded
decode val = record {
  cyc = not (bit_and (val / 2 ^ 31) 1 == 0);
  stb = not (bit_and (val / 2 ^ 30) 1 == 0);
  we = not (bit_and (val / 2 ^ 29) 1 == 0);
  ack = not (bit_and (val / 2 ^ 28) 1 == 0);
  stall = not (bit_and (val / 2 ^ 27) 1 == 0);
  addr = bit_and (val / 2 ^ 21) 0x3f;
  odata = bit_and (val / 2 ^ 10) 0x3ff;
  idata = bit_and val 0x3ff;
}
