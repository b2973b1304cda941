-- ===== src/Scope/Control/Readiness.antt =====
-- SCOPE::ready and SCOPE::decode_control agree.
use dbgbus.Base.{
  ℕ, ◌*◌, ◌/◌, ◌%◌, ◌^◌, ◌≡◌, ◌&&◌, arith, bit_and, bit_and_power, and_digit, bit_and_low,
}
use dbgbus.Outcome.{ok}
use dbgbus.Devbus.{Devbus}
use dbgbus.Scope.Device.{Session, is_ready, ready}
use dbgbus.Scope.Control.{Control, control_lines, decode_control}

is_ready-control_lines :
    (n v : ℕ) → is_ready v ≡ (control_lines n v).stopped && (control_lines n v).triggered
unfolding is_ready control_lines
is_ready-control_lines n v =
    let x = v / 2 ^ 28 in
    let six : bit_and x 6 ≡ x / 2 % 4 * 2 = omega (arith, and_digit x 6, bit_and_low 2 (x / 2)) in
    let up : bit_and v 0x40000000 ≡ v / 2 ^ 30 % 2 * 2 ^ 30 = bit_and_power 30 v in
    let down : bit_and v 0x20000000 ≡ v / 2 ^ 29 % 2 * 2 ^ 29 = bit_and_power 29 v in
    rw (six, up, down) (ground arith)

-- Of one control word, SCOPE::ready says that the scope is ready exactly where
-- SCOPE::decode_control says that it has stopped and has triggered.
ready-decode_control :
    {B : Type 0} (fpga : Devbus B) (v : ℕ) (b : B) (s : Session B)
    → fpga.readio s.addr s.bus ≡ (ok v, b)
    → (c : Control) × ((decode_control fpga s).0 ≡ ok c)
      × ((ready fpga s).0 ≡ ok (c.stopped && c.triggered))
unfolding ready decode_control
ready-decode_control fpga v b s e =
    (control_lines s.scoplen v, rw e, rw (e, is_ready-control_lines s.scoplen v))
