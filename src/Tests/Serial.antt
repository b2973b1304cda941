-- ===== src/Tests/Serial.antt =====
-- UARTSIM and MEMSCOPE at concrete inputs.
use dbgbus.Base.{◌≡◌, refl, true, inl, some, [], ◌∷◌, arith}
use dbgbus.Uart.{Uart}
use dbgbus.Uart.Frame.{Received, settings}
use dbgbus.Uart.Receiver.{hold, send}
use dbgbus.Uart.Loopback.{hold-frame}
use dbgbus.Uart.Sender.{line}
use dbgbus.Uart.Wire.{link}
use dbgbus.Uart.Pairs.{Paired}
use dbgbus.Uart.Stream.{link-received}

-- Eight bits, no parity, one stop bit, 25 clocks for each; connected to descriptor 7.
abbrev pub connected : Uart
connected = record {
  skt = some 3;
  conrd = some 7;
  conwr = some 7;
  setup_word = 25;
  nparity = 0;
  fixdp = 0;
  evenp = 0;
  nbits = 8;
  nstop = 1;
  baud_counts = 25;
  rx_baudcounter = 0;
  rx_busy = 0;
  rx_changectr = 4;
  rx_data = 0;
  last_tx = 1;
  rx_idle = true;
  tx_baudcounter = 0;
  tx_busy = 0;
  tx_data = 0;
  tx_idle = true;
  taken = [];
  released = [];
}

hold-frame_example :
    Received
      (settings connected)
      0x141
      (hold true 13 1 (send true 25 9 0 0x141 (hold true 25 0 connected)))
hold-frame_example =
    hold-frame true 0x141 1 7 connected refl refl refl (omega arith) (omega arith) (omega arith)

-- The same at both ends.
abbrev both_connected : Paired 7 7 (line connected) (settings connected)
both_connected = record {
  source = refl;
  sink = refl;
  bits = refl;
  bits_there = refl;
  parity_bits = inl refl;
  parity_there = refl;
  even = omega arith;
  clocks = refl;
  stops = refl;
  one_or_two = inl refl;
  two_clocks = omega arith;
}

link-received_example :
    let (left, t', u') = link 514 (b'R' ∷ b'A' ∷ []) connected connected in
    (left ≡ []) × (t'.tx_idle ≡ true) × (u'.taken ≡ b'R' ∷ b'A' ∷ [])
link-received_example =
    link-received (b'R' ∷ b'A' ∷ []) 7 7 7 connected connected (omega arith, (omega arith, tt))
      both_connected refl refl refl refl refl refl
