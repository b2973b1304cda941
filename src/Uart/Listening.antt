-- ===== src/Uart/Listening.antt =====
-- bench/cpp/uartsim.cpp: UARTSIM::setup_listener.
use dbgbus.Base.{ℕ, some}
use dbgbus.Outcome.{Run, ◌>>=◌, pure}
use dbgbus.System.{System, ask, must, ignore_sigpipe, socket, reuse_address, bind_any, listen}
use dbgbus.Uart.{Uart}

-- UARTSIM::setup_listener, which sets m_skt.
unfoldable pub setup_listener : ℕ → Uart → Run System Uart
setup_listener port u = do
  _ ← ask ignore_sigpipe
  skt ← must socket
  _ ← must (reuse_address skt)
  _ ← must (bind_any skt port)
  _ ← must (listen skt 1)
  pure (record u { skt = some skt })
