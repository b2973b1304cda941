-- ===== src/Hexbus/Transfer.antt =====
-- HEXBUS::encode_address, writev and readv, and the calls of DEVBUS made of them. A buffer is the
-- list of its words, so `len` is not negative and is the length of the buffer.
pub mod Address
pub mod Position
pub mod Read
pub mod Reads
pub mod Acks
pub mod Writes
pub mod Write
pub mod Stalling
use dbgbus.Base.{
  ℕ, zero, suc, ◌+◌, ◌*◌, Bool, true, false, not, ◌&&◌, List, [], ◌∷◌, ◌++◌, ltb, ◌==◌,
  if◌then◌else◌, u32, bit_and, bit_or, bit_xor, length,
}
use dbgbus.Comms
use dbgbus.Outcome.{
  Outcome, ok, bus_error, thrown, aborted, waiting, Run, bound, ◌>>=◌, ◌>>◌, pure, get, modify,
  assert,
}
use dbgbus.Text.Hex.{hex, hex_08}
use dbgbus.Hexbus.Link.{Link, hexb_addr, hexb_read}
use dbgbus.Hexbus.State.{Hexbus, on_dev, set_link}
use dbgbus.Hexbus.Receive.{enough, readidle, readword}

-- `(flag) ? 1 : 0`.
abbrev pub bit_of : Bool → ℕ
bit_of true = 1
bit_of false = 0

-- HEXBUS::encode_address: what it leaves in the buffer.
unfoldable pub encode_address : ℕ → Link → List ℕ
encode_address a l =
    if l.addr_set && a == l.lastaddr && bit_of l.inc == bit_xor (bit_and a 1) 1
    then []
    else hexb_addr ∷ hex_08 a

-- `while(m_nacks < n) readidle();`
unfoldable pub wait_acks_loop : ℕ → ℕ → Run Hexbus (Unit {0})
wait_acks_loop zero n h = (waiting, h)
wait_acks_loop (suc fuel) n h = elim (ltb h.nacks n) [
  | true ↦ bound (readidle h) λ _. wait_acks_loop fuel n
  | false ↦ (ok tt, h)
]

unfoldable pub wait_acks : ℕ → Run Hexbus (Unit {0})
unfolding wait_acks_loop
wait_acks n h = wait_acks_loop (enough h) n h

-- The command that writes a word: no digits for a zero.
unfoldable pub write_command : ℕ → List ℕ
write_command v = if not (v == 0) then b'W' ∷ (hex v ++ b'\n' ∷ []) else b'W' ∷ b'\n' ∷ []

-- The loop of writev over the words from index `nw`; `head` is what the buffer holds already.
unfoldable pub writev_loop : ℕ → List ℕ → List ℕ → Run Hexbus (Unit {0})
unfolding wait_acks write_command
writev_loop nw head [] = pure tt
writev_loop nw head (v ∷ vs) =
    on_dev (Comms.write (head ++ write_command v)) >> wait_acks nw >> writev_loop (nw + 1) [] vs

-- HEXBUS::writev.
unfoldable pub writev : ℕ → Bool → List ℕ → Run Hexbus (Unit {0})
unfolding encode_address writev_loop
writev a p buf = do
  h ← get
  let head = encode_address (bit_or a (if p then 0 else 1)) h.link
  set_link (λ l. record l { lastaddr = a; addr_set = true; nacks = 0 })
  writev_loop 0 head buf
  wait_acks (length buf)
  set_link (λ l. if p then record l { lastaddr = u32 (l.lastaddr + length buf * 4) } else l)

-- HEXBUS::writeio, writez and writei.
unfoldable pub writeio : ℕ → ℕ → Run Hexbus (Unit {0})
writeio a v = do writev a false (v ∷ []); set_link (λ l. record l { lastaddr = a; addr_set = true })

unfoldable pub writez : ℕ → List ℕ → Run Hexbus (Unit {0})
writez a buf = writev a false buf

unfoldable pub writei : ℕ → List ℕ → Run Hexbus (Unit {0})
writei a buf = writev a true buf

-- `a + ((inc) ? (n << 2) : 0)`.
abbrev pub word_address : ℕ → Bool → ℕ → ℕ
word_address a inc n = u32 (a + (if inc then n * 4 else 0))

-- What readv makes of an exception in its loop, after `nread` words.
abbrev pub rethrow : ℕ → Bool → ℕ → Outcome ℕ × Hexbus → Outcome ℕ × Hexbus
rethrow a inc nread (ok v, h) = (ok v, h)
rethrow a inc nread (bus_error b, h) = (bus_error (word_address a inc nread), h)
rethrow a inc nread (thrown, h) = (aborted, h)
rethrow a inc nread (aborted, h) = (aborted, h)
rethrow a inc nread (waiting, h) = (waiting, h)

-- A round of the loop of readv: `nread` is counted up when the word is there.
unfoldable pub readv_word : ℕ → Bool → ℕ → List ℕ → Run Hexbus ℕ
readv_word a inc nread head h =
    rethrow a inc nread
      (bound (on_dev (Comms.write (head ++ hexb_read ∷ b'\n' ∷ [])) h) (λ _. readword))

-- The loop of readv, with `left` words to go.
unfoldable pub readv_loop : ℕ → Bool → ℕ → ℕ → List ℕ → Run Hexbus (List ℕ)
unfolding readv_word
readv_loop a inc zero nread head = pure []
readv_loop a inc (suc left) nread head = do
  v ← readv_word a inc nread head
  vs ← readv_loop a inc left (nread + 1) []
  pure (v ∷ vs)

-- HEXBUS::readv: the words it puts into the buffer. Where the address is not as expected, either
-- the assertion fails or the program exits.
unfoldable pub readv : ℕ → Bool → ℕ → Run Hexbus (List ℕ)
unfolding encode_address readv_loop
readv a inc zero = pure []
readv a inc (suc n) = do
  h ← get
  let head = encode_address (bit_or a (if inc then 0 else 1)) h.link
  set_link (λ l. record l { lastaddr = a; addr_set = true; inc = inc })
  vs ← readv_loop a inc (suc n) 0 head
  g ← get
  assert (g.lastaddr == word_address a inc (suc n))
  pure vs

-- HEXBUS::readi and readz.
unfoldable pub readi : ℕ → ℕ → Run Hexbus (List ℕ)
readi a len = readv a true len

unfoldable pub readz : ℕ → ℕ → Run Hexbus (List ℕ)
readz a len = readv a false len

-- The first word read, and the handler of readio.
abbrev pub readio_result : ℕ → Outcome (List ℕ) × Hexbus → Outcome ℕ × Hexbus
readio_result a (ok [], h) = (aborted, h)
readio_result a (ok (v ∷ vs), h) =
    if h.lastaddr == a
    then (ok v, h)
    else (aborted, record h { link = record h.link { addr_set = false } })
readio_result a (bus_error b, h) = (bus_error a, h)
readio_result a (thrown, h) = (thrown, h)
readio_result a (aborted, h) = (aborted, h)
readio_result a (waiting, h) = (waiting, h)

-- HEXBUS::readio.
unfoldable pub readio : ℕ → Run Hexbus ℕ
unfolding readv
readio a h = readio_result a (readv a false 1 h)
