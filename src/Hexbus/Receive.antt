-- ===== src/Hexbus/Receive.antt =====
-- HEXBUS::readword, readidle, usleep and wait: what is done with the bytes that come back. Every
-- loop here takes at least one event of the schedule in each round that is not its last, so its
-- length, and one more, is fuel enough; but wait, where nothing is to come any more or the
-- descriptor is not open, goes on without taking any, for good.
pub mod Replies
pub mod Round
pub mod Letters
pub mod Words
pub mod Idle
pub mod Fuel
pub mod Waiting
use dbgbus.Base.{
  ℕ, zero, suc, Bool, true, false, ◌||◌, List, [], ◌∷◌, ◌==◌, if◌then◌else◌, u64, length, get_or,
  ◌+◌,
}
use dbgbus.Comms
use dbgbus.Outcome.{Outcome, ok, aborted, waiting, Run, bound, ◌>>=◌, ◌>>◌, pure, get, modify}
use dbgbus.Hexbus.Link.{
  Link, Reading, Progress, on, result, readword_char, readidle_char, hexb_int, hexb_reset, hexb_err,
  hexb_idle, hexb_ack,
}
use dbgbus.Hexbus.State.{Hexbus, on_dev, on_link, set_link, lclreadcode}

-- One more round than there are events to come.
abbrev pub enough : Hexbus → ℕ
enough h = suc (length h.dev.input)

-- `while(!done)`, with the rounds to come.
abbrev pub unless_done : (Reading → Run Hexbus ℕ) → Progress → Run Hexbus ℕ
unless_done again (on s) h = again s h
unless_done again (result v) h = (ok v, h)

-- The loop of readword. `m_dev->read` throws where it would return less than one byte, so the
-- inner loop makes one call.
unfoldable pub readword_loop : ℕ → Reading → Run Hexbus ℕ
readword_loop zero r h = (waiting, h)
readword_loop (suc fuel) r h =
    bound (lclreadcode 0 h)
      λ buf. on_link (readword_char (get_or buf 0 0) r) >>= unless_done (readword_loop fuel)

-- HEXBUS::readword.
unfoldable pub readword : Run Hexbus ℕ
unfolding readword_loop
readword h = readword_loop (enough h) (record { word = 0; abort_countdown = 3 }) h

-- `while (available)`, with the round to make.
abbrev pub if_at_hand : Run Hexbus (Unit {0}) → Bool → Run Hexbus (Unit {0})
if_at_hand round true h = round h
if_at_hand round false h = (ok tt, h)

-- The loop of readidle: as long as bytes are at hand.
unfoldable pub readidle_loop : ℕ → ℕ → Run Hexbus (Unit {0})
readidle_loop zero word h = (waiting, h)
readidle_loop (suc fuel) word h = bound (on_dev Comms.available h) (
    if_at_hand (
      lclreadcode 0 >>= λ buf.
      on_link (readidle_char (get_or buf 0 0) word) >>= readidle_loop fuel))

-- HEXBUS::readidle.
unfoldable pub readidle : Run Hexbus (Unit {0})
unfolding readidle_loop
readidle h = readidle_loop (enough h) 0 (record h { last_readidle = true })

-- What usleep makes of one byte.
unfoldable pub note_byte : ℕ → Link → Link
note_byte c l =
    if c == hexb_int
    then record l { interrupt_flag = true }
    else if c == hexb_idle
    then l
    else if c == hexb_ack
    then l
    else if c == hexb_reset
    then record l { bus_err = false }
    else if c == hexb_err
    then record l { bus_err = true }
    else l

unfoldable pub note_bytes : List ℕ → Link → Link
unfolding note_byte
note_bytes [] l = l
note_bytes (c ∷ cs) l = note_bytes cs (note_byte c l)

-- HEXBUS::usleep.
unfoldable pub usleep : ℕ → Run Hexbus (Unit {0})
unfolding note_bytes
usleep ms = do
  ready ← on_dev (Comms.poll ms)
  elim ready [
    | true ↦ do
      buf ← on_dev (Comms.read 15)
      modify (λ h. record h { total_nread = u64 (h.total_nread + length buf) })
      set_link (note_bytes buf)
    | false ↦ pure tt
  ]

-- The loop of wait.
unfoldable pub wait_loop : ℕ → Run Hexbus (Unit {0})
unfolding usleep
wait_loop zero h = (waiting, h)
wait_loop (suc fuel) h =
    bound (usleep 200 h)
      λ _ g. elim g.interrupt_flag [ true ↦ (ok tt, g) | false ↦ wait_loop fuel g ]

-- HEXBUS::wait.
unfoldable pub wait : Run Hexbus (Unit {0})
unfolding wait_loop
wait h = wait_loop (enough h) h
