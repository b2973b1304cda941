-- ===== src/Hexbus/Transfer/Reads/Nonblocking.antt =====
-- HEXBUS::readv over a descriptor that does not block, as the one of TTYCOMMS.
use dbgbus.Base.{
  ℕ, suc, ◌≤◌, ◌≡◌, refl, Bool, true, List, [], ◌∷◌, ◌++◌, arith, length, length-append,
}
use dbgbus.Comms
use dbgbus.Comms.{Event, quiet}
use dbgbus.Comms.Laws.{IsRoomy, sent, write-sent}
use dbgbus.Outcome.{thrown, aborted}
use dbgbus.Hexbus.Link.{hexb_read}
use dbgbus.Hexbus.State.{Hexbus, lclreadcode}
use dbgbus.Hexbus.Receive.{readword}
use dbgbus.Hexbus.Receive.Idle.{on_input}
use dbgbus.Hexbus.Transfer.{readv_word, readv_loop, readv, encode_address}
use dbgbus.Hexbus.Transfer.Address.{address_word}
use dbgbus.Hexbus.Transfer.Reads.{length-encode_address-le}

-- With nothing at hand the read fails.
readword-quiet :
    (es : List Event) (h : Hexbus)
    → h.dev.nonblock ≡ true
    → readword (on_input (quiet ∷ es) h) ≡ (thrown, on_input es h)
unfolding readword lclreadcode Comms.read
readword-quiet es h e = rw e

readv_word-quiet :
    (a : ℕ) (inc : Bool) (head : List ℕ) (es : List Event) (h : Hexbus)
    → h.dev.nonblock ≡ true
    → IsRoomy h.dev
    → length head ≤ 30
    → readv_word a inc 0 head (on_input (quiet ∷ es) h)
      ≡ (aborted, on_input es (record h { dev = sent (head ++ hexb_read ∷ b'\n' ∷ []) h.dev }))
unfolding readv_word
readv_word-quiet a inc head es h e roomy short =
    let whole = length-append head (hexb_read ∷ b'\n' ∷ []) in
    rw (
      write-sent (head ++ hexb_read ∷ b'\n' ∷ []) (on_input (quiet ∷ es) h).dev roomy
          (omega (arith, whole)) (omega (arith, whole)),
      readword-quiet es (record h { dev = sent (head ++ hexb_read ∷ b'\n' ∷ []) h.dev }) e,
    )

-- Over a descriptor that does not block, as the one of TTYCOMMS, on a link that takes every short
-- message whole, HEXBUS::readv of one word or more ends in the failing assertion if nothing has
-- arrived by the time it looks for the first reply.
pub readv-quiet :
    (a : ℕ) (inc : Bool) (n : ℕ) (es : List Event) (h : Hexbus)
    → h.dev.nonblock ≡ true
    → IsRoomy h.dev
    → (readv a inc (suc n) (on_input (quiet ∷ es) h)).0 ≡ aborted
unfolding readv
readv-quiet a inc n es h e roomy =
    let head = encode_address (address_word a inc) h.link in
    let aimed : Hexbus = record h {
      link = record h.link { lastaddr = a; addr_set = true; inc = inc };
    } in
    rw
      (
        readv,
        readv_loop,
        readv_word-quiet a inc head es aimed e roomy
            (omega (arith, length-encode_address-le (address_word a inc) h.link)),
      )
      refl
