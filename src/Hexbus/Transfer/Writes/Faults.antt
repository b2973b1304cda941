-- ===== src/Hexbus/Transfer/Writes/Faults.antt =====
-- HEXBUS::writeio when the target answers with a bus error.
use dbgbus.Base.{
  ℕ, suc, ◌%◌, ◌^◌, ◌<◌, ◌≡◌, refl, ap, ◌∙◌, true, false, none, some, List, [], ◌∷◌, ◌++◌, arith,
  length, lt→ltb, Option,
}
use dbgbus.Comms.Laws.{IsRoomy}
use dbgbus.Outcome.{bus_error, bound, ◌>>◌}
use dbgbus.Text.Hex.{hex_value}
use dbgbus.Hexbus.Link.{hexb_err}
use dbgbus.Hexbus.State.{Hexbus, set_link}
use dbgbus.Hexbus.Receive.{readidle}
use dbgbus.Hexbus.Receive.Replies.{
  Reply, address, word, ack, reset, interrupt, idle, Item, reply, newline, text, pending, settled,
  unread, with_link, received, received-dev,
}
use dbgbus.Hexbus.Receive.Idle.Mild.{AreMild, IsNoReset}
use dbgbus.Hexbus.Receive.Idle.Errors.{readidle-error, alarmed}
use dbgbus.Hexbus.Transfer.{
  wait_acks, wait_acks_loop, write_command, writev_loop, writev, writeio, encode_address,
}
use dbgbus.Hexbus.Transfer.Address.{address_word}
use dbgbus.Hexbus.Transfer.Position.{IsCalm}
use dbgbus.Hexbus.Transfer.Acks.{wait_acks-enough}
use dbgbus.Hexbus.Transfer.Reads.{echo, length-encode_address-le, address_word-lt}
use dbgbus.Hexbus.Transfer.Reads.Faults.{Fails}
use dbgbus.Hexbus.Transfer.Write.{writing, writev_loop-cons}
use dbgbus.Hexbus.Transfer.Writes.{writev_start, position-first, bound_assoc, count_on, unsent_inc}

-- The loop that waits ends with the exception of readidle.
wait_acks_throws :
    (n a : ℕ) (h g : Hexbus)
    → h.nacks < n
    → readidle h ≡ (bus_error a, g)
    → wait_acks n h ≡ (bus_error a, g)
unfolding wait_acks wait_acks_loop
wait_acks_throws n a h g lt e = rw (lt→ltb h.nacks n lt, wait_acks_loop, e)

calm-NoReset :
    (p : Option Reply) (b : List Item)
    → IsNoReset p
    → IsCalm b
    → AreMild p b × IsNoReset (pending p b)
calm-NoReset p [] o c = (tt, o)
calm-NoReset p (reply (address a) ∷ is) o c = absurd c
calm-NoReset p (reply (word v) ∷ is) o c = absurd c
calm-NoReset p (reply (ack v) ∷ is) o c = absurd c
calm-NoReset p (reply reset ∷ is) o c = absurd c
calm-NoReset p (reply interrupt ∷ is) o c =
    let (m, l) = calm-NoReset (some interrupt) is tt c in ((o, omega arith, m), l)
calm-NoReset p (reply idle ∷ is) o c =
    let (m, l) = calm-NoReset (some idle) is tt c in ((o, omega arith, m), l)
calm-NoReset p (newline ∷ is) o c = let (m, l) = calm-NoReset none is tt c in ((o, m), l)

module _ (a : ℕ) (fits : a < 2 ^ 32) (aligned : a % 4 ≡ 0) where
  echo-NoReset :
      (head : List ℕ) (b : List Item)
      → IsCalm b
      → let is = echo head (address_word a false) ++ b in
        AreMild none is × IsNoReset (pending none is)
  echo-NoReset [] b c = calm-NoReset none b tt c
  echo-NoReset (x ∷ xs) b c =
      let (m, l) = calm-NoReset (some (address (address_word a false))) b tt c in
      ((tt, address_word-lt a false fits aligned, m), l)

  writev_throws :
      (b v : ℕ) (h g : Hexbus)
      → (writev_loop 0 (encode_address (address_word a false) h.link) (v ∷ []) >> wait_acks 1)
          (writev_start a false fits aligned h)
        ≡ (bus_error b, g)
      → writev a false (v ∷ []) h ≡ (bus_error b, g)
  unfolding writev
  writev_throws b v h g e =
      bound_assoc
        (writev_loop 0 (encode_address (address_word a false) h.link) (v ∷ [])
          (writev_start a false fits aligned h))
        (wait_acks 1) (set_link (count_on a false fits aligned 1))
      ∙ ap (λ x. bound x (λ _. set_link (count_on a false fits aligned 1))) e

  pub writeio-fault :
      (v : ℕ) (b : List Item) (h : Hexbus)
      → IsCalm b
      → IsRoomy h.dev
      → h.isspace_seen ≡ true
      → let head = encode_address (address_word a false) h.link in
        (g : Hexbus) × (writeio a v
            (unread (text (echo head (address_word a false) ++ b) ++ hexb_err ∷ b'\n' ∷ []) h)
          ≡ (bus_error a, g))
        × Fails h.dev (head ++ write_command v) g
  unfolding writeio
  writeio-fault v b h c roomy s =
      let head = encode_address (address_word a false) h.link in
      let is = echo head (address_word a false) ++ b in
      let input = unread (text is ++ hexb_err ∷ b'\n' ∷ []) in
      let message = head ++ write_command v in
      let start = writing message (writev_start a false fits aligned h) in
      let l = settled none is start.link in
      let k = received-dev (suc (suc (length (text is)))) (record start { last_readidle = true }) in
      let (mild, last) = echo-NoReset head b c in
      let read = readidle-error is b'\n' [] start mild last (unfold hex_value in refl) s in
      let there =
        ap (λ q. q.lastaddr)
          (position-first a false fits aligned head b (record h.link { nacks = 0 }) c
            (unsent_inc a false h.link aligned)) in
      let g : Hexbus =
        with_link (alarmed l)
          (received (suc (suc (length (text is)))) (record start { last_readidle = true })) in
      let waits = wait_acks_throws 1 l.lastaddr (input start) g (omega arith) read in
      let loop =
        writev_loop-cons 0 v 1 [] head (input h).dev.input (writev_start a false fits aligned h)
          (input start) roomy (length-encode_address-le (address_word a false) h.link)
          (wait_acks-enough 0 (input start) (omega arith)) in
      let whole = writev_throws l.lastaddr v (input h) g (loop ∙ (unfold writev_loop in waits)) in
      (
        g,
        rw whole (ap (λ (x : ℕ). (bus_error x, g)) there),
        record { input = k.0; output = k.1; flag = refl },
      )
