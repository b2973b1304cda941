-- ===== src/Hexbus/Target/Drift.antt =====
-- HEXBUS counts the address on twice in a writei, and takes the target to stand too far on.
use dbgbus.Base.{
  ℕ, suc, ◌+◌, ◌%◌, ◌^◌, ◌<◌, ◌≡◌, ap, ◌∙◌, true, List, [], ◌∷◌, ◌++◌, arith, length, replicate,
}
use dbgbus.Comms.{Event}
use dbgbus.Comms.Laws.{IsRoomy}
use dbgbus.Outcome.{ok, ◌>>◌}
use dbgbus.Hexbus.State.{Hexbus}
use dbgbus.Hexbus.Receive.Replies.{text, arrives}
use dbgbus.Hexbus.Receive.Idle.{on_input}
use dbgbus.Hexbus.Transfer.{encode_address, word_address, writei, readi, readv}
use dbgbus.Hexbus.Transfer.Address.{address_word}
use dbgbus.Hexbus.Transfer.Read.{requests}
use dbgbus.Hexbus.Target.{Target, Synced, fetch, serve, contents, stored, played, spell_rounds}
use dbgbus.Hexbus.Target.Standing.{stands}
use dbgbus.Hexbus.Target.Writing.{messages, writev-Leaves}
use dbgbus.Hexbus.Target.Unsent.{readv-unsent}
use dbgbus.Hexbus.Target.Session.{AreWords}
use dbgbus.Hexbus.Target.Session.Requests.{stored-small}

module _ (a : ℕ) (fits : a < 2 ^ 32) (aligned : a % 4 ≡ 0) where
  -- HEXBUS::writei of `n` 32-bit words to an aligned address `a` below 2^32, and then HEXBUS::readi
  -- of one word or more from `a + 8n`, with `n` not 0 and below 2^32, against a target with a memory
  -- of 32-bit words that serves the messages of the write as they are sent, with a pause behind its
  -- replies to each, and whose replies to the read are at hand, on a link that takes every short
  -- message whole, with the last reply ended, and a target at an aligned address, which is the
  -- master's if one is set: no address is sent for the read, and the words that it gives are those
  -- at `a + 4n`, as the writes left the memory.
  pub writei-strays :
      (v : ℕ) (vs : List ℕ) (n : ℕ) (es : List Event) (t : Target) (h : Hexbus)
      → AreWords (v ∷ vs)
      → length (v ∷ vs) < 2 ^ 32
      → ((x : ℕ) → t.memory x < 2 ^ 32)
      → Synced h.link t
      → IsRoomy h.dev
      → h.isspace_seen ≡ true
      → let k = length (v ∷ vs) in
        let w = address_word a true in
        let rounds = messages (encode_address w h.link) w v vs in
        let (before, u) = played rounds t [] in
        let replies = (serve (replicate (suc n) fetch) u).0 in
        (g : Hexbus) × ((writei a (v ∷ vs) >> readi (word_address a true (k + k)) (suc n))
            (on_input (played rounds t (arrives (text replies) es)).0 h)
          ≡ (
            ok (
                contents
                  (stored t.memory a true 0 (v ∷ vs))
                  (word_address a true k)
                  true
                  0
                  (suc n)),
            g,
          ))
        × (g.dev.output ≡ h.dev.output ++ spell_rounds rounds ++ requests (suc n))
  unfolding writei readi
  writei-strays v vs n es t h words count small s roomy between =
      let place = stands a true fits aligned h.link t s in
      let k = length (v ∷ vs) in
      let w = address_word a true in
      let u = (played (messages (encode_address w h.link) w v vs) t []).1 in
      let fs = arrives (text (serve (replicate (suc n) fetch) u).0) es in
      let there = (writev-Leaves a true fits aligned v vs [] t h count place roomy between).0 in
      let (same, m, run, left) =
        writev-Leaves a true fits aligned v vs fs t h count place roomy between in
      let (g, read, output) =
        readv-unsent (word_address a true (k + k)) (omega arith) (omega arith) n u (on_input es m)
          left.at
          (rw (ap (λ x. x.memory) there) (stored-small (v ∷ vs) t.memory a true 0 words small))
          (rw (ap (λ x. x.at) there) (omega arith)) (ap (λ x. x.counts) there) (rw left.room roomy)
          left.between_lines in
      let next =
        ap (λ fs. readv (word_address a true (k + k)) true (suc n) (on_input fs m)) left.input
        ∙ read
        ∙ ap (λ x. (ok (contents x.memory x.at true 0 (suc n)), g)) there in
      (g, rw (run, next), output ∙ ap (λ o. o ++ requests (suc n)) left.output)
