-- ===== src/Hexbus/Target/Unsent.antt =====
-- HEXBUS::writei of no words takes an address for set that it has not sent.
use dbgbus.Base.{
  u32, ℕ, suc, ◌+◌, ◌%◌, ◌^◌, ◌<◌, ◌≡◌, sym, ap, ◌∙◌, true, [], ◌∷◌, ◌++◌, arith, length, replicate,
}
use dbgbus.Comms.Laws.{IsRoomy}
use dbgbus.Outcome.{ok, ◌>>◌}
use dbgbus.Hexbus.State.{Hexbus}
use dbgbus.Hexbus.Receive.Replies.{text, unread}
use dbgbus.Hexbus.Transfer.{word_address, writei, writev, readi, readv, wait_acks}
use dbgbus.Hexbus.Transfer.Position.{position}
use dbgbus.Hexbus.Transfer.Read.{Answer, answer_text, values, requests}
use dbgbus.Hexbus.Transfer.Reads.{readv-answers}
use dbgbus.Hexbus.Transfer.Writes.{encode_address-known}
use dbgbus.Hexbus.Target.{Target, fetch, serve, contents}
use dbgbus.Hexbus.Target.Standing.{at_place, word_address-zero}
use dbgbus.Hexbus.Target.Reading.{
  plain, answer_items, text-answer_items, serve-start, plain-values, length-contents,
  contents-AreCalm,
}

-- What writei of no words leaves.
abbrev taken_for_set : ℕ → Hexbus → Hexbus
taken_for_set a h = record h { link = record h.link { lastaddr = a; addr_set = true; nacks = 0 } }

writei-empty : (a : ℕ) (h : Hexbus) → a < 2 ^ 32 → writei a [] h ≡ (ok tt, taken_for_set a h)
unfolding writei writev wait_acks
writei-empty a h f = let e : u32 (a + 0) ≡ a = omega arith in rw e

-- A target that counts up, read from where it stands.
serve-counting :
    (n : ℕ) (t : Target)
    → t.at < 2 ^ 32
    → t.counts ≡ true
    → (serve (replicate n fetch) t).0 ≡ answer_items (plain (contents t.memory t.at true 0 n))
serve-counting n t below counts =
    let here =
      at_place t (word_address t.at true 0) true (sym (word_address-zero t.at true below)) counts in
    ap (λ u. (serve (replicate n fetch) u).0) here
    ∙ ap (λ x. x.0) (serve-start n t.at true t.memory)

module _ (a : ℕ) (fits : a < 2 ^ 32) (aligned : a % 4 ≡ 0) where
  -- A transfer that counts up from where HEXBUS takes the target to stand.
  pub readv-unsent :
      (n : ℕ) (t : Target) (h : Hexbus)
      → position h.link ≡ record { lastaddr = a; inc = true; addr_set = true }
      → ((x : ℕ) → t.memory x < 2 ^ 32)
      → t.at < 2 ^ 32
      → t.counts ≡ true
      → IsRoomy h.dev
      → h.isspace_seen ≡ true
      → let (replies, u) = serve (replicate (suc n) fetch) t in
        (g : Hexbus) × (readv a true (suc n) (unread (text replies) h)
          ≡ (ok (contents t.memory t.at true 0 (suc n)), g))
        × (g.dev.output ≡ h.dev.output ++ requests (suc n))
  readv-unsent n t h at small below counts roomy between =
      let w : Answer = record { before = []; value = t.memory (word_address t.at true 0) } in
      let ws = plain (contents t.memory t.at true 1 n) in
      let unsent = encode_address-known a h.link aligned at in
      let (g, run, left) =
        readv-answers a true fits aligned w ws h
          (contents-AreCalm t.memory t.at true 0 (suc n) small) roomy between in
      let heard = ap text (serve-counting (suc n) t below counts) ∙ text-answer_items (w ∷ ws) in
      let size = length-contents t.memory t.at true 1 n in
      let read : readv a true (suc n) (unread (answer_text (w ∷ ws)) h)
          ≡ (ok (values (w ∷ ws)), g) =
        rw size at (rw unsent at run) in
      (
        g,
        rw heard (
            read
            ∙ ap (λ vs. (ok (w.value ∷ vs), g)) (plain-values (contents t.memory t.at true 1 n))),
        left.output
            ∙ ap (λ hd. h.dev.output ++ (hd ++ requests (suc (length ws)))) unsent
            ∙ ap (λ i. h.dev.output ++ requests (suc i)) size,
      )

  -- HEXBUS::writei of no words to an aligned address below 2^32, and then HEXBUS::readi of one
  -- word or more from it, where HEXBUS counts up and so does the target, whose address is below
  -- 2^32 and whose words are of 32 bits, on a link that takes every short message whole, with the
  -- last reply ended and the replies at hand: no address is sent, and the words read are those at
  -- the address where the target was, whatever address was asked for.
  pub writei-readi :
      (n : ℕ) (t : Target) (h : Hexbus)
      → ((x : ℕ) → t.memory x < 2 ^ 32)
      → t.at < 2 ^ 32
      → t.counts ≡ true
      → h.inc ≡ true
      → IsRoomy h.dev
      → h.isspace_seen ≡ true
      → let (replies, u) = serve (replicate (suc n) fetch) t in
        (g : Hexbus) × ((writei a [] >> readi a (suc n)) (unread (text replies) h)
          ≡ (ok (contents t.memory t.at true 0 (suc n)), g))
        × (g.dev.output ≡ h.dev.output ++ requests (suc n))
  unfolding readi
  writei-readi n t h small below counts inc roomy between =
      let (g, run, output) =
        readv-unsent n t (taken_for_set a h)
          (ap (λ i. record { lastaddr = a; inc = i; addr_set = true }) inc) small below counts roomy
          between in
      let replies = text (serve (replicate (suc n) fetch) t).0 in
      (g, rw (writei-empty a (unread replies h) fits) run, output)
