-- ===== src/Hexbus/Transfer/Reads.antt =====
-- HEXBUS::readv reads what the target has, in order.
pub mod Faults
pub mod Nonblocking
use dbgbus.Base.{
  ℕ, zero, suc, ◌+◌, ◌%◌, ◌^◌, ◌≤◌, ◌<◌, ◌≡◌, refl, ap, ◌∙◌, Bool, true, false, List, [], ◌∷◌, ◌++◌,
  arith, u32, length, none, some, ==_iff,
}
use mathlib.Core.List.{append_assoc}
use dbgbus.Comms.Laws.{IsRoomy}
use dbgbus.Outcome.{ok}
use dbgbus.Hexbus.Link.{Link}
use dbgbus.Hexbus.State.{Hexbus}
use dbgbus.Text.Hex.{length-hex_08}
use dbgbus.Hexbus.Receive.Replies.{address, Item, reply, unread, settled}
use dbgbus.Hexbus.Transfer.{readv_word, readv_loop, readv, encode_address, word_address}
use dbgbus.Hexbus.Transfer.Address.{address_word, address_word_lem, position-echo}
use dbgbus.Hexbus.Transfer.Position.{position, stepped, settled-calm, Calm-IsBackground, IsCalm}
use dbgbus.Hexbus.Transfer.Read.{
  Answer, answer_text, IsAnswer, values, AreCalm, requests, steps, Leaves, Leaves-trans, answered,
  answered-Leaves, readv_word-answer, readv_loop-answers, read_command,
}

-- A target that echoes the address word `a` if the message sends one.
abbrev pub echo : List ℕ → ℕ → List Item
echo [] a = []
echo (c ∷ cs) a = reply (address a) ∷ []

pub steps_lem :
    (n x : ℕ) (inc s : Bool)
    → x < 2 ^ 32
    → steps n (record { lastaddr = x; inc = inc; addr_set = s })
      ≡ record { lastaddr = word_address x inc n; inc = inc; addr_set = s }
steps_lem zero x true s h = ground arith
steps_lem zero x false s h = ground arith
steps_lem (suc n) x true s h = steps_lem n (u32 (x + 4)) true s (omega arith) ∙ ground arith
steps_lem (suc n) x false s h = steps_lem n x false s h ∙ ground arith

pub length-encode_address-le : (a : ℕ) (l : Link) → length (encode_address a l) ≤ 9
unfolding encode_address
length-encode_address-le a l = ground (arith, length-hex_08 a)

-- The first answer, with the echo in front.
abbrev pub echoed : List ℕ → ℕ → Answer → Answer
echoed head a w = record w { before = echo head a ++ w.before }

module _ (a : ℕ) (inc : Bool) (fits : a < 2 ^ 32) (aligned : a % 4 ≡ 0) where
  pub address_word-lt : address_word a inc < 2 ^ 32
  address_word-lt = ground (arith, address_word_lem a inc aligned)

  echoed-IsAnswer :
      (head : List ℕ) (w : Answer) → IsAnswer w → IsAnswer (echoed head (address_word a inc) w)
  echoed-IsAnswer [] w i = i
  echoed-IsAnswer (c ∷ cs) w (b, i, f) = ((address_word-lt, b), i, f)

  -- After the first answer's other replies the registers are at the address.
  position-echoed :
      (head : List ℕ) (w : Answer) (l : Link)
      → IsCalm w.before
      → position l ≡ record { lastaddr = a; inc = inc; addr_set = true }
      → position (settled none (echoed head (address_word a inc) w).before l)
        ≡ record { lastaddr = a; inc = inc; addr_set = true }
  position-echoed [] w l c e = settled-calm none w.before l c ∙ e
  position-echoed (x ∷ xs) w l c e =
      settled-calm (some (address (address_word a inc))) w.before l c
      ∙ (let p = position-echo a inc l fits aligned in ground (arith, p))

  -- The registers that readv sets before it sends anything.
  abbrev aimed : Hexbus → Hexbus
  aimed h = record h { link = record h.link { lastaddr = a; addr_set = true; inc = inc } }

  readv_parts :
      (n v : ℕ) (vs : List ℕ) (h k g : Hexbus)
      → readv_word a inc 0 (encode_address (address_word a inc) h.link) (aimed h) ≡ (ok v, k)
      → readv_loop a inc n 1 [] k ≡ (ok vs, g)
      → g.lastaddr ≡ word_address a inc (suc n)
      → readv a inc (suc n) h ≡ (ok (v ∷ vs), g)
  unfolding readv
  readv_parts n v vs h k g p q e =
      rw (readv, readv_loop, p, q, (==_iff g.lastaddr (word_address a inc (suc n))).1 e)

  -- readv against a target that echoes the address it is sent, if it is sent one, and answers each
  -- request: it returns the words in order, has sent the address and one request for each word,
  -- has taken all the answers and nothing after them, and its address register is where the
  -- target's is. Interrupts and up to two idle marks may come before each word.
  pub readv-answers :
      (w : Answer) (ws : List Answer) (h : Hexbus)
      → AreCalm (w ∷ ws)
      → IsRoomy h.dev
      → h.isspace_seen ≡ true
      → let head = encode_address (address_word a inc) h.link in
        let n = suc (length ws) in
        (g : Hexbus) × (readv a inc n
            (unread (answer_text (echoed head (address_word a inc) w ∷ ws)) h)
          ≡ (ok (values (w ∷ ws)), g))
        × Leaves h.dev
            (head ++ requests n)
            (record { lastaddr = word_address a inc n; inc = inc; addr_set = true })
            g
  readv-answers w ws h ((c, i, f), cs) roomy s =
      let head = encode_address (address_word a inc) h.link in
      let first = echoed head (address_word a inc) w in
      let short : length head ≤ 30 =
        omega (arith, length-encode_address-le (address_word a inc) h.link) in
      let one =
        readv_word-answer a inc 0 head first (answer_text ws) (aimed h)
          (echoed-IsAnswer head w (Calm-IsBackground w.before c, i, f)) roomy s short in
      let l = answered-Leaves (head ++ read_command) first (aimed h) in
      let (g, rest, m) =
        readv_loop-answers a inc 1 ws (answered (head ++ read_command) first (aimed h)) cs
          (rw l.room roomy) l.between_lines in
      let there = position-echoed head w (aimed h).link c refl in
      let left = Leaves-trans l m (
        ap (steps (length ws)) (l.at ∙ ap stepped there)
        ∙ steps_lem (suc (length ws)) a inc true fits) in
      (
        g,
        readv_parts (length ws) w.value (values ws) _ _ g one rest (ap (λ q. q.lastaddr) left.at),
        rw (append_assoc head read_command (requests (length ws))) at left,
      )
