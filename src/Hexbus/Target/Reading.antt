-- ===== src/Hexbus/Target/Reading.antt =====
-- HEXBUS::readv of sw/hexbus.cpp against a target with a memory.
use mathlib.Core.List.{append_assoc}
use native.Mathlib.Nat.{zero-add}
use dbgbus.Base.{
  ℕ, zero, suc, ◌+◌, ◌%◌, ◌^◌, ◌<◌, ◌≡◌, inl, inr, refl, sym, ap, ◌∙◌, Bool, true, List, [], ◌∷◌,
  ◌++◌, map, arith, length, replicate,
}
use dbgbus.Comms.Laws.{IsRoomy}
use dbgbus.Outcome.{ok}
use dbgbus.Hexbus.Link.{Link, hexb_read}
use dbgbus.Hexbus.State.{Hexbus}
use dbgbus.Hexbus.Receive.Replies.{address, Item, reply, newline, text, letter, payload, unread}
use dbgbus.Hexbus.Transfer.{readv, encode_address, word_address}
use dbgbus.Hexbus.Transfer.Address.{address_word}
use dbgbus.Hexbus.Transfer.Read.{Answer, items, answer_text, values, AreCalm, requests, Leaves}
use dbgbus.Hexbus.Transfer.Reads.{echoed, readv-answers}
use dbgbus.Hexbus.Target.Standing.{
  standing, moved-standing, encode_address-cases, stands, sought, Leaves-Synced,
}
use dbgbus.Hexbus.Target.{Target, Command, seek, fetch, spell_all, serve, contents, Synced}

-- The answers that are data and a line end.
abbrev pub plain : List ℕ → List Answer
plain = map (λ v. record { before = []; value = v })

abbrev pub answer_items : List Answer → List Item
answer_items [] = []
answer_items (w ∷ ws) = items w ++ newline ∷ answer_items ws

text-append : (is js : List Item) → text (is ++ js) ≡ text is ++ text js
text-append [] js = refl
text-append (reply r ∷ is) js =
    ap (λ cs. letter r ∷ (payload r ++ cs)) (text-append is js)
    ∙ rw (append_assoc (payload r) (text is) (text js))
text-append (newline ∷ is) js = ap (◌∷◌ b'\n') (text-append is js)

pub text-answer_items : (ws : List Answer) → text (answer_items ws) ≡ answer_text ws
text-answer_items [] = refl
text-answer_items (w ∷ ws) =
    text-append (items w) (newline ∷ answer_items ws)
    ∙ ap (λ cs. text (items w) ++ b'\n' ∷ cs) (text-answer_items ws)

-- The words of some reads in a row.
serve-fetch :
    (n k a : ℕ) (c : Bool) (m : ℕ → ℕ)
    → serve (replicate n fetch) (standing m a c k)
      ≡ (answer_items (plain (contents m a c k n)), standing m a c (k + n))
unfolding serve
serve-fetch zero k a c m = let e : k + 0 ≡ k = omega arith in rw e
serve-fetch (suc n) k a c m =
    let e : k + 1 + n ≡ k + suc n = omega arith in
    rw (moved-standing m a c k, serve-fetch n (k + 1) a c m, e)

-- From the beginning of a transfer.
pub serve-start :
    (n a : ℕ) (c : Bool) (m : ℕ → ℕ)
    → serve (replicate n fetch) (standing m a c 0)
      ≡ (answer_items (plain (contents m a c 0 n)), standing m a c n)
serve-start n a c m =
    serve-fetch n 0 a c m
    ∙ ap (λ k. (answer_items (plain (contents m a c 0 n)), standing m a c k)) (zero-add n)

pub plain-values : (vs : List ℕ) → values (plain vs) ≡ vs
plain-values [] = refl
plain-values (v ∷ vs) = ap (◌∷◌ v) (plain-values vs)

pub length-contents :
    (m : ℕ → ℕ) (a : ℕ) (c : Bool) (k n : ℕ) → length (plain (contents m a c k n)) ≡ n
length-contents m a c k zero = refl
length-contents m a c k (suc n) = ap suc (length-contents m a c (k + 1) n)

pub contents-AreCalm :
    (m : ℕ → ℕ) (a : ℕ) (c : Bool) (k n : ℕ)
    → ((x : ℕ) → m x < 2 ^ 32)
    → AreCalm (plain (contents m a c k n))
contents-AreCalm m a c k zero f = tt
contents-AreCalm m a c k (suc n) f =
    ((tt, omega arith, f (word_address a c k)), contents-AreCalm m a c (k + 1) n f)

-- The commands of a transfer of `n` words, where `head` is what encode_address gives.
abbrev pub transfer : List ℕ → ℕ → ℕ → List Command
transfer [] w n = replicate n fetch
transfer (c ∷ cs) w n = seek w ∷ replicate n fetch

spell-fetch : (n : ℕ) → spell_all (replicate n fetch) ≡ requests n
spell-fetch zero = refl
spell-fetch (suc n) = ap (λ cs. hexb_read ∷ b'\n' ∷ cs) (spell-fetch n)

module _ (a : ℕ) (inc : Bool) (fits : a < 2 ^ 32) (aligned : a % 4 ≡ 0) where
  serve-transfer :
      (head : List ℕ) (n : ℕ) (t : Target) (l : Link)
      → (head ≡ [] → t ≡ standing t.memory a inc 0)
      → let vs = contents t.memory a inc 1 n in
        serve (transfer head (address_word a inc) (suc n)) t ≡ (
          answer_items (
              echoed head
                (address_word a inc)
                (record { before = []; value = t.memory (word_address a inc 0) })
              ∷ plain vs),
          standing t.memory a inc (suc n),
        )
  unfolding serve
  serve-transfer [] n t l e =
      ap (serve (replicate (suc n) fetch)) (e refl) ∙ serve-start (suc n) a inc t.memory
  serve-transfer (c ∷ cs) n t l e =
      let echo = reply (address (address_word a inc)) in
      ap (λ u. let (js, v) = serve (replicate (suc n) fetch) u in (echo ∷ js, v))
        (sought a inc fits aligned t l)
      ∙ ap (λ x. (echo ∷ x.0, x.1)) (serve-start (suc n) a inc t.memory)

  spell-transfer :
      (n : ℕ) (l : Link)
      → let head = encode_address (address_word a inc) l in
        spell_all (transfer head (address_word a inc) n) ≡ head ++ requests n
  spell-transfer n l = elim (encode_address-cases (address_word a inc) l) [
    | inl (e, _, _) ↦ rw e (spell-fetch n)
    | inr e ↦ rw e (rw (spell-fetch n))
  ]

  -- What readv comes to, and where it leaves master and target.
  pub readv-Leaves :
      (n : ℕ) (t : Target) (h : Hexbus)
      → ((x : ℕ) → t.memory x < 2 ^ 32)
      → (encode_address (address_word a inc) h.link ≡ [] → t ≡ standing t.memory a inc 0)
      → IsRoomy h.dev
      → h.isspace_seen ≡ true
      → let commands =
          transfer (encode_address (address_word a inc) h.link) (address_word a inc) (suc n) in
        ((serve commands t).1 ≡ standing t.memory a inc (suc n))
        × (g : Hexbus) × (readv a inc (suc n) (unread (text (serve commands t).0) h)
            ≡ (ok (contents t.memory a inc 0 (suc n)), g))
        × Leaves h.dev
            (spell_all commands)
            (record { lastaddr = word_address a inc (suc n); inc = inc; addr_set = true })
            g
  readv-Leaves n t h small place roomy between =
      let head = encode_address (address_word a inc) h.link in
      let w : Answer = record { before = []; value = t.memory (word_address a inc 0) } in
      let commands = transfer head (address_word a inc) (suc n) in
      let ws = plain (contents t.memory a inc 1 n) in
      let size = length-contents t.memory a inc 1 n in
      let served = serve-transfer head n t h.link place in
      let (g, run, left) =
        readv-answers a inc fits aligned w ws h (contents-AreCalm t.memory a inc 0 (suc n) small)
          roomy between in
      let sent : head ++ requests (suc (length ws)) ≡ spell_all commands =
        ap (λ k. head ++ requests (suc k)) size ∙ sym (spell-transfer (suc n) h.link) in
      (
        ap (λ x. x.1) served,
        g,
        ap (λ k. readv a inc (suc k) (unread (text (serve commands t).0) h)) (sym size)
            ∙ ap (λ x. readv a inc (suc (length ws)) (unread (text x.0) h)) served
            ∙ ap (λ cs. readv a inc (suc (length ws)) (unread cs h))
                (text-answer_items (echoed head (address_word a inc) w ∷ ws))
            ∙ run
            ∙ ap (λ vs. (ok (w.value ∷ vs), g)) (plain-values (contents t.memory a inc 1 n)),
        record {
          input = left.input;
          output = left.output ∙ ap (λ cs. h.dev.output ++ cs) sent;
          room = left.room;
          between_lines = left.between_lines;
          at =
              left.at
              ∙ ap
                  (λ k. record {
                    lastaddr = word_address a inc (suc k);
                    inc = inc;
                    addr_set = true;
                  })
                  size;
        },
      )

  -- readv of one word or more implements a specification, a target with a memory of 32-bit words:
  -- for an aligned address below 2^32, on a link that takes every short message whole, with the last
  -- reply ended, the target's replies at hand, and a target at an aligned address, which is the
  -- master's if one is set. It returns the words that the memory has from that address on, or the
  -- same word again and again if the address does not count up. It has sent the commands that the
  -- target has replied to, has taken all of the replies and nothing after them, and master and
  -- target agree again on the address.
  pub readv-refines :
      (n : ℕ) (t : Target) (h : Hexbus)
      → ((x : ℕ) → t.memory x < 2 ^ 32)
      → Synced h.link t
      → IsRoomy h.dev
      → h.isspace_seen ≡ true
      → let commands =
          transfer (encode_address (address_word a inc) h.link) (address_word a inc) (suc n) in
        let (replies, u) = serve commands t in
        (g : Hexbus) × (readv a inc (suc n) (unread (text replies) h)
          ≡ (ok (contents t.memory a inc 0 (suc n)), g))
        × (g.dev.input ≡ h.dev.input)
        × (g.dev.output ≡ h.dev.output ++ spell_all commands)
        × (u.memory ≡ t.memory)
        × Synced g.link u
  readv-refines n t h small s roomy between =
      let (there, g, run, left) =
        readv-Leaves n t h small (stands a inc fits aligned h.link t s) roomy between in
      (
        g,
        run,
        left.input,
        left.output,
        ap (λ x. x.memory) there,
        Leaves-Synced a inc fits aligned (suc n) t.memory h.dev there left,
      )
