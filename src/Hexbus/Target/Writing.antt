-- ===== src/Hexbus/Target/Writing.antt =====
-- HEXBUS::writev of sw/hexbus.cpp against a target with a memory.
use mathlib.Core.List.{append_assoc, append-nil}
use native.Mathlib.Nat.{zero-add}
use dbgbus.Base.{
  ℕ, suc, inl, inr, ◌+◌, ◌%◌, ◌^◌, ◌<◌, ◌≡◌, refl, ap, ◌∙◌, Bool, true, List, [], ◌∷◌, ◌++◌, map,
  arith, length,
}
use dbgbus.Comms.{Event, quiet}
use dbgbus.Comms.Laws.{IsRoomy}
use dbgbus.Outcome.{ok}
use dbgbus.Hexbus.State.{Hexbus}
use dbgbus.Text.Hex.{hex_08}
use dbgbus.Hexbus.Link.{Link, hexb_addr}
use dbgbus.Hexbus.Receive.Replies.{address, Item, reply, text, arrives}
use dbgbus.Hexbus.Receive.Idle.{on_input}
use dbgbus.Hexbus.Transfer.{writev, write_command, encode_address, word_address}
use dbgbus.Hexbus.Transfer.Address.{address_word}
use dbgbus.Hexbus.Transfer.Read.{Leaves}
use dbgbus.Hexbus.Transfer.Reads.{echo}
use dbgbus.Hexbus.Transfer.Acks.{ack_input}
use dbgbus.Hexbus.Transfer.Write.{AllCalm, commands}
use dbgbus.Hexbus.Transfer.Writes.{writev-acks}
use dbgbus.Hexbus.Target.{
  Target, Command, seek, store, spell_all, spell_rounds, react, serve, stored, played, put, Synced,
}
use dbgbus.Hexbus.Target.Standing.{standing, moved-standing, stands, sought, encode_address-cases}

-- The commands of the messages of writev after the first one.
abbrev rounds : List ℕ → List (List Command)
rounds = map (λ v. store v ∷ [])

-- With an address word before them, where `head` is what encode_address gives.
abbrev addressed : List ℕ → ℕ → List Command → List Command
addressed [] w cs = cs
addressed (x ∷ xs) w cs = seek w ∷ cs

-- The commands of the messages of writev.
abbrev pub messages : List ℕ → ℕ → ℕ → List ℕ → List (List Command)
messages head w v vs = addressed head w (store v ∷ []) ∷ rounds vs

-- Replies with nothing before the acknowledgements.
abbrev bare : List ℕ → List (List Item)
bare vs = map (λ v. []) vs

bare-AllCalm : (vs : List ℕ) → AllCalm (bare vs)
bare-AllCalm [] = tt
bare-AllCalm (v ∷ vs) = (tt, bare-AllCalm vs)

length-bare : (vs : List ℕ) → length (bare vs) ≡ length vs
length-bare [] = refl
length-bare (v ∷ vs) = ap suc (length-bare vs)

spell-rounds : (vs : List ℕ) → spell_rounds (rounds vs) ≡ commands vs
spell-rounds [] = refl
spell-rounds (v ∷ vs) =
    ap (λ cs. cs ++ spell_rounds (rounds vs)) (append-nil (write_command v))
    ∙ ap (λ cs. write_command v ++ cs) (spell-rounds vs)

played-rounds :
    (vs : List ℕ) (k a : ℕ) (c : Bool) (m : ℕ → ℕ) (es : List Event)
    → played (rounds vs) (standing m a c k) es
      ≡ (ack_input (bare vs) es, standing (stored m a c k vs) a c (k + length vs))
unfolding serve react
played-rounds [] k a c m es = let e : k + 0 ≡ k = omega arith in rw e
played-rounds (v ∷ vs) k a c m es =
    let e : k + 1 + length vs ≡ k + suc (length vs) = omega arith in
    rw (
      moved-standing (put m (word_address a c k) v) a c k,
      played-rounds vs (k + 1) a c (put m (word_address a c k) v) es,
      e,
    )

module _ (a : ℕ) (inc : Bool) (fits : a < 2 ^ 32) (aligned : a % 4 ≡ 0) where
  played-messages :
      (head : List ℕ) (v : ℕ) (vs : List ℕ) (es : List Event) (t : Target) (l : Link)
      → (head ≡ [] → t ≡ standing t.memory a inc 0)
      → let w = address_word a inc in
        played (messages head w v vs) t es ≡ (
          ack_input ((echo head w ++ []) ∷ bare vs) es,
          standing (stored t.memory a inc 0 (v ∷ vs)) a inc (length (v ∷ vs)),
        )
  unfolding serve react
  played-messages [] v vs es t l e =
      ap (λ u. played (rounds (v ∷ vs)) u es) (e refl)
      ∙ played-rounds (v ∷ vs) 0 a inc t.memory es
      ∙ ap
          (λ k. (ack_input (bare (v ∷ vs)) es, standing (stored t.memory a inc 0 (v ∷ vs)) a inc k))
          (zero-add (length (v ∷ vs)))
  played-messages (x ∷ xs) v vs es t l e =
      let w = address_word a inc in
      let m = put t.memory (word_address a inc 0) v in
      let n : 1 + length vs ≡ suc (length vs) = omega arith in
      ap
        (λ u.
          let (is, u') = serve (store v ∷ []) u in
          let (js, y) = played (rounds vs) u' es in
          (arrives (text (reply (address w) ∷ is)) (quiet ∷ js), y))
        (sought a inc fits aligned t l)
      ∙ rw (moved-standing m a inc 0, played-rounds vs 1 a inc m es, n)

  spell-messages :
      (v : ℕ) (vs : List ℕ) (l : Link)
      → let head = encode_address (address_word a inc) l in
        spell_rounds (messages head (address_word a inc) v vs) ≡ head ++ commands (v ∷ vs)
  spell-messages v vs l = elim (encode_address-cases (address_word a inc) l) [
    | inl (e, _, _) ↦ rw e (spell-rounds (v ∷ vs))
    | inr e ↦ rw e (
        append_assoc (hexb_addr ∷ hex_08 (address_word a inc)) (spell_all (store v ∷ []))
          (spell_rounds (rounds vs))
        ∙ ap (λ cs. hexb_addr ∷ (hex_08 (address_word a inc) ++ cs)) (spell-rounds (v ∷ vs)))
  ]

  -- What writev comes to, and where it leaves master and target.
  pub writev-Leaves :
      (v : ℕ) (vs : List ℕ) (es : List Event) (t : Target) (h : Hexbus)
      → length (v ∷ vs) < 2 ^ 32
      → (encode_address (address_word a inc) h.link ≡ [] → t ≡ standing t.memory a inc 0)
      → IsRoomy h.dev
      → h.isspace_seen ≡ true
      → let rounds =
          messages (encode_address (address_word a inc) h.link) (address_word a inc) v vs in
        let n = length (v ∷ vs) in
        ((played rounds t es).1 ≡ standing (stored t.memory a inc 0 (v ∷ vs)) a inc n)
        × (g : Hexbus) × (writev a inc (v ∷ vs) (on_input (played rounds t es).0 h) ≡ (ok tt, g))
        × Leaves
            (record h.dev { input = es })
            (spell_rounds rounds)
            (record { lastaddr = word_address a inc (n + n); inc = inc; addr_set = true })
            g
  writev-Leaves v vs es t h count place roomy between =
      let head = encode_address (address_word a inc) h.link in
      let playing = played-messages head v vs es t h.link place in
      let (g, run, left) =
        writev-acks a inc fits aligned v vs [] (bare vs) es h tt (bare-AllCalm vs) (length-bare vs)
          roomy between count in
      (
        ap (λ x. x.1) playing,
        g,
        ap (λ x. writev a inc (v ∷ vs) (on_input x.0 h)) playing ∙ run,
        rw (spell-messages v vs h.link) left,
      )

  -- HEXBUS::writev of one word or more, fewer than 2^32, to an aligned address below 2^32, against
  -- a target with a memory that serves the commands of each message as it is sent, with a pause
  -- behind its replies to it, on a link that takes every short message whole, with the last reply
  -- ended, and a target at an aligned address, which is the master's if one is set: it returns,
  -- has sent the commands that the target has served and has taken all of the replies; the memory
  -- is the one with the words written in order from that address on, or each over the one before
  -- if the address does not count up. Where the address counts up, the target is left behind the
  -- last word, and the address register of HEXBUS twice as far.
  pub writev-refines :
      (v : ℕ) (vs : List ℕ) (es : List Event) (t : Target) (h : Hexbus)
      → length (v ∷ vs) < 2 ^ 32
      → Synced h.link t
      → IsRoomy h.dev
      → h.isspace_seen ≡ true
      → let head = encode_address (address_word a inc) h.link in
        let rounds = messages head (address_word a inc) v vs in
        let (events, u) = played rounds t es in
        let n = length (v ∷ vs) in
        (g : Hexbus) × (writev a inc (v ∷ vs) (on_input events h) ≡ (ok tt, g))
        × (g.dev.input ≡ es)
        × (g.dev.output ≡ h.dev.output ++ spell_rounds rounds)
        × (u.memory ≡ stored t.memory a inc 0 (v ∷ vs))
        × (u.at ≡ word_address a inc n)
        × (g.link.lastaddr ≡ word_address a inc (n + n))
  writev-refines v vs es t h count s roomy between =
      let (there, g, run, left) =
        writev-Leaves v vs es t h count (stands a inc fits aligned h.link t s) roomy between in
      (
        g,
        run,
        left.input,
        left.output,
        ap (λ x. x.memory) there,
        ap (λ x. x.at) there,
        ap (λ q. q.lastaddr) left.at,
      )
