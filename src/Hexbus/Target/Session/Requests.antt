-- ===== src/Hexbus/Target/Session/Requests.antt =====
-- HEXBUS as a DEVBUS over a memory of words.
use mathlib.Core.List.{append_assoc, append-nil}
use dbgbus.Base.{
  ℕ, ◌+◌, ◌^◌, ◌<◌, ◌≡◌, refl, sym, ap, ◌∙◌, Bool, true, false, List, [], ◌∷◌, ◌++◌, arith,
}
use dbgbus.Comms.{Event}
use dbgbus.Comms.Laws.{IsRoomy}
use dbgbus.Outcome.{ok}
use dbgbus.Devbus.{hexbus}
use dbgbus.Hexbus.State.{Hexbus}
use dbgbus.Hexbus.Receive.Idle.{on_input}
use dbgbus.Hexbus.Transfer.{word_address}
use dbgbus.Hexbus.Transfer.Position.{Position, position}
use dbgbus.Hexbus.Target.{Target, put, stored, Synced}
use dbgbus.Hexbus.Target.Session.Calls.{call-Goes}
use dbgbus.Hexbus.Target.Session.Placing.{FirstPlaced, next-FirstPlaced, Synced-FirstPlaced}
use dbgbus.Hexbus.Target.Session.{
  AreWords, Request, load_one, load, store_one, store_all, store_run, IsProper, AreApart, left_by,
  AreProper, calls, answer, answers, spoken, left_at, after, dialogue, session,
}

pub stored-small :
    (vs : List ℕ) (m : ℕ → ℕ) (a : ℕ) (c : Bool) (k : ℕ)
    → AreWords vs
    → ((x : ℕ) → m x < 2 ^ 32)
    → (x : ℕ) → stored m a c k vs x < 2 ^ 32
stored-small [] m a c k b small x = small x
stored-small (v ∷ vs) m a c k (b, bs) small x =
    stored-small vs (put m (word_address a c k) v) a c (k + 1) bs (λ y. ground (arith, small y)) x

-- A memory of 32-bit words is one again.
answer-small :
    (r : Request) (m : ℕ → ℕ)
    → IsProper r
    → ((x : ℕ) → m x < 2 ^ 32)
    → (x : ℕ) → (answer r m).1 x < 2 ^ 32
answer-small (load_one a) m p small x = small x
answer-small (load a inc n) m p small x = small x
answer-small (store_one a v) m (f, c, b) small x = ground (arith, small x)
answer-small (store_all a v vs) m (f, c, b, bs, l) small x =
    stored-small (v ∷ vs) m a false 0 (b, bs) small x
answer-small (store_run a v vs) m (f, c, b, bs, l) small x =
    stored-small (v ∷ vs) m a true 0 (b, bs) small x

-- With the address registers at `q`.
calls_from :
    (rs : List Request) (q : Position) (t : Target) (es : List Event) (h : Hexbus)
    → AreProper rs
    → AreApart rs
    → position h.link ≡ q
    → ((x : ℕ) → t.memory x < 2 ^ 32)
    → FirstPlaced rs h.link t
    → IsRoomy h.dev
    → h.isspace_seen ≡ true
    → let (events, u) = session rs q t es in
      (g : Hexbus) × (calls hexbus rs (on_input events h) ≡ (ok (answers rs t.memory).0, g))
      × (g.dev.input ≡ es)
      × (g.dev.output ≡ h.dev.output ++ dialogue rs q)
      × (u.memory ≡ (answers rs t.memory).1)
      × (position g.link ≡ left_by rs q)
calls_from [] q t es h p apart e small place roomy between =
    (on_input es h, refl, refl, sym (append-nil h.dev.output), refl, e)
calls_from (r ∷ rs) q t es h (p, ps) apart e small place roomy between = rw (← e) (
    let fs = (session rs (left_at r) (after r (position h.link) t) es).0 in
    let one = call-Goes r t h fs p small place roomy between in
    let (placed, apart') =
      next-FirstPlaced r rs one.bus.link (after r (position h.link) t) one.next ps apart in
    let (g, run, input, output, memory, at) =
      calls_from rs (left_at r) (after r (position h.link) t) es one.bus ps apart' one.leaves.at
        (rw one.memory (answer-small r t.memory p small)) placed (rw one.leaves.room roomy)
        one.leaves.between_lines in
    let next : calls hexbus rs one.bus ≡ (ok (answers rs (answer r t.memory).1).0, g) =
      ap (λ fs. calls hexbus rs (on_input fs one.bus)) one.leaves.input
      ∙ run
      ∙ ap (λ m. (ok (answers rs m).0, g)) one.memory in
    (
      g,
      rw (one.run, next),
      input,
      output
          ∙ ap (λ o. o ++ dialogue rs (left_at r)) one.leaves.output
          ∙ append_assoc h.dev.output (spoken r (position h.link)) (dialogue rs (left_at r)),
      memory ∙ ap (λ m. (answers rs m).1) one.memory,
      at,
    ))

-- HEXBUS implements DEVBUS over a memory of 32-bit words: any calls of readio, readi, readz,
-- writeio, writei and writez in a row, at aligned addresses below 2^32, of at least one word and
-- fewer than 2^32 written, where behind a writei of n words to an address a no readi or writei goes
-- to a + 8n, against a target with that memory that serves each message of HEXBUS, where the
-- replies to a read are at hand and a pause follows the replies to each write, on a link that takes
-- every short message whole, with the last reply ended, and a target at an aligned address, which
-- is the master's if one is set. Each call returns what the memory gives as the calls before it
-- left it; the target's memory ends as the calls leave the memory, HEXBUS has sent the commands
-- that the target has served and has taken all of the replies, and its address registers are where
-- the last call leaves them.
pub calls-refine :
    (rs : List Request) (t : Target) (es : List Event) (h : Hexbus)
    → AreProper rs
    → AreApart rs
    → ((x : ℕ) → t.memory x < 2 ^ 32)
    → Synced h.link t
    → IsRoomy h.dev
    → h.isspace_seen ≡ true
    → let (events, u) = session rs (position h.link) t es in
      (g : Hexbus) × (calls hexbus rs (on_input events h) ≡ (ok (answers rs t.memory).0, g))
      × (g.dev.input ≡ es)
      × (g.dev.output ≡ h.dev.output ++ dialogue rs (position h.link))
      × (u.memory ≡ (answers rs t.memory).1)
      × (position g.link ≡ left_by rs (position h.link))
calls-refine rs t es h p apart small s roomy between =
    calls_from rs (position h.link) t es h p apart refl small (Synced-FirstPlaced rs h.link t p s)
      roomy between
