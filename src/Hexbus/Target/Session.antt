-- ===== src/Hexbus/Target/Session.antt =====
-- What a client may ask of DEVBUS, what the calls come to for a memory of words, and what a target
-- replies to HEXBUS where it makes the calls.
pub mod Placing
pub mod Calls
pub mod Requests
use dbgbus.Base.{
  ℕ, zero, suc, ◌%◌, ◌^◌, ◌<◌, ◌≡◌, ◌≢◌, ◌+◌, Bool, true, false, List, [], ◌∷◌, ◌++◌, length,
  bit_or, if◌then◌else◌,
}
use dbgbus.Comms.{Event}
use dbgbus.Outcome.{Run, ◌>>=◌, ◌>>◌, pure}
use dbgbus.Devbus.{Devbus}
use dbgbus.Hexbus.Link.{Link}
use dbgbus.Hexbus.Receive.Replies.{text, arrives}
use dbgbus.Hexbus.Transfer.{encode_address, word_address}
use dbgbus.Hexbus.Transfer.Address.{address_word}
use dbgbus.Hexbus.Transfer.Position.{Position}
use dbgbus.Hexbus.Target.{
  Target, Command, serve, contents, put, stored, played, spell_all, spell_rounds,
}
use dbgbus.Hexbus.Target.Reading.{transfer}
use dbgbus.Hexbus.Target.Writing.{messages}

-- The calls of DEVBUS that read, those that write to one address, and `store_run` to addresses that
-- count up; `load a inc n` asks for `n` words and one more.
pub data Request : Type 0 where
  load_one : ℕ → Request
  load : ℕ → Bool → ℕ → Request
  store_one : ℕ → ℕ → Request
  store_all : ℕ → ℕ → List ℕ → Request
  store_run : ℕ → ℕ → List ℕ → Request

-- To an aligned address, of 32-bit words.
abbrev pub AreWords : List ℕ → Type 0
AreWords [] = Unit {0}
AreWords (v ∷ vs) = (v < 2 ^ 32) × AreWords vs

abbrev pub IsProper : Request → Type 0
IsProper (load_one a) = (a < 2 ^ 32) × (a % 4 ≡ 0)
IsProper (load a inc n) = (a < 2 ^ 32) × (a % 4 ≡ 0)
IsProper (store_one a v) = (a < 2 ^ 32) × (a % 4 ≡ 0) × (v < 2 ^ 32)
IsProper (store_all a v vs) =
    (a < 2 ^ 32) × (a % 4 ≡ 0) × (v < 2 ^ 32) × AreWords vs × (length (v ∷ vs) < 2 ^ 32)
IsProper (store_run a v vs) =
    (a < 2 ^ 32) × (a % 4 ≡ 0) × (v < 2 ^ 32) × AreWords vs × (length (v ∷ vs) < 2 ^ 32)

abbrev pub AreProper : List Request → Type 0
AreProper [] = Unit {0}
AreProper (r ∷ rs) = IsProper r × AreProper rs

module _ {B : Type 0} (bus : Devbus B) where
  -- The call of DEVBUS.
  abbrev pub call : Request → Run B (List ℕ)
  call (load_one a) = do v ← bus.readio a; pure (v ∷ [])
  call (load a true n) = bus.readi a (suc n)
  call (load a false n) = bus.readz a (suc n)
  call (store_one a v) = do bus.writeio a v; pure []
  call (store_all a v vs) = do bus.writez a (v ∷ vs); pure []
  call (store_run a v vs) = do bus.writei a (v ∷ vs); pure []

  abbrev pub calls : List Request → Run B (List (List ℕ))
  calls [] = pure []
  calls (r ∷ rs) = do vs ← call r; vss ← calls rs; pure (vs ∷ vss)

-- What a memory of words gives for a request, and the memory that it leaves.
abbrev pub answer : Request → (ℕ → ℕ) → List ℕ × (ℕ → ℕ)
answer (load_one a) m = (m a ∷ [], m)
answer (load a inc n) m = (contents m a inc 0 (suc n), m)
answer (store_one a v) m = ([], put m a v)
answer (store_all a v vs) m = ([], stored m a false 0 (v ∷ vs))
answer (store_run a v vs) m = ([], stored m a true 0 (v ∷ vs))

abbrev pub answers : List Request → (ℕ → ℕ) → List (List ℕ) × (ℕ → ℕ)
answers [] m = ([], m)
answers (r ∷ rs) m = let (vs, n) = answer r m in let (vss, k) = answers rs n in (vs ∷ vss, k)

-- What encode_address gives where the address registers are as given.
unfoldable pub head : Position → ℕ → List ℕ
unfolding encode_address
head q w = encode_address w (record {
  interrupt_flag = false;
  addr_set = q.addr_set;
  bus_err = false;
  lastaddr = q.lastaddr;
  nacks = 0;
  inc = q.inc;
  isspace_seen = true;
  cmd = 0;
})

-- The messages of HEXBUS for a request. Those of readv are taken together, since the replies to
-- them are at hand.
abbrev reading : ℕ → Bool → ℕ → Position → List Command
reading a inc n q = let w = address_word a inc in transfer (head q w) w n

abbrev writing : ℕ → Bool → ℕ → List ℕ → Position → List (List Command)
writing a inc v vs q = let w = address_word a inc in messages (head q w) w v vs

abbrev pub spoken : Request → Position → List ℕ
spoken (load_one a) q = spell_all (reading a false 1 q)
spoken (load a inc n) q = spell_all (reading a inc (suc n) q)
spoken (store_one a v) q = spell_rounds (writing a false v [] q)
spoken (store_all a v vs) q = spell_rounds (writing a false v vs q)
spoken (store_run a v vs) q = spell_rounds (writing a true v vs q)

-- Where a request leaves the address registers of HEXBUS.
abbrev pub left_at : Request → Position
left_at (load_one a) = record { lastaddr = word_address a false 1; inc = false; addr_set = true }
left_at (load a inc n) = record {
  lastaddr = word_address a inc (suc n);
  inc = inc;
  addr_set = true;
}
left_at (store_one a v) = record { lastaddr = a; inc = false; addr_set = true }
left_at (store_all a v vs) = record {
  lastaddr = word_address a false 0;
  inc = false;
  addr_set = true;
}
left_at (store_run a v vs) =
    let n = length (v ∷ vs) in
    record { lastaddr = word_address a true (n + n); inc = true; addr_set = true }

-- Behind a writei of `n` words to `a`, no call that counts up goes to `a + 8n`.
abbrev pub Apart : Request → Request → Type 0
Apart (store_run a v vs) (load b true n) =
    let k = length (v ∷ vs) in b ≢ word_address a true (k + k)
Apart (store_run a v vs) (store_run b w ws) =
    let k = length (v ∷ vs) in b ≢ word_address a true (k + k)
Apart _ _ = Unit {0}

abbrev pub AreApart : List Request → Type 0
AreApart [] = Unit {0}
AreApart (r ∷ []) = Unit {0}
AreApart (r ∷ s ∷ rs) = Apart r s × AreApart (s ∷ rs)

-- What arrives for a request, and then `es`; and what becomes of the target.
abbrev pub heard : Request → Position → Target → List Event → List Event
heard (load_one a) q t es = arrives (text (serve (reading a false 1 q) t).0) es
heard (load a inc n) q t es = arrives (text (serve (reading a inc (suc n) q) t).0) es
heard (store_one a v) q t es = (played (writing a false v [] q) t es).0
heard (store_all a v vs) q t es = (played (writing a false v vs q) t es).0
heard (store_run a v vs) q t es = (played (writing a true v vs q) t es).0

abbrev pub after : Request → Position → Target → Target
after (load_one a) q t = (serve (reading a false 1 q) t).1
after (load a inc n) q t = (serve (reading a inc (suc n) q) t).1
after (store_one a v) q t = (played (writing a false v [] q) t []).1
after (store_all a v vs) q t = (played (writing a false v vs q) t []).1
after (store_run a v vs) q t = (played (writing a true v vs q) t []).1

-- The same for requests in a row.
abbrev pub dialogue : List Request → Position → List ℕ
dialogue [] q = []
dialogue (r ∷ rs) q = spoken r q ++ dialogue rs (left_at r)

abbrev pub session : List Request → Position → Target → List Event → List Event × Target
session [] q t es = (es, t)
session (r ∷ rs) q t es =
    let (fs, u) = session rs (left_at r) (after r q t) es in (heard r q t fs, u)

-- Where requests in a row leave the address registers.
abbrev pub left_by : List Request → Position → Position
left_by [] q = q
left_by (r ∷ rs) q = left_by rs (left_at r)
