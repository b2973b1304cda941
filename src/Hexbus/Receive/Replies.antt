-- ===== src/Hexbus/Receive/Replies.antt =====
-- The replies of the target, as README.md of hexbus describes them and bench/cpp/autotest.cpp
-- expects them, and what each means to the master.
use dbgbus.Base.{
  ℕ, suc, zero, ◌+◌, ◌<◌, ◌^◌, true, false, Option, none, some, List, [], ◌∷◌, ◌++◌, u32, u64, ◌≡◌,
  refl, ◌∙◌,
}
use native.Mathlib.Nat.{zero-add, suc-add}
use dbgbus.Comms.{Event, byte}
use dbgbus.Text.Hex.{hex_08}
use dbgbus.Hexbus.Link.{
  Link, advance, set_address, hexb_addr, hexb_read, hexb_idle, hexb_ack, hexb_reset, hexb_int,
}
use dbgbus.Hexbus.State.{Hexbus}

pub data Reply : Type 0 where
  address : ℕ → Reply
  word : ℕ → Reply
  ack : ℕ → Reply
  interrupt : Reply
  idle : Reply
  reset : Reply

abbrev pub letter : Reply → ℕ
letter (address a) = hexb_addr
letter (word v) = hexb_read
letter (ack v) = hexb_ack
letter interrupt = hexb_int
letter idle = hexb_idle
letter reset = hexb_reset

abbrev pub payload : Reply → List ℕ
payload (address a) = hex_08 a
payload (word v) = hex_08 v
payload (ack v) = hex_08 v
payload interrupt = []
payload idle = []
payload reset = []

abbrev pub value : Reply → ℕ
value (address a) = a
value (word v) = v
value (ack v) = v
value interrupt = 0
value idle = 0
value reset = 0

-- The payload fits a word.
abbrev pub Fits : Reply → Type 0
Fits r = value r < 2 ^ 32

-- What a complete reply changes in the registers.
abbrev pub meaning : Reply → Link → Link
meaning (address a) l = set_address a l
meaning (word v) l = advance l
meaning (ack v) l = let a = advance l in record a { nacks = u32 (a.nacks + 1) }
meaning interrupt l = record l { interrupt_flag = true }
meaning idle l = l
meaning reset l = record l { addr_set = false }

-- A reply is complete when the next character comes, so one may be pending: its letter is the
-- command in progress. The registers are seen as if it had not come.
abbrev pub holding : Option Reply → Link → Link
holding none l = record l { isspace_seen = true }
holding (some r) l = record l { cmd = letter r; isspace_seen = false }

abbrev pub complete : Option Reply → Link → Link
complete none l = l
complete (some r) l = record (meaning r l) { cmd = letter r }

abbrev pub pending_value : Option Reply → ℕ
pending_value none = 0
pending_value (some r) = value r

-- Replies, with line ends between them in any way.
pub data Item : Type 0 where
  reply : Reply → Item
  newline : Item

abbrev pub text : List Item → List ℕ
text [] = []
text (reply r ∷ is) = letter r ∷ (payload r ++ text is)
text (newline ∷ is) = b'\n' ∷ text is

-- Which reply is pending after some items, and the registers.
abbrev pub pending : Option Reply → List Item → Option Reply
pending p [] = p
pending p (reply r ∷ is) = pending (some r) is
pending p (newline ∷ is) = pending none is

abbrev pub follow : Option Reply → List Item → Link → Link
follow p [] l = l
follow p (reply r ∷ is) l = follow (some r) is (complete p l)
follow p (newline ∷ is) l = follow none is (complete p l)

-- The registers once the pending reply is complete too.
abbrev pub settled : Option Reply → List Item → Link → Link
settled p is l = complete (pending p is) (follow p is l)

-- The bytes `bs` have arrived, ahead of what is to come.
abbrev pub arrives : List ℕ → List Event → List Event
arrives [] es = es
arrives (c ∷ cs) es = byte c ∷ arrives cs es

abbrev pub unread : List ℕ → Hexbus → Hexbus
unread bs h = record h { dev = record h.dev { input = arrives bs h.dev.input } }

abbrev pub with_link : Link → Hexbus → Hexbus
with_link l h = record h { link = l }

-- The counters after `n` more bytes.
abbrev pub received : ℕ → Hexbus → Hexbus
received zero h = h
received (suc n) h = received n (record h {
  total_nread = u64 (h.total_nread + 1);
  dev = record h.dev { total_nread = u64 (h.dev.total_nread + 1) };
})

pub received-suc : (n : ℕ) (h : Hexbus) → received 1 (received n h) ≡ received (suc n) h
received-suc zero h = refl
received-suc (suc n) h = received-suc n (received 1 h)

pub received-add : (m n : ℕ) (h : Hexbus) → received n (received m h) ≡ received (m + n) h
received-add zero n h = rw zero-add
received-add (suc m) n h = received-add m n (received 1 h) ∙ rw (suc-add m n)

-- No other reply than these, each with a payload that fits a word: what may come at any time.
abbrev pub IsBackground : List Item → Type 0
IsBackground [] = Unit {0}
IsBackground (reply (word v) ∷ is) = ⊥
IsBackground (reply r ∷ is) = Fits r × IsBackground is
IsBackground (newline ∷ is) = IsBackground is

-- How many idle replies there are.
abbrev pub idles : List Item → ℕ
idles [] = 0
idles (reply idle ∷ is) = suc (idles is)
idles (_ ∷ is) = idles is

-- The bytes only count up the counters.
pub received-dev :
    (n : ℕ) (h : Hexbus)
    → ((received n h).dev.input ≡ h.dev.input)
      × ((received n h).dev.output ≡ h.dev.output)
      × ((received n h).dev.room ≡ h.dev.room)
received-dev zero h = (refl, refl, refl)
received-dev (suc n) h = received-dev n (received 1 h)
