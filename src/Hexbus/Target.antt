-- ===== src/Hexbus/Target.antt =====
-- What a client of HEXBUS relies on: a target with a memory of words, and what it replies to a
-- command, as hexbus/README.md describes it, with the letters of sw/hexbus.cpp. Bit 1 of an address
-- word, which asks for the difference to the last address, is left out: encode_address sends it for
-- no aligned address.
pub mod Standing
pub mod Reading
pub mod Writing
pub mod Session
pub mod Unsent
pub mod Drift
use dbgbus.Base.{
  ℕ, zero, suc, ◌+◌, ◌%◌, ◌≡◌, Bool, true, false, List, [], ◌∷◌, ◌++◌, ◌==◌, if◌then◌else◌, u32,
  bit_and,
}
use dbgbus.Comms.{Event, quiet}
use dbgbus.Text.Hex.{hex_08}
use dbgbus.Hexbus.Link.{Link, hexb_addr, hexb_read}
use dbgbus.Hexbus.Receive.Replies.{address, word, ack, Item, reply, newline, text, arrives}
use dbgbus.Hexbus.Transfer.{word_address, write_command}

pub record Target : Type 0 where
  pub memory : ℕ → ℕ
  pub at : ℕ
  pub counts : Bool

pub data Command : Type 0 where
  -- An address word; its lowest bit says not to count up.
  seek : ℕ → Command
  -- A read of the word at the address.
  fetch : Command
  -- A write to the word at the address.
  store : ℕ → Command

abbrev pub spell : Command → List ℕ
spell (seek w) = hexb_addr ∷ hex_08 w
spell fetch = hexb_read ∷ b'\n' ∷ []
spell (store v) = write_command v

abbrev pub spell_all : List Command → List ℕ
spell_all [] = []
spell_all (c ∷ cs) = spell c ++ spell_all cs

abbrev pub moved : Target → Target
moved t = record t { at = elim t.counts [ true ↦ u32 (t.at + 4) | false ↦ t.at ] }

abbrev pub put : (ℕ → ℕ) → ℕ → ℕ → ℕ → ℕ
put m x v y = if y == x then v else m y

-- What the target replies to a command, and what becomes of it.
unfoldable pub react : Command → Target → List Item × Target
react (seek w) t = (
  reply (address w) ∷ [],
  record t { at = bit_and w 0xfffffffc; counts = if bit_and w 1 == 1 then false else true },
)
react fetch t = (reply (word (t.memory t.at)) ∷ newline ∷ [], moved t)
react (store v) t =
    (reply (ack 0) ∷ newline ∷ [], moved (record t { memory = put t.memory t.at v }))

unfoldable pub serve : List Command → Target → List Item × Target
unfolding react
serve [] t = ([], t)
serve (c ∷ cs) t = let (is, u) = react c t in let (js, v) = serve cs u in (is ++ js, v)

-- The `n` words from index `k` of a transfer that begins at `a`.
abbrev pub contents : (ℕ → ℕ) → ℕ → Bool → ℕ → ℕ → List ℕ
contents m a counts k zero = []
contents m a counts k (suc n) = m (word_address a counts k) ∷ contents m a counts (k + 1) n

-- A memory when `vs` are written to it from index `k` of a transfer on.
abbrev pub stored : (ℕ → ℕ) → ℕ → Bool → ℕ → List ℕ → ℕ → ℕ
stored m a counts k [] = m
stored m a counts k (v ∷ vs) = stored (put m (word_address a counts k) v) a counts (k + 1) vs

-- What arrives where the target serves the commands of one message after those of another, with a
-- pause behind its replies to each, and then `es`.
abbrev pub played : List (List Command) → Target → List Event → List Event × Target
played [] t es = (es, t)
played (cs ∷ rounds) t es =
    let (is, u) = serve cs t in
    let (js, v) = played rounds u es in (arrives (text is) (quiet ∷ js), v)

abbrev pub spell_rounds : List (List Command) → List ℕ
spell_rounds [] = []
spell_rounds (cs ∷ rounds) = spell_all cs ++ spell_rounds rounds

-- Where the master takes an address to be set, it is the one of the target.
pub record Synced (l : Link) (t : Target) : Type 0 where
  pub aligned : t.at % 4 ≡ 0
  pub agrees : l.addr_set ≡ true → (l.lastaddr ≡ t.at) × (l.inc ≡ t.counts)
