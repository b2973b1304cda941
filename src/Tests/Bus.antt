-- ===== src/Tests/Bus.antt =====
-- The bus at concrete inputs: a transfer at 0x2048, with an interrupt in between.
use dbgbus.Base.{
  ℕ, suc, ◌+◌, ◌%◌, ◌≤◌, ◌≡◌, refl, true, false, none, some, List, [], ◌∷◌, ◌++◌, arith, length,
}
use dbgbus.Outcome.{ok}
use dbgbus.Comms
use dbgbus.Comms.{Comms, Event, byte, quiet}
use dbgbus.Comms.Laws.{IsRoomy}
use dbgbus.Text.Hex.{hex_value, hex_08, read_hex, read_hex-hex_08}
use dbgbus.Hexbus.Link.{start_command}
use dbgbus.Hexbus.State.{Hexbus, init, squeeze}
use dbgbus.Hexbus.Buffer.{command-fits_buffer, squeeze-idle, Squeezed}
use dbgbus.Hexbus.Receive.{readword, readidle}
use dbgbus.Hexbus.Receive.Replies.{
  address, word, ack, interrupt, idle, reset, Item, reply, newline, text, follow, pending, complete,
  unread, with_link, received, holding,
}
use dbgbus.Hexbus.Receive.Words.{readword-data}
use dbgbus.Hexbus.Receive.Idle.{paused, on_input, run_down, readidle-replies}
use dbgbus.Hexbus.Transfer.{encode_address, write_command, word_address, readv, writev}
use dbgbus.Hexbus.Transfer.Address.{address_word}
use dbgbus.Hexbus.Transfer.Read.{Answer, answer_text, requests, Leaves}
use dbgbus.Hexbus.Transfer.Reads.{readv-answers, echoed, echo}
use dbgbus.Hexbus.Target.{Target, Synced, serve, contents, spell_all, played, stored, spell_rounds}
use dbgbus.Hexbus.Target.Reading.{transfer, readv-refines}
use dbgbus.Hexbus.Target.Writing.{messages, writev-refines}
use dbgbus.Hexbus.Transfer.Acks.{ack_input}
use dbgbus.Hexbus.Transfer.Write.{commands}
use dbgbus.Hexbus.Transfer.Writes.{writev-acks}

-- A bus on an open device that takes what it is sent, with more to come.
abbrev pub fresh : Hexbus
fresh = record {
  link = record {
    interrupt_flag = false;
    addr_set = false;
    bus_err = false;
    lastaddr = 0;
    nacks = 0;
    inc = false;
    isspace_seen = true;
    cmd = 0;
  };
  total_nread = 0;
  has_buf = true;
  buflen = 128;
  last_readidle = true;
  dev = Comms.attach 3 (Comms.init true (byte b'I' ∷ []) (λ n. 64));
}

pub roomy : IsRoomy fresh.dev
unfolding Comms.init Comms.attach
roomy n = omega arith

abbrev pub echoes : List Item
echoes = newline ∷ reply (address 0x2049) ∷ reply interrupt ∷ newline ∷ reply idle ∷ []

abbrev answered : List Item
answered = echoes ++ reply (word 0xdead) ∷ []

readword-data_example : readword (unread (text answered ++ b'\n' ∷ b'K' ∷ []) fresh) ≡ (
  ok 0xdead,
  unread (b'K' ∷ []) (
      with_link
        (start_command b'\n' (complete (some (word 0xdead)) (follow none answered fresh.link)))
        (received (suc (length (text answered))) fresh)),
)
readword-data_example =
    readword-data echoes 0xdead b'\n' (b'K' ∷ []) fresh
      (omega arith, (omega arith, (omega arith, tt))) (omega arith) (omega arith)
      (unfold hex_value in refl) refl

abbrev acks : List Item
acks = reply (address 0x2048) ∷ newline ∷ reply (ack 0) ∷ reply reset ∷ newline ∷ []

readidle-replies_example : readidle (unread (text acks) (paused (byte b'I' ∷ []) fresh)) ≡ (
  ok tt,
  on_input (byte b'I' ∷ []) (
      with_link
        (holding (pending none acks) (run_down none acks fresh.link))
        (received (length (text acks)) (record fresh { last_readidle = true }))),
)
readidle-replies_example =
    readidle-replies acks (byte b'I' ∷ []) fresh (omega arith, (omega arith, (omega arith, tt)))
      refl

abbrev first : Answer
first = record { before = reply interrupt ∷ newline ∷ []; value = 0x12345678 }

abbrev second : Answer
second = record { before = []; value = 7 }

-- Two words read from 0x2048, counting up.
readv-answers_example :
    let head = encode_address (address_word 0x2048 true) fresh.link in
    (g : Hexbus) × (readv 0x2048 true 2
        (unread (answer_text (echoed head (address_word 0x2048 true) first ∷ second ∷ [])) fresh)
      ≡ (ok (0x12345678 ∷ 7 ∷ []), g))
    × Leaves fresh.dev
        (head ++ requests 2)
        (record { lastaddr = word_address 0x2048 true 2; inc = true; addr_set = true })
        g
readv-answers_example =
    readv-answers 0x2048 true (omega arith) refl first (second ∷ []) fresh
      ((tt, omega arith, omega arith), ((tt, omega arith, omega arith), tt)) roomy refl

-- A target with words from 7 to 22, before the master has set an address.
abbrev pub sevens : Target
sevens = record { memory = λ a. a % 16 + 7; at = 0x40; counts = true }

pub sevens-Synced : Synced fresh.link sevens
sevens-Synced = record { aligned = refl; agrees = λ e. absurd (cc) }

readv-refines_example :
    let commands =
      transfer
        (encode_address (address_word 0x2048 true) fresh.link)
        (address_word 0x2048 true)
        2 in
    let (replies, u) = serve commands sevens in
    (g : Hexbus) × (readv 0x2048 true 2 (unread (text replies) fresh)
      ≡ (ok (contents sevens.memory 0x2048 true 0 2), g))
    × (g.dev.input ≡ fresh.dev.input)
    × (g.dev.output ≡ fresh.dev.output ++ spell_all commands)
    × (u.memory ≡ sevens.memory)
    × Synced g.link u
readv-refines_example =
    readv-refines 0x2048 true (omega arith) refl 1 sevens fresh (λ x. omega arith) sevens-Synced
      roomy refl

writev-refines_example :
    let head = encode_address (address_word 0x2048 true) fresh.link in
    let rounds = messages head (address_word 0x2048 true) 5 (0 ∷ []) in
    let (events, u) = played rounds sevens (quiet ∷ []) in
    (g : Hexbus) × (writev 0x2048 true (5 ∷ 0 ∷ []) (on_input events fresh) ≡ (ok tt, g))
    × (g.dev.input ≡ quiet ∷ [])
    × (g.dev.output ≡ fresh.dev.output ++ spell_rounds rounds)
    × (u.memory ≡ stored sevens.memory 0x2048 true 0 (5 ∷ 0 ∷ []))
    × (u.at ≡ word_address 0x2048 true 2)
    × (g.link.lastaddr ≡ word_address 0x2048 true 4)
writev-refines_example =
    writev-refines 0x2048 true (omega arith) refl 5 (0 ∷ []) (quiet ∷ []) sevens fresh (omega arith)
      sevens-Synced roomy refl

-- Two words written to 0x2048, counting up.
writev-acks_example :
    let head = encode_address (address_word 0x2048 true) fresh.link in
    (g : Hexbus) × (writev 0x2048 true (5 ∷ 0 ∷ []) (
        on_input
          (ack_input
            ((echo head (address_word 0x2048 true) ++ newline ∷ []) ∷ (reply interrupt ∷ []) ∷ [])
            (quiet ∷ []))
          fresh)
      ≡ (ok tt, g))
    × Leaves
        (record fresh.dev { input = quiet ∷ [] })
        (head ++ commands (5 ∷ 0 ∷ []))
        (record { lastaddr = word_address 0x2048 true 4; inc = true; addr_set = true })
        g
writev-acks_example =
    writev-acks 0x2048 true (omega arith) refl 5 (0 ∷ []) (newline ∷ [])
      ((reply interrupt ∷ []) ∷ []) (quiet ∷ []) fresh tt (tt, tt) refl roomy refl (omega arith)

command-fits_buffer_example :
    length (encode_address 0x2048 fresh.link ++ write_command 0xffffffff) + 1
    ≤ (init 0 false true fresh.dev).buflen
command-fits_buffer_example =
    command-fits_buffer 0x2048 0xffffffff 0 false true fresh.dev fresh.link

abbrev replies : List ℕ
replies = b'I' ∷ 0x7f ∷ b'K' ∷ 0xff ∷ []

squeeze-idle_example : Squeezed 0 replies (squeeze 4 0 0 0 replies)
squeeze-idle_example = squeeze-idle replies

read_hex-hex_08_example : read_hex 0 (hex_08 0xbeef) ≡ 0xbeef
read_hex-hex_08_example = read_hex-hex_08 0xbeef (omega arith)
