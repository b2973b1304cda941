-- ===== src/Hexbus/Link.antt =====
-- The protocol registers of HEXBUS, and what one received character does to them: the bodies of
-- the loops of readword and readidle.
use dbgbus.Base.{
  ℕ, ◌+◌, ◌-◌, Bool, true, false, not, ◌&&◌, none, some, ◌==◌, if◌then◌else◌, u32, bit_and,
}
use dbgbus.Outcome.{ok, bus_error, Run, bound}
use dbgbus.Text.Ctype.{isspace}
use dbgbus.Text.Hex.{hex_value, shift_in}

abbrev pub hexb_addr : ℕ
hexb_addr = b'A'

abbrev pub hexb_read : ℕ
hexb_read = b'R'

abbrev pub hexb_idle : ℕ
hexb_idle = b'Z'

abbrev pub hexb_ack : ℕ
hexb_ack = b'K'

abbrev pub hexb_reset : ℕ
hexb_reset = b'T'

abbrev pub hexb_int : ℕ
hexb_int = b'I'

abbrev pub hexb_err : ℕ
hexb_err = b'E'

-- The members of HEXBUS that the protocol works on.
pub record Link : Type 0 where
  pub interrupt_flag : Bool
  pub addr_set : Bool
  pub bus_err : Bool
  pub lastaddr : ℕ
  pub nacks : ℕ
  pub inc : Bool
  pub isspace_seen : Bool
  pub cmd : ℕ

-- `if (m_inc) m_lastaddr += 4`.
abbrev pub advance : Link → Link
advance l = if l.inc then record l { lastaddr = u32 (l.lastaddr + 4) } else l

-- The end of an address word: `m_lastaddr = word & -4`, and the low bit says not to increment.
abbrev pub set_address : ℕ → Link → Link
set_address word l = record l {
  addr_set = true;
  inc = if bit_and word 1 == 1 then false else true;
  lastaddr = bit_and word 0xfffffffc;
}

-- A character other than a space starts a new command.
abbrev pub start_command : ℕ → Link → Link
start_command c l =
    if not (isspace c)
    then record l { cmd = c; isspace_seen = false }
    else record l { isspace_seen = true }

-- The locals of readword.
pub record Reading : Type 0 where
  pub word : ℕ
  pub abort_countdown : ℕ

pub data Progress : Type 0 where
  -- On to the next character.
  on : Reading → Progress
  -- `done`, with the result.
  result : ℕ → Progress

-- What the word read so far meant, when a character `c` that is no digit ends it, for the command
-- in progress; then the command that `c` starts.
unfoldable pub readword_other : ℕ → Reading → Run Link Progress
readword_other c r l =
    let next = on (record r { word = 0 }) in
    if l.isspace_seen
    then (ok next, start_command c l)
    else if l.cmd == hexb_read
    then (ok (result r.word), start_command c (advance l))
    else if l.cmd == hexb_ack
    then (ok next, start_command c (let a = advance l in record a { nacks = u32 (a.nacks + 1) }))
    else if l.cmd == hexb_int
    then (ok next, start_command c (record l { interrupt_flag = true }))
    else if l.cmd == hexb_err
    then (
      bus_error l.lastaddr,
      record l {
        bus_err = true;
        isspace_seen = isspace c;
        cmd = if not (isspace c) then c else l.cmd;
      },
    )
    else if l.cmd == hexb_idle
    then (let left = r.abort_countdown - 1 in
        if left == 0
        then (bus_error 0, l)
        else (ok (on (record { word = 0; abort_countdown = left })), start_command c l))
    else if l.cmd == hexb_addr
    then (ok next, start_command c (set_address r.word l))
    else if l.cmd == hexb_reset
    then (ok next, start_command c (record l { addr_set = false }))
    else (ok next, start_command c l)

-- One round of the loop of HEXBUS::readword, after the character is read.
unfoldable pub readword_char : ℕ → Reading → Run Link Progress
readword_char c r l = elim (hex_value c) [
  | some n ↦ (ok (on (record r { word = shift_in r.word n })), record l { isspace_seen = false })
  | none ↦ readword_other c r l
]

-- The same in HEXBUS::readidle: what the command in progress meant.
unfoldable pub readidle_command : ℕ → Run Link (Unit {0})
readidle_command word l =
    if l.isspace_seen
    then (ok tt, l)
    else if l.cmd == hexb_addr
    then (ok tt, set_address word l)
    else if l.cmd == hexb_read
    then (ok tt, advance l)
    else if l.cmd == hexb_int
    then (ok tt, record l { interrupt_flag = true })
    else if l.cmd == hexb_ack
    then (ok tt, let a = advance l in record a { nacks = u32 (a.nacks + 1) })
    else if l.cmd == hexb_err
    then (bus_error l.lastaddr, record l { bus_err = true })
    else if l.cmd == hexb_reset
    then (ok tt, record l { addr_set = false; bus_err = false })
    else (ok tt, l)

-- One round of the loop of HEXBUS::readidle, after the character is read; the value is the next
-- `word`.
unfoldable pub readidle_char : ℕ → ℕ → Run Link ℕ
unfolding readidle_command
readidle_char c word l = elim (hex_value c) [
  | some n ↦ (ok (shift_in word n), l)
  | none ↦
      (if isspace c && l.isspace_seen
        then (ok word, l)
        else bound (readidle_command word l) λ _ m. (ok 0, start_command c m))
]
