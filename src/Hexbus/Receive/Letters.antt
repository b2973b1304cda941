-- ===== src/Hexbus/Receive/Letters.antt =====
-- The characters of a reply.
use dbgbus.Base.{◌≡◌, refl, true, none, some, arith, All}
use dbgbus.Text.Hex.{hex_value, read_hex, IsHex, read_hex-hex_08, hex_08-IsHex}
use dbgbus.Hexbus.Link.{Link, start_command}
use dbgbus.Hexbus.Receive.Replies.{
  Reply, address, word, ack, interrupt, idle, reset, letter, payload, value, Fits, holding,
}

pub letter-hex_value : (r : Reply) → hex_value (letter r) ≡ none
unfolding hex_value
letter-hex_value (address a) = refl
letter-hex_value (word v) = refl
letter-hex_value (ack v) = refl
letter-hex_value interrupt = refl
letter-hex_value idle = refl
letter-hex_value reset = refl

pub start_command-letter : (r : Reply) (l : Link) → start_command (letter r) l ≡ holding (some r) l
start_command-letter (address a) l = refl
start_command-letter (word v) l = refl
start_command-letter (ack v) l = refl
start_command-letter interrupt l = refl
start_command-letter idle l = refl
start_command-letter reset l = refl

pub payload-IsHex : (r : Reply) → All IsHex (payload r)
payload-IsHex (address a) = hex_08-IsHex a
payload-IsHex (word v) = hex_08-IsHex v
payload-IsHex (ack v) = hex_08-IsHex v
payload-IsHex interrupt = tt
payload-IsHex idle = tt
payload-IsHex reset = tt

pub read_hex-payload : (r : Reply) → Fits r → read_hex 0 (payload r) ≡ value r
unfolding read_hex
read_hex-payload (address a) h = read_hex-hex_08 a h
read_hex-payload (word v) h = read_hex-hex_08 v h
read_hex-payload (ack v) h = read_hex-hex_08 v h
read_hex-payload interrupt h = refl
read_hex-payload idle h = refl
read_hex-payload reset h = refl

pub holding-none : (l : Link) → l.isspace_seen ≡ true → holding none l ≡ l
holding-none l e = ground arith
