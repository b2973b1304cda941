-- ===== src/Hexbus/Transfer/Writes.antt =====
-- HEXBUS::writev writes the words in order; but it counts its address register up twice.
pub mod Faults
use mathlib.Core.List.{append_assoc}
use dbgbus.Base.{
  ℕ, ◌+◌, ◌*◌, ◌%◌, ◌^◌, ◌<◌, ◌≡◌, refl, ap, ◌∙◌, Bool, true, false, none, some, List, [], ◌∷◌,
  ◌++◌, arith, u32, length, bit_and_low, if◌then◌else◌, bit_xor, bit_and,
}
use dbgbus.Comms.{Event}
use dbgbus.Comms.Laws.{IsRoomy}
use dbgbus.Outcome.{Outcome, Run, ok, bus_error, thrown, aborted, waiting, bound, ◌>>◌}
use dbgbus.Hexbus.Link.{Link}
use dbgbus.Hexbus.State.{Hexbus, set_link}
use dbgbus.Hexbus.Receive.Replies.{Item, address, settled}
use dbgbus.Hexbus.Receive.Idle.{on_input}
use dbgbus.Hexbus.Receive.Idle.Mild.{AreMild}
use dbgbus.Hexbus.Transfer.{
  wait_acks, write_command, writev_loop, writev, writei, encode_address, word_address, bit_of,
}
use dbgbus.Hexbus.Transfer.Address.{address_word, address_word_lem, position-echo}
use dbgbus.Hexbus.Transfer.Position.{Position, position, IsCalm, settled-calm}
use dbgbus.Hexbus.Transfer.Read.{Leaves, steps}
use dbgbus.Hexbus.Transfer.Reads.{echo, steps_lem, length-encode_address-le, address_word-lt}
use dbgbus.Hexbus.Transfer.Acks.{acked, ack_input, calm-AreMild, nacks-settled, wait_acks-enough}
use dbgbus.Hexbus.Transfer.Write.{AllCalm, commands, writing, writev_loop-cons, writev_loop-acks}

bound_assoc {ℓ κ} :
    {S : Type ℓ} {A B C : Type κ} (x : Outcome A × S) (k : Run S B) (r : Run S C)
    → bound x (λ _. k >> r) ≡ bound (bound x (λ _. k)) (λ _. r)
bound_assoc (ok a, s) k r = refl
bound_assoc (bus_error e, s) k r = refl
bound_assoc (thrown, s) k r = refl
bound_assoc (aborted, s) k r = refl
bound_assoc (waiting, s) k r = refl

-- Bit 0 of an address word, the other way round.
increment_bit : (a : ℕ) (p : Bool) → a % 4 ≡ 0 → bit_xor (bit_and (address_word a p) 1) 1 ≡ bit_of p
increment_bit a true h =
    let e : bit_and (address_word a true) 1 ≡ 0 =
      omega (arith, bit_and_low 1 (address_word a true), address_word_lem a true h) in
    rw e
increment_bit a false h =
    let e : bit_and (address_word a false) 1 ≡ 1 =
      omega (arith, bit_and_low 1 (address_word a false), address_word_lem a false h) in
    rw e

-- Where no address is sent, the increment is already as asked for.
pub unsent_inc :
    (a : ℕ) (p : Bool) (l : Link) → a % 4 ≡ 0 → encode_address (address_word a p) l ≡ [] → l.inc ≡ p
unfolding encode_address
unsent_inc a true l h e = ground (arith, increment_bit a true h)
unsent_inc a false l h e = ground (arith, increment_bit a false h)

-- An address that the registers hold is not sent.
pub encode_address-known :
    (a : ℕ) (l : Link)
    → a % 4 ≡ 0
    → position l ≡ record { lastaddr = a; inc = true; addr_set = true }
    → encode_address (address_word a true) l ≡ []
unfolding encode_address
encode_address-known a l h e = ground (arith, increment_bit a true h, address_word_lem a true h)

module _ (a : ℕ) (p : Bool) (fits : a < 2 ^ 32) (aligned : a % 4 ≡ 0) where
  abbrev here : Position
  here = record { lastaddr = a; inc = p; addr_set = true }

  position-first :
      (head : List ℕ) (b : List Item) (l : Link)
      → IsCalm b
      → (head ≡ [] → l.inc ≡ p)
      → position (
          settled none
            (echo head (address_word a p) ++ b)
            (record l { lastaddr = a; addr_set = true }))
        ≡ here
  position-first [] b l c e =
      settled-calm none b (record l { lastaddr = a; addr_set = true }) c
      ∙ (let i = e refl in ground arith)
  position-first (x ∷ xs) b l c e =
      settled-calm (some (address (address_word a p))) b
        (record l { lastaddr = a; addr_set = true }) c
      ∙ (let q = position-echo a p (record l { lastaddr = a; addr_set = true }) fits aligned in
          ground (arith, q))

  first-AreMild :
      (head : List ℕ) (b : List Item)
      → IsCalm b
      → AreMild none (acked (echo head (address_word a p) ++ b))
  first-AreMild [] b c = calm-AreMild none b tt c
  first-AreMild (x ∷ xs) b c = (
    tt,
    address_word-lt a p fits aligned,
    calm-AreMild (some (address (address_word a p))) b tt c,
  )

  nacks-first :
      (head : List ℕ) (b : List Item) (l : Link)
      → IsCalm b
      → (settled none (echo head (address_word a p) ++ b) l).nacks ≡ l.nacks
  nacks-first [] b l c = nacks-settled none b l c
  nacks-first (x ∷ xs) b l c = nacks-settled (some (address (address_word a p))) b l c

  abbrev writev_start : Hexbus → Hexbus
  writev_start h = record h { link = record h.link { lastaddr = a; addr_set = true; nacks = 0 } }

  -- The last statement of writev.
  abbrev count_on : ℕ → Link → Link
  count_on n l = if p then record l { lastaddr = u32 (l.lastaddr + n * 4) } else l

  writev_parts :
      (buf : List ℕ) (h g : Hexbus)
      → (writev_loop 0 (encode_address (address_word a p) h.link) buf >> wait_acks (length buf))
          (writev_start h)
        ≡ (ok tt, g)
      → writev a p buf h ≡ (ok tt, record g { link = count_on (length buf) g.link })
  unfolding writev
  writev_parts buf h g e =
      bound_assoc (writev_loop 0 (encode_address (address_word a p) h.link) buf (writev_start h))
        (wait_acks (length buf)) (set_link (count_on (length buf)))
      ∙ ap (λ x. bound x (λ _. set_link (count_on (length buf)))) e

  count_on-position :
      (n : ℕ) (l : Link)
      → position l ≡ record { lastaddr = word_address a p n; inc = p; addr_set = true }
      → position (count_on n l)
        ≡ record { lastaddr = word_address a p (n + n); inc = p; addr_set = true }
  count_on-position n l e = ground arith

  count_on-isspace_seen : (n : ℕ) (l : Link) → (count_on n l).isspace_seen ≡ l.isspace_seen
  count_on-isspace_seen n l = ground arith

  -- writev of one word or more, fewer than 2^32, on a link that takes every short message whole and
  -- with the last reply ended, against a target that echoes the address it is sent, if it is sent
  -- one, and acknowledges each word, with only interrupts, idle marks and line ends ahead of each
  -- acknowledgement; the replies to each word are at hand whole, and a line end and a pause follow
  -- each acknowledgement. It returns, has sent the address and one command for each word in order, and has
  -- taken all the replies. Its address register has moved on by twice the length of the buffer,
  -- where it increments: once for each acknowledgement, and once more at the end.
  pub writev-acks :
      (v : ℕ) (vs : List ℕ) (b : List Item) (bs : List (List Item)) (es : List Event) (h : Hexbus)
      → IsCalm b
      → AllCalm bs
      → length bs ≡ length vs
      → IsRoomy h.dev
      → h.isspace_seen ≡ true
      → length (v ∷ vs) < 2 ^ 32
      → let head = encode_address (address_word a p) h.link in
        let n = length (v ∷ vs) in
        (g : Hexbus) × (writev a p
            (v ∷ vs)
            (on_input (ack_input ((echo head (address_word a p) ++ b) ∷ bs) es) h)
          ≡ (ok tt, g))
        × Leaves
            (record h.dev { input = es })
            (head ++ commands (v ∷ vs))
            (record { lastaddr = word_address a p (n + n); inc = p; addr_set = true })
            g
  writev-acks v vs b bs es h c cs e roomy s fit =
      let head = encode_address (address_word a p) h.link in
      let first = echo head (address_word a p) ++ b in
      let n = length (v ∷ vs) in
      let h' = writing (head ++ write_command v) (writev_start h) in
      let input = ack_input (first ∷ bs) es in
      let (g, run, left) =
        writev_loop-acks 1 vs first bs es h' e (first-AreMild head b c)
          (nacks-first head b h'.link c) cs roomy s refl (omega arith) in
      let cons =
        writev_loop-cons 0 v n vs head input (writev_start h) (on_input input h') roomy
          (length-encode_address-le (address_word a p) h.link)
          (wait_acks-enough 0 (on_input input h') (omega arith)) in
      let there = position-first head b h'.link c (unsent_inc a p h.link aligned) in
      let one : 1 + length vs ≡ n = omega arith in
      let at = left.at ∙ ap (steps n) there ∙ steps_lem n a p true fits in
      (
        record g { link = count_on n g.link },
        writev_parts (v ∷ vs) (on_input input h) g (cons ∙ rw one at run),
        record {
          input = left.input;
          output =
              left.output
              ∙ rw (
                append_assoc h.dev.output (head ++ write_command v) (commands vs),
                append_assoc head (write_command v) (commands vs),
              );
          room = left.room;
          between_lines = count_on-isspace_seen n g.link ∙ left.between_lines;
          at = count_on-position n g.link at;
        },
      )

-- After writei of some words the master takes the target to stand twice as far on as it does: a
-- transfer that begins there sends no address.
writei-skips_address :
    (a v : ℕ) (vs : List ℕ) (b : List Item) (bs : List (List Item)) (es : List Event) (h : Hexbus)
    → a < 2 ^ 32
    → a % 4 ≡ 0
    → IsCalm b
    → AllCalm bs
    → length bs ≡ length vs
    → IsRoomy h.dev
    → h.isspace_seen ≡ true
    → length (v ∷ vs) < 2 ^ 32
    → let head = encode_address (address_word a true) h.link in
      let n = length (v ∷ vs) in
      (g : Hexbus) × (writei a
          (v ∷ vs)
          (on_input (ack_input ((echo head (address_word a true) ++ b) ∷ bs) es) h)
        ≡ (ok tt, g))
      × (encode_address (address_word (word_address a true (n + n)) true) g.link ≡ [])
unfolding writei
writei-skips_address a v vs b bs es h fits aligned c cs e roomy s fit =
    let (g, run, left) = writev-acks a true fits aligned v vs b bs es h c cs e roomy s fit in
    let n = length (v ∷ vs) in
    (g, run, encode_address-known (word_address a true (n + n)) g.link (omega arith) left.at)
