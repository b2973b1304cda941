-- ===== src/Hexbus/Transfer/Reads/Faults.antt =====
-- HEXBUS::readv and readio when the target answers a request with a bus error.
use mathlib.Core.List.{append_assoc}
use dbgbus.Base.{
  ℕ, zero, suc, none, ◌+◌, ◌≤◌, ◌<◌, ◌≡◌, refl, ◌∙◌, Bool, true, false, List, [], ◌∷◌, ◌++◌, arith,
  length, All, length-append,
}
use native.Mathlib.Nat.{zero-add, suc-add}
use dbgbus.Comms.{Comms}
use dbgbus.Comms.Laws.{IsRoomy, sent, write-sent}
use dbgbus.Outcome.{bus_error}
use dbgbus.Text.Hex.{hex_value}
use dbgbus.Hexbus.Link.{hexb_err}
use dbgbus.Hexbus.State.{Hexbus}
use dbgbus.Hexbus.Receive.Replies.{
  Item, text, settled, unread, with_link, received, received-dev, IsBackground, idles,
}
use dbgbus.Hexbus.Receive.Words.Errors.{readword-error, failing, failed}
use dbgbus.Hexbus.Transfer.{readv_word, readv_loop, readv, readio, encode_address, word_address}
use dbgbus.Hexbus.Transfer.Address.{address_word}
use dbgbus.Hexbus.Transfer.Read.{
  Answer, items, IsAnswer, requests, read_command, readv_word-answer, answered, answered-Leaves,
}
use dbgbus.Hexbus.Transfer.Reads.{length-encode_address-le}

-- Some answers, and then other replies, the error, and a line end.
abbrev pub faulty_text : List Answer → List Item → List ℕ
faulty_text [] is = text is ++ hexb_err ∷ b'\n' ∷ []
faulty_text (w ∷ ws) is = text (items w) ++ b'\n' ∷ faulty_text ws is

-- What a call that has failed leaves behind: it has taken exactly the bytes put before the input of
-- `c`, sent the message, and the error flag is set.
pub record Fails (c : Comms) (message : List ℕ) (g : Hexbus) : Type 0 where
  pub input : g.dev.input ≡ c.input
  pub output : g.dev.output ≡ c.output ++ message
  pub flag : g.bus_err ≡ true

abbrev failed_word : List ℕ → List Item → Hexbus → Hexbus
failed_word message is h =
    with_link (failed b'\n' (failing (settled none is h.link)))
      (received (suc (suc (length (text is)))) (record h { dev = sent message h.dev }))

failed_word-Fails :
    (message : List ℕ) (is : List Item) (h : Hexbus)
    → Fails h.dev message (failed_word message is h)
failed_word-Fails message is h =
    let k = received-dev (suc (suc (length (text is)))) (record h { dev = sent message h.dev }) in
    record { input = k.0; output = k.1; flag = refl }

-- One request, and the error.
readv_word-fault :
    (a : ℕ) (inc : Bool) (nread : ℕ) (head : List ℕ) (is : List Item) (h : Hexbus)
    → IsBackground is
    → idles is < 3
    → IsRoomy h.dev
    → h.isspace_seen ≡ true
    → length head ≤ 30
    → readv_word a inc nread head (unread (faulty_text [] is) h)
      ≡ (bus_error (word_address a inc nread), failed_word (head ++ read_command) is h)
unfolding readv_word
readv_word-fault a inc nread head is h b i roomy s short =
    let message = head ++ read_command in
    let size = length-append head read_command in
    let h' : Hexbus = record h { dev = sent message h.dev } in
    rw
      (write-sent message (unread (faulty_text [] is) h).dev roomy (omega (arith, size))
        (omega (arith, size)))
      (rw (readword-error is b'\n' [] h' b i (unfold hex_value in refl) s))

-- Requests from the word `nread` on, of which one too many is answered.
readv_loop-fault :
    (a : ℕ) (inc : Bool) (nread m : ℕ) (head : List ℕ) (ws : List Answer) (is : List Item)
    (h : Hexbus)
    → All IsAnswer ws
    → IsBackground is
    → idles is < 3
    → IsRoomy h.dev
    → h.isspace_seen ≡ true
    → length head ≤ 30
    → (g : Hexbus) × (readv_loop a inc (length ws + suc m) nread head (unread (faulty_text ws is) h)
        ≡ (bus_error (word_address a inc (nread + length ws)), g))
      × Fails h.dev (head ++ requests (suc (length ws))) g
unfolding readv_loop
readv_loop-fault a inc nread m head [] is h all b i roomy s short = (
  failed_word (head ++ read_command) is h,
  let same : nread + 0 ≡ nread = omega arith in
      rw (same, zero-add, readv_loop, readv_word-fault a inc nread head is h b i roomy s short),
  failed_word-Fails (head ++ read_command) is h,
)
readv_loop-fault a inc nread m head (w ∷ ws) is h (one, all) b i roomy s short =
    let h' = answered (head ++ read_command) w h in
    let l = answered-Leaves (head ++ read_command) w h in
    let next : nread + 1 + length ws ≡ nread + suc (length ws) = omega arith in
    let (g, e, f) =
      readv_loop-fault a inc (nread + 1) m [] ws is h' all b i (rw l.room roomy) l.between_lines
        (omega arith) in
    (
      g,
      rw (
        suc-add,
        readv_loop,
        readv_word-answer a inc nread head w (faulty_text ws is) h one roomy s short,
        e,
        next,
      ),
      record {
        input = f.input ∙ l.input;
        output = f.output ∙ rw (l.output, append_assoc h.dev.output, append_assoc head);
        flag = f.flag;
      },
    )

readv_throws :
    (a : ℕ) (inc : Bool) (n b : ℕ) (h g : Hexbus)
    → 0 < n
    → readv_loop a inc n 0
        (encode_address (address_word a inc) h.link)
        (record h { link = record h.link { lastaddr = a; addr_set = true; inc = inc } })
      ≡ (bus_error b, g)
    → readv a inc n h ≡ (bus_error b, g)
unfolding readv
readv_throws a inc zero b h g p e = absurd (omega arith)
readv_throws a inc (suc n) b h g p e = rw (readv, e)

pub readv-fault :
    (a : ℕ) (inc : Bool) (m : ℕ) (ws : List Answer) (is : List Item) (h : Hexbus)
    → All IsAnswer ws
    → IsBackground is
    → idles is < 3
    → IsRoomy h.dev
    → h.isspace_seen ≡ true
    → (g : Hexbus) × (readv a inc (length ws + suc m) (unread (faulty_text ws is) h)
        ≡ (bus_error (word_address a inc (length ws)), g))
      × Fails h.dev (encode_address (address_word a inc) h.link ++ requests (suc (length ws))) g
readv-fault a inc m ws is h all b i roomy s =
    let head = encode_address (address_word a inc) h.link in
    let aimed : Hexbus = record h {
      link = record h.link { lastaddr = a; addr_set = true; inc = inc };
    } in
    let short : length head ≤ 30 =
      omega (arith, length-encode_address-le (address_word a inc) h.link) in
    let (g, e, f) = readv_loop-fault a inc 0 m head ws is aimed all b i roomy s short in
    (g, readv_throws a inc (length ws + suc m) _ _ g (omega arith) (rw zero-add at e), f)

-- readio where the target answers with a bus error, after any replies but data and at most two idle
-- marks: it throws BUSERR of the address asked for, with the error flag set, has sent the address and
-- one request, and has taken all of the replies and nothing after them.
pub readio-fault :
    (a : ℕ) (is : List Item) (h : Hexbus)
    → IsBackground is
    → idles is < 3
    → IsRoomy h.dev
    → h.isspace_seen ≡ true
    → (g : Hexbus) × (readio a (unread (faulty_text [] is) h) ≡ (bus_error a, g))
      × Fails h.dev (encode_address (address_word a false) h.link ++ requests 1) g
unfolding readio
readio-fault a is h b i roomy s =
    let (g, e, f) = readv-fault a false 0 [] is h tt b i roomy s in (g, rw e, f)
