-- ===== src/Scope/Device/Wired.antt =====
-- SCOPE over HEXBUS: what rawread makes of the replies of the target.
use dbgbus.Base.{
  ℕ, suc, ◌+◌, ◌%◌, ◌^◌, ◌≤◌, ◌<◌, ◌≡◌, inl, inr, sym, ap, ◌∙◌, true, false, none, some, List, [],
  ◌∷◌, ◌++◌, arith, u32, length, ==_iff,
}
use dbgbus.Comms.Laws.{IsRoomy}
use dbgbus.Outcome.{ok}
use dbgbus.Text.Hex.{hex_08}
use dbgbus.Devbus.{hexbus}
use dbgbus.Hexbus.Link.{Link, hexb_addr}
use dbgbus.Hexbus.State.{Hexbus}
use dbgbus.Hexbus.Receive.Replies.{unread}
use dbgbus.Hexbus.Receive.Idle.{on_input}
use dbgbus.Hexbus.Transfer.{encode_address, readv, readio, readz}
use dbgbus.Hexbus.Transfer.Address.{address_word, address_word_lem}
use dbgbus.Hexbus.Transfer.Read.{Answer, answer_text, values, requests, AreCalm}
use dbgbus.Hexbus.Transfer.Reads.{readv-answers, echoed}
use dbgbus.Hexbus.Target.Standing.{encode_address-cases, word_address-zero}
use dbgbus.Scope.Device.{Scope, length_field, rawread}
use dbgbus.Scope.Device.Reads.{known, rawread-vector}

readio-readv :
    (a v : ℕ) (h g : Hexbus)
    → readv a false 1 h ≡ (ok (v ∷ []), g)
    → g.lastaddr ≡ a
    → readio a h ≡ (ok v, g)
unfolding readio
readio-readv a v h g e d = rw (e, (==_iff g.lastaddr a).1 d)

-- Behind a read of the control register HEXBUS sends the address of the data register.
sends_data_address :
    (a : ℕ) (l : Link)
    → a % 4 ≡ 0
    → l.lastaddr ≡ a
    → encode_address (address_word (a + 4) false) l
      ≡ hexb_addr ∷ hex_08 (address_word (a + 4) false)
sends_data_address a l m e = elim (encode_address-cases (address_word (a + 4) false) l) [
  | inl (_, _, la) ↦ absurd (omega (arith, address_word_lem (a + 4) false (omega arith)))
  | inr f ↦ f
]

-- SCOPE::rawread over HEXBUS of a scope that is read for the first time, by vectors: the target
-- answers the read of the control register at an aligned address, and then one read of the data
-- register behind it for each word of the length that the control word gives, of 8 up to 2^30,
-- each answer with only interrupts, line ends and at most two idle marks before its word of 32
-- bits, and the first to each address with an echo of it where it is sent; the link takes every
-- short message whole, and the last reply is ended. The scope keeps the length, the holdoff and
-- the words, and HEXBUS has sent the two addresses, the first only if it was not set, and one
-- request for each word, and has taken all of the replies and nothing after them.
pub rawread-hexbus :
    (memory : ℕ → List ℕ) (c w : Answer) (ws : List Answer) (s : Scope) (h : Hexbus)
    → s.samples ≡ none
    → s.scoplen ≡ 0
    → s.vector_read ≡ true
    → s.addr % 4 ≡ 0
    → s.addr + 4 < 2 ^ 32
    → 3 ≤ length_field c.value
    → length_field c.value ≤ 30
    → suc (length ws) ≡ 2 ^ length_field c.value
    → AreCalm (c ∷ w ∷ ws)
    → IsRoomy h.dev
    → h.isspace_seen ≡ true
    → let control = address_word s.addr false in
      let data_word = address_word (s.addr + 4) false in
      let head = encode_address control h.link in
      let next = hexb_addr ∷ hex_08 data_word in
      (g : Hexbus) × (rawread hexbus memory (record {
        scope = s;
        bus =
            unread
              (answer_text (echoed head control c ∷ []))
              (unread (answer_text (echoed next data_word w ∷ ws)) h);
      })
        ≡ (
          ok tt,
          record { scope = record (known c.value s) { samples = some (values (w ∷ ws)) }; bus = g },
        ))
      × (g.dev.input ≡ h.dev.input)
      × (g.dev.output
          ≡ h.dev.output ++ (head ++ requests 1) ++ (next ++ requests (suc (length ws))))
unfolding readz
rawread-hexbus memory c w ws s h new unknown vector aligned below low high size (calm, calms) roomy
      between =
    let a = s.addr in
    let rest = answer_text (
      echoed (hexb_addr ∷ hex_08 (address_word (a + 4) false)) (address_word (a + 4) false) w
      ∷ ws) in
    let (m, run, left) =
      readv-answers a false (omega arith) aligned c [] (unread rest h) (calm, tt) roomy between in
    let at = ap (λ q. q.lastaddr) left.at ∙ word_address-zero a false (omega arith) in
    let head' = sends_data_address a m.link aligned at in
    let (g, run', left') =
      readv-answers (a + 4) false below (omega arith) w ws (on_input h.dev.input m) calms
        (rw left.room roomy) left.between_lines in
    let control_read = readio-readv a c.value _ m run at in
    let whole : u32 (a + 4) ≡ a + 4 = omega arith in
    let data_read =
      ap (λ n. readv (u32 (a + 4)) false n m) (sym size)
      ∙ ap (λ x. readv x false (suc (length ws)) m) whole
      ∙ ap (λ fs. readv (a + 4) false (suc (length ws)) (on_input fs m)) left.input
      ∙ (rw head' at run') in
    (
      g,
      rawread-vector hexbus memory c.value (values (w ∷ ws)) _ m g new unknown vector low high
          control_read data_read,
      left'.input,
      left'.output
          ∙ ap
              (λ o.
                o
                ++ (encode_address (address_word (a + 4) false) m.link
                    ++ requests (suc (length ws))))
              left.output
          ∙ ap
              (λ hd.
                h.dev.output
                ++ (encode_address (address_word a false) h.link ++ requests 1)
                ++ (hd ++ requests (suc (length ws))))
              head',
    )
