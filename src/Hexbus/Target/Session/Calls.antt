-- ===== src/Hexbus/Target/Session/Calls.antt =====
-- One call of DEVBUS on HEXBUS, against the target.
use dbgbus.Base.{
  ℕ, suc, ◌^◌, ◌<◌, ◌≡◌, ap, ◌∙◌, true, false, List, [], ◌∷◌, arith, length, ◌==◌, ==_iff,
}
use dbgbus.Comms.{Event}
use dbgbus.Comms.Laws.{IsRoomy}
use dbgbus.Outcome.{ok}
use dbgbus.Devbus.{hexbus}
use dbgbus.Hexbus.State.{Hexbus}
use dbgbus.Hexbus.Receive.Idle.{on_input}
use dbgbus.Hexbus.Transfer.{
  encode_address, word_address, readv, writev, readi, readz, readio, writeio, writez, writei,
}
use dbgbus.Hexbus.Transfer.Position.{position}
use dbgbus.Hexbus.Transfer.Read.{Leaves}
use dbgbus.Hexbus.Target.{Target, put, stored}
use dbgbus.Hexbus.Target.Standing.{Leaves-Synced, word_address-zero}
use dbgbus.Hexbus.Target.Reading.{readv-Leaves}
use dbgbus.Hexbus.Target.Writing.{writev-Leaves}
use dbgbus.Hexbus.Target.Session.Placing.{Placed, Synced-Placed, run-Placed}
use dbgbus.Hexbus.Target.Session.{
  Request, load_one, load, store_one, store_all, store_run, IsProper, Apart, call, answer, head,
  spoken, left_at, heard, after,
}

-- How one request goes.
pub record Goes (r : Request) (t : Target) (h : Hexbus) (es : List Event) : Type 0 where
  pub bus : Hexbus
  pub run :
      call hexbus r (on_input (heard r (position h.link) t es) h) ≡ (ok (answer r t.memory).0, bus)
  pub leaves : Leaves (record h.dev { input = es }) (spoken r (position h.link)) (left_at r) bus
  pub memory : (after r (position h.link) t).memory ≡ (answer r t.memory).1
  pub next :
      (s : Request) → IsProper s → Apart r s → Placed s bus.link (after r (position h.link) t)

call-load_one :
    (a v : ℕ) (h g : Hexbus)
    → readv a false 1 h ≡ (ok (v ∷ []), g)
    → g.lastaddr ≡ a
    → call hexbus (load_one a) h ≡ (ok (v ∷ []), g)
unfolding readio
call-load_one a v h g e d = rw (e, (==_iff g.lastaddr a).1 d)

-- What writeio sets behind writev.
abbrev kept_at : ℕ → Hexbus → Hexbus
kept_at a g = record g { link = record g.link { lastaddr = a; addr_set = true } }

call-store_one :
    (a v : ℕ) (h g : Hexbus)
    → writev a false (v ∷ []) h ≡ (ok tt, g)
    → call hexbus (store_one a v) h ≡ (ok [], kept_at a g)
unfolding writeio
call-store_one a v h g e = rw e

pub call-Goes :
    (r : Request) (t : Target) (h : Hexbus) (es : List Event)
    → IsProper r
    → ((x : ℕ) → t.memory x < 2 ^ 32)
    → Placed r h.link t
    → IsRoomy h.dev
    → h.isspace_seen ≡ true
    → Goes r t h es
unfolding head encode_address readi readz writez writei
call-Goes (load_one a) t h es (f, c) small place roomy between =
    let (there, g, run, left) =
      readv-Leaves a false f c 0 t (on_input es h) small place roomy between in
    let e : word_address a false 0 ≡ a = word_address-zero a false f in
    let at_a : (g.lastaddr == a) ≡ true =
      (==_iff g.lastaddr a).1 (ap (λ q. q.lastaddr) left.at ∙ e) in
    record {
      bus = g;
      run =
          call-load_one a (t.memory (word_address a false 0)) _ g run
            (ap (λ q. q.lastaddr) left.at ∙ e)
          ∙ ap (λ x. (ok (t.memory x ∷ []), g)) e;
      leaves = left;
      memory = ap (λ x. x.memory) there;
      next = λ s p _.
          Synced-Placed _ _ s p
            (Leaves-Synced a false f c 1 t.memory (record h.dev { input = es }) there left);
    }
call-Goes (load a true n) t h es (f, c) small place roomy between =
    let (there, g, run, left) =
      readv-Leaves a true f c n t (on_input es h) small place roomy between in
    record {
      bus = g;
      run = run;
      leaves = left;
      memory = ap (λ x. x.memory) there;
      next = λ s p _.
          Synced-Placed _ _ s p
            (Leaves-Synced a true f c (suc n) t.memory (record h.dev { input = es }) there left);
    }
call-Goes (load a false n) t h es (f, c) small place roomy between =
    let (there, g, run, left) =
      readv-Leaves a false f c n t (on_input es h) small place roomy between in
    record {
      bus = g;
      run = run;
      leaves = left;
      memory = ap (λ x. x.memory) there;
      next = λ s p _.
          Synced-Placed _ _ s p
            (Leaves-Synced a false f c (suc n) t.memory (record h.dev { input = es }) there left);
    }
call-Goes (store_one a v) t h es (f, c, b) small place roomy between =
    let there = (writev-Leaves a false f c v [] [] t h (omega arith) place roomy between).0 in
    let (same, g, run, left) =
      writev-Leaves a false f c v [] es t h (omega arith) place roomy between in
    let e : word_address a false 0 ≡ a = word_address-zero a false f in
    let left' : Leaves (record h.dev { input = es }) (spoken (store_one a v) (position h.link))
        (left_at (store_one a v)) (kept_at a g) =
      record {
        input = left.input;
        output = left.output;
        room = left.room;
        between_lines = left.between_lines;
        at = ap (λ i. record { lastaddr = a; inc = i; addr_set = true }) (ap (λ q. q.inc) left.at);
      } in
    record {
      bus = kept_at a g;
      run = call-store_one a v _ g run;
      leaves = left';
      memory = ap (λ x. x.memory) there ∙ ap (λ x. put t.memory x v) e;
      next = λ s p _. Synced-Placed _ _ s p (
          Leaves-Synced a false f c 1 (stored t.memory a false 0 (v ∷ []))
            (record h.dev { input = es }) {message = spoken (store_one a v) (position h.link)}
            {g = kept_at a g} there (rw e left'));
    }
call-Goes (store_all a v vs) t h es (f, c, b, bs, l) small place roomy between =
    let there = (writev-Leaves a false f c v vs [] t h l place roomy between).0 in
    let (same, g, run, left) = writev-Leaves a false f c v vs es t h l place roomy between in
    record {
      bus = g;
      run = rw run;
      leaves = left;
      memory = ap (λ x. x.memory) there;
      next = λ s p _. Synced-Placed _ _ s p (
          Leaves-Synced a false f c (length (v ∷ vs)) (stored t.memory a false 0 (v ∷ vs))
            (record h.dev { input = es }) there left);
    }
call-Goes (store_run a v vs) t h es (f, c, b, bs, l) small place roomy between =
    let there = (writev-Leaves a true f c v vs [] t h l place roomy between).0 in
    let (same, g, run, left) = writev-Leaves a true f c v vs es t h l place roomy between in
    record {
      bus = g;
      run = rw run;
      leaves = left;
      memory = ap (λ x. x.memory) there;
      next = λ s p apart. run-Placed a v vs g.link _ s left.at p apart;
    }
