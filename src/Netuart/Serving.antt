-- ===== src/Netuart/Serving.antt =====
-- The connections of netuart: each is closed once, and the line buffers hold in every state.
use dbgbus.Base.{
  ℕ, ◌≡◌, ◌⊎◌, inl, inr, refl, sym, length, ap, ◌∙◌, Bool, true, false, Bool-cases, ◌==◌, Option,
  none, some, List, [], ◌∷◌, ◌++◌, take, arith, if◌then◌else◌,
}
use dbgbus.Outcome.Keeps.{bound-keeps}
use dbgbus.Netuart.{
  Bridge, Ready, silent, got, ended, broken, strange, Written, wrote, busy, failed, to_tty_loop,
  drop, from_tty, from_net, log_bytes, no_nul, check_incoming,
}
use dbgbus.Netuart.Program.{
  Caller, Phase, accepting, emptying, serving, Program, Step, accept, empty, serve, leave, Reach,
  start, then_step, any_ready, note, connect, Program, begins,
}
use dbgbus.Netuart.Lines.{AreValid, check_incoming-AreValid}

-- The connection and the closed descriptors are as given.
abbrev Holds : Bool → List ℕ → Bridge → Type 0
Holds c fds b = (b.connected ≡ c) × (b.released ≡ fds)

-- The connection `fd` is open, or it was closed just now.
abbrev Served : ℕ → List ℕ → Bridge → Type 0
Served fd fds b = Holds true fds b ⊎ Holds false (fd ∷ fds) b

to_tty_loop-Holds :
    (ws : List Written) (bs : List ℕ) (c : Bool) (fds : List ℕ) (b : Bridge)
    → Holds c fds b
    → Holds c fds (to_tty_loop ws bs b).1
unfolding to_tty_loop
to_tty_loop-Holds ws [] c fds b h = h
to_tty_loop-Holds [] (x ∷ xs) c fds b h = h
to_tty_loop-Holds (busy ∷ ws) (x ∷ xs) c fds b h = to_tty_loop-Holds ws (x ∷ xs) c fds b h
to_tty_loop-Holds (failed ∷ ws) (x ∷ xs) c fds b h = h
to_tty_loop-Holds (wrote n ∷ ws) (x ∷ xs) c fds b h =
    let rest =
      to_tty_loop-Holds ws (drop n (x ∷ xs)) c fds
        (record b { to_tty = b.to_tty ++ take n (x ∷ xs) }) h in
    elim (Bool-cases (n == 0)) [ inl e ↦ rw (to_tty_loop, e) h | inr e ↦ rw (to_tty_loop, e) rest ]

log_bytes-Holds :
    (bs : List ℕ) (c : Bool) (fds : List ℕ) (b : Bridge)
    → Holds c fds b
    → Holds c fds (log_bytes bs b).1
log_bytes-Holds bs c fds b h = elim (Bool-cases (no_nul bs)) [ inl e ↦ rw e h | inr e ↦ rw e h ]

from_net-Served :
    (r : Ready) (ws : List Written) (fd : ℕ) (fds : List ℕ) (b : Bridge)
    → Holds true fds b
    → Served fd fds (from_net r ws (some fd) b).1
unfolding from_net
from_net-Served silent ws fd fds b h = inl h
from_net-Served (got bs) ws fd fds b h = inl (
    bound-keeps (Holds true fds) (to_tty_loop ws bs b) (λ _. log_bytes bs)
      (to_tty_loop-Holds ws bs true fds b h) (λ _ c. log_bytes-Holds bs true fds c))
from_net-Served ended ws fd fds b (c, r) = inr (refl, ap (◌∷◌ fd) r)
from_net-Served broken ws fd fds b h = inl h
from_net-Served strange ws fd fds b h = inl h

-- With a connection, a call of check_incoming keeps it or closes it once.
check_incoming-Served :
    (tty net : Ready) (sends : Bool) (ws : List Written) (fd : ℕ) (fds : List ℕ) (b : Bridge)
    → Holds true fds b
    → Served fd fds (check_incoming tty net sends ws (some fd) b).1
unfolding check_incoming from_tty
check_incoming-Served silent net sends ws fd fds b h = from_net-Served net ws fd fds b h
check_incoming-Served (got bs) net true ws fd fds b h = from_net-Served net ws fd fds _ h
check_incoming-Served (got bs) net false ws fd fds b (c, r) =
    inr (unfold from_net in (refl, ap (◌∷◌ fd) r))
check_incoming-Served ended net sends ws fd fds b h = inl h
check_incoming-Served broken net sends ws fd fds b h = inl h
check_incoming-Served strange net sends ws fd fds b h = inl h

-- Without one it changes nothing of it.
check_incoming-Holds :
    (tty : Ready) (c : Bool) (fds : List ℕ) (b : Bridge)
    → Holds c fds b
    → Holds c fds (check_incoming tty silent true [] none b).1
unfolding check_incoming from_tty from_net
check_incoming-Holds silent c fds b h = h
check_incoming-Holds (got bs) c fds b h = h
check_incoming-Holds ended c fds b h = h
check_incoming-Holds broken c fds b h = h
check_incoming-Holds strange c fds b h = h

-- Which connections are closed: all that were accepted, but for the one being served.
abbrev pub Tally : Phase → List ℕ → Bridge → Type 0
Tally accepting fds b = Holds false fds b
Tally (emptying none) fds b = Holds false fds b
Tally (emptying (some fd)) fds b = (rest : List ℕ) × (fds ≡ fd ∷ rest) × Holds true rest b
Tally (serving none) fds b = Holds false fds b
Tally (serving (some fd)) fds b = (rest : List ℕ) × (fds ≡ fd ∷ rest) × Served fd rest b

pub record IsSound (p : Program) : Type 0 where
  pub tally : Tally p.phase p.accepted p.bridge
  pub buffers : AreValid p.bridge

false-true : {A : Type 0} (b : Bool) → b ≡ false → b ≡ true → A
false-true true e f = absurd cc
false-true false e f = absurd cc

accept-Tally :
    (c : Caller) (con : Option ℕ) (fds : List ℕ) (b : Bridge)
    → Holds false fds b
    → Tally (emptying con) (note con fds) (connect con b)
accept-Tally c none fds b h = h
accept-Tally c (some fd) fds b (e, r) = (fds, refl, (refl, r))

emptied-Tally :
    (more : Bool) (con : Option ℕ) (fds : List ℕ) (b c : Bridge)
    → ((v : Bool) (gs : List ℕ) → Holds v gs b → Holds v gs c)
    → Tally (emptying con) fds b
    → Tally (if more then emptying con else serving con) fds c
emptied-Tally true none fds b c k h = k false fds h
emptied-Tally false none fds b c k h = k false fds h
emptied-Tally true (some fd) fds b c k (rest, e, h) = (rest, e, k true rest h)
emptied-Tally false (some fd) fds b c k (rest, e, h) = (rest, e, inl (k true rest h))

connect-AreValid : (con : Option ℕ) (b : Bridge) → AreValid b → AreValid (connect con b)
connect-AreValid none b v = v
connect-AreValid (some fd) b v = record { tty = v.tty; net = v.net }

-- A connection that is up is open, and one that is down was closed.
Served-up :
    (fd : ℕ) (fds : List ℕ) (b : Bridge) → b.connected ≡ true → Served fd fds b → Holds true fds b
Served-up fd fds b up (inl h) = h
Served-up fd fds b up (inr (e, r)) = false-true b.connected e up

Served-down :
    (fd : ℕ) (fds : List ℕ) (b : Bridge)
    → b.connected ≡ false
    → Served fd fds b
    → Holds false (fd ∷ fds) b
Served-down fd fds b down (inl (e, r)) = false-true b.connected down e
Served-down fd fds b down (inr h) = h

Step-IsSound : {p q : Program} → Step p q → IsSound p → IsSound q
Step-IsSound (accept c con fds b e) s = record {
  tally = accept-Tally c con fds b s.tally;
  buffers = connect-AreValid con b s.buffers;
}
Step-IsSound (empty tty con fds b c e) s = record {
  tally =
      emptied-Tally (any_ready tty silent none) con fds b c
        (λ v gs h. rw e at (check_incoming-Holds tty v gs b h)) s.tally;
  buffers = rw e at (check_incoming-AreValid tty silent true [] none b s.buffers);
}
Step-IsSound (serve tty net sends ws none fds b c up e) s = false-true b.connected s.tally.0 up
Step-IsSound (serve tty net sends ws (some fd) fds b c up e) s = record {
  tally =
      let (rest, same, h) = s.tally in
      (
        rest,
        same,
        rw e at (check_incoming-Served tty net sends ws fd rest b (Served-up fd rest b up h)),
      );
  buffers = rw e at (check_incoming-AreValid tty net sends ws (some fd) b s.buffers);
}
Step-IsSound (leave none fds b down) s = record { tally = s.tally; buffers = s.buffers }
Step-IsSound (leave (some fd) fds b down) s = record {
  tally =
      let (rest, same, h) = s.tally in
      let (_, r) = Served-down fd rest b down h in (down, r ∙ sym same);
  buffers = s.buffers;
}

-- In every state that main can reach, whatever comes from the serial port and the network and
-- however the writes end: each connection that was accepted has been closed once, in the order they
-- were accepted, but for one that is being served and is still open; and both line buffers have
-- their 512 bytes, with room for one more byte and the NUL behind it.
pub begins-IsSound :
    (iline oline : List ℕ) (p : Program)
    → length iline ≡ 512
    → length oline ≡ 512
    → Reach (begins iline oline) p
    → IsSound p
unfolding begins
begins-IsSound iline oline p i o start = record {
  tally = (refl, refl);
  buffers = record {
    tty = record { size = i; room = omega arith };
    net = record { size = o; room = omega arith };
  };
}
begins-IsSound iline oline p i o (then_step {q} r s) =
    Step-IsSound s (begins-IsSound iline oline q i o r)
