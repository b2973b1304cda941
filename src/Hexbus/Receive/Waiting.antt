-- ===== src/Hexbus/Receive/Waiting.antt =====
-- HEXBUS::wait ends once an interrupt comes.
use dbgbus.Base.{
  ℕ, zero, suc, ◌+◌, ◌≤◌, ◌<◌, ◌≡◌, ◌⊎◌, inl, inr, refl, ◌∙◌, true, Bool-cases, List, [], ◌∷◌,
  arith, length, u64,
}
use dbgbus.Comms
use dbgbus.Comms.{Event, byte, quiet, closed, gone, gather}
use dbgbus.Outcome.{ok}
use dbgbus.Hexbus.Link.{Link, hexb_int}
use dbgbus.Hexbus.State.{Hexbus}
use dbgbus.Hexbus.Receive.{note_byte, note_bytes, usleep, wait_loop, wait}
use dbgbus.Hexbus.Receive.Idle.{on_input}

-- An interrupt is to come, before the other end closes.
abbrev pub Interrupts : List Event → Type 0
Interrupts [] = ⊥
Interrupts (quiet ∷ es) = Interrupts es
Interrupts (closed ∷ es) = ⊥
Interrupts (gone ∷ es) = ⊥
Interrupts (byte c ∷ es) = (c ≡ hexb_int) ⊎ Interrupts es

abbrev Tells : List ℕ → Type 0
Tells [] = ⊥
Tells (c ∷ cs) = (c ≡ hexb_int) ⊎ Tells cs

-- It is among the bytes that a read takes, or behind them.
gather-Interrupts :
    (n : ℕ) (es : List Event) → Interrupts es → Tells (gather n es).0 ⊎ Interrupts (gather n es).1
gather-Interrupts zero es i = inr i
gather-Interrupts (suc n) [] i = absurd i
gather-Interrupts (suc n) (quiet ∷ es) i = inr i
gather-Interrupts (suc n) (closed ∷ es) i = absurd i
gather-Interrupts (suc n) (gone ∷ es) i = absurd i
gather-Interrupts (suc n) (byte c ∷ es) (inl e) = inl (inl e)
gather-Interrupts (suc n) (byte c ∷ es) (inr i) = elim (gather-Interrupts n es i) [
  | inl t ↦ inl (inr t)
  | inr j ↦ inr j
]

length-gather-le : (n : ℕ) (es : List Event) → length (gather n es).1 ≤ length es
length-gather-le zero es = omega arith
length-gather-le (suc n) [] = omega arith
length-gather-le (suc n) (quiet ∷ es) = omega arith
length-gather-le (suc n) (closed ∷ es) = omega arith
length-gather-le (suc n) (gone ∷ es) = omega arith
length-gather-le (suc n) (byte c ∷ es) = omega (arith, length-gather-le n es)

-- The flag stays set.
note_bytes-set :
    (cs : List ℕ) (l : Link) → l.interrupt_flag ≡ true → (note_bytes cs l).interrupt_flag ≡ true
unfolding note_bytes
note_bytes-set [] l e = e
note_bytes-set (c ∷ cs) l e = note_bytes-set cs (note_byte c l) (ground arith)

note_bytes-Tells : (cs : List ℕ) (l : Link) → Tells cs → (note_bytes cs l).interrupt_flag ≡ true
unfolding note_bytes
note_bytes-Tells [] l t = absurd t
note_bytes-Tells (c ∷ cs) l (inl e) = note_bytes-set cs (note_byte c l) (ground arith)
note_bytes-Tells (c ∷ cs) l (inr t) = note_bytes-Tells cs (note_byte c l) t

-- What usleep leaves where bytes are at hand.
abbrev noted : List Event → Hexbus → Hexbus
noted es h =
    let (cs, rest) = gather 16 es in
    record h {
      link = note_bytes cs h.link;
      total_nread = u64 (h.total_nread + length cs);
      dev = record h.dev { input = rest; total_nread = u64 (h.dev.total_nread + length cs) };
    }

usleep-quiet :
    (ms : ℕ) (es : List Event) (h : Hexbus)
    → h.dev.input ≡ quiet ∷ es
    → usleep ms h ≡ (ok tt, on_input es h)
unfolding usleep Comms.poll
usleep-quiet ms es h e = rw e

usleep-bytes :
    (ms c : ℕ) (es : List Event) (h : Hexbus)
    → h.dev.input ≡ byte c ∷ es
    → usleep ms h ≡ (ok tt, noted (byte c ∷ es) h)
unfolding usleep Comms.poll Comms.read
usleep-bytes ms c es h e = rw e

-- How the loop ends.
abbrev Wakes : ℕ → Hexbus → Type 0
Wakes fuel h =
    (g : Hexbus) × (wait_loop fuel h ≡ (ok tt, g))
    × (g.interrupt_flag ≡ true)
    × (g.dev.output ≡ h.dev.output)

-- A round, with what the rounds after it do.
wait_loop-Wakes :
    (fuel : ℕ) (h k : Hexbus)
    → usleep 200 h ≡ (ok tt, k)
    → k.dev.output ≡ h.dev.output
    → (k.interrupt_flag ≡ true) ⊎ Wakes fuel k
    → Wakes (suc fuel) h
unfolding wait_loop
wait_loop-Wakes fuel h k e same (inl f) = (k, rw e (simp f), f, same)
wait_loop-Wakes fuel h k e same (inr (g, run, f, left)) = elim (Bool-cases k.interrupt_flag) [
  | inl t ↦ (k, rw e (simp t), t, same)
  | inr t ↦ (g, rw e (simp t run), f, left ∙ same)
]

wait_loop_ends :
    (fuel : ℕ) (es : List Event) (h : Hexbus)
    → h.dev.input ≡ es
    → length es < fuel
    → Interrupts es
    → Wakes fuel h
wait_loop_ends zero es h e l i = absurd (omega arith)
wait_loop_ends (suc fuel) [] h e l i = absurd i
wait_loop_ends (suc fuel) (closed ∷ es) h e l i = absurd i
wait_loop_ends (suc fuel) (gone ∷ es) h e l i = absurd i
wait_loop_ends (suc fuel) (quiet ∷ es) h e l i =
    wait_loop-Wakes fuel h (on_input es h) (usleep-quiet 200 es h e) refl
      (inr (wait_loop_ends fuel es (on_input es h) refl (omega arith) i))
wait_loop_ends (suc fuel) (byte c ∷ es) h e l i =
    let k = noted (byte c ∷ es) h in
    wait_loop-Wakes fuel h k (usleep-bytes 200 c es h e) refl
      (elim (gather-Interrupts 16 (byte c ∷ es) i) [
        | inl t ↦ inl (note_bytes-Tells (gather 16 (byte c ∷ es)).0 h.link t)
        | inr j ↦ inr (
            wait_loop_ends fuel (gather 16 (byte c ∷ es)).1 k refl
              (omega (arith, length-gather-le 15 es)) j)
      ])

-- HEXBUS::wait returns, however many pauses and other bytes come before, if an interrupt is to
-- come before the other end closes: the interrupt flag is then set, and nothing has been sent.
pub wait-Interrupts :
    (h : Hexbus)
    → Interrupts h.dev.input
    → (g : Hexbus) × (wait h ≡ (ok tt, g))
      × (g.interrupt_flag ≡ true)
      × (g.dev.output ≡ h.dev.output)
unfolding wait
wait-Interrupts h i = wait_loop_ends (suc (length h.dev.input)) h.dev.input h refl (omega arith) i
