-- ===== src/Hexbus/Transfer/Stalling.antt =====
-- Which acknowledgements HEXBUS::writev counts: when it returns, and when it waits for good.
pub mod Counting
use dbgbus.Base.{
  ℕ, zero, suc, ◌+◌, ◌-◌, ◌*◌, ◌^◌, ◌≤◌, ◌<◌, ◌≡◌, ◌⊎◌, ◌∙◌, refl, Bool, true, false, ◌&&◌, not,
  inl, inr, Bool-cases, Option-cases, none, some, List, [], ◌∷◌, ◌++◌, ◌==◌, arith, length, ltb,
  ltb→lt, ltb→le, bit_or, u32, if◌then◌else◌,
}
use dbgbus.Text.Ctype.{isspace}
use dbgbus.Text.Hex.{hex_value}
use dbgbus.Comms
use dbgbus.Comms.{Event, byte, quiet, closed, gone}
use dbgbus.Outcome.{Outcome, ok, bus_error, thrown, aborted, waiting, Run, bound}
use dbgbus.Outcome.Ends.{Ends}
use dbgbus.Hexbus.Link.{Link, readidle_char, readidle_command, start_command, hexb_ack}
use dbgbus.Hexbus.State.{Hexbus, on_link, on_dev, lclreadcode}
use dbgbus.Hexbus.Receive.{enough, readidle, readidle_loop}
use dbgbus.Hexbus.Receive.Fuel.{readidle-Ends}
use dbgbus.Hexbus.Receive.Replies.{received, with_link}
use dbgbus.Hexbus.Receive.Round.{lclreadcode_one}
use dbgbus.Hexbus.Receive.Idle.{on_input}
use dbgbus.Hexbus.Transfer.{
  encode_address, wait_acks_loop, wait_acks, write_command, writev_loop, writev,
}
use dbgbus.Hexbus.Transfer.Stalling.Counting.{
  acks, begun, in_all, IsOver, left, left-le, Leaves, readidle-Leaves,
}

-- `n` acknowledgements are counted if a call returns, and fewer, with nothing more to come, if it
-- waits for good; none is lost, and none is counted twice.
abbrev pub Settles : ℕ → ℕ → Outcome (Unit {0}) × Hexbus → Type 0
Settles t n (ok u, g) = (n ≤ g.nacks) × (in_all g ≡ t)
Settles t n (waiting, g) = IsOver g.dev.input × (g.nacks < n) × (in_all g ≡ t)
Settles t n (_, g) = Unit {0}

-- The same, but that a call that returns need not have counted `n`.
abbrev Stalls : ℕ → ℕ → Outcome (Unit {0}) × Hexbus → Type 0
Stalls t n (ok u, g) = in_all g ≡ t
Stalls t n (waiting, g) = IsOver g.dev.input × (g.nacks < n) × (in_all g ≡ t)
Stalls t n (_, g) = Unit {0}

module _ (t : ℕ) (fits : t < 2 ^ 32) where
  bound-Stalls :
      (n : ℕ) (x : Outcome (Unit {0}) × Hexbus) (k : Unit {0} → Run Hexbus (Unit {0}))
      → Stalls t n x
      → ((s : Hexbus) → in_all s ≡ t → Stalls t n (k tt s))
      → Stalls t n (bound x k)
  bound-Stalls n (ok tt, s) k v w = w s v
  bound-Stalls n (bus_error e, s) k v w = tt
  bound-Stalls n (thrown, s) k v w = tt
  bound-Stalls n (aborted, s) k v w = tt
  bound-Stalls n (waiting, s) k v w = v

  bound-Settles :
      (n : ℕ) (x : Outcome (Unit {0}) × Hexbus) (k : Unit {0} → Run Hexbus (Unit {0}))
      → Stalls t n x
      → ((s : Hexbus) → in_all s ≡ t → Settles t n (k tt s))
      → Settles t n (bound x k)
  bound-Settles n (ok tt, s) k v w = w s v
  bound-Settles n (bus_error e, s) k v w = tt
  bound-Settles n (thrown, s) k v w = tt
  bound-Settles n (aborted, s) k v w = tt
  bound-Settles n (waiting, s) k v w = v

  Settles-Stalls :
      (m n : ℕ) (x : Outcome (Unit {0}) × Hexbus) → m ≤ n → Settles t m x → Stalls t n x
  Settles-Stalls m n (ok u, s) h (v, e) = e
  Settles-Stalls m n (bus_error e, s) h v = tt
  Settles-Stalls m n (thrown, s) h v = tt
  Settles-Stalls m n (aborted, s) h v = tt
  Settles-Stalls m n (waiting, s) h (o, v, e) = (o, omega arith, e)

  -- A last step that keeps what is counted.
  finish-Settles :
      (n : ℕ) (x : Outcome (Unit {0}) × Hexbus) (f : Hexbus → Hexbus)
      → ((g : Hexbus) → ((f g).nacks ≡ g.nacks) × (in_all (f g) ≡ in_all g))
      → Settles t n x
      → Settles t n (bound x (λ _ s. (ok tt, f s)))
  finish-Settles n (ok u, s) f e v = (omega (arith, (e s).0), (e s).1 ∙ v.1)
  finish-Settles n (bus_error b, s) f e v = tt
  finish-Settles n (thrown, s) f e v = tt
  finish-Settles n (aborted, s) f e v = tt
  finish-Settles n (waiting, s) f e v = v

  -- A round of the loop that waits for acknowledgements.
  round-Settles :
      (n : ℕ) (x : Outcome (Unit {0}) × Hexbus) (k : Run Hexbus (Unit {0})) (j : ℕ)
      → Ends x.0
      → Leaves j t x
      → ((s : Hexbus) → left s.dev.input ≤ j → in_all s ≡ t → Settles t n (k s))
      → Settles t n (bound x (λ _. k))
  round-Settles n (ok u, s) k j e (l, p) f = f s l p
  round-Settles n (bus_error b, s) k j e l f = tt
  round-Settles n (thrown, s) k j e l f = tt
  round-Settles n (aborted, s) k j e l f = tt
  round-Settles n (waiting, s) k j e l f = absurd e

  either-Settles :
      (n m : ℕ) (x y : Outcome (Unit {0}) × Hexbus)
      → (m < n → Settles t n x)
      → (n ≤ m → Settles t n y)
      → Settles t n (elim (ltb m n) as (λ _. Outcome (Unit {0}) × Hexbus) [ true ↦ x | false ↦ y ])
  either-Settles n m x y v w = elim (Bool-cases (ltb m n)) [
    | inl e ↦ rw e (v (ltb→lt m n e))
    | inr e ↦ rw e (w (ltb→le m n e))
  ]

  -- With nothing to come, it waits for good.
  wait_acks_loop-over :
      (f n : ℕ) (es : List Event) (h : Hexbus)
      → IsOver es
      → in_all (on_input es h) ≡ t
      → Settles t n (wait_acks_loop (suc f) n (on_input es h))
  unfolding wait_acks_loop readidle readidle_loop Comms.available
  wait_acks_loop-over zero n [] h o p =
      either-Settles n h.nacks _ (ok tt, on_input [] h) (λ e. (tt, e, p)) (λ e. (e, p))
  wait_acks_loop-over (suc f) n [] h o p =
      either-Settles n h.nacks _ (ok tt, on_input [] h)
        (λ _. wait_acks_loop-over f n [] (record h { last_readidle = true }) tt p) (λ e. (e, p))
  wait_acks_loop-over zero n (gone ∷ es) h o p =
      either-Settles n h.nacks _ (ok tt, on_input (gone ∷ es) h) (λ e. (tt, e, p)) (λ e. (e, p))
  wait_acks_loop-over (suc f) n (gone ∷ es) h o p =
      either-Settles n h.nacks _ (ok tt, on_input (gone ∷ es) h)
        (λ _. wait_acks_loop-over f n (gone ∷ es) (record h { last_readidle = true }) tt p)
        (λ e. (e, p))
  wait_acks_loop-over f n (byte c ∷ es) h o p = absurd o
  wait_acks_loop-over f n (quiet ∷ es) h o p = absurd o
  wait_acks_loop-over f n (closed ∷ es) h o p = absurd o

  IsOver-or_more : (es : List Event) → IsOver es ⊎ (0 < left es)
  IsOver-or_more [] = inl tt
  IsOver-or_more (gone ∷ es) = inl tt
  IsOver-or_more (byte c ∷ es) = inr (omega arith)
  IsOver-or_more (quiet ∷ es) = inr (omega arith)
  IsOver-or_more (closed ∷ es) = inr (omega arith)

  wait_acks_loop-Settles :
      (f n : ℕ) (h : Hexbus)
      → left h.dev.input < f
      → in_all h ≡ t
      → Settles t n (wait_acks_loop f n h)
  unfolding wait_acks_loop
  wait_acks_loop-Settles zero n h l p = absurd (omega arith)
  wait_acks_loop-Settles (suc f) n h l p = elim (IsOver-or_more h.dev.input) [
    | inl o ↦ wait_acks_loop-over f n h.dev.input h o p
    | inr more ↦
        either-Settles n h.nacks _ (ok tt, h)
          (λ _.
            round-Settles n (readidle h) (wait_acks_loop f n) (left h.dev.input - 1)
              (readidle-Ends h) (readidle-Leaves t fits h p)
              λ s q r. wait_acks_loop-Settles f n s (omega arith) r)
          (λ b. (b, p))
  ]

  wait_acks-Settles : (n : ℕ) (h : Hexbus) → in_all h ≡ t → Settles t n (wait_acks n h)
  unfolding wait_acks
  wait_acks-Settles n h p =
      wait_acks_loop-Settles (enough h) n h (omega (arith, left-le h.dev.input)) p

  write-Stalls :
      (n : ℕ) (buf : List ℕ) (h : Hexbus) → in_all h ≡ t → Stalls t n (on_dev (Comms.write buf) h)
  unfolding Comms.write
  write-Stalls n buf h p = ground arith

  writev_loop-Stalls :
      (n nw : ℕ) (head buf : List ℕ) (h : Hexbus)
      → nw + length buf ≤ n
      → in_all h ≡ t
      → Stalls t n (writev_loop nw head buf h)
  unfolding writev_loop
  writev_loop-Stalls n nw head [] h p e = e
  writev_loop-Stalls n nw head (v ∷ vs) h p e =
      let m = head ++ write_command v in
      bound-Stalls n (bound (on_dev (Comms.write m) h) (λ _. wait_acks nw))
        (λ _. writev_loop (nw + 1) [] vs)
        (bound-Stalls n (on_dev (Comms.write m) h) (λ _. wait_acks nw) (write-Stalls n m h e)
          λ s q. Settles-Stalls nw n (wait_acks nw s) (omega arith) (wait_acks-Settles nw s q))
        λ s q. writev_loop-Stalls n (nw + 1) [] vs s (omega arith) q

abbrev moved_on : Bool → List ℕ → Hexbus → Hexbus
moved_on p buf g = record g {
  link = if p then record g.link { lastaddr = u32 (g.lastaddr + length buf * 4) } else g.link;
}

moved_on-counted :
    (p : Bool) (buf : List ℕ) (g : Hexbus)
    → ((moved_on p buf g).nacks ≡ g.nacks) × (in_all (moved_on p buf g) ≡ in_all g)
moved_on-counted true buf g = (refl, refl)
moved_on-counted false buf g = (refl, refl)

-- Whatever is to arrive, with `t` the acknowledgements to come, up to the end and with the one that is
-- begun, and fewer than 2^32 of them: HEXBUS::writev returns only when it has counted an
-- acknowledgement for each word, and waits for good only when it has counted fewer and nothing more
-- is to come. Either way those that it has counted, with the one that is begun and those still to
-- come, are `t`: none is lost, and none counted that came before. Otherwise it throws or aborts.
pub writev-Settles :
    (a : ℕ) (p : Bool) (buf : List ℕ) (h : Hexbus)
    → begun h.link + acks h.dev.input < 2 ^ 32
    → Settles (begun h.link + acks h.dev.input) (length buf) (writev a p buf h)
unfolding writev
writev-Settles a p buf h fits =
    let t = begun h.link + acks h.dev.input in
    let head = encode_address (bit_or a (if p then 0 else 1)) h.link in
    let g : Hexbus = record h {
      link = record h.link { lastaddr = a; addr_set = true; nacks = 0 };
    } in
    bound-Settles t fits (length buf) (writev_loop 0 head buf g) _
      (writev_loop-Stalls t fits (length buf) 0 head buf g (omega arith) (omega arith))
      λ s e.
        finish-Settles t fits (length buf) (wait_acks (length buf) s) (moved_on p buf)
          (moved_on-counted p buf) (wait_acks-Settles t fits (length buf) s e)
