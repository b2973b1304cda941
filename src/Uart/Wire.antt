-- ===== src/Uart/Wire.antt =====
-- Two UARTSIMs on one wire: what the sender puts out in a clock is what the receiver sees in it.
pub mod Ticks
use native.Mathlib.Nat.{zero-add, suc-add}
use dbgbus.Base.{
  ℕ, zero, suc, ◌+◌, ◌-◌, ◌≡◌, refl, ap, ◌∙◌, Bool, true, false, some, none, List, [], ◌∷◌, arith,
  if◌then◌else◌,
}
use dbgbus.Uart.{
  Uart, Incoming, nothing, char, eof, failure, opened, check_for_new_connections, note_edge,
  deliver, rx_begin, rx_sample, rx_tick, tx_start, tx_tick, rawtick, tick,
}
use dbgbus.Uart.Calls.{Answers, call}
use dbgbus.Uart.Receiver.{step, hold}
use dbgbus.Uart.Sender.{tx_tick-rest}

-- What the operating system answers: nobody connects, a write succeeds.
abbrev pub answers : Incoming → Answers
answers i = record { pending = none; sends = true; incoming = i }

-- A clock of the sender, whose own line is high, and of the receiver, which has nothing to send.
abbrev pub sender_clock : Incoming → Uart → ℕ × Uart
sender_clock i t = call 1 (answers i) t

abbrev pub receiver_clock : ℕ → Uart → Uart
receiver_clock i_tx u = (call i_tx (answers nothing) u).1

-- A character is at hand as long as there are any; the sender looks for it when it is idle.
abbrev first : List ℕ → Incoming
first [] = nothing
first (c ∷ cs) = char c

abbrev behind : List ℕ → List ℕ
behind [] = []
behind (c ∷ cs) = cs

abbrev offer : Bool → List ℕ → Incoming
offer true cs = first cs
offer false cs = nothing

abbrev unsent : Bool → List ℕ → List ℕ
unsent true cs = behind cs
unsent false cs = cs

-- `n` clocks of both, with `cs` to send.
pub link : ℕ → List ℕ → Uart → Uart → List ℕ × Uart × Uart
link zero cs t u = (cs, t, u)
link (suc n) cs t u =
    let (i_tx, t') = sender_clock (offer t.tx_idle cs) t in
    link n (unsent t.tx_idle cs) t' (receiver_clock i_tx u)

-- A sender that receives nothing, and a receiver that sends nothing; both are connected.
pub record Steady (network : Bool) (t : Uart) : Type 0 where
  pub quiet : t.rx_idle ≡ true
  pub mode : opened t.skt ≡ network

pub record Ready (network : Bool) (fd : ℕ) (u : Uart) : Type 0 where
  pub idle : u.tx_idle ≡ true
  pub source : u.conrd ≡ some fd
  pub mode : opened u.skt ≡ network

connected : (b : Bool) (u : Uart) → (if b then check_for_new_connections none u else u) ≡ u
unfolding check_for_new_connections
connected b u = ground arith

pub quiet_line : (network : Bool) (t : Uart) → t.rx_idle ≡ true → rx_tick 1 network true t ≡ t
unfolding rx_tick
quiet_line network t e = rw (rx_tick, e) refl

quiet-note_edge : (t : Uart) → t.rx_idle ≡ true → (note_edge 1 t).rx_idle ≡ true
unfolding note_edge
quiet-note_edge t e = e

sender_clock-tx_tick :
    (network : Bool) (i : Incoming) (t : Uart)
    → Steady network t
    → sender_clock i t ≡ tx_tick network i (note_edge 1 t)
unfolding call tick rawtick
sender_clock-tx_tick network i t s =
    let mode = opened t.skt in
    ap (λ x. tx_tick mode i (rx_tick 1 mode true (note_edge 1 x))) (connected mode t)
    ∙ ap (tx_tick mode i) (quiet_line mode (note_edge 1 t) (quiet-note_edge t s.quiet))
    ∙ ap (λ b. tx_tick b i (note_edge 1 t)) s.mode

tx_tick-keeps :
    (network : Bool) (i : Incoming) (t : Uart)
    → ((tx_tick network i t).1.rx_idle ≡ t.rx_idle) × ((tx_tick network i t).1.skt ≡ t.skt)
unfolding tx_tick tx_start
tx_tick-keeps network nothing t = ground arith
tx_tick-keeps network (char c) t = ground arith
tx_tick-keeps network eof t = ground arith
tx_tick-keeps network failure t = ground arith

rx_tick-keeps :
    (network : Bool) (i_tx : ℕ) (u : Uart)
    → let g = rx_tick i_tx network true u in
      (g.tx_idle ≡ u.tx_idle) × (g.conrd ≡ u.conrd) × (g.skt ≡ u.skt)
unfolding rx_tick rx_begin rx_sample deliver
rx_tick-keeps network i_tx u = ground arith

step-Ready :
    (network : Bool) (fd i_tx : ℕ) (u : Uart)
    → Ready network fd u
    → Ready network fd (step network i_tx u)
unfolding note_edge
step-Ready network fd i_tx u r =
    let (a, b, c) = rx_tick-keeps network i_tx (note_edge i_tx u) in
    record { idle = a ∙ r.idle; source = b ∙ r.source; mode = ap opened c ∙ r.mode }

receiver_clock-step :
    (network : Bool) (fd i_tx : ℕ) (u : Uart)
    → Ready network fd u
    → receiver_clock i_tx u ≡ step network i_tx u
unfolding call tick rawtick
receiver_clock-step network fd i_tx u r =
    let mode = opened u.skt in
    let after = step-Ready network fd i_tx u r in
    ap (λ x. (tx_tick mode nothing (rx_tick i_tx mode true (note_edge i_tx x))).1)
      (connected mode u)
    ∙ ap (λ b. (tx_tick b nothing (rx_tick i_tx b true (note_edge i_tx u))).1) r.mode
    ∙ ap (λ x. x.1) (tx_tick-rest network fd (step network i_tx u) after.idle after.source)

pub hold-Ready :
    (network : Bool) (n fd i_tx : ℕ) (u : Uart)
    → Ready network fd u
    → Ready network fd (hold network n i_tx u)
hold-Ready network zero fd i_tx u r = r
hold-Ready network (suc n) fd i_tx u r =
    hold-Ready network n fd i_tx (step network i_tx u) (step-Ready network fd i_tx u r)

pub link-none : (cs : List ℕ) (t u : Uart) → link 0 cs t u ≡ (cs, t, u)
unfolding link
link-none cs t u = refl

pub link-add :
    (m n : ℕ) (cs : List ℕ) (t u : Uart)
    → link (m + n) cs t u ≡ (let (ds, t', u') = link m cs t u in link n ds t' u')
unfolding link
link-add zero n cs t u = rw (zero-add n) refl
link-add (suc m) n cs t u = rw (suc-add m n) (link-add m n _ _ _)

-- A run of `n` clocks that leaves `ds` to send, the receiver at `v`, and the sender as `P` says.
pub record Runs {ℓ} (n : ℕ) (cs : List ℕ) (t u : Uart) (ds : List ℕ) (v : Uart) (P : Uart → Type ℓ)
    : Type ℓ where
  pub after : Uart
  pub run : link n cs t u ≡ (ds, after, v)
  pub holds : P after

-- One run after the other.
pub Runs-cons {ℓ κ} :
    {m n : ℕ} {cs ds es : List ℕ} {t u v w : Uart} {P : Uart → Type ℓ} {Q : Uart → Type κ}
    → (r : Runs m cs t u ds v P) → Runs n ds r.after v es w Q
    → Runs (m + n) cs t u es w Q
Runs-cons {m = m} {n = n} {cs = cs} {t = t} {u = u} r s = record {
  after = s.after;
  run = link-add m n cs t u ∙ ap (λ (x : List ℕ × Uart × Uart). link n x.0 x.1 x.2) r.run ∙ s.run;
  holds = s.holds;
}

pub Runs-trans {ℓ κ} :
    {m n : ℕ} {cs ds es : List ℕ} {t u v w : Uart} {P : Uart → Type ℓ} {Q : Uart → Type κ}
    → Runs m cs t u ds v P
    → ((t' : Uart) → P t' → Runs n ds t' v es w Q)
    → Runs (m + n) cs t u es w Q
Runs-trans r f = Runs-cons r (f r.after r.holds)
