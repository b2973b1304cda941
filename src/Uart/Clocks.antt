-- ===== src/Uart/Clocks.antt =====
-- The clocks that a UARTSIM takes to send a character, and what the receiver makes of them.
use mathlib.Core.Path.{subst}
use native.Mathlib.Nat.{zero-mul, suc-mul, div-div-eq-div-mul, pow-suc}
use dbgbus.Base.{
  ℕ, zero, suc, ◌+◌, ◌-◌, ◌*◌, ◌/◌, ◌%◌, ◌^◌, ◌<◌, ◌≡◌, sym, ap, ◌∙◌, Bool, some, List, ◌∷◌, arith,
}
use dbgbus.Uart.{Uart, tx_frame, note_edge}
use dbgbus.Uart.Receiver.{step, hold, send}
use dbgbus.Uart.Sender.{SendSettings, line_bits}
use dbgbus.Uart.Wire.{link-none, Ready, hold-Ready, Runs, Runs-trans}
use dbgbus.Uart.Wire.Ticks.{Busy, Free, start_clock, count_clocks, next_clock, last_clock}

pub Runs-clocks {ℓ} :
    {m n : ℕ} {cs ds : List ℕ} {t u v : Uart} {P : Uart → Type ℓ}
    → m ≡ n
    → Runs m cs t u ds v P
    → Runs n cs t u ds v P
Runs-clocks {cs = cs} {ds = ds} {t = t} {u = u} {v = v} {P = P} e r =
    subst (λ n. Runs n cs t u ds v P) e r

next_digit : (v m : ℕ) → v / 2 ^ suc m ≡ v / 2 / 2 ^ m
next_digit v m =
    let e : 2 ^ suc m ≡ 2 * 2 ^ m = omega (arith, pow-suc 2 m) in
    ap (λ (x : ℕ). v / x) e ∙ sym (div-div-eq-div-mul v 2 (2 ^ m))

-- How many clocks the sender takes for a character.
abbrev pub char_clocks : SendSettings → ℕ
char_clocks l = l.baud_counts + (line_bits l * l.baud_counts + 1)

-- The receiver after the start bit of the frame `v`, the bits that follow it, and the first clock
-- in which the line is high again.
abbrev pub after_frame : Bool → SendSettings → ℕ → Uart → Uart
after_frame network l v u =
    step network 1
      (send network l.baud_counts (line_bits l) 0 (v / 2) (hold network l.baud_counts 0 u))

module _ (sending receiving : Bool) (fd gd : ℕ) (l : SendSettings) (conn : l.conrd ≡ some fd)
    (pos : 0 < l.baud_counts) where
  abbrev BusyAt : ℕ → ℕ → ℕ → Uart → Type 0
  BusyAt = Busy sending receiving fd gd l conn

  abbrev AtRest : Uart → Type 0
  AtRest = Free sending receiving fd gd l conn

  whole_bit : suc (l.baud_counts - 1) ≡ l.baud_counts
  whole_bit = omega arith

  -- The rest of a bit, after its first clock.
  rest_of_bit :
      (v m i_tx : ℕ) (cs : List ℕ) (t u : Uart)
      → v / 2 ^ m % 2 ≡ i_tx
      → BusyAt v (l.baud_counts - 1) m t
      → Ready receiving gd u
      → Runs
          (l.baud_counts - 1)
          cs
          t
          u
          cs
          (hold receiving (l.baud_counts - 1) i_tx u)
          (BusyAt v 0 m)
  rest_of_bit v m i_tx cs t u e s r =
      let all : l.baud_counts - 1 ≡ (l.baud_counts - 1) + 0 = omega arith in
      subst
        (λ x.
          Runs (l.baud_counts - 1) cs t u cs (hold receiving (l.baud_counts - 1) x u)
            (BusyAt v 0 m))
        e
        (count_clocks sending receiving fd gd l conn (l.baud_counts - 1) v 0 m cs t u
          (subst (λ (k : ℕ). BusyAt v k m t) all s) r)

  -- A whole bit of the frame `v`, with one bit more in front of it.
  bit_clocks :
      (v m : ℕ) (cs : List ℕ) (t u : Uart)
      → m < line_bits l
      → BusyAt v 0 m t
      → Ready receiving gd u
      → Runs l.baud_counts cs t u cs
          (hold receiving l.baud_counts (v / 2 / 2 ^ m % 2) u)
          (BusyAt v 0 (suc m))
  bit_clocks v m cs t u lt s r =
      let i_tx = v / 2 / 2 ^ m % 2 in
      let digit : v / 2 ^ suc m % 2 ≡ i_tx = ap (λ (x : ℕ). x % 2) (next_digit v m) in
      let one =
        subst (λ x. Runs 1 cs t u cs (step receiving x u) (BusyAt v (l.baud_counts - 1) (suc m)))
          digit (next_clock sending receiving fd gd l conn v m cs t u lt s r) in
      let both = Runs-trans one (λ t' s'.
        rest_of_bit v (suc m) i_tx cs t' (step receiving i_tx u) digit s'
          (hold-Ready receiving 1 gd i_tx u r)) in
      let clocks : 1 + (l.baud_counts - 1) ≡ l.baud_counts = omega arith in
      subst (λ b. Runs l.baud_counts cs t u cs (hold receiving b i_tx u) (BusyAt v 0 (suc m)))
        whole_bit (Runs-clocks clocks both)

  -- The bits that are left of the frame `v`.
  bits_clocks :
      (n m v : ℕ) (cs : List ℕ) (t u : Uart)
      → m + n ≡ line_bits l
      → BusyAt v 0 m t
      → Ready receiving gd u
      → Runs
          (n * l.baud_counts)
          cs
          t
          u
          cs
          (send receiving l.baud_counts n m (v / 2) u)
          (BusyAt v 0 (line_bits l))
  bits_clocks zero m v cs t u e s r =
      let all : m ≡ line_bits l = omega (arith, e) in
      Runs-clocks (sym (zero-mul l.baud_counts)) record {
        after = t;
        run = link-none cs t u;
        holds = subst (λ (k : ℕ). BusyAt v 0 k t) all s;
      }
  bits_clocks (suc n) m v cs t u e s r =
      let b = l.baud_counts in
      let i_tx = v / 2 / 2 ^ m % 2 in
      let both = Runs-trans (bit_clocks v m cs t u (omega (arith, e)) s r) (λ t' s'.
        bits_clocks n (suc m) v cs t' (hold receiving b i_tx u) (omega (arith, e)) s'
          (hold-Ready receiving b gd i_tx u r)) in
      let clocks : b + n * b ≡ suc n * b = omega (arith, suc-mul n b) in Runs-clocks clocks both

  send-Ready :
      (b n m v : ℕ) (u : Uart)
      → Ready receiving gd u
      → Ready receiving gd (send receiving b n m v u)
  send-Ready b zero m v u r = r
  send-Ready b (suc n) m v u r =
      send-Ready b n (suc m) v (hold receiving b (v / 2 ^ m % 2) u)
        (hold-Ready receiving b gd (v / 2 ^ m % 2) u r)

  pub after_frame-Ready :
      (v : ℕ) (u : Uart) → Ready receiving gd u → Ready receiving gd (after_frame receiving l v u)
  after_frame-Ready v u r =
      let g = hold receiving l.baud_counts 0 u in
      hold-Ready receiving 1 gd 1 (send receiving l.baud_counts (line_bits l) 0 (v / 2) g) (
        send-Ready l.baud_counts (line_bits l) 0 (v / 2) g
          (hold-Ready receiving l.baud_counts gd 0 u r))

  -- The start bit.
  start_clocks :
      (v c : ℕ) (cs : List ℕ) (t u : Uart)
      → tx_frame (note_edge 1 t) c ≡ v
      → v % 2 ≡ 0
      → AtRest t
      → Ready receiving gd u
      → Runs l.baud_counts (c ∷ cs) t u cs (hold receiving l.baud_counts 0 u) (BusyAt v 0 0)
  start_clocks v c cs t u e low s r =
      let one =
        subst (λ x. Runs 1 (c ∷ cs) t u cs (step receiving 0 u) (BusyAt x (l.baud_counts - 1) 0)) e
          (start_clock sending receiving fd gd l conn c cs t u s r) in
      let bit : v / 2 ^ 0 % 2 ≡ 0 = omega (arith, low) in
      let both = Runs-trans one (λ t' s'.
        rest_of_bit v 0 0 cs t' (step receiving 0 u) bit s' (hold-Ready receiving 1 gd 0 u r)) in
      let clocks : 1 + (l.baud_counts - 1) ≡ l.baud_counts = omega arith in
      subst (λ b. Runs l.baud_counts (c ∷ cs) t u cs (hold receiving b 0 u) (BusyAt v 0 0))
        whole_bit (Runs-clocks clocks both)

  -- A character, whose frame is `v`.
  pub frame_clocks :
      (v c : ℕ) (cs : List ℕ) (t u : Uart)
      → tx_frame (note_edge 1 t) c ≡ v
      → v % 2 ≡ 0
      → v / 2 ^ suc (line_bits l) % 2 ≡ 1
      → AtRest t
      → Ready receiving gd u
      → Runs (char_clocks l) (c ∷ cs) t u cs (after_frame receiving l v u) AtRest
  frame_clocks v c cs t u e low high s r =
      let g = hold receiving l.baud_counts 0 u in
      let ready = hold-Ready receiving l.baud_counts gd 0 u r in
      let end = send receiving l.baud_counts (line_bits l) 0 (v / 2) g in
      Runs-trans (start_clocks v c cs t u e low s r) (λ t1 s1.
        Runs-trans (bits_clocks (line_bits l) 0 v cs t1 g (omega arith) s1 ready) (λ t2 s2.
          subst (λ x. Runs 1 cs t2 end cs (step receiving x end) AtRest) high
            (last_clock sending receiving fd gd l conn v cs t2 end s2
              (send-Ready l.baud_counts (line_bits l) 0 (v / 2) g ready))))
