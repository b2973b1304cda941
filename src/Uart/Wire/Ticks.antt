-- ===== src/Uart/Wire/Ticks.antt =====
-- The clocks of two UARTSIMs on one wire, by what the sender does in them.
use native.Mathlib.Nat.{zero-add, suc-add}
use dbgbus.Base.{
  ℕ, zero, suc, ◌+◌, ◌-◌, ◌/◌, ◌%◌, ◌^◌, ◌<◌, ◌≡◌, refl, ap, ◌∙◌, Bool, true, false, some, List, [],
  ◌∷◌,
}
use dbgbus.Uart.{Uart, nothing, opened, note_edge, tx_frame, tx_tick}
use dbgbus.Uart.Receiver.{step, hold}
use dbgbus.Uart.Sender.{
  SendSettings, line_bits, Sending, Resting, tx_tick-start, tx_tick-rest, tx_tick-count,
  tx_tick-shift, tx_tick-last,
}
use dbgbus.Uart.Wire.{
  link, Steady, Ready, Runs, offer, unsent, sender_clock, receiver_clock, sender_clock-tx_tick,
  receiver_clock-step, tx_tick-keeps, step-Ready,
}

module _ (sending receiving : Bool) (fd gd : ℕ) (l : SendSettings) (conn : l.conrd ≡ some fd) where
  -- The sender in a frame, and between two.
  abbrev pub Busy : ℕ → ℕ → ℕ → Uart → Type 0
  Busy v k m t = Sending l v k m t × Steady sending t

  abbrev pub Free : Uart → Type 0
  Free t = Resting l t × Steady sending t

  -- One clock of a sender that is idle or not.
  one_clock :
      (P : Uart → Type 0) (x : Bool) (cs : List ℕ) (t u : Uart) (i_tx : ℕ)
      → t.tx_idle ≡ x
      → Steady sending t
      → Ready receiving gd u
      → (tx_tick sending (offer x cs) (note_edge 1 t)).0 ≡ i_tx
      → P (tx_tick sending (offer x cs) (note_edge 1 t)).1
      → Runs 1 cs t u (unsent x cs) (step receiving i_tx u) (λ t'. P t' × Steady sending t')
  unfolding link note_edge
  one_clock P x cs t u i_tx e s r bit p =
      let i = offer x cs in
      let t' = (tx_tick sending i (note_edge 1 t)).1 in
      let keeps = tx_tick-keeps sending i (note_edge 1 t) in
      record {
        after = t';
        run =
            ap
              (λ y.
                (let (b, g) = sender_clock (offer y cs) t in (unsent y cs, g, receiver_clock b u)))
              e
            ∙ ap (λ (y : ℕ × Uart). (unsent x cs, y.1, receiver_clock y.0 u))
                (sender_clock-tx_tick sending i t s)
            ∙ ap (λ b. (unsent x cs, t', receiver_clock b u)) bit
            ∙ ap (λ v. (unsent x cs, t', v)) (receiver_clock-step receiving gd i_tx u r);
        holds = (p, record { quiet = keeps.0 ∙ s.quiet; mode = ap opened keeps.1 ∙ s.mode });
      }

  Sending-note_edge : (v k m : ℕ) (t : Uart) → Sending l v k m t → Sending l v k m (note_edge 1 t)
  unfolding note_edge
  Sending-note_edge v k m t s = record {
    busy_sending = s.busy_sending;
    clocks = s.clocks;
    left = s.left;
    bits = s.bits;
    same = s.same;
  }

  Resting-note_edge : (t : Uart) → Resting l t → Resting l (note_edge 1 t)
  unfolding note_edge
  Resting-note_edge t s = record { idle = s.idle; same = s.same }

  pub start_clock :
      (c : ℕ) (cs : List ℕ) (t u : Uart)
      → Free t
      → Ready receiving gd u
      → Runs 1
          (c ∷ cs)
          t
          u
          cs
          (step receiving 0 u)
          (Busy (tx_frame (note_edge 1 t) c) (l.baud_counts - 1) 0)
  start_clock c cs t u (free, s) r =
      let (bit, busy) =
        tx_tick-start sending l fd c (note_edge 1 t) conn (Resting-note_edge t free) in
      one_clock (Sending l (tx_frame (note_edge 1 t) c) (l.baud_counts - 1) 0) true (c ∷ cs) t u 0
        free.idle s r bit busy

  -- `n` clocks of one bit.
  pub count_clocks :
      (n v k m : ℕ) (cs : List ℕ) (t u : Uart)
      → Busy v (n + k) m t
      → Ready receiving gd u
      → Runs n cs t u cs (hold receiving n (v / 2 ^ m % 2) u) (Busy v k m)
  unfolding link
  count_clocks zero v k m cs t u (busy, s) r = record {
    after = t;
    run = refl;
    holds = (rw (← zero-add k) busy, s);
  }
  count_clocks (suc n) v k m cs t u (busy, s) r =
      let (bit, more) =
        tx_tick-count sending l v (n + k) m nothing (note_edge 1 t)
          (Sending-note_edge v (suc (n + k)) m t (let e = suc-add n k in rw e at busy)) in
      let i_tx = v / 2 ^ m % 2 in
      let one =
        one_clock (Sending l v (n + k) m) false cs t u i_tx busy.busy_sending s r bit more in
      let rest =
        count_clocks n v k m cs one.after (step receiving i_tx u) one.holds
          (step-Ready receiving gd i_tx u r) in
      record {
        after = rest.after;
        run = ap (λ (x : List ℕ × Uart × Uart). link n x.0 x.1 x.2) one.run ∙ rest.run;
        holds = rest.holds;
      }

  -- The clock of the next bit, and all clocks of it.
  pub next_clock :
      (v m : ℕ) (cs : List ℕ) (t u : Uart)
      → m < line_bits l
      → Busy v 0 m t
      → Ready receiving gd u
      → Runs 1 cs t u cs (step receiving (v / 2 ^ suc m % 2) u) (Busy v (l.baud_counts - 1) (suc m))
  next_clock v m cs t u lt (busy, s) r =
      let (bit, more) =
        tx_tick-shift sending l v m nothing (note_edge 1 t) lt (Sending-note_edge v 0 m t busy) in
      one_clock (Sending l v (l.baud_counts - 1) (suc m)) false cs t u (v / 2 ^ suc m % 2)
        busy.busy_sending s r bit more

  pub last_clock :
      (v : ℕ) (cs : List ℕ) (t u : Uart)
      → Busy v 0 (line_bits l) t
      → Ready receiving gd u
      → Runs 1 cs t u cs (step receiving (v / 2 ^ suc (line_bits l) % 2) u) Free
  last_clock v cs t u (busy, s) r =
      let (bit, free) =
        tx_tick-last sending l v nothing (note_edge 1 t)
          (Sending-note_edge v 0 (line_bits l) t busy) in
      one_clock (Resting l) false cs t u (v / 2 ^ suc (line_bits l) % 2) busy.busy_sending s r bit
        free

  -- Nothing to send: the line stays high.
  pub rest_clocks :
      (n : ℕ) (t u : Uart)
      → Free t
      → Ready receiving gd u
      → Runs n [] t u [] (hold receiving n 1 u) Free
  unfolding link
  rest_clocks zero t u f r = record { after = t; run = refl; holds = f }
  rest_clocks (suc n) t u (free, s) r =
      let still =
        tx_tick-rest sending fd (note_edge 1 t) (Resting-note_edge t free).idle
          (ap (λ (d : SendSettings). d.conrd) (Resting-note_edge t free).same ∙ conn) in
      let one =
        one_clock (Resting l) true [] t u 1 free.idle s r (ap (λ x. x.0) still)
          (rw still (Resting-note_edge t free)) in
      let rest =
        rest_clocks n one.after (step receiving 1 u) one.holds (step-Ready receiving gd 1 u r) in
      record {
        after = rest.after;
        run = ap (λ (x : List ℕ × Uart × Uart). link n x.0 x.1 x.2) one.run ∙ rest.run;
        holds = rest.holds;
      }
