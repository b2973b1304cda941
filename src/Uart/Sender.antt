-- ===== src/Uart/Sender.antt =====
-- The transmitting half of UARTSIM: the bits that it puts on the line.
use native.Mathlib.Nat.{pow-suc, div-div-eq-div-mul, one-le-pow}
use dbgbus.Base.{
  ℕ, suc, ◌+◌, ◌-◌, ◌/◌, ◌%◌, ◌^◌, ◌≤◌, ◌<◌, ◌≡◌, refl, sym, ap, ◌∙◌, Bool, true, false, ◌||◌,
  Option, some, arith, bit_and, bit_and_low, ◌==◌,
}
use dbgbus.Uart.{Uart, Incoming, nothing, char, tx_frame, tx_start, tx_tick, opened}

-- The members of UARTSIM that sending does not change.
pub record SendSettings : Type 0 where
  pub nbits : ℕ
  pub nparity : ℕ
  pub nstop : ℕ
  pub evenp : ℕ
  pub baud_counts : ℕ
  pub conrd : Option ℕ

abbrev pub line : Uart → SendSettings
line t = record {
  nbits = t.nbits;
  nparity = t.nparity;
  nstop = t.nstop;
  evenp = t.evenp;
  baud_counts = t.baud_counts;
  conrd = t.conrd;
}

-- How many bits follow the start bit.
abbrev pub line_bits : SendSettings → ℕ
line_bits l = l.nbits + l.nparity + l.nstop

-- In the frame `v`, at its bit `m`, `k` clocks before the next one.
pub record Sending (l : SendSettings) (v k m : ℕ) (t : Uart) : Type 0 where
  pub busy_sending : t.tx_idle ≡ false
  pub clocks : t.tx_baudcounter ≡ k
  pub left : t.tx_busy ≡ 2 ^ (line_bits l + 1 - m) - 1
  pub bits : t.tx_data ≡ v / 2 ^ m
  pub same : line t ≡ l

-- Between two frames.
pub record Resting (l : SendSettings) (t : Uart) : Type 0 where
  pub idle : t.tx_idle ≡ true
  pub same : line t ≡ l

next_bit : (v m : ℕ) → v / 2 ^ m / 2 ≡ v / 2 ^ suc m
next_bit v m = div-div-eq-div-mul v (2 ^ m) 2 ∙ ap (λ (x : ℕ). v / x) (sym (pow-suc 2 m))

-- One bit less is left.
less_left : (n m : ℕ) → m ≤ n → (2 ^ (n + 1 - m) - 1) / 2 ≡ 2 ^ (n + 1 - suc m) - 1
less_left n m le =
    let up : n + 1 - m ≡ suc (n - m) = omega arith in
    let down : n + 1 - suc m ≡ n - m = omega arith in
    rw (up, down) (omega (arith, pow-suc 2 (n - m), one-le-pow (n - m) 2))

some_left : (n m : ℕ) → m < n → ((2 ^ (n + 1 - suc m) - 1) == 0) ≡ false
some_left n m lt =
    let up : n + 1 - suc m ≡ suc (n - m - 1) = omega arith in
    let big : 2 ≤ 2 ^ (n + 1 - suc m) =
      rw up (omega (arith, pow-suc 2 (n - m - 1), one-le-pow (n - m - 1) 2)) in
    ground arith

module _ (network : Bool) where
  tick-start :
      (c fd : ℕ) (t : Uart)
      → t.tx_idle ≡ true
      → t.conrd ≡ some fd
      → tx_tick network (char c) t ≡ tx_start network (char c) t
  unfolding tx_tick
  tick-start c fd t e conn =
      let open_end : (network || opened t.conrd) ≡ true =
        rw conn (elim network as (λ b. (b || true) ≡ true) [ true ↦ refl | false ↦ refl ]) in
      rw (tx_tick, e, open_end) refl

  pub tx_tick-rest :
      (fd : ℕ) (t : Uart)
      → t.tx_idle ≡ true
      → t.conrd ≡ some fd
      → tx_tick network nothing t ≡ (1, t)
  unfolding tx_tick tx_start
  tx_tick-rest fd t e conn =
      let open_end : (network || opened t.conrd) ≡ true =
        rw conn (elim network as (λ b. (b || true) ≡ true) [ true ↦ refl | false ↦ refl ]) in
      rw (tx_tick, e, open_end) refl

  tick-count :
      (i : Incoming) (t : Uart)
      → t.tx_idle ≡ false
      → (t.tx_baudcounter == 0) ≡ false
      → tx_tick network i t
        ≡ (bit_and t.tx_data 1, record t { tx_baudcounter = t.tx_baudcounter - 1 })
  unfolding tx_tick
  tick-count i t e f = rw (tx_tick, e, f) refl

  abbrev shifted : Uart → Uart
  shifted t = record t { tx_data = t.tx_data / 2; tx_busy = t.tx_busy / 2 }

  tick-shift :
      (i : Incoming) (t : Uart)
      → t.tx_idle ≡ false
      → (t.tx_baudcounter == 0) ≡ true
      → (t.tx_busy / 2 == 0) ≡ false
      → tx_tick network i t
        ≡ (bit_and (t.tx_data / 2) 1, record (shifted t) { tx_baudcounter = t.baud_counts - 1 })
  unfolding tx_tick
  tick-shift i t e f g = rw (tx_tick, e, f, g) refl

  tick-last :
      (i : Incoming) (t : Uart)
      → t.tx_idle ≡ false
      → (t.tx_baudcounter == 0) ≡ true
      → (t.tx_busy / 2 == 0) ≡ true
      → tx_tick network i t ≡ (bit_and (t.tx_data / 2) 1, record (shifted t) { tx_idle = true })
  unfolding tx_tick
  tick-last i t e f g = rw (tx_tick, e, f, g) refl

  -- A character at hand starts a frame.
  pub tx_tick-start :
      (l : SendSettings) (fd c : ℕ) (t : Uart)
      → l.conrd ≡ some fd
      → Resting l t
      → ((tx_tick network (char c) t).0 ≡ 0)
        × Sending l (tx_frame t c) (l.baud_counts - 1) 0 (tx_tick network (char c) t).1
  unfolding tx_start
  tx_tick-start l fd c t conn r =
      let open_end : t.conrd ≡ some fd = ap (λ (d : SendSettings). d.conrd) r.same ∙ conn in
      let bits = ap line_bits r.same in
      let all : line_bits l + 1 - 0 ≡ line_bits l + 1 = omega arith in
      rw (tick-start c fd t r.idle open_end) (
        refl,
        record {
          busy_sending = refl;
          clocks = ap (λ (d : SendSettings). d.baud_counts - 1) r.same;
          left = ap (λ (n : ℕ). 2 ^ (n + 1) - 1) bits ∙ ap (λ (n : ℕ). 2 ^ n - 1) (sym all);
          bits = omega arith;
          same = r.same;
        },
      )

  -- A clock between two bits.
  pub tx_tick-count :
      (l : SendSettings) (v k m : ℕ) (i : Incoming) (t : Uart)
      → Sending l v (suc k) m t
      → ((tx_tick network i t).0 ≡ v / 2 ^ m % 2) × Sending l v k m (tx_tick network i t).1
  tx_tick-count l v k m i t s =
      let later : (t.tx_baudcounter == 0) ≡ false = rw s.clocks (ground arith) in
      rw (tick-count i t s.busy_sending later) (
        bit_and_low 1 t.tx_data ∙ ap (λ (x : ℕ). x % 2) s.bits,
        record {
          busy_sending = s.busy_sending;
          clocks = omega (arith, s.clocks);
          left = s.left;
          bits = s.bits;
          same = s.same;
        },
      )

  -- The next bit.
  pub tx_tick-shift :
      (l : SendSettings) (v m : ℕ) (i : Incoming) (t : Uart)
      → m < line_bits l
      → Sending l v 0 m t
      → ((tx_tick network i t).0 ≡ v / 2 ^ suc m % 2)
        × Sending l v (l.baud_counts - 1) (suc m) (tx_tick network i t).1
  tx_tick-shift l v m i t more s =
      let now : (t.tx_baudcounter == 0) ≡ true = rw s.clocks (ground arith) in
      let left : t.tx_busy / 2 ≡ 2 ^ (line_bits l + 1 - suc m) - 1 =
        ap (λ (x : ℕ). x / 2) s.left ∙ less_left (line_bits l) m (omega arith) in
      let again : (t.tx_busy / 2 == 0) ≡ false = rw left (some_left (line_bits l) m more) in
      let bits : t.tx_data / 2 ≡ v / 2 ^ suc m = ap (λ (x : ℕ). x / 2) s.bits ∙ next_bit v m in
      rw (tick-shift i t s.busy_sending now again) (
        bit_and_low 1 (t.tx_data / 2) ∙ ap (λ (x : ℕ). x % 2) bits,
        record {
          busy_sending = s.busy_sending;
          clocks = ap (λ (d : SendSettings). d.baud_counts - 1) s.same;
          left = left;
          bits = bits;
          same = s.same;
        },
      )

  -- The end of the frame.
  pub tx_tick-last :
      (l : SendSettings) (v : ℕ) (i : Incoming) (t : Uart)
      → Sending l v 0 (line_bits l) t
      → ((tx_tick network i t).0 ≡ v / 2 ^ suc (line_bits l) % 2)
        × Resting l (tx_tick network i t).1
  tx_tick-last l v i t s =
      let n = line_bits l in
      let now : (t.tx_baudcounter == 0) ≡ true = rw s.clocks (ground arith) in
      let left : t.tx_busy / 2 ≡ 2 ^ (n + 1 - suc n) - 1 =
        ap (λ (x : ℕ). x / 2) s.left ∙ less_left n n (omega arith) in
      let none_left : n + 1 - suc n ≡ 0 = omega arith in
      let over : (t.tx_busy / 2 == 0) ≡ true = rw (left, none_left) refl in
      let bits : t.tx_data / 2 ≡ v / 2 ^ suc n = ap (λ (x : ℕ). x / 2) s.bits ∙ next_bit v n in
      rw (tick-last i t s.busy_sending now over) (
        bit_and_low 1 (t.tx_data / 2) ∙ ap (λ (x : ℕ). x % 2) bits,
        record { idle = refl; same = s.same },
      )
