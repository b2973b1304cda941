-- ===== src/Uart/Pairs.antt =====
-- Settings in which one UARTSIM receives what another sends.
use mathlib.Core.Path.{subst}
use dbgbus.Base.{ℕ, suc, ◌/◌, ◌%◌, ◌^◌, ◌≤◌, ◌<◌, ◌≡◌, refl, ◌⊎◌, inl, inr, some, List, ◌++◌, arith}
use dbgbus.Uart.Frame.{Settings, frame_bits}
use dbgbus.Uart.Framing.{eight_frame}
use dbgbus.Uart.Sender.{SendSettings, line_bits}
use dbgbus.Uart.Pending.{Usable}

-- The two ends have the same setting, of eight bits and at most one parity bit, and are connected.
pub record Paired (fd gd : ℕ) (l : SendSettings) (d : Settings) : Type 0 where
  pub source : l.conrd ≡ some fd
  pub sink : d.conwr ≡ some gd
  pub bits : l.nbits ≡ 8
  pub bits_there : d.nbits ≡ 8
  pub parity_bits : (l.nparity ≡ 0) ⊎ (l.nparity ≡ 1)
  pub parity_there : l.nparity ≡ d.nparity
  pub even : l.evenp < 2
  pub clocks : l.baud_counts ≡ d.baud_counts
  pub stops : l.nstop ≡ d.nstop
  pub one_or_two : (d.nstop ≡ 1) ⊎ (d.nstop ≡ 2)
  pub two_clocks : 2 ≤ d.baud_counts

-- The settings when `cs` are sent as well.
abbrev pub received : Settings → List ℕ → Settings
received d cs = record d { taken = d.taken ++ cs }

pub received-Paired :
    (fd gd : ℕ) (l : SendSettings) (d : Settings) (cs : List ℕ)
    → Paired fd gd l d
    → Paired fd gd l (received d cs)
received-Paired fd gd l d cs p = record {
  source = p.source;
  sink = p.sink;
  bits = p.bits;
  parity_bits = p.parity_bits;
  bits_there = p.bits_there;
  parity_there = p.parity_there;
  even = p.even;
  clocks = p.clocks;
  stops = p.stops;
  one_or_two = p.one_or_two;
  two_clocks = p.two_clocks;
}

-- How many bits follow the start bit: nine to eleven.
pub data Eight (n : ℕ) : Type 0 where
  nine : n ≡ 9 → Eight n
  ten : n ≡ 10 → Eight n
  eleven : n ≡ 11 → Eight n

pub Paired-Eight :
    (fd gd : ℕ) (l : SendSettings) (d : Settings) → Paired fd gd l d → Eight (frame_bits d)
Paired-Eight fd gd l d p =
    let with_parity : (d.nparity ≡ 0) ⊎ (d.nparity ≡ 1) =
      subst (λ (n : ℕ). (n ≡ 0) ⊎ (n ≡ 1)) p.parity_there p.parity_bits in
    rw p.bits_there (elim with_parity [
      | inl e ↦ rw e (elim p.one_or_two [ inl f ↦ rw f (nine refl) | inr f ↦ rw f (ten refl) ])
      | inr e ↦ rw e (elim p.one_or_two [ inl f ↦ rw f (ten refl) | inr f ↦ rw f (eleven refl) ])
    ])

Eight-bounds : (n : ℕ) → Eight n → (0 < n) × (n ≤ 32)
Eight-bounds n (nine e) = (omega (arith, e), omega (arith, e))
Eight-bounds n (ten e) = (omega (arith, e), omega (arith, e))
Eight-bounds n (eleven e) = (omega (arith, e), omega (arith, e))

pub Paired-Usable : (fd gd : ℕ) (l : SendSettings) (d : Settings) → Paired fd gd l d → Usable gd d
Paired-Usable fd gd l d p =
    let (some_bits, fits) = Eight-bounds (frame_bits d) (Paired-Eight fd gd l d p) in
    record { open_end = p.sink; two_clocks = p.two_clocks; some_bits = some_bits; fits = fits }

pub Paired-bits :
    (fd gd : ℕ) (l : SendSettings) (d : Settings) → Paired fd gd l d → line_bits l ≡ frame_bits d
Paired-bits fd gd l d p = rw (p.bits, p.bits_there, p.parity_there, p.stops) refl

-- The bits of the frame of a character.
pub record Framed (n c v : ℕ) : Type 0 where
  pub low : v % 2 ≡ 0
  pub high : v / 2 ^ suc n % 2 ≡ 1
  pub char : v / 2 % 2 ^ n % 2 ^ 8 ≡ c

pub eight_frame-Framed : (n x c : ℕ) → Eight n → x < 2 → c < 2 ^ 8 → Framed n c (eight_frame x c)
eight_frame-Framed n x c (nine e) bit small =
    rw e record { low = omega arith; high = omega arith; char = omega arith }
eight_frame-Framed n x c (ten e) bit small =
    rw e record { low = omega arith; high = omega arith; char = omega arith }
eight_frame-Framed n x c (eleven e) bit small =
    rw e record { low = omega arith; high = omega arith; char = omega arith }
