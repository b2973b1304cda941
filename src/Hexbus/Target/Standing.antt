-- ===== src/Hexbus/Target/Standing.antt =====
-- Where the target of HEXBUS stands in a transfer, and when HEXBUS sends it an address.
use dbgbus.Base.{
  ℕ, ◌+◌, ◌%◌, ◌^◌, ◌<◌, ◌≡◌, ◌⊎◌, inl, inr, refl, sym, ap, ◌∙◌, Bool, true, false, List, [], ◌∷◌,
  arith, length, u32,
}
use dbgbus.Comms.{Comms}
use dbgbus.Text.Hex.{hex_08}
use dbgbus.Hexbus.Link.{Link, hexb_addr}
use dbgbus.Hexbus.State.{Hexbus}
use dbgbus.Hexbus.Transfer.{encode_address, word_address}
use dbgbus.Hexbus.Transfer.Address.{address_word, address_word_lem, position-echo}
use dbgbus.Hexbus.Transfer.Read.{Leaves}
use dbgbus.Hexbus.Transfer.Writes.{unsent_inc}
use dbgbus.Hexbus.Target.{Target, seek, moved, react, Synced}

-- The target `k` words into a transfer that begins at `a`.
abbrev pub standing : (ℕ → ℕ) → ℕ → Bool → ℕ → Target
standing m a c k = record { memory = m; at = word_address a c k; counts = c }

pub moved-standing :
    (m : ℕ → ℕ) (a : ℕ) (c : Bool) (k : ℕ) → moved (standing m a c k) ≡ standing m a c (k + 1)
moved-standing m a true k =
    let e : u32 (word_address a true k + 4) ≡ word_address a true (k + 1) = omega arith in
    ap (λ x. record { memory = m; at = x; counts = true }) e
moved-standing m a false k = refl

pub encode_address-cases :
    (w : ℕ) (l : Link)
    → ((encode_address w l ≡ []) × (l.addr_set ≡ true) × (l.lastaddr ≡ w))
      ⊎ (encode_address w l ≡ hexb_addr ∷ hex_08 w)
unfolding encode_address
encode_address-cases w l = ground arith

pub word_address-zero : (a : ℕ) (inc : Bool) → a < 2 ^ 32 → word_address a inc 0 ≡ a
word_address-zero a true f = omega arith
word_address-zero a false f = omega arith

-- An aligned address is an address word only where the word counts up.
aligned_word : (x a : ℕ) (inc : Bool) → a % 4 ≡ 0 → x % 4 ≡ 0 → x ≡ address_word a inc → x ≡ a
aligned_word x a true m n e = omega (arith, address_word_lem a true m)
aligned_word x a false m n e = absurd (omega (arith, address_word_lem a false m))

pub at_place :
    (t : Target) (x : ℕ) (c : Bool)
    → t.at ≡ x
    → t.counts ≡ c
    → t ≡ record { memory = t.memory; at = x; counts = c }
at_place t x c e d =
    ap (λ (y : ℕ). record { memory = t.memory; at = y; counts = t.counts }) e
    ∙ ap (λ (b : Bool). record { memory = t.memory; at = x; counts = b }) d

module _ (a : ℕ) (inc : Bool) (fits : a < 2 ^ 32) (aligned : a % 4 ≡ 0) where
  -- Where no address is sent, the target stands where it is asked to.
  pub stands :
      (l : Link) (t : Target)
      → Synced l t
      → encode_address (address_word a inc) l ≡ []
      → t ≡ standing t.memory a inc 0
  stands l t s e = elim (encode_address-cases (address_word a inc) l) [
    | inl (_, set, la) ↦
        let (here, counts) = s.agrees set in
        at_place t (word_address a inc 0) inc
          (aligned_word t.at a inc aligned s.aligned (sym here ∙ la)
            ∙ sym (word_address-zero a inc fits))
          (sym counts ∙ unsent_inc a inc l aligned e)
    | inr f ↦ absurd (omega (arith, ap length (sym f ∙ e)))
  ]

  -- Sent an address word, it goes there.
  pub sought :
      (t : Target) (l : Link) → (react (seek (address_word a inc)) t).1 ≡ standing t.memory a inc 0
  unfolding react
  sought t l =
      let p = position-echo a inc l fits aligned in
      at_place (react (seek (address_word a inc)) t).1 (word_address a inc 0) inc
        (ap (λ q. q.lastaddr) p ∙ sym (word_address-zero a inc fits)) (ap (λ q. q.inc) p)

  pub standing-aligned : (n : ℕ) → word_address a inc n % 4 ≡ 0
  standing-aligned n = grind arith

  -- Master and target agree where both are `n` words into a transfer.
  pub Leaves-Synced :
      (n : ℕ) (m : ℕ → ℕ) (c : Comms) {message : List ℕ} {g : Hexbus} {u : Target}
      → u ≡ standing m a inc n
      → Leaves c message (record { lastaddr = word_address a inc n; inc = inc; addr_set = true }) g
      → Synced g.link u
  Leaves-Synced n m c there left = record {
    aligned = ap (λ x. x.at % 4) there ∙ standing-aligned n;
    agrees = λ _. (
      ap (λ q. q.lastaddr) left.at ∙ sym (ap (λ x. x.at) there),
      ap (λ q. q.inc) left.at ∙ sym (ap (λ x. x.counts) there),
    );
  }
