-- ===== src/Hexbus/Target/Session/Placing.antt =====
-- Where the target stands when a call of DEVBUS begins.
use dbgbus.Base.{
  ◌≢◌, inl, inr, ◌%◌, ℕ, ◌≡◌, refl, sym, ap, ◌∙◌, Bool, true, false, List, [], ◌∷◌, arith, length,
}
use dbgbus.Hexbus.Link.{Link}
use dbgbus.Hexbus.Transfer.{encode_address}
use dbgbus.Hexbus.Transfer.Address.{address_word, address_word_lem}
use dbgbus.Hexbus.Transfer.Writes.{unsent_inc}
use dbgbus.Hexbus.Transfer.Position.{position}
use dbgbus.Hexbus.Target.{Target, Synced}
use dbgbus.Hexbus.Target.Standing.{standing, stands, encode_address-cases}
use dbgbus.Hexbus.Target.Session.{
  Request, load_one, load, store_one, store_all, store_run, IsProper, Apart, AreApart, AreProper,
  left_at,
}

-- Where a request is to go, and whether it counts up.
abbrev asked_at : Request → ℕ × Bool
asked_at (load_one a) = (a, false)
asked_at (load a inc n) = (a, inc)
asked_at (store_one a v) = (a, false)
asked_at (store_all a v vs) = (a, false)
asked_at (store_run a v vs) = (a, true)

-- Where HEXBUS sends no address for it, the target stands there.
abbrev pub Placed : Request → Link → Target → Type 0
Placed r l t =
    let (a, inc) = asked_at r in
    encode_address (address_word a inc) l ≡ [] → t ≡ standing t.memory a inc 0

pub Synced-Placed : (l : Link) (t : Target) (r : Request) → IsProper r → Synced l t → Placed r l t
Synced-Placed l t (load_one a) (f, c) s = stands a false f c l t s
Synced-Placed l t (load a inc n) (f, c) s = stands a inc f c l t s
Synced-Placed l t (store_one a v) (f, c, b) s = stands a false f c l t s
Synced-Placed l t (store_all a v vs) (f, c, b, ws, e) s = stands a false f c l t s
Synced-Placed l t (store_run a v vs) (f, c, b, ws, e) s = stands a true f c l t s

-- Behind a writei HEXBUS sends the address, unless it counts up from where it takes the target to be.
sends_address :
    (a : ℕ) (inc : Bool) (l : Link)
    → a % 4 ≡ 0
    → l.inc ≡ true
    → (inc ≡ true → a ≢ l.lastaddr)
    → encode_address (address_word a inc) l ≢ []
sends_address a true l c e p q = elim (encode_address-cases (address_word a true) l) [
  | inl (_, set, la) ↦ p refl (omega (arith, la, address_word_lem a true c))
  | inr f ↦ omega (arith, ap length (sym f ∙ q))
]
sends_address a false l c e p q = cc (unsent_inc a false l c q, e)

pub run-Placed :
    (b v : ℕ) (vs : List ℕ) (l : Link) (t : Target) (r : Request)
    → position l ≡ left_at (store_run b v vs)
    → IsProper r
    → Apart (store_run b v vs) r
    → Placed r l t
run-Placed b v vs l t (load_one a) at (f, c) p q =
    absurd (sends_address a false l c (ap (λ x. x.inc) at) (λ e. absurd (cc)) q)
run-Placed b v vs l t (load a true n) at (f, c) p q =
    absurd
      (sends_address a true l c (ap (λ x. x.inc) at) (λ _ e. p (e ∙ ap (λ x. x.lastaddr) at)) q)
run-Placed b v vs l t (load a false n) at (f, c) p q =
    absurd (sends_address a false l c (ap (λ x. x.inc) at) (λ e. absurd (cc)) q)
run-Placed b v vs l t (store_one a x) at (f, c, d) p q =
    absurd (sends_address a false l c (ap (λ x. x.inc) at) (λ e. absurd (cc)) q)
run-Placed b v vs l t (store_all a x xs) at (f, c, d, ws, e) p q =
    absurd (sends_address a false l c (ap (λ x. x.inc) at) (λ e. absurd (cc)) q)
run-Placed b v vs l t (store_run a x xs) at (f, c, d, ws, e) p q =
    absurd
      (sends_address a true l c (ap (λ x. x.inc) at) (λ _ e. p (e ∙ ap (λ x. x.lastaddr) at)) q)

-- The first of some requests.
abbrev pub FirstPlaced : List Request → Link → Target → Type 0
FirstPlaced [] l t = Unit {0}
FirstPlaced (r ∷ rs) l t = Placed r l t

pub next-FirstPlaced :
    (r : Request) (rs : List Request) (l : Link) (t : Target)
    → ((s : Request) → IsProper s → Apart r s → Placed s l t)
    → AreProper rs
    → AreApart (r ∷ rs)
    → FirstPlaced rs l t × AreApart rs
next-FirstPlaced r [] l t next ps as_ = (tt, tt)
next-FirstPlaced r (s ∷ rs) l t next (p, ps) (x, xs) = (next s p x, xs)

pub Synced-FirstPlaced :
    (rs : List Request) (l : Link) (t : Target) → AreProper rs → Synced l t → FirstPlaced rs l t
Synced-FirstPlaced [] l t ps s = tt
Synced-FirstPlaced (r ∷ rs) l t (p, ps) s = Synced-Placed l t r p s
