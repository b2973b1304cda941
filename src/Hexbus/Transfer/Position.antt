-- ===== src/Hexbus/Transfer/Position.antt =====
-- What replies do to the address registers of the master.
use dbgbus.Base.{
  ℕ, ◌+◌, ◌≡◌, refl, Bool, true, false, Option, none, some, List, [], ◌∷◌, ◌++◌, arith, u32,
}
use dbgbus.Hexbus.Link.{Link, start_command}
use dbgbus.Hexbus.Receive.Replies.{
  Reply, address, word, ack, interrupt, idle, reset, Item, reply, newline, follow, complete,
  settled, IsBackground,
}

pub record Position : Type 0 where
  pub lastaddr : ℕ
  pub inc : Bool
  pub addr_set : Bool

abbrev pub position : Link → Position
position l = record { lastaddr = l.lastaddr; inc = l.inc; addr_set = l.addr_set }

-- Only interrupts, idle marks and line ends.
abbrev pub IsCalm : List Item → Type 0
IsCalm [] = Unit {0}
IsCalm (reply interrupt ∷ is) = IsCalm is
IsCalm (reply idle ∷ is) = IsCalm is
IsCalm (reply _ ∷ is) = ⊥
IsCalm (newline ∷ is) = IsCalm is

pub Calm-IsBackground : (is : List Item) → IsCalm is → IsBackground is
Calm-IsBackground [] c = tt
Calm-IsBackground (reply (address a) ∷ is) c = absurd c
Calm-IsBackground (reply (word v) ∷ is) c = absurd c
Calm-IsBackground (reply (ack v) ∷ is) c = absurd c
Calm-IsBackground (reply interrupt ∷ is) c = (omega arith, Calm-IsBackground is c)
Calm-IsBackground (reply idle ∷ is) c = (omega arith, Calm-IsBackground is c)
Calm-IsBackground (reply reset ∷ is) c = absurd c
Calm-IsBackground (newline ∷ is) c = Calm-IsBackground is c

-- Calm items leave the position where the reply before them put it.
pub settled-calm :
    (p : Option Reply) (is : List Item) (l : Link)
    → IsCalm is
    → position (settled p is l) ≡ position (complete p l)
settled-calm p [] l c = refl
settled-calm p (reply (address a) ∷ is) l c = absurd c
settled-calm p (reply (word v) ∷ is) l c = absurd c
settled-calm p (reply (ack v) ∷ is) l c = absurd c
settled-calm p (reply interrupt ∷ is) l c = settled-calm (some interrupt) is (complete p l) c
settled-calm p (reply idle ∷ is) l c = settled-calm (some idle) is (complete p l) c
settled-calm p (reply reset ∷ is) l c = absurd c
settled-calm p (newline ∷ is) l c = settled-calm none is (complete p l) c

pub follow-data :
    (p : Option Reply) (is : List Item) (v : ℕ) (l : Link)
    → follow p (is ++ reply (word v) ∷ []) l ≡ settled p is l
follow-data p [] v l = refl
follow-data p (reply r ∷ is) v l = follow-data (some r) is v (complete p l)
follow-data p (newline ∷ is) v l = follow-data none is v (complete p l)

-- A step of the address registers.
abbrev pub stepped : Position → Position
stepped q = record q { lastaddr = elim q.inc [ true ↦ u32 (q.lastaddr + 4) | false ↦ q.lastaddr ] }

-- A data reply moves the position by one word, if it moves.
pub position-data :
    (v c : ℕ) (l : Link)
    → position (start_command c (complete (some (word v)) l)) ≡ stepped (position l)
position-data v c l = ground arith
