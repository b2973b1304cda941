-- ===== src/Hexbus/Transfer/Read.antt =====
-- HEXBUS::readv against the replies of the target.
use mathlib.Core.List.{append_assoc, append-nil}
use dbgbus.Base.{
  ℕ, zero, suc, ◌+◌, ◌^◌, ◌≤◌, ◌<◌, ◌≡◌, refl, sym, ap, ◌∙◌, Bool, true, List, [], ◌∷◌, ◌++◌, map,
  arith, length, none, some, length-append,
}
use dbgbus.Comms.{Comms}
use dbgbus.Comms.Laws.{IsRoomy, sent, write-sent}
use dbgbus.Outcome.{ok}
use dbgbus.Text.Hex.{hex_value}
use dbgbus.Hexbus.Link.{hexb_read, start_command}
use dbgbus.Hexbus.State.{Hexbus}
use dbgbus.Hexbus.Receive.Replies.{
  word, Item, reply, text, complete, unread, with_link, received, received-dev, IsBackground, idles,
  settled,
}
use dbgbus.Hexbus.Receive.Words.{readword-data}
use dbgbus.Hexbus.Transfer.{readv_word, readv_loop}
use dbgbus.Hexbus.Transfer.Position.{
  Position, position, stepped, IsCalm, Calm-IsBackground, settled-calm, follow-data, position-data,
}

-- What comes back for one read request: other replies, then the data and a line end.
pub record Answer : Type 0 where
  pub before : List Item
  pub value : ℕ

abbrev pub items : Answer → List Item
items w = w.before ++ reply (word w.value) ∷ []

abbrev pub answer_text : List Answer → List ℕ
answer_text [] = []
answer_text (w ∷ ws) = text (items w) ++ b'\n' ∷ answer_text ws

abbrev pub IsAnswer : Answer → Type 0
IsAnswer w = IsBackground w.before × (idles w.before < 3) × (w.value < 2 ^ 32)

abbrev pub read_command : List ℕ
read_command = hexb_read ∷ b'\n' ∷ []

-- The state when an answer has been read.
abbrev pub answered : List ℕ → Answer → Hexbus → Hexbus
answered message w h =
    with_link (start_command b'\n' (complete (some (word w.value)) (settled none w.before h.link)))
      (received (suc (length (text (items w)))) (record h { dev = sent message h.dev }))

-- One request and its answer.
pub readv_word-answer :
    (a : ℕ) (inc : Bool) (nread : ℕ) (head : List ℕ) (w : Answer) (bs : List ℕ) (h : Hexbus)
    → IsAnswer w
    → IsRoomy h.dev
    → h.isspace_seen ≡ true
    → length head ≤ 30
    → readv_word a inc nread head (unread (text (items w) ++ b'\n' ∷ bs) h)
      ≡ (ok w.value, unread bs (answered (head ++ read_command) w h))
unfolding readv_word
readv_word-answer a inc nread head w bs h (b, i, f) roomy s short =
    let message = head ++ read_command in
    let size = length-append head read_command in
    let h' : Hexbus = record h { dev = sent message h.dev } in
    rw
      (write-sent message (unread (text (items w) ++ b'\n' ∷ bs) h).dev roomy (omega (arith, size))
        (omega (arith, size)))
      (rw (readword-data w.before w.value b'\n' bs h' b i f (unfold hex_value in refl) s)
        (rw (follow-data none w.before w.value h.link)))

abbrev pub requests : ℕ → List ℕ
requests zero = []
requests (suc n) = hexb_read ∷ b'\n' ∷ requests n

abbrev pub steps : ℕ → Position → Position
steps zero q = q
steps (suc n) q = steps n (stepped q)

-- What a call leaves behind: it has taken exactly the bytes put before the input of `c`, sent the
-- message, and stands between two lines at the position `q`.
pub record Leaves (c : Comms) (message : List ℕ) (q : Position) (g : Hexbus) : Type 0 where
  pub input : g.dev.input ≡ c.input
  pub output : g.dev.output ≡ c.output ++ message
  pub room : g.dev.room ≡ c.room
  pub between_lines : g.isspace_seen ≡ true
  pub at : position g.link ≡ q

pub answered-Leaves :
    (message : List ℕ) (w : Answer) (h : Hexbus)
    → Leaves h.dev message
        (stepped (position (settled none w.before h.link)))
        (answered message w h)
answered-Leaves message w h =
    let k = received-dev (suc (length (text (items w)))) (record h { dev = sent message h.dev }) in
    record {
      input = k.0;
      output = k.1;
      room = k.2;
      between_lines = refl;
      at = position-data w.value b'\n' (settled none w.before h.link);
    }

pub Leaves-trans :
    {c : Comms} {g k : Hexbus} {m n : List ℕ} {q r s : Position}
    → Leaves c m q g
    → Leaves g.dev n r k
    → r ≡ s
    → Leaves c (m ++ n) s k
Leaves-trans {c} {m} {n} a b e = record {
  input = b.input ∙ a.input;
  output = b.output ∙ rw (a.output, append_assoc c.output m n);
  room = b.room ∙ a.room;
  between_lines = b.between_lines;
  at = b.at ∙ e;
}

abbrev pub values : List Answer → List ℕ
values = map (λ w. w.value)

abbrev pub AreCalm : List Answer → Type 0
AreCalm [] = Unit {0}
AreCalm (w ∷ ws) = (IsCalm w.before × (idles w.before < 3) × (w.value < 2 ^ 32)) × AreCalm ws

-- The words of further requests, when only interrupts and idle marks come between.
pub readv_loop-answers :
    (a : ℕ) (inc : Bool) (nread : ℕ) (ws : List Answer) (h : Hexbus)
    → AreCalm ws
    → IsRoomy h.dev
    → h.isspace_seen ≡ true
    → (g : Hexbus) × (readv_loop a inc (length ws) nread [] (unread (answer_text ws) h)
        ≡ (ok (values ws), g))
      × Leaves h.dev (requests (length ws)) (steps (length ws) (position h.link)) g
unfolding readv_loop
readv_loop-answers a inc nread [] h c roomy s = (
  h,
  refl,
  record {
    input = refl;
    output = sym (append-nil h.dev.output);
    room = refl;
    between_lines = s;
    at = refl;
  },
)
readv_loop-answers a inc nread (w ∷ ws) h ((c, i, f), cs) roomy s =
    let h' = answered read_command w h in
    let l = answered-Leaves read_command w h in
    let (g, e, m) =
      readv_loop-answers a inc (nread + 1) ws h' cs (rw l.room roomy) l.between_lines in
    (
      g,
      rw (
        readv_word-answer a inc nread [] w (answer_text ws) h (Calm-IsBackground w.before c, i, f)
            roomy s (omega arith),
        e,
      ),
      Leaves-trans l m
          (ap (steps (length ws)) (l.at ∙ ap stepped (settled-calm none w.before h.link c))),
    )
