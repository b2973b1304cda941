-- ===== src/Hexbus/Closing.antt =====
-- What becomes of the descriptor when HEXBUS is destroyed, and what a closed HEXBUS does.
use dbgbus.Base.{
  ℕ, ◌≡◌, refl, true, false, some, List, [], ◌∷◌, ◌++◌, ==_iff, Bool, arith, ap, if◌then◌else◌,
  bit_or, length, suc,
}
use dbgbus.Comms
use dbgbus.Comms.{Comms, Event, drain, gone, disconnect, release}
use dbgbus.Outcome.{Outcome, ok, bus_error, thrown, aborted, waiting, bound}
use mathlib.Core.List.{append-nil}
use Prim.Native.Nat.{min}
use dbgbus.Hexbus.State
use dbgbus.Hexbus.State.{Hexbus, destroy, on_dev}
use dbgbus.Hexbus.Receive.{usleep}
use dbgbus.Hexbus.Transfer.{
  writev, writev_loop, readv, readv_loop, readv_word, encode_address, write_command,
}
use dbgbus.Hexbus.Link.{hexb_read}

-- Over a terminal, HEXBUS::~HEXBUS closes the descriptor once.
pub destroy-terminal :
    (fd : ℕ) (h : Hexbus)
    → h.dev.nonblock ≡ true
    → h.dev.fdr ≡ some fd
    → h.dev.fdw ≡ some fd
    → (g : Hexbus) × (destroy h ≡ (ok tt, g)) × (g.dev.released ≡ fd ∷ h.dev.released)
unfolding destroy Comms.virtual_close Comms.close Comms.destroy
destroy-terminal fd h n r w = ((destroy h).1, rw n, rw (n, r, w, (==_iff fd fd).1 refl))

-- Over a network connection it closes the descriptor twice, once the other end has closed.
pub destroy-network :
    (fd : ℕ) (es : List Event) (h : Hexbus)
    → h.dev.nonblock ≡ false
    → h.dev.fdr ≡ some fd
    → h.dev.fdw ≡ some fd
    → drain h.dev.input ≡ (ok tt, es)
    → (g : Hexbus) × (destroy h ≡ (ok tt, g)) × (g.dev.released ≡ fd ∷ fd ∷ h.dev.released)
unfolding destroy Comms.virtual_close Comms.close Comms.destroy Comms.net_close
destroy-network fd es h n r w e = ((destroy h).1, rw (n, e), rw (n, e, r, w, (==_iff fd fd).1 refl))

-- The link takes nothing, gives nothing, and is shown to have nothing.
abbrev IsGone : Comms → Type 0
IsGone c = (c.input ≡ gone ∷ []) × (c.room ≡ (λ n. 0))

-- A close of a network connection that returns leaves such a link, and has sent nothing.
bound-IsGone :
    (x : Outcome (Unit {0}) × Comms) (out : List ℕ) (d : Comms)
    → x.1.output ≡ out
    → bound x (λ _ s. (ok tt, disconnect (record s { released = release s.fdw s.released })))
      ≡ (ok tt, d)
    → IsGone d × (d.output ≡ out)
bound-IsGone (ok u, s) out d o e = ((cc, cc), cc)
bound-IsGone (bus_error b, s) out d o e = absurd cc
bound-IsGone (thrown, s) out d o e = absurd cc
bound-IsGone (aborted, s) out d o e = absurd cc
bound-IsGone (waiting, s) out d o e = absurd cc

either-IsGone :
    (b : Bool) (c d : Comms)
    → (if b then (ok tt, Comms.close c) else Comms.net_close c) ≡ (ok tt, d)
    → IsGone d × (d.output ≡ c.output)
unfolding Comms.close Comms.net_close
either-IsGone true c d e = ((cc, cc), cc)
either-IsGone false c d e =
    let (r, es) = drain c.input in bound-IsGone (r, record c { input = es }) c.output d refl e

virtual_close-IsGone :
    (c d : Comms) → Comms.virtual_close c ≡ (ok tt, d) → IsGone d × (d.output ≡ c.output)
unfolding Comms.virtual_close
virtual_close-IsGone c d e = either-IsGone c.nonblock c d e

write-gone : (buf : List ℕ) (c : Comms) → IsGone c → Comms.write buf c ≡ (thrown, c)
unfolding Comms.write
write-gone buf c (e, r) =
    let none_taken : min 0 (length buf) ≡ 0 = omega arith in rw (r, none_taken, append-nil c.output)

-- HEXBUS behind a close.
close-IsGone :
    (h g : Hexbus) → State.close h ≡ (ok tt, g) → IsGone g.dev × (g.dev.output ≡ h.dev.output)
unfolding State.close
close-IsGone h g e = virtual_close-IsGone h.dev g.dev (ap (λ x. (x.0, x.1.dev)) e)

module _ (h g : Hexbus) (shut : State.close h ≡ (ok tt, g)) where
  writev-gone :
      (a v : ℕ) (p : Bool) (vs : List ℕ)
      → writev a p (v ∷ vs) g
        ≡ (thrown, record g { link = record g.link { lastaddr = a; addr_set = true; nacks = 0 } })
  unfolding writev writev_loop
  writev-gone a v p vs =
      let head = encode_address (bit_or a (if p then 0 else 1)) g.link in
      rw (writev, writev_loop, write-gone (head ++ write_command v) g.dev (close-IsGone h g shut).0)
        refl

  readv-gone :
      (a n : ℕ) (p : Bool)
      → readv a p (suc n) g
        ≡ (aborted, record g { link = record g.link { lastaddr = a; addr_set = true; inc = p } })
  unfolding readv readv_loop readv_word
  readv-gone a n p =
      let head = encode_address (bit_or a (if p then 0 else 1)) g.link in
      rw
        (
          readv,
          readv_loop,
          readv_word,
          write-gone (head ++ hexb_read ∷ b'\n' ∷ []) g.dev (close-IsGone h g shut).0,
        )
        refl

  usleep-gone : (ms : ℕ) → usleep ms g ≡ (ok tt, g)
  unfolding usleep Comms.poll
  usleep-gone ms = rw (close-IsGone h g shut).0.0

-- Once HEXBUS::close has returned, over a terminal or a network connection: writev of one word or
-- more throws the exception of the link, readv of one word or more ends in the failing assertion,
-- and usleep returns and changes nothing. Nothing is sent by the close or by these, but writev and
-- readv leave the address registers as if the address had been sent.
pub close-refuses :
    (a v n ms : ℕ) (p : Bool) (vs : List ℕ) (h g : Hexbus)
    → State.close h ≡ (ok tt, g)
    → (g.dev.output ≡ h.dev.output)
      × (writev a p (v ∷ vs) g ≡ (
        thrown,
        record g { link = record g.link { lastaddr = a; addr_set = true; nacks = 0 } },
      ))
      × (readv a p (suc n) g
          ≡ (aborted, record g { link = record g.link { lastaddr = a; addr_set = true; inc = p } }))
      × (usleep ms g ≡ (ok tt, g))
close-refuses a v n ms p vs h g shut = (
  (close-IsGone h g shut).1,
  writev-gone h g shut a v p vs,
  readv-gone h g shut a n p,
  usleep-gone h g shut ms,
)
