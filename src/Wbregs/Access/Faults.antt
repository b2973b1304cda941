-- ===== src/Wbregs/Access/Faults.antt =====
-- wbregs over HEXBUS, when the target answers with a bus error.
use dbgbus.Base.{ℕ, ◌%◌, ◌^◌, ◌<◌, ◌≡◌, Bool, true, false, none, some, List, [], ◌∷◌, ◌++◌}
use dbgbus.Comms.Laws.{IsRoomy}
use dbgbus.Outcome.{ok}
use dbgbus.Text.Strings.{codes}
use dbgbus.Devbus.{hexbus}
use dbgbus.Hexbus.Link.{hexb_err}
use dbgbus.Hexbus.State.{Hexbus}
use dbgbus.Hexbus.Receive.Replies.{Item, text, unread, IsBackground, idles}
use dbgbus.Hexbus.Transfer.{encode_address, write_command}
use dbgbus.Hexbus.Transfer.Address.{address_word}
use dbgbus.Hexbus.Transfer.Position.{IsCalm}
use dbgbus.Hexbus.Transfer.Read.{requests}
use dbgbus.Hexbus.Transfer.Reads.{echo}
use dbgbus.Hexbus.Transfer.Reads.Faults.{Fails, faulty_text, readio-fault}
use dbgbus.Hexbus.Transfer.Writes.Faults.{writeio-fault}
use dbgbus.Wbregs.Access.{peek, poke, label, name_of}

module _ (what out err : List ℕ) where
  -- Where the target answers a read with a bus error, after any replies but data and at most two
  -- idle marks, wbregs prints the address, its name and BUS-ERROR, and goes on to its end; the bus
  -- has sent the address and one request, taken all of the replies, and has its error flag set.
  pub peek-fault :
      (decimal : Bool) (a : ℕ) (is : List Item) (h : Hexbus)
      → IsBackground is
      → idles is < 3
      → IsRoomy h.dev
      → h.isspace_seen ≡ true
      → (g : Hexbus) × (peek hexbus what decimal a
            (record { bus = unread (faulty_text [] is) h; out = out; err = err })
          ≡ (
            ok none,
            record {
              bus = g;
              out = out ++ label a (name_of a) ++ codes " : BUS-ERROR\n";
              err = err;
            },
          ))
        × Fails h.dev (encode_address (address_word a false) h.link ++ requests 1) g
  unfolding peek
  peek-fault decimal a is h b i roomy s =
      let (g, e, f) = readio-fault a is h b i roomy s in (g, rw e, f)

  -- Where the target echoes the address it is sent, if it is sent one, and answers a write to an
  -- aligned address with a bus error, with only interrupts and idle marks before it, wbregs prints
  -- the address, its name and BUS-ERR)R, and exits with status 1; the bus has sent the address and
  -- the command, taken all of the replies, and has its error flag set.
  pub poke-fault :
      (a v : ℕ) (b : List Item) (h : Hexbus)
      → a < 2 ^ 32
      → a % 4 ≡ 0
      → IsCalm b
      → IsRoomy h.dev
      → h.isspace_seen ≡ true
      → let head = encode_address (address_word a false) h.link in
        (g : Hexbus) × (poke hexbus what a v (record {
          bus = unread (text (echo head (address_word a false) ++ b) ++ hexb_err ∷ b'\n' ∷ []) h;
          out = out;
          err = err;
        })
          ≡ (
            ok (some 1),
            record {
              bus = g;
              out = out ++ label a (name_of a) ++ codes " : BUS-ERR)R\n";
              err = err;
            },
          ))
        × Fails h.dev (head ++ write_command v) g
  unfolding poke
  poke-fault a v b h fits aligned c roomy s =
      let (g, e, f) = writeio-fault a fits aligned v b h c roomy s in (g, rw e, f)
