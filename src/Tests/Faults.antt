-- ===== src/Tests/Faults.antt =====
-- Bus errors at concrete inputs.
use dbgbus.Base.{suc, ◌≡◌, refl, true, false, none, some, List, [], ◌∷◌, ◌++◌, arith, length}
use dbgbus.Outcome.{ok, bus_error, thrown, aborted}
use dbgbus.Outcome.Ends.{Ends}
use dbgbus.Text.Hex.{hex_value}
use dbgbus.Text.Strings.{codes}
use dbgbus.Comms
use dbgbus.Comms.{byte, closed}
use dbgbus.Devbus.{hexbus}
use dbgbus.Hexbus.Link.{hexb_err, hexb_idle}
use dbgbus.Hexbus.State
use dbgbus.Hexbus.State.{Hexbus, destroy}
use dbgbus.Hexbus.Closing.{destroy-network, close-refuses}
use dbgbus.Hexbus.Receive.{readword, readidle, usleep}
use dbgbus.Hexbus.Receive.Replies.{
  idle, Item, reply, newline, text, settled, holding, unread, with_link, received,
}
use dbgbus.Hexbus.Receive.Words.Errors.{failing, failed, readword-error, readword-third_idle}
use dbgbus.Hexbus.Receive.Idle.Errors.{alarmed, readidle-error}
use dbgbus.Hexbus.Receive.Fuel.{readidle-Ends}
use dbgbus.Hexbus.Transfer.{encode_address, write_command, readv, writev}
use dbgbus.Hexbus.Transfer.Address.{address_word}
use dbgbus.Hexbus.Transfer.Read.{Answer, requests}
use dbgbus.Hexbus.Transfer.Reads.{echo}
use dbgbus.Hexbus.Transfer.Reads.Faults.{faulty_text, Fails}
use dbgbus.Wbregs.Access.{peek, poke, label, name_of}
use dbgbus.Wbregs.Access.Faults.{peek-fault, poke-fault}
use dbgbus.Tests.Bus.{fresh, roomy, echoes}

readword-error_example : readword (unread (text echoes ++ hexb_err ∷ b'\n' ∷ b'K' ∷ []) fresh) ≡ (
  bus_error (settled none echoes fresh.link).lastaddr,
  unread (b'K' ∷ []) (
      with_link
        (failed b'\n' (failing (settled none echoes fresh.link)))
        (received (suc (suc (length (text echoes)))) fresh)),
)
readword-error_example =
    readword-error echoes b'\n' (b'K' ∷ []) fresh (omega arith, (omega arith, (omega arith, tt)))
      (omega arith) (unfold hex_value in refl) refl

abbrev idle_marks : List Item
idle_marks = reply idle ∷ newline ∷ reply idle ∷ newline ∷ []

readword-third_idle_example :
    readword (unread (text idle_marks ++ hexb_idle ∷ b'\n' ∷ b'K' ∷ []) fresh) ≡ (
      bus_error 0,
      unread (b'K' ∷ []) (
          with_link
            (holding (some idle) (settled none idle_marks fresh.link))
            (received (suc (suc (length (text idle_marks)))) fresh)),
    )
readword-third_idle_example =
    readword-third_idle idle_marks b'\n' (b'K' ∷ []) fresh (omega arith, (omega arith, tt))
      (omega arith) (unfold hex_value in refl) refl refl

readidle-error_example : readidle (unread (text echoes ++ hexb_err ∷ b'\n' ∷ b'K' ∷ []) fresh) ≡ (
  bus_error (settled none echoes fresh.link).lastaddr,
  unread (b'K' ∷ []) (
      with_link
        (alarmed (settled none echoes fresh.link))
        (received (suc (suc (length (text echoes)))) (record fresh { last_readidle = true }))),
)
readidle-error_example =
    readidle-error echoes b'\n' (b'K' ∷ []) fresh
      (tt, (tt, omega arith, (tt, omega arith, (tt, (tt, omega arith, tt))))) tt
      (unfold hex_value in refl) refl

abbrev first : Answer
first = record { before = echoes; value = 7 }

readidle-Ends_example : Ends (readidle fresh).0
readidle-Ends_example = readidle-Ends fresh

peek-fault_example :
    (g : Hexbus) × (peek hexbus [] true 0x2048
        (record { bus = unread (faulty_text [] echoes) fresh; out = []; err = [] })
      ≡ (
        ok none,
        record { bus = g; out = label 0x2048 (name_of 0x2048) ++ codes " : BUS-ERROR\n"; err = [] },
      ))
    × Fails fresh.dev (encode_address (address_word 0x2048 false) fresh.link ++ requests 1) g
peek-fault_example =
    peek-fault [] [] [] true 0x2048 echoes fresh (omega arith, (omega arith, (omega arith, tt)))
      (omega arith) roomy refl

poke-fault_example :
    let head = encode_address (address_word 0x2048 false) fresh.link in
    (g : Hexbus) × (poke hexbus [] 0x2048 5 (record {
      bus =
          unread
            (text (echo head (address_word 0x2048 false) ++ newline ∷ []) ++ hexb_err ∷ b'\n' ∷ [])
            fresh;
      out = [];
      err = [];
    })
      ≡ (
        ok (some 1),
        record { bus = g; out = label 0x2048 (name_of 0x2048) ++ codes " : BUS-ERR)R\n"; err = [] },
      ))
    × Fails fresh.dev (head ++ write_command 5) g
poke-fault_example =
    poke-fault [] [] [] 0x2048 5 (newline ∷ []) fresh (omega arith) refl tt roomy refl

abbrev network : Hexbus
network = record fresh {
  dev = Comms.attach 3 (Comms.init false (byte b'I' ∷ closed ∷ []) (λ n. 64));
}

destroy-network_example :
    (g : Hexbus) × (destroy network ≡ (ok tt, g)) × (g.dev.released ≡ 3 ∷ 3 ∷ [])
unfolding Comms.attach Comms.init
destroy-network_example = destroy-network 3 (closed ∷ []) network refl refl refl refl

abbrev shut : Hexbus
shut = (State.close network).1

close-refuses_run : State.close network ≡ (ok tt, shut)
unfolding State.close Comms.virtual_close Comms.net_close Comms.attach Comms.init
close-refuses_run = refl

close-refuses_example :
    (shut.dev.output ≡ network.dev.output)
    × (writev 0x2048 true (5 ∷ []) shut ≡ (
      thrown,
      record shut { link = record shut.link { lastaddr = 0x2048; addr_set = true; nacks = 0 } },
    ))
    × (readv 0x2048 true 2 shut ≡ (
      aborted,
      record shut { link = record shut.link { lastaddr = 0x2048; addr_set = true; inc = true } },
    ))
    × (usleep 200 shut ≡ (ok tt, shut))
close-refuses_example = close-refuses 0x2048 5 1 200 true [] network shut close-refuses_run
