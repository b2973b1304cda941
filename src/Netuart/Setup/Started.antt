-- ===== src/Netuart/Setup/Started.antt =====
-- What main of netuart has set up where it comes to its loop.
use mathlib.Core.List.{append_assoc}
use dbgbus.Base.{false, true, length, ℕ, ◌≡◌, sym, ap, ◌∙◌, true, some, List, [], ◌∷◌, ◌++◌, arith}
use dbgbus.Outcome.{ok}
use dbgbus.Comms.Opening.{is_terminal}
use dbgbus.System.{
  ask, Call, Answer, fails, gives, attributes, ends, Termios, System, socket, reuse_address,
  bind_any, listen, ignore_sigpipe, handle, sigstop, sigbus, sigsegv, sigint, sighup, open_device,
  isatty, tcgetattr, tcsetattr, tcflow,
}
use dbgbus.System.Made.{Gives, result-Gives, bound-Gives, then_ask, then_must, then_quit}
use dbgbus.Netuart.Setup.{
  setup_listener, set_signals, device, speed, framed, got_attributes, setup_tty, open_both,
}

-- The rate that is set is the one that is asked for.
speed-faithful : (baud r : ℕ) → speed baud ≡ some r → r ≡ baud
unfolding speed
speed-faithful baud r e = ground arith

abbrev listening : ℕ → ℕ → List Call
listening port skt = socket ∷ reuse_address skt ∷ bind_any skt port ∷ listen skt 1 ∷ []

setup_listener-Gives :
    (port : ℕ) (w : System)
    → Gives
        (λ skt v. (v.calls ≡ w.calls ++ listening port skt) × (v.answers ≡ w.answers))
        (setup_listener port w)
unfolding setup_listener
setup_listener-Gives port w =
    let P = λ (skt : ℕ) (v : System).
      (v.calls ≡ w.calls ++ listening port skt) × (v.answers ≡ w.answers) in
    then_must P socket w _ λ skt a (m1, s1, _).
      then_must P (reuse_address skt) a _ λ x b (m2, s2, _).
        then_must P (bind_any skt port) b _ λ y c (m3, s3, _).
          then_must P (listen skt 1) c _
            λ z d (m4, s4, _). (simp (m4, m3, m2, m1, append_assoc), s4 ∙ s3 ∙ s2 ∙ s1)

abbrev pub handled : List Call
handled =
    handle sigstop
    ∷ handle sigbus
    ∷ handle sigsegv
    ∷ ignore_sigpipe
    ∷ handle sigint
    ∷ handle sighup
    ∷ []

set_signals-Gives :
    (w : System)
    → Gives (λ u v. (v.calls ≡ w.calls ++ handled) × (v.answers ≡ w.answers)) (set_signals w)
unfolding set_signals ask
set_signals-Gives w = (simp append_assoc, λ i. w.answers)

got_attributes-some : (a : Answer) (tb : Termios) → got_attributes a ≡ some tb → a ≡ attributes tb
got_attributes-some fails tb e = cc
got_attributes-some (gives n) tb e = cc
got_attributes-some (attributes t) tb e = cc
got_attributes-some (ends r w) tb e = cc

module _ (cfmakeraw : Termios → Termios) where
  -- The calls that set up a terminal with the attributes `tb`: raw, with eight bits, one stop bit,
  -- no flow control, and the rate asked for.
  abbrev pub sets_up : ℕ → ℕ → Termios → List Call
  sets_up baud tty tb =
      tcgetattr tty
      ∷ tcsetattr tty (record (cfmakeraw tb) {
        crtscts = false;
        cstopb = false;
        csize = 8;
        ispeed = baud;
        ospeed = baud;
      })
      ∷ tcflow tty
      ∷ []

  abbrev IsSetUp : ℕ → ℕ → System → System → Type 0
  IsSetUp baud tty w v =
      (tb : Termios) × (w.answers (length w.calls) ≡ attributes tb)
      × (v.calls ≡ w.calls ++ sets_up baud tty tb)

  setup_tty-Gives :
      (baud tty : ℕ) (w : System) → Gives (λ _. IsSetUp baud tty w) (setup_tty cfmakeraw baud tty w)
  unfolding setup_tty
  setup_tty-Gives baud tty w =
      let P = λ (u : Unit {0}). IsSetUp baud tty w in
      then_ask P (tcgetattr tty) w _ λ a w1 (m1, _, e). then_quit P (got_attributes a) w1 _ λ tb g.
        then_quit P (speed baud) w1 _ λ rate r.
          then_ask P (tcsetattr tty (framed rate (cfmakeraw tb))) w1 _ λ b w2 (m2, _, _).
            then_ask P (tcflow tty) w2 _ λ c w3 (m3, _, _). (
              tb,
              e ∙ got_attributes-some a tb g,
              simp (m3, m2, m1, append_assoc, speed-faithful baud rate r),
            )

  -- What has been done where main comes to its loop, with a terminal.
  abbrev Started : ℕ → ℕ → List (List ℕ) → (ℕ → Answer) → ℕ × ℕ → System → Type 0
  Started port baud args f (skt, tty) v =
      (dev : List ℕ) × (tb : Termios) × (device args ≡ some dev)
      × (f 12 ≡ attributes tb)
      × (v.calls
          ≡ listening port skt ++ handled ++ open_device dev ∷ isatty tty ∷ sets_up baud tty tb)

  open_both-Gives :
      (port baud : ℕ) (args : List (List ℕ)) (f : ℕ → Answer)
      → is_terminal (f 11) ≡ true
      → Gives
          (Started port baud args f)
          (open_both cfmakeraw port baud args (record { answers = f; calls = [] }))
  unfolding open_both
  open_both-Gives port baud args f t =
      let P = Started port baud args f in
      let w : System = record { answers = f; calls = [] } in
      bound-Gives P _ (setup_listener port w) _ (setup_listener-Gives port w) λ skt w0 (m0, s0).
        bound-Gives P _ (set_signals w0) _ (set_signals-Gives w0) λ u0 w1 (m1', s1').
          let m1 : w1.calls ≡ listening port skt ++ handled = m1' ∙ ap (λ o. o ++ handled) m0 in
          let s1 = s1' ∙ s0 in
          then_quit P (device args) w1 _ λ dev d.
            then_must P (open_device dev) w1 _ λ tty w2 (m2, s2, _).
              then_ask P (isatty tty) w2 _ λ a w3 (m3, s3, e3).
                let size : length w2.calls ≡ 11 =
                  ap length (m2 ∙ ap (λ o. o ++ open_device dev ∷ []) m1) in
                let here : is_terminal a ≡ true =
                  ap is_terminal (sym e3 ∙ ap w2.answers size ∙ ap (λ g. g 11) (s2 ∙ s1)) ∙ t in
                let made : w3.calls
                    ≡ listening port skt ++ handled ++ open_device dev ∷ isatty tty ∷ [] =
                  m3
                  ∙ ap (λ o. o ++ isatty tty ∷ []) (m2 ∙ ap (λ o. o ++ open_device dev ∷ []) m1) in
                rw here (
                  bound-Gives P (λ _. IsSetUp baud tty w3) (setup_tty cfmakeraw baud tty w3) _
                    (setup_tty-Gives baud tty w3)
                    λ u v (tb, g, m). (
                      dev,
                      tb,
                      d,
                      ap (λ q. q 12) (sym (s3 ∙ s2 ∙ s1))
                          ∙ ap w3.answers (sym (ap length made))
                          ∙ g,
                      m ∙ ap (λ o. o ++ sets_up baud tty tb) made,
                    ))

  -- If main of netuart comes to its loop and the device is a terminal, whatever the operating
  -- system answers: it has made a socket, had its address reused, bound it to the port and
  -- listened; it has set its handlers of SIGSTOP, SIGBUS, SIGSEGV, SIGINT and SIGHUP, and had
  -- SIGPIPE ignored; then it has opened the device that its arguments ask for, and given it the
  -- attributes that it had, made raw, with eight bits, one stop bit, no flow control and the rate
  -- asked for in both directions; and it has made no other of these calls.
  pub open_both-calls :
      (port baud skt tty : ℕ) (args : List (List ℕ)) (f : ℕ → Answer) (v : System)
      → is_terminal (f 11) ≡ true
      → open_both cfmakeraw port baud args (record { answers = f; calls = [] }) ≡ (ok (skt, tty), v)
      → (dev : List ℕ) × (tb : Termios) × (device args ≡ some dev)
        × (f 12 ≡ attributes tb)
        × (v.calls
            ≡ listening port skt ++ handled ++ open_device dev ∷ isatty tty ∷ sets_up baud tty tb)
  open_both-calls port baud skt tty args f v t e =
      result-Gives (Started port baud args f) _ (skt, tty) v (open_both-Gives port baud args f t) e
