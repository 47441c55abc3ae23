-- ===== src/Gsm/Modem/Silent.antt =====
-- SIM900.cpp and inetGSM.cpp: what the functions make of a module that sends nothing.
use Prim.Native.String.{String}
use bbd.Prelude.{ℕ, ◌≤◌, ◌≡◌, refl, ◌∙◌, false, true, some, List, [], ◌∷◌, ◌++◌, All}
use bbd.Text.{codes, negsuc}
use bbd.Gsm.State.{
  Gsm, Poll, Output, sent_line, sent_text, rx_tmout_err, error, idle, ready, tcpconnectedserver,
}
use bbd.Gsm.Receive.{elapsed, rx_init, wait_resp_for}
use bbd.Gsm.Receive.Bounds.{wait_resp-silent}
use bbd.Gsm.Command.{put}
use bbd.Gsm.Gprs.{connected_client, attach_gprs}
use bbd.Gsm.Modem.{set_pin}
use bbd.Gsm.Phone.{ForceOn, force_on}

module _ (now : ℕ) (ps : List Poll) (p : Poll) (g : Gsm)
    (line : g.line ≡ (record { now_init = now; polls = ps ++ p ∷ [] }) ∷ [])
    (silent : All (λ q. q.seen ≡ false) ps) (last : p.seen ≡ false)
    (late : 5000 ≤ elapsed p.now_wait now) where
  wait_resp_for-silent :
      (interchar_tmout : ℕ) (expected : List ℕ) (g' : Gsm)
      → g'.line ≡ g.line
      → wait_resp_for 5000 interchar_tmout expected g'
        ≡ some (rx_init now 5000 interchar_tmout (record g' { line = [] }), rx_tmout_err)
  unfolding wait_resp_for
  wait_resp_for-silent interchar_tmout expected g' e =
      rw (wait_resp-silent 5000 interchar_tmout now ps p [] g' (e ∙ line) silent last late) refl

  -- The module has been told this, and nothing has come.
  abbrev after : Output → Gsm → Gsm
  after told g' = rx_init now 5000 50 (record g' { output = told ∷ g'.output; line = [] })

  -- A module that sends nothing: once the clock is five seconds on, each of these four ends, three
  -- of them with a bug. connectedClient reports a client and takes the state of one, setPIN returns the 0 that
  -- stands for an answer OK, attachGPRS returns -2 and takes the state of an error, as it should, and forceON,
  -- which is there for such a module, writes outside its buffer. For setPIN the state before is
  -- IDLE, for attachGPRS it is READY.
  pub connected_client-silent :
      (pin : String)
      → (connected_client g
          ≡ some
              (record (after (sent_line "AT+CIPSTATUS") g) { status = tcpconnectedserver }, true))
        × (set_pin pin (record g { status = idle })
            ≡ some (
              after
                  (sent_line pin)
                  (record g { status = idle; output = sent_text "AT+CPIN=" ∷ g.output }),
              0,
            ))
        × (attach_gprs (record g { status = ready })
            ≡ some (record (after (sent_line "AT+CGATT=1") g) { status = error }, negsuc 1))
        × (force_on g ≡ some ForceOn.fault)
  unfolding connected_client set_pin attach_gprs force_on rx_init
  connected_client-silent pin = (
    rw (wait_resp_for-silent 50 (codes "CONNECT OK") (put (sent_line "AT+CIPSTATUS") g) refl) refl,
    rw
        (wait_resp_for-silent 50 (codes "OK")
          (put (sent_line pin) (put (sent_text "AT+CPIN=") (record g { status = idle }))) refl)
        refl,
    rw
        (wait_resp_for-silent 50 (codes "OK")
          (put (sent_line "AT+CGATT=1") (record g { status = ready })) refl)
        refl,
    rw (wait_resp_for-silent 100 (codes "OK") (put (sent_line "AT+CREG?") g) refl) refl,
  )
