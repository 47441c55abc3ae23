-- ===== src/Gsm/Command/Attempts.antt =====
-- GSM.cpp, SendATCmdWaitResp: what the result says of the buffer.
use Prim.Native.String.{String}
use bbd.Prelude.{ℕ, zero, suc, ◌+◌, ◌≡◌, refl, true, ◌≢◌, Option, some, List, >>=-eq-some, arith}
use bbd.Gsm.State.{
  RxResult, rx_finished, AtResp, at_resp_err_no_resp, at_resp_err_dif_resp, at_resp_ok, Gsm,
}
use bbd.Gsm.Receive.{is_string_received, wait_resp}
use bbd.Gsm.Command.{judge, attempts, send_attempt, send_flash_cmd_wait_resp}

judge-ok :
    (response : List ℕ) (end : Gsm × RxResult)
    → judge response end ≡ at_resp_ok
    → is_string_received response end.0 ≡ true
unfolding judge
judge-ok response (g, rx_finished) h = ground arith
judge-ok response (g, _) h = cc

-- What the loop does with one reception.
abbrev next : String → ℕ → ℕ → List ℕ → (i rounds : ℕ) → Gsm × RxResult → Option (Gsm × AtResp)
next cmd start_tmout interchar response i rounds end = elim (judge response end) [
  | at_resp_ok ↦ some (end.0, at_resp_ok)
  | at_resp_err_dif_resp ↦
      attempts cmd start_tmout interchar response (i + 1) rounds at_resp_err_dif_resp end.0
  | at_resp_err_no_resp ↦
      attempts cmd start_tmout interchar response (i + 1) rounds at_resp_err_no_resp end.0
]

attempts-ok :
    (cmd : String) (start_tmout interchar : ℕ) (response : List ℕ) (i rounds : ℕ) (ret_val : AtResp)
    (g g' : Gsm)
    → ret_val ≢ at_resp_ok
    → attempts cmd start_tmout interchar response i rounds ret_val g ≡ some (g', at_resp_ok)
    → is_string_received response g' ≡ true
unfolding attempts
attempts-ok cmd start_tmout interchar response i zero ret_val g g' h e = absurd (h cc)
attempts-ok cmd start_tmout interchar response i (suc rounds) ret_val g g' h e =
    let (end, _, e') =
      >>=-eq-some (wait_resp start_tmout interchar (send_attempt cmd i g))
        (next cmd start_tmout interchar response i rounds) e in
    judged end
      (λ r h' q. attempts-ok cmd start_tmout interchar response (i + 1) rounds r end.0 g' h' q)
      (judge response end) refl e'
  where
    judged :
        (end : Gsm × RxResult)
        → ((r : AtResp)
            → r ≢ at_resp_ok
            → attempts cmd start_tmout interchar response (i + 1) rounds r end.0
              ≡ some (g', at_resp_ok)
            → is_string_received response g' ≡ true)
        → (r : AtResp) → judge response end ≡ r
        → next cmd start_tmout interchar response i rounds end ≡ some (g', at_resp_ok)
        → is_string_received response g' ≡ true
    judged end again at_resp_ok j e' = ground (arith, judge-ok response end j)
    judged end again at_resp_err_dif_resp j e' = again at_resp_err_dif_resp (λ q. cc) (ground arith)
    judged end again at_resp_err_no_resp j e' = again at_resp_err_no_resp (λ q. cc) (ground arith)

-- Where a command from flash memory ends with AT_RESP_OK, the buffer of then has the expected
-- string in it.
pub send_flash_cmd_wait_resp-ok :
    (cmd : String) (start_tmout interchar : ℕ) (response : List ℕ) (no_of_attempts : ℕ) (g g' : Gsm)
    → send_flash_cmd_wait_resp cmd start_tmout interchar response no_of_attempts g
      ≡ some (g', at_resp_ok)
    → is_string_received response g' ≡ true
unfolding send_flash_cmd_wait_resp
send_flash_cmd_wait_resp-ok cmd start_tmout interchar response no_of_attempts g g' e =
    attempts-ok cmd start_tmout interchar response 0 no_of_attempts at_resp_err_no_resp g g'
      (λ q. cc) e
