-- ===== src/Gsm/Command.antt =====
-- GSMSHIELD/GSM.cpp: an AT command is sent until the module answers with the expected string.
pub mod Attempts
use Prim.Native.String.{String}
use bbd.Prelude.{
  ℕ, zero, suc, ◌+◌, Bool, Option, none, some, List, [], ◌∷◌, ltb, if◌then◌else◌, ◌>>=◌,
}
use bbd.Gsm.State.{
  RxResult, rx_not_finished, rx_finished, rx_finished_str_recv, rx_finished_str_not_recv,
  rx_tmout_err, AtResp, at_resp_err_no_resp, at_resp_err_dif_resp, at_resp_ok, Output, sent_line,
  delayed, Gsm,
}
use bbd.Gsm.Receive.{wait_resp, is_string_received}

abbrev pub put : Output → Gsm → Gsm
put o g = record g { output = o ∷ g.output }

-- What one reception counts as.
unfoldable pub judge : List ℕ → Gsm × RxResult → AtResp
judge response (g, rx_finished) =
    if is_string_received response g then at_resp_ok else at_resp_err_dif_resp
judge response (g, rx_not_finished) = at_resp_err_no_resp
judge response (g, rx_finished_str_recv) = at_resp_err_no_resp
judge response (g, rx_finished_str_not_recv) = at_resp_err_no_resp
judge response (g, rx_tmout_err) = at_resp_err_no_resp

-- Half a second passes before every attempt but the first.
abbrev pub send_attempt : String → ℕ → Gsm → Gsm
send_attempt cmd i g = put (sent_line cmd) (if ltb 0 i then put (delayed 500) g else g)

-- The `for` loop from attempt `i` on, with `rounds` left; `ret_val` is what it has so far.
unfoldable pub attempts :
    String → ℕ → ℕ → List ℕ → (i rounds : ℕ) → AtResp → Gsm → Option (Gsm × AtResp)
unfolding judge
attempts cmd start_tmout interchar response i zero ret_val g = some (g, ret_val)
attempts cmd start_tmout interchar response i (suc rounds) ret_val g = do
  end ← wait_resp start_tmout interchar (send_attempt cmd i g)
  elim (judge response end) [
    | at_resp_ok ↦ some (end.0, at_resp_ok)
    | at_resp_err_dif_resp ↦
        attempts cmd start_tmout interchar response (i + 1) rounds at_resp_err_dif_resp end.0
    | at_resp_err_no_resp ↦
        attempts cmd start_tmout interchar response (i + 1) rounds at_resp_err_no_resp end.0
  ]

-- The command in flash memory.
unfoldable pub send_flash_cmd_wait_resp : String → ℕ → ℕ → List ℕ → ℕ → Gsm → Option (Gsm × AtResp)
unfolding attempts
send_flash_cmd_wait_resp cmd start_tmout interchar response no_of_attempts =
    attempts cmd start_tmout interchar response 0 no_of_attempts at_resp_err_no_resp

-- The command as a char const*: behind the attempts one more reception is awaited, which empties the
-- buffer.
unfoldable pub send_at_cmd_wait_resp : String → ℕ → ℕ → List ℕ → ℕ → Gsm → Option (Gsm × AtResp)
unfolding attempts
send_at_cmd_wait_resp cmd start_tmout interchar response no_of_attempts g = do
  sent ← attempts cmd start_tmout interchar response 0 no_of_attempts at_resp_err_no_resp g
  end ← wait_resp 1000 5000 sent.0
  some (end.0, sent.1)
