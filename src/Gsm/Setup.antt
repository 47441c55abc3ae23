-- ===== src/Gsm/Setup.antt =====
-- GSMSHIELD/GSM.cpp: the commands that set the module up.
use bbd.Prelude.{
  ℕ, zero, suc, Bool, true, false, not, ◌&&◌, ◌||◌, Option, some, List, [], ◌∷◌, leb, ◌==◌,
  if◌then◌else◌, ◌>>=◌,
}
use bbd.Gsm.State.{
  AtResp, at_resp_err_no_resp, at_resp_err_dif_resp, at_resp_ok, sent_text, sent_number, delayed,
  baud, power_pin, Gsm, CommLineStatus, cls_free, cls_atcmd, cls_data, idle, ready,
}
use bbd.Gsm.Receive.{wait_resp}
use bbd.Gsm.Command.{put, send_at_cmd_wait_resp, send_flash_cmd_wait_resp}

-- "OK", "SHUT OK" and "+CPMS:" in ASCII.
abbrev pub ok_text : List ℕ
ok_text = 79 ∷ 75 ∷ []

abbrev pub shut_ok_text : List ℕ
shut_ok_text = 83 ∷ 72 ∷ 85 ∷ 84 ∷ 32 ∷ 79 ∷ 75 ∷ []

abbrev pub cpms_text : List ℕ
cpms_text = 43 ∷ 67 ∷ 80 ∷ 77 ∷ 83 ∷ 58 ∷ []

abbrev pub set_comm_line_status : CommLineStatus → Gsm → Gsm
set_comm_line_status new_status g = record g { comm_line_status = new_status }

-- The command "AT", as begin sends it.
abbrev probe : Gsm → Option (Gsm × AtResp)
probe = send_at_cmd_wait_resp "AT" 500 100 ok_text 5

unfoldable pub echo : ℕ → Gsm → Gsm
echo state g =
    if state == 0 || state == 1
    then set_comm_line_status cls_free (
        put (delayed 500) (
          put (sent_text "\r")
            (put (sent_number state) (put (sent_text "ATE") (set_comm_line_status cls_atcmd g)))))
    else g

abbrev is_ok : AtResp → Bool
is_ok at_resp_ok = true
is_ok at_resp_err_dif_resp = false
is_ok at_resp_err_no_resp = false

abbrev is_no_resp : AtResp → Bool
is_no_resp at_resp_err_no_resp = true
is_no_resp at_resp_ok = false
is_no_resp at_resp_err_dif_resp = false

abbrev is_dif_resp : AtResp → Bool
is_dif_resp at_resp_err_dif_resp = true
is_dif_resp at_resp_ok = false
is_dif_resp at_resp_err_no_resp = false

-- The result of InitSMSMemory.
pub data SmsMemory : Type 0 where
  line_busy not_initialized initialized : SmsMemory

abbrev init_on_free_line : Gsm → Option (Gsm × SmsMemory)
init_on_free_line g = do
  off ← send_at_cmd_wait_resp "AT+CNMI=2,0" 1000 50 ok_text 2 (set_comm_line_status cls_atcmd g)
  chosen ← send_at_cmd_wait_resp "AT+CPMS=\"SM\",\"SM\",\"SM\"" 1000 1000 cpms_text 10 off.0
  some (
    set_comm_line_status cls_free chosen.0,
    if is_ok chosen.1 then initialized else not_initialized,
  )

unfoldable pub init_sms_memory : Gsm → Option (Gsm × SmsMemory)
init_sms_memory g = elim g.comm_line_status [
  | cls_free ↦ init_on_free_line g
  | cls_atcmd ↦ some (g, line_busy)
  | cls_data ↦ some (g, line_busy)
]

-- InitParam for PARAM_SET_0.
unfoldable pub init_param_0 : Gsm → Option Gsm
init_param_0 g = do
  reset ← send_at_cmd_wait_resp "AT&F" 1000 50 ok_text 5 (set_comm_line_status cls_atcmd g)
  quiet ← send_at_cmd_wait_resp "ATE0" 500 50 ok_text 5 reset.0
  some (set_comm_line_status cls_free quiet.0)

-- InitParam for PARAM_SET_1.
unfoldable pub init_param_1 : Gsm → Option Gsm
unfolding init_sms_memory
init_param_1 g = do
  clip ← send_flash_cmd_wait_resp "AT+CLIP=1" 500 50 ok_text 5 (set_comm_line_status cls_atcmd g)
  cmee ← send_flash_cmd_wait_resp "AT+CMEE=0" 500 50 ok_text 5 clip.0
  cmgf ← send_flash_cmd_wait_resp "AT+CMGF=1" 500 50 ok_text 5 cmee.0
  sms ← init_sms_memory (set_comm_line_status cls_free cmgf.0)
  cpbs ← send_flash_cmd_wait_resp "AT+CPBS=\"SM\"" 1000 50 ok_text 5 sms.0
  shut ← send_flash_cmd_wait_resp "AT+CIPSHUT" 500 50 shut_ok_text 5 cpbs.0
  some shut.0

-- The first loop of begin, with `rounds` left: an answer of either kind is followed by a wait.
check_power : ℕ → Gsm → Option Gsm
check_power zero g = some g
check_power (suc rounds) g = do
  sent ← probe g
  elim (is_no_resp sent.1) [
    | true ↦ check_power rounds sent.0
    | false ↦ wait_resp 1000 1000 sent.0 >>= λ end. check_power rounds end.0
  ]

abbrev rates : List ℕ
rates = 1200 ∷ 2400 ∷ 4800 ∷ 9600 ∷ 19200 ∷ 38400 ∷ 57600 ∷ 115200 ∷ []

-- The loop over the rates, up to the first at which the module answers; the result is `turnedON`.
auto_baud_rate : ℕ → List ℕ → Gsm → Option (Gsm × Bool)
auto_baud_rate baud_rate [] g = some (g, false)
auto_baud_rate baud_rate (r ∷ rs) g = do
  sent ← probe (put (delayed 100) (put (baud r) g))
  elim (is_ok sent.1) [
    | false ↦ auto_baud_rate baud_rate rs sent.0
    | true ↦
        probe (
          put (delayed 100) (
            put (baud baud_rate) (
              put (delayed 500) (
                put (sent_text "\r")
                  (put (sent_number baud_rate) (put (sent_text "AT+IPR=") sent.0))))))
        >>= λ again. some (again.0, true)
  ]

-- The second loop over the rates, each of its eight cases.
force_baud_rate : List ℕ → Gsm → Option Gsm
force_baud_rate [] g = some g
force_baud_rate (r ∷ rs) g = do
  sent ← probe (
      put (delayed 1000) (
        put (baud 9600) (
          put (delayed 1000)
            (put (sent_text "AT+IPR=9600\r") (put (delayed 1000) (put (baud r) g))))))
  end ← wait_resp 1000 1000 (put (delayed 1000) sent.0)
  force_baud_rate rs end.0

-- A module of a wrong rate is searched for where it answers, and otherwise left as it is.
find_rate : ℕ → (Gsm × AtResp) → Bool → Option (Gsm × Bool)
unfolding auto_baud_rate
find_rate baud_rate (g, answer) turned_on = elim (is_dif_resp answer && not turned_on) [
  | false ↦ some (g, turned_on)
  | true ↦
      auto_baud_rate baud_rate rates g >>= λ end. some (set_comm_line_status cls_free end.0, end.1)
]

-- The end of begin for a module that does not answer.
give_up : Gsm → Option (Gsm × ℕ)
unfolding force_baud_rate
give_up g = do
  end ← force_baud_rate rates g
  some (
    put (delayed 10000) (put (power_pin false) (put (delayed 1200) (put (power_pin true) end))),
    0,
  )

-- Its end for one that does.
configure : Gsm → Option (Gsm × ℕ)
configure g = do
  end ← wait_resp 50 50 (set_comm_line_status cls_free g)
  set_0 ← init_param_0 end.0
  set_1 ← init_param_1 set_0
  some (record (echo 0 set_1) { status = ready }, 1)

-- `begin`, for an UNO: 115200 baud becomes 9600. `norep` is false only where `turnedON` is true, so
-- the last branch of the code is not reached.
unfoldable pub begin : ℕ → Gsm → Option (Gsm × ℕ)
unfolding check_power find_rate give_up configure
begin asked g = do
  let baud_rate = if asked == 115200 then 9600 else asked
  powered ←
      check_power 3
        (record (put (baud baud_rate) (set_comm_line_status cls_atcmd g)) { status = idle })
  first ← probe powered
  second ← probe first.0
  rate ← find_rate baud_rate second (is_ok first.1)
  if rate.1 then configure rate.0 else give_up rate.0

-- Whether every character is a dot or a digit.
unfoldable pub is_ip : List ℕ → ℕ
is_ip [] = 1
is_ip (c ∷ cadena) = if c == 46 || (leb 48 c && leb c 57) then is_ip cadena else 0
