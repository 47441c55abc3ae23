-- ===== src/Gsm/Modem.antt =====
-- GSMSHIELD/SIM900.cpp: commands for the card, calls and the registration in the network.
pub mod Registration
pub mod Silent
pub mod Report
use Prim.Native.String.{String}
use bbd.Prelude.{
  ℕ, ◌==◌, Bool, true, false, ◌||◌, Option, none, some, List, [], ◌∷◌, if◌then◌else◌, ◌>>=◌,
}
use bbd.Text.{codes}
use bbd.Gsm.State.{
  RxResult, rx_not_finished, rx_finished, rx_finished_str_recv, rx_finished_str_not_recv,
  rx_tmout_err, sent_line, sent_text, sent_number, delayed, Gsm, GsmStatus, error, idle, ready,
  attached, tcpserverwait, tcpconnectedserver, tcpconnectedclient, CommLineStatus, cls_free,
  cls_atcmd, cls_data,
}
use bbd.Gsm.Receive.{wait_resp, wait_resp_for, is_string_received}
use bbd.Gsm.Command.{put}
use bbd.Gsm.Setup.{set_comm_line_status, init_param_1}
use bbd.Gsm.Gprs.{put_number_line, is_idle}

abbrev pub str_not_recv : RxResult → Bool
str_not_recv rx_finished_str_not_recv = true
str_not_recv rx_not_finished = false
str_not_recv rx_finished = false
str_not_recv rx_finished_str_recv = false
str_not_recv rx_tmout_err = false

-- `!= RX_FINISHED_STR_NOT_RECV` gives 0, also where nothing came.
abbrev pub answer_number : Gsm → Option (Gsm × ℕ)
answer_number g = do
  end ← wait_resp_for 5000 50 (codes "OK") g
  some (end.0, if str_not_recv end.1 then 1 else 0)

unfoldable pub set_pin : (pin : String) → Gsm → Option (Gsm × ℕ)
set_pin pin g = elim (is_idle g.status) [
  | false ↦ some (g, 2)
  | true ↦ answer_number (put (sent_line pin) (put (sent_text "AT+CPIN=") g))
]

-- The char is written as its number.
unfoldable pub change_nsip_mode : (mode : ℕ) → Gsm → Option (Gsm × ℕ)
change_nsip_mode mode g = answer_number (put_number_line mode (put (sent_text "AT+QIDNSIP=") g))

unfoldable pub call : (number : String) → (milliseconds : ℕ) → Gsm → Gsm × Bool
call number milliseconds g = elim (is_idle g.status) [
  | true ↦ (g, false)
  | false ↦ (
    put (sent_line "ATH") (
        put (delayed milliseconds)
          (put (sent_line ";") (put (sent_text number) (put (sent_text "ATD") g)))),
    true,
  )
]

-- The bits STATUS_INITIALIZED and STATUS_REGISTERED of module_status.
pub record ModuleStatus : Type 0 where
  pub initialized : Bool
  pub registered : Bool

pub data RegistrationRetVal : Type 0 where
  reg_not_registered reg_registered reg_no_response reg_comm_line_busy : RegistrationRetVal

pub record Checked : Type 0 where
  pub module_status : ModuleStatus
  pub gsm : Gsm
  pub ret_val : RegistrationRetVal

-- The end of CheckRegistration.
abbrev freed : ModuleStatus → Gsm → RegistrationRetVal → Option Checked
freed status g ret_val =
    some
      (record { module_status = status; gsm = set_comm_line_status cls_free g; ret_val = ret_val })

-- The first registration sends the commands that need it.
abbrev registered_now : ModuleStatus → Gsm → Option Checked
registered_now status g = elim status.initialized [
  | true ↦ freed (record status { registered = true }) g reg_registered
  | false ↦ init_param_1 (set_comm_line_status cls_free g) >>= λ g'.
      freed (record { initialized = true; registered = true }) g' reg_registered
]

abbrev is_registered_received : Gsm → Bool
is_registered_received g =
    is_string_received (codes "+CREG: 0,1") g || is_string_received (codes "+CREG: 0,5") g

abbrev answered : Bool → ModuleStatus → Gsm → Option Checked
answered true status g = registered_now status g
answered false status g = freed (record status { registered = false }) g reg_not_registered

abbrev on_answer : ModuleStatus → Gsm × RxResult → Option Checked
on_answer status (g, rx_finished) = answered (is_registered_received g) status g
on_answer status (g, rx_not_finished) = freed status g reg_no_response
on_answer status (g, rx_finished_str_recv) = freed status g reg_no_response
on_answer status (g, rx_finished_str_not_recv) = freed status g reg_no_response
on_answer status (g, rx_tmout_err) = freed status g reg_no_response

abbrev ask_registration : ModuleStatus → Gsm → Option Checked
ask_registration status g = do
  end ← wait_resp 5000 50 (put (sent_line "AT+CREG?") (set_comm_line_status cls_atcmd g))
  on_answer status end

abbrev busy : ModuleStatus → Gsm → Option Checked
busy status g = some (record { module_status = status; gsm = g; ret_val = reg_comm_line_busy })

-- The test of the line.
abbrev on_line : CommLineStatus → ModuleStatus → Gsm → Option Checked
on_line cls_free status g = ask_registration status g
on_line cls_atcmd status g = busy status g
on_line cls_data status g = busy status g

unfoldable pub check_registration : ModuleStatus → Gsm → Option Checked
check_registration status g = on_line g.comm_line_status status g
