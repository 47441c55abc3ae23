-- ===== src/Tests/Modem.antt =====
-- The theorems on the GSM module's commands, for a module that answers once or never.
use bbd.Prelude.{
  ℕ, Option, none, ◌≡◌, refl, true, false, some, [], ◌∷◌, ◌++◌, arith, leb, ◌&&◌, not, ◌==◌, All,
}
use bbd.Text.{codes, pos, negsuc}
use bbd.Gsm.State.{
  Gsm, Poll, rx_already_started, cls_free, cls_atcmd, cls_data, ready, error, tcpconnectedserver,
  sent_line, sent_text,
}
use bbd.Gsm.Action.{http_rsp_code}
use bbd.Gsm.Action.Code.{status_line, with_lines, IsPlain, http_rsp_code-response}
use bbd.Gsm.Network.{register, config_and_wait}
use bbd.Gsm.Receive.{wait_resp_for, rx_init, wait_resp, is_string_received}
use bbd.Gsm.Gprs.{connected_client, attach_gprs}
use bbd.Gsm.Phone.{ForceOn, force_on}
use bbd.Gsm.Modem.{
  ModuleStatus, Checked, reg_registered, reg_comm_line_busy, set_pin, check_registration,
}
use bbd.Gsm.Modem.Report.{reporting, pausing, heard, check_registration-report}
use bbd.Gsm.Modem.Silent.{connected_client-silent}
use bbd.Tests.Gsm.{quiet, answer, modem}

abbrev reports : Poll
reports = record answer { arrived = codes "+CREG: 0,1\r" }

abbrev once_registered : ModuleStatus
once_registered = record { initialized = true; registered = false }

abbrev at_home : Gsm
at_home = modem (reporting 120 121 121 b'1' ∷ pausing false 200 200 200 ∷ [])

abbrev checked : Checked
checked = record {
  module_status = record { initialized = true; registered = true };
  gsm = record (modem []) {
    rx_state = rx_already_started;
    start_reception_tmout = 5000;
    interchar_tmout = 50;
    prev_time = 121;
    comm_buf = codes "+CREG: 0,1\r";
    output = sent_line "AT+CREG?" ∷ [];
    line = [];
  };
  ret_val = reg_registered;
}

registration_example :
    (check_registration once_registered (record at_home { comm_line_status = cls_free })
      ≡ some (record {
        module_status = record { initialized = true; registered = true };
        gsm = heard at_home 121 [] b'1';
        ret_val = reg_registered;
      }))
    × (check_registration once_registered (record at_home { comm_line_status = cls_atcmd })
        ≡ some (record {
          module_status = once_registered;
          gsm = record at_home { comm_line_status = cls_atcmd };
          ret_val = reg_comm_line_busy;
        }))
    × (check_registration once_registered (record at_home { comm_line_status = cls_data })
        ≡ some (record {
          module_status = once_registered;
          gsm = record at_home { comm_line_status = cls_data };
          ret_val = reg_comm_line_busy;
        }))
unfolding bbd.Gsm.Receive.elapsed
registration_example =
    check_registration-report at_home 100 120 121 121 200 200 200 false [] b'1' refl (omega arith)
      (omega arith) once_registered refl

-- A module that sends nothing for five seconds.
abbrev dead : Gsm
dead = modem (quiet 110 ∷ quiet 5100 ∷ [])

dead_example :
    (connected_client dead
      ≡ some (
        record (rx_init 100 5000 50
            (record dead { output = sent_line "AT+CIPSTATUS" ∷ []; line = [] })) {
              status = tcpconnectedserver;
            },
        true,
      ))
    × (set_pin "1234" dead
        ≡ some (
          rx_init 100 5000 50
              (record dead { output = sent_line "1234" ∷ sent_text "AT+CPIN=" ∷ []; line = [] }),
          0,
        ))
    × (attach_gprs (record dead { status = ready })
        ≡ some (
          record (rx_init 100 5000 50
              (record dead { output = sent_line "AT+CGATT=1" ∷ []; line = [] })) { status = error },
          negsuc 1,
        ))
    × (force_on dead ≡ some ForceOn.fault)
unfolding bbd.Gsm.Receive.elapsed
dead_example =
    connected_client-silent 100 (quiet 110 ∷ []) (quiet 5100) dead refl (refl, tt) refl
      (omega arith) "1234"

-- A test: the state behind the comma is 1, and the module stays on.
powered :
    (force_on (modem (reports ∷ quiet 300 ∷ [])))
    ≡ some (ForceOn.returned 0 (record checked.gsm { interchar_tmout = 100 }))
unfolding force_on wait_resp bbd.Gsm.Receive.wait_exchange rx_init bbd.Gsm.Receive.wait_loop
    bbd.Gsm.Receive.wait_resp_for is_string_received
powered = refl

abbrev numbered : {A : Type 0} → Option (A × ℕ) → Option ℕ
numbered none = none
numbered (some (_, n)) = some n

-- A test: a silent line with the byte 1 counts as registered, and a report of the registration does
-- not.
registered_or_not :
    (numbered (config_and_wait none (pos 1 ∷ []) dead) ≡ some 1)
    × (numbered (
          register 1
            (pos 1 ∷ [])
            (modem ((record answer { arrived = codes "+CGREG: 0,1" }) ∷ quiet 300 ∷ [])))
        ≡ some 0)
unfolding config_and_wait register bbd.Gsm.Network.await_code wait_resp_for wait_resp
    bbd.Gsm.Receive.wait_exchange rx_init bbd.Gsm.Receive.wait_loop is_string_received
registered_or_not = (refl, refl)

plain : {b : ℕ} → leb 1 b && (leb b 127 && not (b == 10)) ≡ true → IsPlain b
plain h = ground (arith, h)

not_found-IsPlain : All IsPlain (codes " Not Found\r")
not_found-IsPlain = (
  plain refl,
  (
    plain refl,
    (
      plain refl,
      (
        plain refl,
        (
          plain refl,
          (plain refl, (plain refl, (plain refl, (plain refl, (plain refl, (plain refl, tt)))))),
        ),
      ),
    ),
  ),
)

response_example :
    http_rsp_code (7 ∷ []) (pos 7) (
      status_line 4 0 4 (codes " Not Found\r")
      ++ b'\n' ∷ with_lines (codes "a\r" ∷ [] ∷ [] ∷ codes "Age: 4" ∷ [] ∷ []) (codes "rest"))
    ≡ some (pos 404, codes "rest")
response_example =
    http_rsp_code-response 4 0 4 (omega arith) (omega arith) (omega arith) (7 ∷ []) (pos 7)
      (codes " Not Found\r") (codes "a\r" ∷ [] ∷ [] ∷ codes "Age: 4" ∷ [] ∷ []) (codes "rest")
      not_found-IsPlain (omega arith) (refl, (refl, (refl, (refl, (refl, tt))))) refl

-- A test: a line of the status 404 with five lines of headers behind it.
not_found :
    http_rsp_code [] (pos 7) (codes "HTTP/1.1 404 Not Found\r\na\nb\nc\nd\n\nrest")
    ≡ some (pos 404, codes "rest")
unfolding http_rsp_code bbd.Gsm.Action.read_line bbd.Gsm.Action.skip_lines bbd.Gsm.Http.skip_to
    bbd.Text.stol bbd.Text.skip_spaces bbd.Text.scan_digits
not_found = refl
