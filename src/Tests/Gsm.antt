-- ===== src/Tests/Gsm.antt =====
-- The theorems on the library for the GSM module, for a module that answers OK.
use bbd.Prelude.{ℕ, ◌≤◌, ◌≡◌, refl, true, false, some, List, [], ◌∷◌, ◌++◌, arith, length}
use bbd.Gsm.State.{
  Gsm, Poll, rx_not_started, rx_already_started, rx_finished, rx_tmout_err, cls_free, idle,
  sent_line,
}
use bbd.Gsm.Receive.{rx_init, wait_resp, is_string_received}
use bbd.Gsm.Receive.Bounds.{length-wait_resp, wait_resp-silent}
use bbd.Gsm.Command.{send_flash_cmd_wait_resp}
use bbd.Gsm.Command.Attempts.{send_flash_cmd_wait_resp-ok}
use bbd.Text.{codes, decimal, pos, negsuc}
use bbd.Gsm.TextFinder.Value.{get_value}
use bbd.Gsm.TextFinder.Value.RoundTrip.{get_value-decimal}
use bbd.Gsm.Setup.{ok_text}
use bbd.Gsm.TextFinder.{find_until, get_string}
use bbd.Gsm.TextFinder.Found.{find_until-found}

abbrev pub quiet : ℕ → Poll
quiet now = record { seen = false; now_wait = now; now_data = now; now_end = now; arrived = [] }

abbrev pub answer : Poll
answer = record {
  seen = true;
  now_wait = 120;
  now_data = 121;
  now_end = 121;
  arrived = 79 ∷ 75 ∷ 13 ∷ [];
}

abbrev pub modem : List Poll → Gsm
modem polls = record {
  rx_state = rx_not_started;
  start_reception_tmout = 0;
  interchar_tmout = 0;
  prev_time = 0;
  comm_buf = 7 ∷ [];
  comm_line_status = cls_free;
  status = idle;
  output = [];
  line = (record { now_init = 100; polls = polls }) ∷ [];
}

abbrev answered_ok : Gsm
answered_ok = record (modem []) {
  rx_state = rx_already_started;
  start_reception_tmout = 500;
  interchar_tmout = 50;
  prev_time = 121;
  comm_buf = 79 ∷ 75 ∷ 13 ∷ [];
  line = [];
}

wait_resp_length_example : length answered_ok.comm_buf ≤ 200
unfolding wait_resp bbd.Gsm.Receive.wait_exchange rx_init bbd.Gsm.Receive.wait_loop
    is_string_received
wait_resp_length_example =
    length-wait_resp 500 50 (modem (quiet 110 ∷ answer ∷ quiet 200 ∷ [])) answered_ok rx_finished
      refl

wait_resp-silent_example :
    wait_resp 500 50 (modem (quiet 110 ∷ quiet 610 ∷ []))
    ≡ some (rx_init 100 500 50 (record (modem []) { line = [] }), rx_tmout_err)
unfolding bbd.Gsm.Receive.elapsed
wait_resp-silent_example =
    wait_resp-silent 500 50 100 (quiet 110 ∷ []) (quiet 610) [] (modem (quiet 110 ∷ quiet 610 ∷ []))
      refl (refl, tt) refl (omega arith)

send_flash_cmd_example :
    is_string_received ok_text (record answered_ok { output = sent_line "AT" ∷ [] }) ≡ true
unfolding send_flash_cmd_wait_resp bbd.Gsm.Command.attempts wait_resp bbd.Gsm.Receive.wait_exchange
    rx_init bbd.Gsm.Receive.wait_loop is_string_received
send_flash_cmd_example =
    send_flash_cmd_wait_resp-ok "AT" 500 50 ok_text 2 (modem (quiet 110 ∷ answer ∷ quiet 200 ∷ []))
      (record answered_ok { output = sent_line "AT" ∷ [] }) refl

find_until_example : (pre : List ℕ) × (5 ∷ 79 ∷ 6 ∷ 79 ∷ 75 ∷ 13 ∷ [] ≡ pre ++ (ok_text ++ 13 ∷ []))
unfolding find_until bbd.Gsm.TextFinder.find_loop
find_until_example =
    find_until-found ok_text [] (5 ∷ 79 ∷ 6 ∷ 79 ∷ 75 ∷ 13 ∷ []) (13 ∷ []) (omega arith) refl

-- A test: the search for OK misses it in O, O, K.
find_misses : find_until ok_text [] (79 ∷ 79 ∷ 75 ∷ []) ≡ (false, [])
unfolding find_until bbd.Gsm.TextFinder.find_loop
find_misses = refl

-- A test: getString returns the size of the buffer, not the number of characters.
get_string_of_two :
    get_string [] (10 ∷ []) 6 (65 ∷ 66 ∷ 10 ∷ []) ≡ (6, 65 ∷ 66 ∷ 0 ∷ 0 ∷ 0 ∷ 0 ∷ [])
unfolding get_string bbd.Gsm.TextFinder.get_loop
get_string_of_two = refl

get_value-decimal_example :
    get_value 1 (codes "+CCLK: " ++ (decimal 2015 ++ b',' ∷ codes "7")) ≡ some (pos 2015, codes "7")
get_value-decimal_example =
    get_value-decimal 1 refl (codes "+CCLK: ") 2015 b',' (codes "7") refl (omega arith) refl refl

-- A test: with the comma as the character to be skipped the digits behind it count too, and a minus
-- sign stands for the whole.
skipped_comma : get_value b',' (codes "x-2,015;") ≡ some (negsuc 2014, [])
unfolding get_value
skipped_comma = refl
