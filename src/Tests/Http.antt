-- ===== src/Tests/Http.antt =====
-- The theorems on the HTTP request, for a module that answers OK to every command.
use bbd.Prelude.{ℕ, ◌≡◌, refl, true, false, List, [], ◌∷◌, ◌++◌, arith, replicate}
use bbd.Text.{codes, decimal}
use bbd.Gsm.State.{Gsm, Exchange, rx_not_started, rx_already_started, cls_free, idle, sent_line}
use bbd.Gsm.Receive.{wait_resp_for, wait_resp, is_string_received}
use bbd.Gsm.Command.{put}
use bbd.Gsm.Http.{get_rest_content, content, returned, url_sent, http_get}
use bbd.Gsm.Http as Http
use bbd.Gsm.Http.Content.{answer, get_rest_content-answer_fault}
use bbd.Gsm.Http.Request.{AnswersOk, action, http_get-long_port, http_get-answer, http_get-action}

-- The module answers to a command, and is then quiet.
abbrev ok_exchange : Exchange
ok_exchange = record {
  now_init = 100;
  polls =
      (record {
        seen = true;
        now_wait = 120;
        now_data = 121;
        now_end = 121;
        arrived = codes "OK\r";
      })
      ∷ (record { seen = false; now_wait = 200; now_data = 200; now_end = 200; arrived = [] })
      ∷ [];
}

abbrev g : Gsm
g = record {
  rx_state = rx_not_started;
  start_reception_tmout = 0;
  interchar_tmout = 0;
  prev_time = 0;
  comm_buf = [];
  comm_line_status = cls_free;
  status = idle;
  output = [];
  line = ok_exchange ∷ ok_exchange ∷ ok_exchange ∷ ok_exchange ∷ [];
}

-- The state behind the answer to what `sent` has sent.
abbrev ok_behind : ℕ → Gsm → List Exchange → Gsm
ok_behind start_tmout sent line = record sent {
  rx_state = rx_already_started;
  start_reception_tmout = start_tmout;
  interchar_tmout = 50;
  prev_time = 121;
  comm_buf = codes "OK\r";
  line = line;
}

abbrev initialised : Gsm
initialised =
    ok_behind 5000 (put (sent_line "AT+HTTPINIT") g) (ok_exchange ∷ ok_exchange ∷ ok_exchange ∷ [])

abbrev addressed : Gsm
addressed =
    ok_behind 20000 (url_sent "10.0.0.1" 80 "/" initialised) (ok_exchange ∷ ok_exchange ∷ [])

abbrev acted : Gsm
acted = ok_behind 5000 (put (sent_line "AT+HTTPACTION=0") addressed) (ok_exchange ∷ [])

abbrev ended : Gsm
ended = ok_behind 20000 (put (sent_line "AT+HTTPTERM") acted) []

initialised-AnswersOk : AnswersOk 5000 (put (sent_line "AT+HTTPINIT") g) initialised
unfolding wait_resp_for bbd.Gsm.Receive.elapsed
initialised-AnswersOk = refl

addressed-AnswersOk : AnswersOk 20000 (url_sent "10.0.0.1" 80 "/" initialised) addressed
unfolding wait_resp_for bbd.Gsm.Receive.elapsed
addressed-AnswersOk = refl

acted-AnswersOk : AnswersOk 5000 (put (sent_line "AT+HTTPACTION=0") addressed) acted
unfolding wait_resp_for bbd.Gsm.Receive.elapsed
acted-AnswersOk = refl

ended-AnswersOk : AnswersOk 20000 (put (sent_line "AT+HTTPTERM") acted) ended
unfolding wait_resp_for bbd.Gsm.Receive.elapsed
ended-AnswersOk = refl

abbrev rsp : List ℕ
rsp = replicate 50 0

http_get-answer_example :
    (end : List ℕ) × (http_get "10.0.0.1" 80 "/"
        (answer (codes "\r\n") (codes "HTTPREAD") (codes "open") (codes "\r\n"))
        rsp
        g
      ≡ returned 0 ended (codes "open" ++ end))
http_get-answer_example =
    http_get-answer "10.0.0.1" 80 "/" rsp g initialised initialised-AnswersOk addressed acted
      (omega arith) addressed-AnswersOk acted-AnswersOk ended ended-AnswersOk refl (codes "\r\n")
      (codes "HTTPREAD") (codes "open") (codes "\r\n") refl refl (omega arith)

http_get-action_example :
    (end : List ℕ) × (http_get "10.0.0.1" 80 "/" (action 200 4 []) rsp g
      ≡ returned 0 ended
          (codes "0," ++ (decimal 200 ++ (codes "," ++ (decimal 4 ++ (codes "\r" ++ end))))))
http_get-action_example =
    http_get-action "10.0.0.1" 80 "/" rsp g initialised initialised-AnswersOk addressed acted
      (omega arith) addressed-AnswersOk acted-AnswersOk ended ended-AnswersOk refl 200 4 []
      (omega arith) (omega arith)

http_get-long_port_example : http_get "10.0.0.1" 17777 "/" [] rsp g ≡ Http.Ending.fault
http_get-long_port_example =
    http_get-long_port "10.0.0.1" 17777 "/" rsp g initialised initialised-AnswersOk [] (omega arith)

get_rest_content-answer_fault_example :
    get_rest_content (answer [] [] (replicate 51 b'x') []) rsp ≡ Http.Rest.fault
get_rest_content-answer_fault_example =
    get_rest_content-answer_fault [] [] (replicate 51 b'x') [] rsp refl refl refl (omega arith)
      (omega arith)
