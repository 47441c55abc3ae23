-- ===== src/Gsm/Gprs.antt =====
-- GSMSHIELD/inetGSM.cpp: GPRS and TCP over the GSM module.
use Prim.Native.String.{String}
use bbd.Prelude.{
  ℕ, zero, suc, Bool, true, false, Option, none, some, List, ◌==◌, length, if◌then◌else◌, ◌>>=◌,
}
use bbd.Text.{codes, ℤ, pos, negsuc}
use bbd.Bytes.{read}
use bbd.Gsm.State.{
  RxResult, rx_not_finished, rx_finished, rx_finished_str_recv, rx_finished_str_not_recv,
  rx_tmout_err, sent_line, sent_text, sent_number, delayed, Gsm, GsmStatus, error, idle, ready,
  attached, tcpserverwait, tcpconnectedserver, tcpconnectedclient,
}
use bbd.Gsm.Receive.{wait_resp, wait_resp_for, is_string_received}
use bbd.Gsm.Command.{put}

-- Whether the expected string has come.
abbrev pub str_recv : RxResult → Bool
str_recv rx_finished_str_recv = true
str_recv rx_not_finished = false
str_recv rx_finished = false
str_recv rx_finished_str_not_recv = false
str_recv rx_tmout_err = false

-- `switch(gsm.WaitResp(...))`: the function goes on where the string comes, and otherwise returns 0.
unfoldable pub expect :
    (start_tmout interchar_tmout : ℕ) → String → (Gsm → Option (Gsm × ℕ)) → Gsm → Option (Gsm × ℕ)
expect start_tmout interchar_tmout expected next g = do
  end ← wait_resp_for start_tmout interchar_tmout (codes expected) g
  let rest = next end.0
  if str_recv end.1 then rest else some (end.0, 0)

-- SimpleWriteln of a number.
abbrev pub put_number_line : ℕ → Gsm → Gsm
put_number_line n g = put (sent_line "") (put (sent_number n) g)

abbrev prompt : Gsm → Option (Gsm × ℕ)
prompt g =
    expect 5000 200 ">" (λ g'. some (put (delayed 4000) g', 1))
      (put (sent_line "AT+CIPSEND") (put (delayed 3000) g))

-- The answer OK may come before that of the connection, which is awaited then.
abbrev connected : Gsm → Option (Gsm × ℕ)
connected g =
    let later = expect 15000 200 "OK" prompt g in
    if is_string_received (codes "CONNECT OK") g then prompt g else later

unfoldable pub connect_tcp : String → (port : ℕ) → Gsm → Option (Gsm × ℕ)
unfolding expect
connect_tcp server port g = expect 1000 200 "OK" connected (
    put_number_line port
      (put (sent_text "\",") (put (sent_text server) (put (sent_text "AT+CIPSTART=\"TCP\",\"") g))))

unfoldable pub disconnect_tcp : Gsm → Gsm × ℕ
disconnect_tcp g = (
  record (put (sent_line "AT+CIPCLOSE") g) {
    status = elim g.status [
      | tcpconnectedclient ↦ attached
      | error ↦ tcpserverwait
      | idle ↦ tcpserverwait
      | ready ↦ tcpserverwait
      | attached ↦ tcpserverwait
      | tcpserverwait ↦ tcpserverwait
      | tcpconnectedserver ↦ tcpserverwait
    ];
  },
  1,
)

unfoldable pub connect_tcp_server : (port : ℕ) → Gsm → Gsm × ℕ
connect_tcp_server port g = (put_number_line port (put (sent_text "AT+CIPSERVER=1,") g), 1)

unfoldable pub connected_client : Gsm → Option (Gsm × Bool)
connected_client g = do
  end ← wait_resp_for 5000 50 (codes "CONNECT OK") (put (sent_line "AT+CIPSTATUS") g)
  some (
      if str_recv end.1
      then (end.0, false)
      else (record end.0 { status = tcpconnectedserver }, true))

abbrev pub is_idle : GsmStatus → Bool
is_idle idle = true
is_idle error = false
is_idle ready = false
is_idle attached = false
is_idle tcpserverwait = false
is_idle tcpconnectedserver = false
is_idle tcpconnectedclient = false

-- The part that attachGPRS and dettachGPRS share; the results are -1, -2 and 1.
abbrev pub gatt : String → Gsm → Option (Gsm × ℤ)
gatt command g = elim (is_idle g.status) [
  | true ↦ some (g, negsuc 0)
  | false ↦ wait_resp_for 5000 50 (codes "OK") (put (sent_line command) g) >>= λ end. some (
      if str_recv end.1
      then (record (put (delayed 500) end.0) { status = ready }, pos 1)
      else (record end.0 { status = error }, negsuc 1))
]

unfoldable pub attach_gprs : Gsm → Option (Gsm × ℤ)
attach_gprs = gatt "AT+CGATT=1"

unfoldable pub dettach_gprs : Gsm → Option (Gsm × ℤ)
dettach_gprs = gatt "AT+CGATT=0"

-- What configureGPRS does with a module that has an address.
abbrev close_old : Gsm → Option (Gsm × ℕ)
close_old g = do
  closed ← wait_resp_for 5000 50 (codes "ERROR") (put (sent_line "AT+CIPCLOSE") g)
  server ←
      wait_resp_for 5000 50 (codes "ERROR")
        (put (sent_line "AT+CIPSERVER=0") (put (delayed 2000) closed.0))
  some (server.0, 1)

abbrev ask_address : Gsm → Option (Gsm × ℕ)
ask_address g = do
  end ← wait_resp_for 5000 50 (codes "ERROR") (put (sent_line "AT+CIFSR") (put (delayed 1000) g))
  some (if str_recv end.1 then (end.0, 0) else (record end.0 { status = attached }, 1))

abbrev bring_up : Gsm → Option (Gsm × ℕ)
bring_up g = expect 10000 50 "OK" ask_address (put (sent_line "AT+CIICR") (put (delayed 5000) g))

abbrev set_apn : String → String → String → Gsm → Option (Gsm × ℕ)
set_apn domain dom1 dom2 g = expect 500 50 "OK" bring_up (
    put (sent_text "\"\r") (
      put (sent_text dom2) (
        put (sent_text "\",\"") (
          put (sent_text dom1) (
            put (sent_text "\",\"")
              (put (sent_text domain) (put (sent_text "AT+CSTT=\"") (put (delayed 1000) g))))))))

unfoldable pub configure_gprs : (domain dom1 dom2 : String) → Gsm → Option (Gsm × ℕ)
unfolding expect
configure_gprs domain dom1 dom2 g = do
  flushed ← wait_resp 50 50 (put (delayed 5000) g)
  end ← wait_resp_for 5000 50 (codes "ERROR") (put (sent_line "AT+CIFSR") flushed.0)
  elim (str_recv end.1) [
    | false ↦ close_old end.0
    | true ↦ expect 500 50 "SHUT OK" (set_apn domain dom1 dom2) (put (sent_line "AT+CIPSHUT") end.0)
  ]

-- The loop of httpPOST over its tries to connect; the result is `connected`.
unfoldable pub connect_tries : (rounds : ℕ) → String → ℕ → Gsm → Option (Gsm × Bool)
connect_tries zero server port g = some (g, false)
connect_tries (suc rounds) server port g = do
  end ← connect_tcp server port g
  let again = connect_tries rounds server port end.0
  if end.1 == 0 then again else some (end.0, true)

abbrev post_sent : String → String → (parameters : String) → Gsm → Gsm
post_sent server path parameters g = put (sent_text "\u{1a}") (
    put (sent_text "\n\n") (
      put (sent_text parameters) (
        put (sent_text "\n\n") (
          put (sent_number (length (codes parameters))) (
            put (sent_text "Content-Length: ") (
              put (sent_text "Content-Type: application/x-www-form-urlencoded\n") (
                put (sent_text "User-Agent: Arduino\n") (
                  put (sent_text "\n") (
                    put (sent_text server) (
                      put (sent_text " HTTP/1.1\nHost: ")
                        (put (sent_text path) (put (sent_text "POST ") g))))))))))))

-- `none` where the function returns 0, otherwise the result, whose length it returns. `reads` is what
-- the calls of `gsm.read()` give, which wait for every byte. `parameters` has fewer than 32768 bytes,
-- as the memory of the board.
abbrev pub read_result :
    (resultlength : ℕ) → (reads : List ℕ) → Gsm × ℕ → Option (Gsm × Option (List ℕ))
read_result resultlength reads (g, zero) = some (g, none)
read_result resultlength reads (g, suc _) =
    read resultlength reads >>= λ result. some (g, some result)

unfoldable pub http_post :
    String
    → ℕ
    → String
    → (parameters : String) → (resultlength : ℕ) → (reads : List ℕ) → Gsm
    → Option (Gsm × Option (List ℕ))
unfolding expect connect_tries
http_post server port path parameters resultlength reads g = do
  end ← connect_tries 3 server port g
  elim end.1 [
    | false ↦ some (end.0, none)
    | true ↦
        expect 10000 10 "SEND OK" (λ g'. some (put (delayed 50) g', 1))
          (post_sent server path parameters end.0)
        >>= read_result resultlength reads
  ]
