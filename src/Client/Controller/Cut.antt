-- ===== src/Client/Controller/Cut.antt =====
-- client_controller.c: what the three calls return where the network fails, call by call.
use bbd.Prelude.{ℕ, zero, suc, ◌<◌, ◌≡◌, refl, none, [], ◌∷◌, List, ◌∙◌}
use bbd.Bytes.{Incoming}
use bbd.Client.SocketData.{
  RequestType, get_device_valves_msg, get_active_sches_msg, check_new_schedules_msg, Network,
  no_socket, no_connection, send_fails, connected, Sent, sd_recv_rsp_len, sd_recv_rsp_msg,
  sd_prep_recved_16, sd_send_request,
}
use bbd.Client.State.{Client, log_error, log_request}
use bbd.Client.Controller.{
  Machine, Return, ret, logged, log_refusal, magic_number, client_device_id, with_length,
  with_response, receive_schedules, receive_valves, set_schedules, set_valves, cc_set_valve_info,
  cc_set_active_schedules, cc_check_new_schedules,
}
use bbd.Client.Controller.Response.{
  request, request-HeaderFits, sd_send_request-sent, receive_nonempty,
}
use bbd.Wire.Header.{sd_send_socket_header-wire}

abbrev asked : RequestType → Client → Client
asked type c = logged (log_request type) c

-- What a call does where the socket is not there, cannot be connected or does not send, where the
-- connection breaks or ends before the length of the response, and where it ends behind the two
-- bytes of the length.
abbrev pub FailsAt : RequestType → (Network → Client → Client × Return) → ℕ → ℕ → Client → Type 0
FailsAt type call a b c =
    (call no_socket c ≡ (
      logged (log_error "connecting socket") (logged (log_error "could not create socket") c),
      ret 1,
    ))
    × (call no_connection c ≡ (
      logged (log_error "connecting socket") (logged (log_error "socket connect failed") c),
      ret 1,
    ))
    × (call send_fails c ≡ (logged (log_error "sending message header") c, ret 1))
    × (call (connected Incoming.broken) c
        ≡ (logged (log_error "receiving response length") (asked type c), ret 3))
    × (call (connected (Incoming.bytes [])) c
        ≡ (logged (log_error "receiving response length") (asked type c), ret 3))
    × (call (connected (Incoming.bytes (a ∷ b ∷ []))) c
        ≡ (logged (log_error "receiving response message") (asked type c), ret 4))

sd_recv_rsp_msg-ended : (n : ℕ) (buf : List ℕ) → sd_recv_rsp_msg n buf (Incoming.bytes []) ≡ none
unfolding sd_recv_rsp_msg
sd_recv_rsp_msg-ended zero buf = refl
sd_recv_rsp_msg-ended (suc n) buf = refl

module _ (m : Machine) (a b : ℕ) (c : Client) where
  abbrev n : ℕ
  n = sd_prep_recved_16 m.endian a b

  with_response-ended :
      (type : RequestType) (k : List ℕ → Client → Client × Return)
      → with_response m type n (Incoming.bytes []) k (asked type c)
        ≡ (logged (log_error "receiving response message") (asked type c), ret 4)
  unfolding with_response
  with_response-ended type k = rw (sd_recv_rsp_msg-ended n (m.allocator.malloc n)) refl

  header_sent :
      (type : RequestType)
      → sd_send_request m.endian m.allocator send_fails magic_number client_device_id type
        ≡ Sent.refused 2
  unfolding sd_send_request
  header_sent type =
      rw (sd_send_socket_header-wire m.endian m.allocator (request type) (request-HeaderFits type))
        refl

  not_connected :
      (type : RequestType)
      → (sd_send_request m.endian m.allocator no_socket magic_number client_device_id type
          ≡ Sent.refused 1)
        × (sd_send_request m.endian m.allocator no_connection magic_number client_device_id type
            ≡ Sent.refused 1)
  unfolding sd_send_request
  not_connected type = (refl, refl)

  with_length-FailsAt :
      (type : RequestType) (k : ℕ → Incoming → Client → Client × Return)
      → k n (Incoming.bytes []) (asked type c)
        ≡ (logged (log_error "receiving response message") (asked type c), ret 4)
      → FailsAt type (λ net. with_length m net type k) a b c
  unfolding with_length sd_recv_rsp_len log_refusal
  with_length-FailsAt type k h = (
    rw (not_connected type).0 refl,
    rw (not_connected type).1 refl,
    rw (header_sent type) refl,
    rw (sd_send_request-sent m type Incoming.broken) refl,
    rw (sd_send_request-sent m type (Incoming.bytes [])) refl,
    rw (sd_send_request-sent m type (Incoming.bytes (a ∷ b ∷ []))) h,
  )

  -- Where the network fails in one of these ways, each of the three calls leaves the valves and the
  -- schedules as they were, logs what has failed, and returns a number other than 0: 1 without a
  -- socket, a connection or a header that is sent, 3 where the connection breaks or ends before
  -- the first byte of the response, and 4 where it ends right behind a length that is not 0.
  pub cc_calls-FailsAt :
      0 < sd_prep_recved_16 m.endian a b
      → FailsAt get_device_valves_msg (cc_set_valve_info m) a b c
        × FailsAt get_active_sches_msg (cc_set_active_schedules m) a b c
        × FailsAt check_new_schedules_msg (cc_check_new_schedules m) a b c
  unfolding cc_set_valve_info cc_set_active_schedules cc_check_new_schedules receive_valves
  cc_calls-FailsAt h = (
    with_length-FailsAt get_device_valves_msg (receive_valves m)
        (with_response-ended get_device_valves_msg (set_valves m n)),
    with_length-FailsAt get_active_sches_msg
        (receive_schedules m get_active_sches_msg get_active_sches_msg)
        (receive_nonempty m get_active_sches_msg get_active_sches_msg n (Incoming.bytes [])
            (asked get_active_sches_msg c) h
          ∙ with_response-ended get_active_sches_msg (set_schedules m n)),
    with_length-FailsAt check_new_schedules_msg
        (receive_schedules m check_new_schedules_msg get_active_sches_msg)
        (receive_nonempty m check_new_schedules_msg get_active_sches_msg n (Incoming.bytes [])
            (asked check_new_schedules_msg c) h
          ∙ with_response-ended check_new_schedules_msg (set_schedules m n)),
  )
