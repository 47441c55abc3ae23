-- ===== src/Client/Controller/Response.antt =====
-- client_controller.c: what a whole response sets, from the bytes of the connection to the state.
use bbd.Prelude.{ℕ, suc, ◌/◌, ◌<◌, ◌≡◌, refl, List, [], ◌∷◌, arith, length, All, ◌∙◌}
use bbd.Bytes.{Incoming}
use bbd.Schedule.{Schedule, IsU16}
use bbd.Client.SocketData.{
  connected, sent, sd_send_request, RequestType, msg_type, get_active_sches_msg,
  get_device_valves_msg, check_new_schedules_msg,
}
use bbd.Client.State.{Client, log_request, log_response}
use bbd.Client.ValveManager.{vm_init_set_valves}
use bbd.Client.ScheduleManager.{scheduled}
use bbd.Client.ScheduleManager.Bound.{sm_set_new_schedules-scheduled}
use bbd.Client.Controller.{
  Machine, Return, ret, logged, magic_number, client_device_id, with_response, with_length,
  receive_schedules, receive_valves, cc_set_valve_info, cc_set_active_schedules,
  cc_check_new_schedules, set_schedules, set_valves,
}
use bbd.Wire.Format.{framed, wire_schedules, wire_valves, length-wire_schedules, length-wire_valves}
use bbd.Server.SocketData.{Header}
use bbd.Wire.Header.{HeaderFits, wire_header, sd_send_socket_header-wire}
use bbd.Wire.Decode.{
  decode_schedules-wire, decode_valve_ids-wire, sd_recv_rsp_len-framed, sd_recv_rsp_msg-framed,
}

-- The header that the client sends for a request, and its bytes.
abbrev pub request : RequestType → Header
request type = record {
  magic_number = magic_number;
  device_id = client_device_id;
  msg_type = msg_type type;
  msg_size = 0;
}

abbrev pub request_header : RequestType → List ℕ
request_header type = wire_header (request type)

msg_type-lt : (type : RequestType) → msg_type type < 256
unfolding msg_type
msg_type-lt get_device_valves_msg = omega arith
msg_type-lt get_active_sches_msg = omega arith
msg_type-lt check_new_schedules_msg = omega arith

pub request-HeaderFits : (type : RequestType) → HeaderFits (request type)
request-HeaderFits type = record {
  magic_fits = omega arith;
  device_fits = omega arith;
  type_fits = msg_type-lt type;
  size_fits = omega arith;
}

-- On a connection the client sends the header of its request.
pub sd_send_request-sent :
    (m : Machine) (type : RequestType) (sock : Incoming)
    → sd_send_request m.endian m.allocator (connected sock) magic_number client_device_id type
      ≡ sent (request_header type) sock
unfolding sd_send_request
sd_send_request-sent m type sock =
    rw (sd_send_socket_header-wire m.endian m.allocator (request type) (request-HeaderFits type))

pub with_length-framed :
    (m : Machine) (type : RequestType) (msg : List ℕ) (k : ℕ → Incoming → Client → Client × Return)
    (c : Client)
    → length msg < 65536
    → with_length m (connected (Incoming.bytes (framed msg))) type k c
      ≡ k (length msg) (Incoming.bytes msg) (logged (log_request type) c)
unfolding with_length
with_length-framed m type msg k c h = rw (
  with_length,
  sd_send_request-sent m type (Incoming.bytes (framed msg)),
  sd_recv_rsp_len-framed m.endian m.stale msg h,
)

with_response-framed :
    (m : Machine) (type : RequestType) (msg : List ℕ) (k : List ℕ → Client → Client × Return)
    (c : Client)
    → 0 < length msg
    → with_response m type (length msg) (Incoming.bytes msg) k c
      ≡ k msg (logged (log_response type (length msg)) c)
unfolding with_response
with_response-framed m type [] k c h = absurd (omega arith)
with_response-framed m type (b ∷ msg) k c h =
    rw (with_response, sd_recv_rsp_msg-framed m.allocator (suc (length msg)) b msg refl)

pub receive_nonempty :
    (m : Machine) (type empty : RequestType) (n : ℕ) (sock : Incoming) (c : Client)
    → 0 < n
    → receive_schedules m type empty n sock c ≡ with_response m type n sock (set_schedules m n) c
unfolding receive_schedules
receive_nonempty m type empty n sock c h = ground arith

-- The length of the response tells how many schedules there are.
set_schedules-wire :
    (m : Machine) (n : ℕ) (sches : List Schedule) (c : Client)
    → All IsU16 sches
    → length sches < 6554
    → n / 8 ≡ length sches
    → set_schedules m n (wire_schedules sches) c ≡ (scheduled c sches, ret 0)
set_schedules-wire m n sches c fits few count = rw (
  set_schedules,
  count,
  decode_schedules-wire m.endian sches fits,
  sm_set_new_schedules-scheduled c sches few,
)

set_valves-wire :
    (m : Machine) (n : ℕ) (ids : List ℕ) (c : Client)
    → All (λ v. v < 65536) ids
    → n / 2 ≡ length ids
    → set_valves m n (wire_valves ids) c ≡ (vm_init_set_valves c ids, ret 0)
set_valves-wire m n ids c fits count =
    rw (set_valves, count, decode_valve_ids-wire m.endian ids fits)

receive_schedules-wire :
    (m : Machine) (type empty : RequestType) (sches : List Schedule) (c : Client)
    → All IsU16 sches
    → 0 < length sches
    → length sches < 6554
    → receive_schedules m type empty
        (length (wire_schedules sches))
        (Incoming.bytes (wire_schedules sches))
        c
      ≡ (scheduled (logged (log_response type (length (wire_schedules sches))) c) sches, ret 0)
receive_schedules-wire m type empty sches c fits pos few =
    let n = length (wire_schedules sches) in
    let use_response = set_schedules m n in
    let room : 0 < n = omega (arith, length-wire_schedules sches) in
    receive_nonempty m type empty n (Incoming.bytes (wire_schedules sches)) c room
    ∙ with_response-framed m type (wire_schedules sches) use_response c room
    ∙ set_schedules-wire m n sches (logged (log_response type n) c) fits few
        (omega (arith, length-wire_schedules sches))

-- What the client has logged when it has received a response of `n` bytes.
abbrev pub answered : RequestType → ℕ → Client → Client
answered type n c = logged (log_response type n) (logged (log_request type) c)

-- At a request for the active schedules, a response that carries between 1 and 6553 schedules,
-- with fields that fit in 16 bits, replaces the client's by them, all marked inactive, changes no
-- valve, and the call returns 0.
pub cc_set_active_schedules-wire :
    (m : Machine) (sches : List Schedule) (c : Client)
    → All IsU16 sches
    → 0 < length sches
    → length sches < 6554
    → cc_set_active_schedules m (connected (Incoming.bytes (framed (wire_schedules sches)))) c
      ≡ (scheduled (answered get_active_sches_msg (length (wire_schedules sches)) c) sches, ret 0)
unfolding cc_set_active_schedules
cc_set_active_schedules-wire m sches c fits pos few =
    with_length-framed m get_active_sches_msg (wire_schedules sches)
      (receive_schedules m get_active_sches_msg get_active_sches_msg) c
      (omega (arith, length-wire_schedules sches))
    ∙ receive_schedules-wire m get_active_sches_msg get_active_sches_msg sches _ fits pos few

-- The same at a check for new schedules.
pub cc_check_new_schedules-wire :
    (m : Machine) (sches : List Schedule) (c : Client)
    → All IsU16 sches
    → 0 < length sches
    → length sches < 6554
    → cc_check_new_schedules m (connected (Incoming.bytes (framed (wire_schedules sches)))) c ≡ (
      scheduled (answered check_new_schedules_msg (length (wire_schedules sches)) c) sches,
      ret 0,
    )
unfolding cc_check_new_schedules
cc_check_new_schedules-wire m sches c fits pos few =
    with_length-framed m check_new_schedules_msg (wire_schedules sches)
      (receive_schedules m check_new_schedules_msg get_active_sches_msg) c
      (omega (arith, length-wire_schedules sches))
    ∙ receive_schedules-wire m check_new_schedules_msg get_active_sches_msg sches _ fits pos few

-- A response that carries between 1 and 32767 valve numbers that fit in 16 bits makes them the
-- valves of the device, all closed, and the call returns 0.
pub cc_set_valve_info-wire :
    (m : Machine) (ids : List ℕ) (c : Client)
    → All (λ id. id < 65536) ids
    → 0 < length ids
    → length ids < 32768
    → cc_set_valve_info m (connected (Incoming.bytes (framed (wire_valves ids)))) c ≡ (
      vm_init_set_valves (answered get_device_valves_msg (length (wire_valves ids)) c) ids,
      ret 0,
    )
unfolding cc_set_valve_info
cc_set_valve_info-wire m ids c fits pos few =
    let n = length (wire_valves ids) in
    with_length-framed m get_device_valves_msg (wire_valves ids) (receive_valves m) c
      (omega (arith, length-wire_valves ids))
    ∙ with_response-framed m get_device_valves_msg (wire_valves ids) (set_valves m n)
        (logged (log_request get_device_valves_msg) c) (omega (arith, length-wire_valves ids))
    ∙ set_valves-wire m n ids (answered get_device_valves_msg n c) fits
        (omega (arith, length-wire_valves ids))
