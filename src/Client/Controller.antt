-- ===== src/Client/Controller.antt =====
-- client/daemon/src/client_controller.c and server_info/server_info.h: one request to the server,
-- and what its response sets. The number that a function returns stands beside the new state.
pub mod Response
pub mod Empty
pub mod Failure
pub mod Cut
pub mod Valves
use Prim.Native.String.{String}
use bbd.Prelude.{
  ℕ, zero, suc, ◌+◌, ◌*◌, ◌/◌, Option, none, some, List, [], ◌∷◌, ◌++◌, ◌>>=◌, ◌==◌, if◌then◌else◌,
  drop,
}
use bbd.Bytes.{Endian, Incoming, Allocator}
use bbd.Schedule.{Schedule}
use bbd.Client.SocketData.{
  RequestType, get_device_valves_msg, get_active_sches_msg, check_new_schedules_msg, Network,
  no_socket, no_connection, send_fails, connected, Sent, refused, sent, sd_send_request,
  sd_recv_rsp_len, sd_recv_rsp_msg, sd_decode_schedule, sd_decode_valve_id,
}
use bbd.Client.State.{Client, Event, log_error, log_request, log_response}
use bbd.Client.ValveManager.{vm_init_set_valves}
use bbd.Client.ScheduleManager.{sm_set_new_schedules}

abbrev pub magic_number : ℕ
magic_number = 38017

abbrev pub client_device_id : ℕ
client_device_id = 1

-- The host that the program runs on; `stale` is what the second byte of the variable for the
-- length holds before anything is received, and `wrecked` what an access outside a buffer leaves of
-- the variables, of which nothing is known.
pub record Machine : Type 0 where
  pub endian : Endian
  pub allocator : Allocator
  pub stale : ℕ
  pub wrecked : Client → Client

pub data Return : Type 0 where
  ret : ℕ → Return
  -- An access outside a buffer.
  fault : Return

abbrev pub logged : Event → Client → Client
logged ev c = record c { log = ev ∷ c.log }

-- What sd_send_request and the functions under it log when they fail.
unfoldable pub log_refusal : Network → Client → Client
log_refusal no_socket c =
    logged (log_error "connecting socket") (logged (log_error "could not create socket") c)
log_refusal no_connection c =
    logged (log_error "connecting socket") (logged (log_error "socket connect failed") c)
log_refusal send_fails c = logged (log_error "sending message header") c
log_refusal (connected _) c = c

-- The decoding loops from index `i` on, with `n` rounds left.
unfoldable pub decode_valve_ids : Endian → List ℕ → ℕ → ℕ → Option (List ℕ)
decode_valve_ids e rsp i zero = some []
decode_valve_ids e rsp i (suc n) = do
  id ← sd_decode_valve_id e (drop (i * 2) rsp)
  rest ← decode_valve_ids e rsp (i + 1) n
  some (id ∷ rest)

unfoldable pub decode_schedules : Endian → List ℕ → ℕ → ℕ → Option (List Schedule)
decode_schedules e rsp i zero = some []
decode_schedules e rsp i (suc n) = do
  s ← sd_decode_schedule e (drop (i * 8) rsp)
  rest ← decode_schedules e rsp (i + 1) n
  some (s ∷ rest)

abbrev pub use_buffer :
    RequestType
    → ℕ
    → (List ℕ → Client → Client × Return)
    → Client
    → Option (List ℕ)
    → Client × Return
use_buffer type rsp_len k c none = (logged (log_error "receiving response message") c, ret 4)
use_buffer type rsp_len k c (some rsp) = k rsp (logged (log_response type rsp_len) c)

-- A response of `rsp_len` bytes is received and handed on; without one the function returns 4.
unfoldable pub with_response :
    Machine
    → RequestType
    → ℕ
    → Incoming
    → (List ℕ → Client → Client × Return)
    → Client
    → Client × Return
with_response m type rsp_len sock k c =
    use_buffer type rsp_len k c (sd_recv_rsp_msg rsp_len (m.allocator.malloc rsp_len) sock)

abbrev pub use_length :
    (ℕ → Incoming → Client → Client × Return) → Client → Option (ℕ × Incoming) → Client × Return
use_length k c none = (logged (log_error "receiving response length") c, ret 3)
use_length k c (some (rsp_len, rest)) = k rsp_len rest c

abbrev pub use_connection :
    Machine
    → Network
    → RequestType
    → (ℕ → Incoming → Client → Client × Return)
    → Client
    → Sent
    → Client × Return
use_connection m net type k c Sent.fault = (m.wrecked c, Return.fault)
use_connection m net type k c (refused _) = (log_refusal net c, ret 1)
use_connection m net type k c (sent header sock) =
    use_length k (logged (log_request type) c) (sd_recv_rsp_len m.endian m.stale sock)

-- The request is sent and the length of the response received; `ret 1` and `ret 3` where this fails.
unfoldable pub with_length :
    Machine
    → Network
    → RequestType
    → (ℕ → Incoming → Client → Client × Return)
    → Client
    → Client × Return
with_length m net type k c =
    use_connection m net type k c
      (sd_send_request m.endian m.allocator net magic_number client_device_id type)

abbrev pub or_fault {ℓ} :
    {A : Type ℓ} → Machine → (A → Client) → Client → Option A → Client × Return
or_fault m k c none = (m.wrecked c, Return.fault)
or_fault m k c (some a) = (k a, ret 0)

abbrev set_valves : Machine → ℕ → List ℕ → Client → Client × Return
set_valves m rsp_len rsp c =
    or_fault m (vm_init_set_valves c) c (decode_valve_ids m.endian rsp 0 (rsp_len / 2))

abbrev set_schedules : Machine → ℕ → List ℕ → Client → Client × Return
set_schedules m rsp_len rsp c =
    or_fault m (λ d. d) c (decode_schedules m.endian rsp 0 (rsp_len / 8) >>= sm_set_new_schedules c)

unfoldable pub receive_valves : Machine → ℕ → Incoming → Client → Client × Return
unfolding with_response decode_valve_ids
receive_valves m rsp_len sock =
    with_response m get_device_valves_msg rsp_len sock (set_valves m rsp_len)

unfoldable pub cc_set_valve_info : Machine → Network → Client → Client × Return
unfolding with_length receive_valves
cc_set_valve_info m net = with_length m net get_device_valves_msg (receive_valves m)

-- An empty response sets nothing; `empty_type` is the request that it is logged under.
unfoldable pub receive_schedules :
    Machine → (type empty_type : RequestType) → ℕ → Incoming → Client → Client × Return
unfolding with_response decode_schedules
receive_schedules m type empty_type rsp_len sock c =
    if rsp_len == 0
    then (logged (log_response empty_type rsp_len) c, ret 0)
    else with_response m type rsp_len sock (set_schedules m rsp_len) c

unfoldable pub cc_set_active_schedules : Machine → Network → Client → Client × Return
unfolding with_length receive_schedules
cc_set_active_schedules m net =
    with_length m net get_active_sches_msg
      (receive_schedules m get_active_sches_msg get_active_sches_msg)

unfoldable pub cc_check_new_schedules : Machine → Network → Client → Client × Return
unfolding with_length receive_schedules
cc_check_new_schedules m net =
    with_length m net check_new_schedules_msg
      (receive_schedules m check_new_schedules_msg get_active_sches_msg)
