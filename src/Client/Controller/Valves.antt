-- ===== src/Client/Controller/Valves.antt =====
-- client_controller.c, cc_set_valve_info: it leaves the schedules alone.
use bbd.Prelude.{ℕ, ◌≡◌, ◌⊎◌, inl, inr, refl, Option, none, some, List, ◌/◌}
use bbd.Bytes.{Incoming}
use bbd.Client.SocketData.{
  get_device_valves_msg, Network, no_socket, no_connection, send_fails, connected, Sent, refused,
  sent, sd_recv_rsp_len, sd_recv_rsp_msg,
}
use bbd.Client.State.{Client, log_request, log_response}
use bbd.Client.ValveManager.{vm_init_set_valves}
use bbd.Client.Controller.{
  Machine, Return, logged, log_refusal, with_response, receive_valves, set_valves, use_connection,
  use_length, use_buffer, or_fault, decode_valve_ids, cc_set_valve_info,
}

-- The schedules are those of before, unless the program has gone outside a buffer.
abbrev pub KeepsSchedules : Client → Client × Return → Type 0
KeepsSchedules c r = (r.1 ≡ Return.fault) ⊎ (r.0.ss ≡ c.ss)

or_fault-ss :
    (m : Machine) (c : Client) (o : Option (List ℕ))
    → KeepsSchedules c (or_fault m (vm_init_set_valves c) c o)
unfolding vm_init_set_valves
or_fault-ss m c none = inl refl
or_fault-ss m c (some ids) = inr refl

use_buffer-ss :
    (m : Machine) (n : ℕ) (c : Client) (o : Option (List ℕ))
    → KeepsSchedules c (use_buffer get_device_valves_msg n (set_valves m n) c o)
use_buffer-ss m n c none = inr refl
use_buffer-ss m n c (some rsp) =
    or_fault-ss m (logged (log_response get_device_valves_msg n) c)
      (decode_valve_ids m.endian rsp 0 (n / 2))

use_length-ss :
    (m : Machine) (c : Client) (o : Option (ℕ × Incoming))
    → KeepsSchedules c (use_length (receive_valves m) c o)
unfolding receive_valves with_response
use_length-ss m c none = inr refl
use_length-ss m c (some (n, sock)) =
    use_buffer-ss m n c (sd_recv_rsp_msg n (m.allocator.malloc n) sock)

log_refusal-ss : (net : Network) (c : Client) → (log_refusal net c).ss ≡ c.ss
unfolding log_refusal
log_refusal-ss no_socket c = refl
log_refusal-ss no_connection c = refl
log_refusal-ss send_fails c = refl
log_refusal-ss (connected _) c = refl

use_connection-ss :
    (m : Machine) (net : Network) (c : Client) (s : Sent)
    → KeepsSchedules c (use_connection m net get_device_valves_msg (receive_valves m) c s)
use_connection-ss m net c Sent.fault = inl refl
use_connection-ss m net c (refused _) = inr (log_refusal-ss net c)
use_connection-ss m net c (sent header sock) =
    use_length-ss m (logged (log_request get_device_valves_msg) c)
      (sd_recv_rsp_len m.endian m.stale sock)

-- Whatever the network does.
pub cc_set_valve_info-ss :
    (m : Machine) (net : Network) (c : Client) → KeepsSchedules c (cc_set_valve_info m net c)
unfolding cc_set_valve_info
cc_set_valve_info-ss m net c = use_connection-ss m net c _
