-- ===== src/Client/Controller/Failure.antt =====
-- client_controller.c: a call that fails sets nothing, whatever the network does.
use bbd.Prelude.{
  ℕ, ◌≡◌, ◌⊎◌, inl, inr, refl, Option, none, some, List, Bool, true, false, ◌/◌, if◌then◌else◌,
  ◌==◌, ◌>>=◌,
}
use bbd.Bytes.{Incoming}
use bbd.Client.SocketData.{
  RequestType, get_device_valves_msg, get_active_sches_msg, check_new_schedules_msg, Network,
  no_socket, no_connection, send_fails, connected, Sent, refused, sent, sd_recv_rsp_len,
  sd_recv_rsp_msg,
}
use bbd.Client.State.{Client, log_request, log_response}
use bbd.Client.ValveManager.{vm_init_set_valves}
use bbd.Client.ScheduleManager.{sm_set_new_schedules}
use bbd.Client.Controller.{
  Machine, Return, ret, logged, log_refusal, with_response, receive_schedules, receive_valves,
  set_valves, set_schedules, use_connection, use_length, use_buffer, or_fault, decode_valve_ids,
  decode_schedules, cc_set_valve_info, cc_set_active_schedules, cc_check_new_schedules,
}

-- The call has returned 0 or gone outside a buffer, or the valves and the schedules are those of
-- before.
abbrev pub SetsOnSuccess : Client → Client × Return → Type 0
SetsOnSuccess c r =
    (r.1 ≡ ret 0) ⊎ (r.1 ≡ Return.fault) ⊎ ((r.0.valves_map ≡ c.valves_map) × (r.0.ss ≡ c.ss))

abbrev Receives : (ℕ → Incoming → Client → Client × Return) → Type 0
Receives k = (n : ℕ) (sock : Incoming) (c : Client) → SetsOnSuccess c (k n sock c)

use_connection-SetsOnSuccess :
    (m : Machine) (net : Network) (type : RequestType) (k : ℕ → Incoming → Client → Client × Return)
    (c : Client) (s : Sent)
    → Receives k
    → SetsOnSuccess c (use_connection m net type k c s)
unfolding log_refusal
use_connection-SetsOnSuccess m net type k c Sent.fault keep = inr (inl refl)
use_connection-SetsOnSuccess m no_socket type k c (refused _) keep = inr (inr (refl, refl))
use_connection-SetsOnSuccess m no_connection type k c (refused _) keep = inr (inr (refl, refl))
use_connection-SetsOnSuccess m send_fails type k c (refused _) keep = inr (inr (refl, refl))
use_connection-SetsOnSuccess m (connected _) type k c (refused _) keep = inr (inr (refl, refl))
use_connection-SetsOnSuccess m net type k c (sent header sock) keep =
    received (sd_recv_rsp_len m.endian m.stale sock)
  where
    received :
        (o : Option (ℕ × Incoming)) → SetsOnSuccess c (use_length k (logged (log_request type) c) o)
    received none = inr (inr (refl, refl))
    received (some (n, rest)) = keep n rest (logged (log_request type) c)

or_fault-SetsOnSuccess {ℓ} :
    {A : Type ℓ} (m : Machine) (k : A → Client) (c : Client) (o : Option A)
    → SetsOnSuccess c (or_fault m k c o)
or_fault-SetsOnSuccess m k c none = inr (inl refl)
or_fault-SetsOnSuccess m k c (some a) = inl refl

with_response-SetsOnSuccess :
    (m : Machine) (type : RequestType) (n : ℕ) (sock : Incoming)
    (k : List ℕ → Client → Client × Return) (c : Client)
    → ((rsp : List ℕ) (d : Client) → SetsOnSuccess d (k rsp d))
    → SetsOnSuccess c (with_response m type n sock k c)
unfolding with_response
with_response-SetsOnSuccess m type n sock k c keep =
    buffered (sd_recv_rsp_msg n (m.allocator.malloc n) sock)
  where
    buffered : (o : Option (List ℕ)) → SetsOnSuccess c (use_buffer type n k c o)
    buffered none = inr (inr (refl, refl))
    buffered (some rsp) = keep rsp (logged (log_response type n) c)

receive_schedules-SetsOnSuccess :
    (m : Machine) (type empty : RequestType) → Receives (receive_schedules m type empty)
unfolding receive_schedules
receive_schedules-SetsOnSuccess m type empty n sock c = chosen (n == 0) (
    with_response-SetsOnSuccess m type n sock (set_schedules m n) c λ rsp d.
      or_fault-SetsOnSuccess m (λ x. x) d
        (decode_schedules m.endian rsp 0 (n / 8) >>= sm_set_new_schedules d))
  where
    chosen :
        (b : Bool)
        → SetsOnSuccess c (with_response m type n sock (set_schedules m n) c)
        → SetsOnSuccess c (
            if b
            then (logged (log_response empty n) c, ret 0)
            else with_response m type n sock (set_schedules m n) c)
    chosen true h = inl refl
    chosen false h = h

-- Each of the three calls of the client returns 0, goes outside a buffer, or leaves the valves and
-- the schedules as they were, whatever the network does.
pub cc_calls-SetsOnSuccess :
    (m : Machine) (net : Network) (c : Client)
    → SetsOnSuccess c (cc_set_valve_info m net c)
      × SetsOnSuccess c (cc_set_active_schedules m net c)
      × SetsOnSuccess c (cc_check_new_schedules m net c)
unfolding cc_set_valve_info cc_set_active_schedules cc_check_new_schedules
cc_calls-SetsOnSuccess m net c = (
  use_connection-SetsOnSuccess m net get_device_valves_msg (receive_valves m) c _ (λ n sock d.
      with_response-SetsOnSuccess m get_device_valves_msg n sock (set_valves m n) d λ rsp f.
        or_fault-SetsOnSuccess m (vm_init_set_valves f) f
          (decode_valve_ids m.endian rsp 0 (n / 2))),
  use_connection-SetsOnSuccess m net get_active_sches_msg
      (receive_schedules m get_active_sches_msg get_active_sches_msg) c _
      (receive_schedules-SetsOnSuccess m get_active_sches_msg get_active_sches_msg),
  use_connection-SetsOnSuccess m net check_new_schedules_msg
      (receive_schedules m check_new_schedules_msg get_active_sches_msg) c _
      (receive_schedules-SetsOnSuccess m check_new_schedules_msg get_active_sches_msg),
)
