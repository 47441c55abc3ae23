-- ===== src/Client/Controller/Empty.antt =====
-- client_controller.c: an empty response.
use bbd.Prelude.{◌≡◌, refl, ap, [], arith, ◌∙◌}
use bbd.Bytes.{Incoming}
use bbd.Client.SocketData.{
  connected, sd_recv_rsp_msg, get_active_sches_msg, get_device_valves_msg, check_new_schedules_msg,
}
use bbd.Client.State.{Client, log_request, log_response}
use bbd.Client.Controller.{
  Machine, ret, logged, receive_schedules, receive_valves, cc_set_valve_info,
  cc_set_active_schedules, cc_check_new_schedules,
}
use bbd.Wire.Format.{framed, wire_valves}
use bbd.Client.Controller.Response.{answered, with_length-framed}

-- An empty response to a fetch or a check of schedules is logged, under the fetch in both cases,
-- and leaves the schedules and the valves as they are: it cannot tell the client that its last
-- schedule is gone.
pub receive_empty :
    (m : Machine) (c : Client)
    → let empty = connected (Incoming.bytes (framed [])) in
      (cc_set_active_schedules m empty c ≡ (answered get_active_sches_msg 0 c, ret 0))
      × (cc_check_new_schedules m empty c ≡ (
        logged
            (log_response get_active_sches_msg 0)
            (logged (log_request check_new_schedules_msg) c),
        ret 0,
      ))
unfolding cc_set_active_schedules cc_check_new_schedules
receive_empty m c = (
  with_length-framed m get_active_sches_msg []
        (receive_schedules m get_active_sches_msg get_active_sches_msg) c (omega arith)
      ∙ refl,
  with_length-framed m check_new_schedules_msg []
        (receive_schedules m check_new_schedules_msg get_active_sches_msg) c (omega arith)
      ∙ refl,
)

-- The bug: for a device without valves the server's response is empty, and at an empty response
-- the client fails with 4, since a recv of no bytes gives 0.
pub cc_set_valve_info-empty :
    (m : Machine) (c : Client)
    → (cc_set_valve_info m (connected (Incoming.bytes (framed (wire_valves [])))) c).1 ≡ ret 4
unfolding cc_set_valve_info sd_recv_rsp_msg
cc_set_valve_info-empty m c =
    ap (λ r. r.1) (with_length-framed m get_device_valves_msg [] (receive_valves m) c (omega arith))
    ∙ refl
