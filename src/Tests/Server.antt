-- ===== src/Tests/Server.antt =====
-- The theorems on the server, for the garden.
use bbd.Prelude.{◌≡◌, refl, inr, true, false, [], ◌∷◌, arith}
use bbd.Bytes.{Incoming}
use bbd.Database.{Database, rcv_get_active_schedules}
use bbd.Server.SocketData.{Header}
use bbd.Server.Db.{set_schedules_sent}
use bbd.Server.Db.Sent.{mark_first, set_schedules_sent-mark_first}
use bbd.Server.Main.{
  silent, replied, after_active, handle_device_valves, handle_active_schedules,
  handle_check_schedules, serve, run_server,
}
use bbd.Server.Main.Keys.{lasting, lasting-run_server}
use bbd.Server.Main.Replies.{
  serve_refused, handle_device_valves-framed, handle_active_schedules-framed,
  handle_check_schedules-framed,
}
use bbd.Wire.Format.{framed, wire_schedules}
use bbd.Wire.Header.{HeaderFits}
use bbd.Tests.Data.{host, pqxx, pqxx-PqxxLaws, garden, dawn, dusk, dawn-IsU16, dusk-IsU16}

set_schedules_sent_example :
    set_schedules_sent pqxx true 700 garden (dawn ∷ dusk ∷ [])
    ≡ mark_first 700 garden (dawn ∷ dusk ∷ [])
set_schedules_sent_example =
    set_schedules_sent-mark_first pqxx pqxx-PqxxLaws 700 garden (dawn ∷ dusk ∷ [])

device_valves_example :
    handle_device_valves host garden 1 ≡ (garden, replied (0 ∷ 4 ∷ 0 ∷ 3 ∷ 0 ∷ 4 ∷ []))
unfolding bbd.Database.rcv_get_device_valves
device_valves_example =
    handle_device_valves-framed host pqxx-PqxxLaws refl refl garden 1
      (omega arith, (omega arith, tt)) (omega arith)

active_schedules_example : handle_active_schedules host garden 1 ≡ (
  after_active host garden (dawn ∷ dusk ∷ []),
  replied (framed (wire_schedules (dawn ∷ dusk ∷ []))),
)
unfolding rcv_get_active_schedules bbd.Database.select_active
active_schedules_example =
    handle_active_schedules-framed host pqxx-PqxxLaws refl refl garden 1
      (dawn-IsU16, (dusk-IsU16, tt)) (omega arith)

check_schedules_example : handle_check_schedules host garden 1 ≡ (
  (set_schedules_sent pqxx true 700 garden (dawn ∷ dusk ∷ [])).0,
  replied (framed (wire_schedules (dawn ∷ dusk ∷ []))),
)
unfolding rcv_get_active_schedules bbd.Database.select_active
check_schedules_example =
    handle_check_schedules-framed host pqxx-PqxxLaws refl refl garden 1
      (dawn-IsU16, (dusk-IsU16, tt)) (omega arith)

abbrev unknown_request : Header
unknown_request = record { magic_number = 38017; device_id = 1; msg_type = 9; msg_size = 0 }

unknown_request-HeaderFits : HeaderFits unknown_request
unknown_request-HeaderFits = record {
  magic_fits = omega arith;
  device_fits = omega arith;
  type_fits = omega arith;
  size_fits = omega arith;
}

refused_example :
    serve host garden (Incoming.bytes (148 ∷ 129 ∷ 1 ∷ 9 ∷ 0 ∷ 0 ∷ [])) ≡ (garden, silent)
refused_example =
    serve_refused host garden unknown_request [] unknown_request-HeaderFits
      (inr (inr (omega arith)))

-- A test: where the response cannot be sent, the first schedule is marked as sent all the same.
lost_response :
    handle_active_schedules (record host { send_ok = false }) garden 1
    ≡ (after_active host garden (dawn ∷ dusk ∷ []), silent)
unfolding handle_active_schedules bbd.Server.Db.db_get_active_schedules rcv_get_active_schedules
    bbd.Server.SocketData.craft_active_schedules_rsp bbd.Server.SocketData.send_rsp_msg
lost_response = refl

lasting-run_server_example :
    lasting
      (run_server garden (
        (host, Incoming.bytes (148 ∷ 129 ∷ 1 ∷ 2 ∷ 0 ∷ 0 ∷ []))
        ∷ (host, Incoming.bytes (148 ∷ 129 ∷ 1 ∷ 3 ∷ 0 ∷ 0 ∷ []))
        ∷ [])).0
    ≡ (garden.devices, garden.valves, 4, dawn ∷ dusk ∷ (record dawn { schedule_id = 3 }) ∷ [])
lasting-run_server_example = lasting-run_server garden (
    (host, Incoming.bytes (148 ∷ 129 ∷ 1 ∷ 2 ∷ 0 ∷ 0 ∷ []))
    ∷ (host, Incoming.bytes (148 ∷ 129 ∷ 1 ∷ 3 ∷ 0 ∷ 0 ∷ []))
    ∷ [])
