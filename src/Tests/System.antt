-- ===== src/Tests/System.antt =====
-- The theorems on the two programs together, for the garden.
use bbd.Text.{codes}
use bbd.Client.TestServer.{test_server}
use bbd.System.Testing.{test_server-succeeds}
use bbd.Prelude.{true, ◌≡◌, refl, some, [], ◌∷◌, arith}
use bbd.Database.{
  web_deactivate_schedule_request, rcv_get_device_valves, rcv_get_active_schedules, select_active,
}
use bbd.Client.SocketData.{get_device_valves_msg, get_active_sches_msg, check_new_schedules_msg}
use bbd.Client.State.{valve_open}
use bbd.Client.ValveManager.{get_entry, vm_init_set_valves}
use bbd.Client.ScheduleManager.{pass, scheduled}
use bbd.Client.Controller.{ret}
use bbd.Client.Controller.Response.{answered}
use bbd.Client.DeviceClient.{start}
use bbd.System.{ask_valves, ask_schedules, ask_check}
use bbd.System.Fetching.{ask_valves_lem, ask_schedules_lem, ask_check_lem}
use bbd.System.Deactivation.{ask_check_deactivated}
use bbd.System.Startup.{healthy, start-first_pass}
use bbd.Tests.Data.{
  host, pqxx-PqxxLaws, device, garden, sent_garden, watering, dawn, dusk, dawn-IsU16, dusk-IsU16,
}

first_pass_example :
    ((start device (healthy host garden)).1 ≡ ret 0)
    × (get_entry 3 (pass 365 (start device (healthy host garden)).0).valves_map ≡ some valve_open)
unfolding rcv_get_device_valves rcv_get_active_schedules select_active
first_pass_example =
    start-first_pass device host pqxx-PqxxLaws refl refl garden (dawn-IsU16, (dusk-IsU16, tt))
      (omega arith) 365 3 (omega arith, (omega arith, tt)) (omega arith) (omega arith) refl

ask_valves_example :
    ask_valves device host garden watering
    ≡ (vm_init_set_valves (answered get_device_valves_msg 4 watering) (3 ∷ 4 ∷ []), ret 0)
unfolding rcv_get_device_valves
ask_valves_example =
    ask_valves_lem device host pqxx-PqxxLaws refl refl garden watering
      (omega arith, (omega arith, tt)) (omega arith) (omega arith)

ask_schedules_example :
    ask_schedules device host garden watering
    ≡ (scheduled (answered get_active_sches_msg 16 watering) (dawn ∷ dusk ∷ []), ret 0)
unfolding rcv_get_active_schedules select_active
ask_schedules_example =
    ask_schedules_lem device host pqxx-PqxxLaws refl refl garden watering
      (dawn-IsU16, (dusk-IsU16, tt)) (omega arith) (omega arith)

ask_check_example :
    ask_check device host garden watering
    ≡ (scheduled (answered check_new_schedules_msg 16 watering) (dawn ∷ dusk ∷ []), ret 0)
unfolding rcv_get_active_schedules select_active
ask_check_example =
    ask_check_lem device host pqxx-PqxxLaws refl refl garden watering (dawn-IsU16, (dusk-IsU16, tt))
      refl (omega arith)

ask_check_deactivated_example :
    ((ask_check device host (web_deactivate_schedule_request sent_garden 1) watering).1 ≡ ret 0)
    × ((ask_check device host (web_deactivate_schedule_request sent_garden 1) watering).0.ss
        ≡ watering.ss)
    × ((ask_check device host (web_deactivate_schedule_request sent_garden 1) watering).0.valves_map
        ≡ watering.valves_map)
unfolding rcv_get_active_schedules select_active
ask_check_deactivated_example =
    ask_check_deactivated device host pqxx-PqxxLaws refl refl sent_garden watering 1
      (dawn-IsU16, (dusk-IsU16, tt)) refl (omega arith)

test_server_example :
    ((test_server device true
        (healthy host garden).valves_net
        (healthy host garden).schedules_net).status
      ≡ ret 0)
    × ((test_server device true
          (healthy host garden).valves_net
          (healthy host garden).schedules_net).printed
        ≡ codes
            "testing cc_set_valve_info..\ntesting cc_set_active_schedules..\ntests succeeded!\n")
unfolding rcv_get_device_valves rcv_get_active_schedules select_active
test_server_example =
    test_server-succeeds device host garden pqxx-PqxxLaws refl refl (dawn-IsU16, (dusk-IsU16, tt))
      (omega arith) (omega arith, (omega arith, tt)) (omega arith) (omega arith)
