-- ===== src/System/Testing.antt =====
-- The client's test program and the receiver.
use bbd.Prelude.{◌<◌, ◌≡◌, ap, ◌∙◌, refl, true, All, length}
use bbd.Text.{codes}
use bbd.Database.{Database, rcv_get_device_valves, rcv_get_active_schedules}
use bbd.Client.State.{Client, log_info}
use bbd.Client.SocketData.{get_device_valves_msg}
use bbd.Client.ValveManager.{vm_init_set_valves}
use bbd.Client.ScheduleManager.{sm_init_scheduler}
use bbd.Client.Controller.{Machine, ret, logged, client_device_id}
use bbd.Client.Controller.Response.{answered}
use bbd.Client.DeviceClient.{initial}
use bbd.Client.TestServer.{tested_valves, tested_schedules, test_server}
use bbd.Server.Db.{PqxxLaws}
use bbd.Server.Db.Fetch.{RowFits}
use bbd.Server.Main.{Env}
use bbd.Wire.Format.{wire_valves}
use bbd.System.{ask_valves, ask_schedules}
use bbd.System.Startup.{healthy, ask_schedules-HasSchedules}
use bbd.System.Fetching.{ask_valves_lem}

abbrev before : Client
before = logged (log_info "schedule manager initialized") initial

-- The client's test program against the receiver ends with status 0 and prints that its tests
-- succeeded. Conditions: the device has valves, the network, the mutex and the connection to the
-- database work, the numbers fit in 16 bits, and there are fewer than 32767 valves and 6554
-- schedules.
pub test_server-succeeds :
    (m : Machine) (env : Env) (db : Database)
    → PqxxLaws env.px
    → env.send_ok ≡ true
    → env.get_up ≡ true
    → All RowFits (rcv_get_active_schedules db client_device_id)
    → length (rcv_get_active_schedules db client_device_id) < 6554
    → All (λ id. id < 65536) (rcv_get_device_valves db client_device_id)
    → 0 < length (rcv_get_device_valves db client_device_id)
    → length (rcv_get_device_valves db client_device_id) < 32767
    → ((test_server m true (healthy env db).valves_net (healthy env db).schedules_net).status
        ≡ ret 0)
      × ((test_server m true (healthy env db).valves_net (healthy env db).schedules_net).printed
          ≡ codes
              "testing cc_set_valve_info..\ntesting cc_set_active_schedules..\ntests succeeded!\n")
unfolding test_server ask_valves ask_schedules sm_init_scheduler initial vm_init_set_valves
test_server-succeeds m env db laws send_ok get_up rows_fit few_rows fits pos few =
    let ids = rcv_get_device_valves db client_device_id in
    let c =
      vm_init_set_valves (answered get_device_valves_msg (length (wire_valves ids)) before) ids in
    let answer = ask_schedules m env db c in
    let has = ask_schedules-HasSchedules m env laws send_ok get_up db rows_fit few_rows c refl in
    let e =
      ap (tested_valves m (healthy env db).schedules_net (codes "testing cc_set_valve_info..\n"))
        (ask_valves_lem m env laws send_ok get_up db before fits pos few)
      ∙ ap
          (λ r.
            tested_schedules
              (codes "testing cc_set_valve_info..\ntesting cc_set_active_schedules..\n")
              (answer.0, r))
          has.succeeded in
    (ap (λ r. r.status) e, ap (λ r. r.printed) e)
