-- ===== src/Tests/Client.antt =====
-- The theorems on the client, for a device with two valves.
use bbd.Prelude.{◌≡◌, inl, refl, true, false, some, [], ◌∷◌, map, arith}
use bbd.Bytes.{Incoming}
use bbd.Client.SocketData.{
  connected, no_connection, get_active_sches_msg, check_new_schedules_msg, get_device_valves_msg,
}
use bbd.Client.State.{Client, valve_open, valve_closed, log_request, log_response}
use bbd.Client.ValveManager.{get_entry, vm_get_valve_state, vm_set_valve_state, vm_init_set_valves}
use bbd.Client.ValveManager.Laws.{
  vm_get_valve_state-vm_set_valve_state, vm_set_valve_state_status,
  vm_get_valve_state-vm_init_set_valves,
}
use bbd.Client.ScheduleManager.{pass, sm_set_new_schedules, sm_run_scheduler_thread, scheduled}
use bbd.Client.ScheduleManager.Pass.{pass-settle, pass-turned_all, pass_idem}
use bbd.Client.ScheduleManager.Consistent.{wanted, Consistent, pass-Consistent, pass-closes-wanted}
use bbd.Client.ScheduleManager.Stuck.{
  sm_run_scheduler_thread-unmentioned, sm_set_new_schedules_stuck,
}
use bbd.Client.ScheduleManager.Bound.{sm_set_new_schedules_lem}
use bbd.Client.Controller.{
  ret, logged, cc_set_active_schedules, cc_check_new_schedules, cc_set_valve_info,
}
use bbd.Client.Controller.Response.{answered, cc_set_active_schedules-wire, cc_set_valve_info-wire}
use bbd.Client.Controller.Empty.{receive_empty, cc_set_valve_info-empty}
use bbd.Client.Controller.Cut.{FailsAt, cc_calls-FailsAt}
use bbd.Wire.Format.{framed, wire_schedules}
use bbd.Tests.Data.{device, watering, dawn, dusk, dawn-IsU16, dusk-IsU16}

read_after_write_example :
    (vm_get_valve_state (vm_set_valve_state watering 4 valve_open).0 4).1 ≡ some valve_open
unfolding vm_get_valve_state get_entry
read_after_write_example = vm_get_valve_state-vm_set_valve_state watering 4 4 valve_open

write_status_example :
    ((vm_set_valve_state watering 8 valve_open).1 ≡ 1)
    × (map (λ v. v.v_id) (vm_set_valve_state watering 8 valve_open).0.valves_map ≡ 3 ∷ 4 ∷ [])
write_status_example = vm_set_valve_state_status watering 8 valve_open

read_after_init_example :
    (vm_get_valve_state (vm_init_set_valves watering (5 ∷ 6 ∷ [])) 6).1 ≡ some valve_closed
read_after_init_example = vm_get_valve_state-vm_init_set_valves watering (5 ∷ 6 ∷ []) 6

pass-settle_example :
    (pass 1210 watering).ss
    ≡ (record { sche = dawn; is_active = false }) ∷ (record { sche = dusk; is_active = true }) ∷ []
pass-settle_example = pass-settle 1210 watering

pass-turned_all_example : get_entry 3 (pass 1210 watering).valves_map ≡ some valve_closed
unfolding bbd.Client.ScheduleManager.opens bbd.Client.ScheduleManager.closes get_entry
pass-turned_all_example = pass-turned_all 1210 3 watering refl

pass_idem_example : pass 1210 (pass 1210 watering) ≡ pass 1210 watering
pass_idem_example = pass_idem 1210 watering

pass-Consistent_example : Consistent 4 (pass 1210 watering)
unfolding bbd.Client.ScheduleManager.closes get_entry
pass-Consistent_example = pass-Consistent 1210 4 watering (inl refl) refl

-- A second schedule of the valve covers the last minutes of the first and the time after.
abbrev overlapping : Client
overlapping = record watering {
  ss =
      (record { sche = record dawn { schedule_id = 5; start = 370; stop = 400 }; is_active = true })
      ∷ (record { sche = dawn; is_active = true })
      ∷ [];
}

pass-closes-wanted_example :
    (get_entry 3 (pass 376 overlapping).valves_map ≡ some valve_closed)
    × (wanted 3 (pass 376 overlapping).ss ≡ valve_open)
unfolding bbd.Client.ScheduleManager.opens bbd.Client.ScheduleManager.closes get_entry
pass-closes-wanted_example =
    pass-closes-wanted 376 3 overlapping (record { sche = dawn; is_active = true })
      ((record {
        sche = record dawn { schedule_id = 5; start = 370; stop = 400 };
        is_active = true;
      })
        ∷ [])
      [] refl refl refl refl refl refl

unmentioned_example :
    get_entry 4
      (sm_run_scheduler_thread
        ((record { tm_hour = 6; tm_min = 5 }) ∷ (record { tm_hour = 21; tm_min = 0 }) ∷ [])
        overlapping).valves_map
    ≡ some valve_closed
unfolding get_entry
unmentioned_example =
    sm_run_scheduler_thread-unmentioned 4
      ((record { tm_hour = 6; tm_min = 5 }) ∷ (record { tm_hour = 21; tm_min = 0 }) ∷ [])
      overlapping refl refl

stuck_example :
    get_entry 3
      (sm_run_scheduler_thread
        ((record { tm_hour = 23; tm_min = 59 }) ∷ [])
        (scheduled watering (dusk ∷ []))).valves_map
    ≡ some valve_open
unfolding get_entry sm_set_new_schedules
stuck_example =
    sm_set_new_schedules_stuck 3 watering (scheduled watering (dusk ∷ [])) (dusk ∷ [])
      ((record { tm_hour = 23; tm_min = 59 }) ∷ []) refl refl refl

bound_example :
    sm_set_new_schedules watering (dawn ∷ dusk ∷ []) ≡ some (scheduled watering (dawn ∷ dusk ∷ []))
bound_example = sm_set_new_schedules_lem watering (dawn ∷ dusk ∷ []) (omega arith)

failure_example :
    FailsAt get_device_valves_msg (cc_set_valve_info device) 0 16 watering
    × FailsAt get_active_sches_msg (cc_set_active_schedules device) 0 16 watering
    × FailsAt check_new_schedules_msg (cc_check_new_schedules device) 0 16 watering
unfolding bbd.Client.SocketData.sd_prep_recved_16
failure_example = cc_calls-FailsAt device 0 16 watering (omega arith)

set_schedules_example :
    cc_set_active_schedules device
      (connected (Incoming.bytes (framed (wire_schedules (dawn ∷ dusk ∷ [])))))
      watering
    ≡ (scheduled (answered get_active_sches_msg 16 watering) (dawn ∷ dusk ∷ []), ret 0)
set_schedules_example =
    cc_set_active_schedules-wire device (dawn ∷ dusk ∷ []) watering (dawn-IsU16, (dusk-IsU16, tt))
      (omega arith) (omega arith)

set_valves_example :
    cc_set_valve_info device (connected (Incoming.bytes (0 ∷ 4 ∷ 0 ∷ 5 ∷ 1 ∷ 44 ∷ []))) watering
    ≡ (vm_init_set_valves (answered get_device_valves_msg 4 watering) (5 ∷ 300 ∷ []), ret 0)
set_valves_example =
    cc_set_valve_info-wire device (5 ∷ 300 ∷ []) watering (omega arith, (omega arith, tt))
      (omega arith) (omega arith)

empty_response_example :
    (cc_set_active_schedules device (connected (Incoming.bytes (0 ∷ 0 ∷ []))) watering
      ≡ (answered get_active_sches_msg 0 watering, ret 0))
    × (cc_check_new_schedules device (connected (Incoming.bytes (0 ∷ 0 ∷ []))) watering ≡ (
      logged
          (log_response get_active_sches_msg 0)
          (logged (log_request check_new_schedules_msg) watering),
      ret 0,
    ))
empty_response_example = receive_empty device watering

no_valves_example :
    (cc_set_valve_info device (connected (Incoming.bytes (0 ∷ 0 ∷ []))) watering).1 ≡ ret 4
no_valves_example = cc_set_valve_info-empty device watering
