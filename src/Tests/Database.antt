-- ===== src/Tests/Database.antt =====
-- The theorems on the tables, for the garden.
use bbd.Prelude.{◌≡◌, refl, false, not, [], ◌∷◌, ◌++◌, map, filter, any, ◌&&◌}
use bbd.Database.{
  row_of, joined, inserted, rcv_get_active_schedules, rcv_set_schedule_sent,
  deactivation_requests_done, web_create_new_schedule, web_deactivate_schedule_request,
}
use bbd.Database.Laws.{
  any-rcv_get_active_schedules, rcv_get_active_schedules-web_deactivate_schedule_request,
  rcv_get_active_schedules-web_create_new_schedule, other_than,
}
use bbd.Database.Updates.{
  deactivation_requests_done_idem, rcv_get_active_schedules-rcv_set_schedule_sent, marked,
}
use bbd.Tests.Data.{garden}

any-rcv_get_active_schedules_example :
    any (λ r. not r.sent) (rcv_get_active_schedules garden 1)
    ≡ any
        (λ r. r.active && any (λ v. not (row_of r v).sent) (joined garden.valves 1 r.valve_id))
        garden.schedules
any-rcv_get_active_schedules_example = any-rcv_get_active_schedules garden 1 (λ r. not r.sent)

deactivated_example :
    rcv_get_active_schedules (web_deactivate_schedule_request garden 1) 1
    ≡ filter (other_than 1) (rcv_get_active_schedules garden 1)
deactivated_example = rcv_get_active_schedules-web_deactivate_schedule_request garden 1 1

created_example :
    rcv_get_active_schedules (inserted 700 garden 4 "noon" 720 730) 1
    ≡ rcv_get_active_schedules garden 1
      ++ (record { schedule_id = 4; valve_id = 4; start_time = 720; stop_time = 730; sent = false })
        ∷ []
unfolding web_create_new_schedule
created_example =
    rcv_get_active_schedules-web_create_new_schedule 700 garden
      (inserted 700 garden 4 "noon" 720 730) 1 4 "noon" 720 730 refl

done_twice_example :
    deactivation_requests_done 900 (deactivation_requests_done 700 garden).0
    ≡ ((deactivation_requests_done 700 garden).0, [])
done_twice_example = deactivation_requests_done_idem 700 900 garden

marked_example :
    rcv_get_active_schedules (rcv_set_schedule_sent 700 garden 1).0 1
    ≡ map (marked 1) (rcv_get_active_schedules garden 1)
marked_example = rcv_get_active_schedules-rcv_set_schedule_sent 700 garden 1 1
