-- ===== src/Client/DeviceClient/Start.antt =====
-- device_client.c: the numbers that the start-up ends with.
use bbd.Prelude.{◌≡◌, ap, ◌∙◌, true}
use bbd.Client.State.{Client, log_info}
use bbd.Client.ScheduleManager.{sm_init_scheduler}
use bbd.Client.Controller.{Machine, ret, logged, cc_set_valve_info, cc_set_active_schedules}
use bbd.Client.DeviceClient.{Startup, initial, start, fetch_valves, fetch_schedules, start_thread}

abbrev pub before_valves : Client
before_valves =
    logged (log_info "updating valve info from server")
      (logged (log_info "schedule manager initialized") initial)

abbrev pub before_schedules : Client → Client
before_schedules c = logged (log_info "updating schedule info from server") c

abbrev pub running : Client → Client
running c =
    logged (log_info "schedule manager started") (logged (log_info "starting schedule manager") c)

-- Where each part goes well, so does the whole.
pub start-running :
    (m : Machine) (s : Startup) (c d : Client)
    → s.mutex_ok ≡ true
    → cc_set_valve_info m s.valves_net before_valves ≡ (c, ret 0)
    → cc_set_active_schedules m s.schedules_net (before_schedules c) ≡ (d, ret 0)
    → s.thread_ok ≡ true
    → start m s ≡ (running d, ret 0)
unfolding start
start-running m s c d mutex valves schedules thread =
    ap (λ b. fetch_valves m s (sm_init_scheduler b initial)) mutex
    ∙ ap (fetch_schedules m s) valves
    ∙ ap (start_thread s) schedules
    ∙ ap (λ b. start_thread (record s { thread_ok = b }) (d, ret 0)) thread
