-- ===== src/Client/ScheduleManager/Stuck.antt =====
-- schedule_manager.c: a new list of schedules while the thread runs.
use bbd.Prelude.{ℕ, Bool, false, some, List, [], ◌∷◌, map, ◌≡◌, refl, ◌∙◌, arith, ◌==◌, any, ap}
use bbd.Schedule.{Schedule}
use bbd.Client.State.{ValveState, valve_open, ScheduleStatus, Client}
use bbd.Client.ValveManager.{get_entry}
use bbd.Client.ScheduleManager.{
  Tm, minutes, pass, sm_run_scheduler_thread, sm_set_new_schedules, scheduled,
}
use bbd.Client.ScheduleManager.Pass.{settle, turned_all, pass-settle, pass-turned_all}

abbrev pub mentions : ℕ → List ScheduleStatus → Bool
mentions v ss = any (λ s. s.valve_id == v) ss

turned_all-unmentioned :
    (m v : ℕ) (st : ValveState) (ss : List ScheduleStatus)
    → mentions v ss ≡ false
    → turned_all m v st ss ≡ st
turned_all-unmentioned m v st [] h = refl
turned_all-unmentioned m v st (s ∷ ss) h = ground (arith, turned_all-unmentioned m v st ss)

mentions-settle :
    (m v : ℕ) (ss : List ScheduleStatus) → mentions v (map (settle m) ss) ≡ mentions v ss
mentions-settle m v [] = refl
mentions-settle m v (s ∷ ss) = cc (mentions-settle m v ss)

-- A valve of the device without a schedule keeps its state through any number of passes.
pub sm_run_scheduler_thread-unmentioned :
    (v : ℕ) (times : List Tm) (c : Client) {st : ValveState}
    → mentions v c.ss ≡ false
    → get_entry v c.valves_map ≡ some st
    → get_entry v (sm_run_scheduler_thread times c).valves_map ≡ some st
unfolding sm_run_scheduler_thread
sm_run_scheduler_thread-unmentioned v [] c out h = h
sm_run_scheduler_thread-unmentioned v (t ∷ times) c {st} out h =
    sm_run_scheduler_thread-unmentioned v times (pass (minutes t) c)
      (ap (mentions v) (pass-settle (minutes t) c) ∙ mentions-settle (minutes t) v c.ss ∙ out)
      (pass-turned_all (minutes t) v c h
        ∙ ap some (turned_all-unmentioned (minutes t) v st c.ss out))

mentions-new :
    (v : ℕ) (sches : List Schedule)
    → mentions v (map (λ s. record { sche = s; is_active = false }) sches)
      ≡ any (λ s. s.valve_id == v) sches
mentions-new v [] = refl
mentions-new v (s ∷ sches) = cc (mentions-new v sches)

set_to_scheduled :
    (c d : Client) (sches : List Schedule)
    → sm_set_new_schedules c sches ≡ some d
    → d ≡ scheduled c sches
unfolding sm_set_new_schedules
set_to_scheduled c d sches h = ground arith

-- The bug: when new schedules replace the old ones, a valve that is open and that none of the new
-- ones names stays open through any number of passes: the marks by which it would be closed are
-- gone, and no code closes it when the list changes.
pub sm_set_new_schedules_stuck :
    (v : ℕ) (c d : Client) (sches : List Schedule) (times : List Tm)
    → sm_set_new_schedules c sches ≡ some d
    → get_entry v c.valves_map ≡ some valve_open
    → any (λ s. s.valve_id == v) sches ≡ false
    → get_entry v (sm_run_scheduler_thread times d).valves_map ≡ some valve_open
sm_set_new_schedules_stuck v c d sches times e h out =
    let is_scheduled = set_to_scheduled c d sches e in
    sm_run_scheduler_thread-unmentioned v times d
      (ap (λ x. mentions v x.ss) is_scheduled ∙ mentions-new v sches ∙ out)
      (ap (λ x. get_entry v x.valves_map) is_scheduled ∙ h)
