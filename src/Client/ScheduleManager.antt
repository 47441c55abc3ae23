-- ===== src/Client/ScheduleManager.antt =====
-- client/daemon/src/schedule_manager: the thread that compares the clock with each schedule.
-- One pass of its loop over the array is a function; the locks are taken round single entries.
pub mod Pass
pub mod Consistent
pub mod Stuck
pub mod Bound
use bbd.Prelude.{
  ℕ, ◌+◌, ◌*◌, Bool, true, false, not, ◌&&◌, ◌||◌, List, [], ◌∷◌, map, ltb, leb, Option, none, some,
  length, if◌then◌else◌,
}
use bbd.Bytes.{u16}
use bbd.Schedule.{Schedule}
use bbd.Client.State.{valve_open, valve_closed, ScheduleStatus, Client, log_info, log_set_schedules}
use bbd.Client.ValveManager.{vm_set_valve_state}

-- The two tests of the loop.
unfoldable pub opens : ℕ → ScheduleStatus → Bool
opens curr_mins s = not s.is_active && (leb s.start curr_mins && leb curr_mins s.stop)

unfoldable pub closes : ℕ → ScheduleStatus → Bool
closes curr_mins s = s.is_active && (ltb curr_mins s.start || ltb s.stop curr_mins)

unfoldable pub activate : ℕ → Client × ScheduleStatus → Client × ScheduleStatus
unfolding opens
activate curr_mins (c, s) =
    if opens curr_mins s
    then ((vm_set_valve_state c s.valve_id valve_open).0, record s { is_active = true })
    else (c, s)

unfoldable pub deactivate : ℕ → Client × ScheduleStatus → Client × ScheduleStatus
unfolding closes
deactivate curr_mins (c, s) =
    if closes curr_mins s
    then ((vm_set_valve_state c s.valve_id valve_closed).0, record s { is_active = false })
    else (c, s)

-- The `for` loop, over the entries that are left.
unfoldable pub scan : ℕ → Client → List ScheduleStatus → Client × List ScheduleStatus
unfolding activate deactivate
scan curr_mins c [] = (c, [])
scan curr_mins c (s ∷ ss) =
    let (c1, s') = deactivate curr_mins (activate curr_mins (c, s)) in
    let (c2, ss') = scan curr_mins c1 ss in (c2, s' ∷ ss')

-- One round of `while(true)`.
unfoldable pub pass : ℕ → Client → Client
unfolding scan
pass curr_mins c = let (c', ss') = scan curr_mins c c.ss in record c' { ss = ss' }

-- What the thread reads from the clock.
pub record Tm : Type 0 where
  pub tm_hour : ℕ
  pub tm_min : ℕ

unfoldable pub minutes : Tm → ℕ
minutes t = u16 (t.tm_hour * 60 + t.tm_min)

-- The thread does not end; this is what it has done after the rounds with these clock readings.
unfoldable pub sm_run_scheduler_thread : List Tm → Client → Client
unfolding pass minutes
sm_run_scheduler_thread [] c = c
sm_run_scheduler_thread (t ∷ times) c = sm_run_scheduler_thread times (pass (minutes t) c)

abbrev pub sizeof_schedule_status : ℕ
sizeof_schedule_status = 10

-- The statics once the new array stands, and the lines that are logged.
abbrev pub scheduled : Client → List Schedule → Client
scheduled c sches = record c {
  ss = map (λ s. record { sche = s; is_active = false }) sches;
  schedules_set = true;
  log = log_info "schedule manager set new schedules" ∷ log_set_schedules sches ∷ c.log;
}

-- `none` where the loop writes past the buffer, whose size is kept in a uint16_t.
unfoldable pub sm_set_new_schedules : Client → List Schedule → Option Client
sm_set_new_schedules c sches =
    let ss_bytesize = u16 (sizeof_schedule_status * length sches) in
    if leb (sizeof_schedule_status * length sches) ss_bytesize
    then some (scheduled c sches)
    else none

-- `mutex_ok`, `thread_ok`, `joined` and `destroyed` say whether the pthread call succeeds.
unfoldable pub sm_init_scheduler : (mutex_ok : Bool) → Client → Client × ℕ
sm_init_scheduler true c = (record c { log = log_info "schedule manager initialized" ∷ c.log }, 0)
sm_init_scheduler false c = (c, 1)

unfoldable pub sm_start_scheduler : (thread_ok : Bool) → Client → Client × ℕ
sm_start_scheduler true c = (record c { log = log_info "schedule manager started" ∷ c.log }, 0)
sm_start_scheduler false c = (c, 1)

unfoldable pub sm_wait_on_thread : (joined destroyed : Bool) → ℕ
sm_wait_on_thread false destroyed = 1
sm_wait_on_thread true false = 2
sm_wait_on_thread true true = 0
