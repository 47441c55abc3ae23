-- ===== src/Client/ScheduleManager/Bound.antt =====
-- schedule_manager.c, sm_set_new_schedules: the size of the new array in bytes.
use bbd.Prelude.{◌<◌, ◌≡◌, none, some, List, arith, length, ltb, if◌then◌else◌}
use bbd.Schedule.{Schedule}
use bbd.Client.State.{Client}
use bbd.Client.ScheduleManager.{sm_set_new_schedules, scheduled}

-- The bug: the size of the client's array is kept in 16 bits, so from 6554 schedules on, up to the
-- 65535 that the length can name, the loop writes past the buffer; below, the call sets the
-- schedules.
pub sm_set_new_schedules_lem :
    (c : Client) (sches : List Schedule)
    → length sches < 65536
    → sm_set_new_schedules c sches
      ≡ (if ltb (length sches) 6554 then some (scheduled c sches) else none)
unfolding sm_set_new_schedules
sm_set_new_schedules_lem c sches h = ground arith

pub sm_set_new_schedules-scheduled :
    (c : Client) (sches : List Schedule)
    → length sches < 6554
    → sm_set_new_schedules c sches ≡ some (scheduled c sches)
unfolding sm_set_new_schedules
sm_set_new_schedules-scheduled c sches h = ground arith
