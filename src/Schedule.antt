-- ===== src/Schedule.antt =====
-- server/src/receiver/src/schedule/schedule.h and client/daemon/src/schedule/schedule.h: the
-- watering window that the two programs exchange. The four fields are uint16_t.
use bbd.Prelude.{ℕ, ◌<◌}

-- `start` and `stop` are minutes since midnight.
pub record Schedule : Type 0 where
  pub schedule_id : ℕ
  pub valve_id : ℕ
  pub start : ℕ
  pub stop : ℕ

-- The fields fit their type.
pub record IsU16 (s : Schedule) : Type 0 where
  pub id_fits : s.schedule_id < 65536
  pub valve_fits : s.valve_id < 65536
  pub start_fits : s.start < 65536
  pub stop_fits : s.stop < 65536
