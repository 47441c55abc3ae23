-- ===== src/Tests/Data.antt =====
-- Concrete data: the tables of a garden, the server's host and the device.
use bbd.Prelude.{
  refl, Bool, true, false, none, some, [], ◌∷◌, replicate, length-replicate, ltb, arith,
  if◌then◌else◌,
}
use bbd.Bytes.{little, big, Allocator}
use bbd.Schedule.{Schedule, IsU16}
use bbd.Database.{Database, ScheduleRow}
use bbd.Server.Db.{TxnStatus, active, committed, Pqxx, PqxxLaws}
use bbd.Server.Main.{Env}
use bbd.Client.State.{Client, valve_open, valve_closed}
use bbd.Client.Controller.{Machine}

abbrev pub zeroed : Allocator
zeroed = record { malloc = λ n. replicate n 0; length-malloc = λ n. length-replicate n 0 }

abbrev is_active : TxnStatus → Bool
is_active active = true
is_active committed = false

abbrev pub pqxx : Pqxx
pqxx = record {
  as_u16 = λ n. if ltb n 65536 then some n else none;
  as_bool = λ n. if ltb n 2 then some (ltb 0 n) else none;
  accepts = is_active;
}

pub pqxx-PqxxLaws : PqxxLaws pqxx
pqxx-PqxxLaws = record {
  as_u16_fits = λ n h. ground arith;
  accepts_active = refl;
  accepts_committed = refl;
}

abbrev pub host : Env
host = record {
  endian = little;
  allocator = zeroed;
  px = pqxx;
  get_up = true;
  sent_up = true;
  done_up = true;
  send_ok = true;
  now = 700;
}

abbrev pub device : Machine
device = record { endian = big; allocator = zeroed; stale = 7; wrecked = λ c. record c { ss = [] } }

abbrev pub morning : ScheduleRow
morning = record {
  schedule_id = 1;
  valve_id = 3;
  description = "morning";
  created_on = 10;
  start_time = 360;
  stop_time = 375;
  sent = false;
  sent_on = none;
  active = true;
  deactivated_on = none;
}

abbrev pub evening : ScheduleRow
evening = record morning { schedule_id = 2; valve_id = 4; start_time = 1200; stop_time = 1230 }

abbrev pub cancelled : ScheduleRow
cancelled = record morning { schedule_id = 3; active = false; sent = true }

-- Two valves of the device 1, and one of another.
abbrev pub garden : Database
garden = record {
  devices =
      (record { device_id = 1; description = some "garden" })
      ∷ (record { device_id = 2; description = none })
      ∷ [];
  valves =
      (record { valve_id = 3; description = some "roses"; device_id = 1 })
      ∷ (record { valve_id = 4; description = none; device_id = 1 })
      ∷ (record { valve_id = 9; description = none; device_id = 2 })
      ∷ [];
  schedules = morning ∷ evening ∷ cancelled ∷ [];
  next_id = 4;
}

-- All that is active is marked as sent.
abbrev pub sent_garden : Database
sent_garden = record garden {
  schedules = record morning { sent = true } ∷ record evening { sent = true } ∷ cancelled ∷ [];
}

abbrev pub dawn : Schedule
dawn = record { schedule_id = 1; valve_id = 3; start = 360; stop = 375 }

abbrev pub dusk : Schedule
dusk = record { schedule_id = 2; valve_id = 4; start = 1200; stop = 1230 }

pub dawn-IsU16 : IsU16 dawn
dawn-IsU16 = record {
  id_fits = omega arith;
  valve_fits = omega arith;
  start_fits = omega arith;
  stop_fits = omega arith;
}

pub dusk-IsU16 : IsU16 dusk
dusk-IsU16 = record {
  id_fits = omega arith;
  valve_fits = omega arith;
  start_fits = omega arith;
  stop_fits = omega arith;
}

-- The device while the morning's schedule runs.
abbrev pub watering : Client
watering = record {
  valves_map =
      (record { v_id = 3; v_state = valve_open })
      ∷ (record { v_id = 4; v_state = valve_closed })
      ∷ [];
  ss =
      (record { sche = dawn; is_active = true }) ∷ (record { sche = dusk; is_active = false }) ∷ [];
  schedules_set = true;
  log = [];
}
