-- ===== src/Server/Db/Fetch.antt =====
-- db.cpp: the rows of the queries as vectors, where every number fits a uint16_t.
use bbd.Prelude.{ℕ, ◌<◌, ◌≡◌, refl, true, some, List, [], ◌∷◌, map, All}
use bbd.Schedule.{Schedule, IsU16}
use bbd.Database.{Database, ActiveRow, rcv_get_device_valves, rcv_get_active_schedules}
use bbd.Server.Db.{
  Pqxx, PqxxLaws, Fetched, valve_rows, schedule_rows, db_get_device_valves, db_get_active_schedules,
}

-- The schedule that a row stands for.
abbrev pub to_schedule : ActiveRow → Schedule
to_schedule r = record {
  schedule_id = r.schedule_id;
  valve_id = r.valve_id;
  start = r.start_time;
  stop = r.stop_time;
}

abbrev pub RowFits : ActiveRow → Type 0
RowFits r = IsU16 (to_schedule r)

abbrev pub fetched : List ActiveRow → Fetched
fetched rows = record { sches = map to_schedule rows; sents = map (λ r. r.sent) rows }

pub All-to_schedule : (rows : List ActiveRow) → All RowFits rows → All IsU16 (map to_schedule rows)
All-to_schedule [] h = tt
All-to_schedule (r ∷ rows) h = (h.0, All-to_schedule rows h.1)

module _ (px : Pqxx) (laws : PqxxLaws px) where
  valve_rows-fit : (ids : List ℕ) → All (λ id. id < 65536) ids → valve_rows px ids ≡ some ids
  unfolding valve_rows
  valve_rows-fit [] h = refl
  valve_rows-fit (id ∷ ids) h = rw (laws.as_u16_fits id h.0, valve_rows-fit ids h.1)

  schedule_rows-fit :
      (rows : List ActiveRow) → All RowFits rows → schedule_rows px rows ≡ some (fetched rows)
  unfolding schedule_rows
  schedule_rows-fit [] h = refl
  schedule_rows-fit (r ∷ rows) h = rw (
    laws.as_u16_fits r.schedule_id h.0.id_fits,
    laws.as_u16_fits r.valve_id h.0.valve_fits,
    laws.as_u16_fits r.start_time h.0.start_fits,
    laws.as_u16_fits r.stop_time h.0.stop_fits,
    schedule_rows-fit rows h.1,
  )

  pub db_get_device_valves-fit :
      (db : Database) (device : ℕ)
      → All (λ id. id < 65536) (rcv_get_device_valves db device)
      → db_get_device_valves px true db device ≡ some (rcv_get_device_valves db device)
  unfolding db_get_device_valves
  db_get_device_valves-fit db device h = valve_rows-fit (rcv_get_device_valves db device) h

  pub db_get_active_schedules-fit :
      (db : Database) (device : ℕ)
      → All RowFits (rcv_get_active_schedules db device)
      → db_get_active_schedules px true db device
        ≡ some (fetched (rcv_get_active_schedules db device))
  unfolding db_get_active_schedules
  db_get_active_schedules-fit db device h = schedule_rows-fit (rcv_get_active_schedules db device) h
