-- ===== src/Database/Listings.antt =====
-- bbd.sql: the queries behind the pages of the web server.
pub mod Laws
use bbd.Prelude.{
  ℕ, zero, suc, ◌+◌, Bool, Option, none, some, List, [], ◌∷◌, ◌++◌, map, filter, ◌==◌,
}
use Prim.Native.String.{String}
use bbd.Database.{DeviceRow, ValveRow, ScheduleRow, Database}
use bbd.Database.Order.{asc, desc, order_by}

-- A row of the join; a device that no valve has stands once, without one.
abbrev pub outer : DeviceRow → List ValveRow → List (DeviceRow × Option ValveRow)
outer d [] = (d, none) ∷ []
outer d (v ∷ vs) = map (λ w. (d, some w)) (v ∷ vs)

abbrev pub left_outer_join : List ValveRow → DeviceRow → List (DeviceRow × Option ValveRow)
left_outer_join valves d = outer d (filter (λ v. v.device_id == d.device_id) valves)

-- count(valveID) of one group passes over the rows where it is NULL.
abbrev pub count : List (DeviceRow × Option ValveRow) → ℕ
count [] = 0
count ((_, none) ∷ rows) = count rows
count ((_, some _) ∷ rows) = suc (count rows)

pub record DeviceLine : Type 0 where
  pub id : ℕ
  pub description : Option String
  pub n_valves : ℕ

-- A device is a group of its own, since its number is the table's key.
abbrev pub line_of : List ValveRow → DeviceRow → DeviceLine
line_of valves d = record {
  id = d.device_id;
  description = d.description;
  n_valves = count (left_outer_join valves d);
}

unfoldable pub web_get_devices : Database → List DeviceLine
web_get_devices db = map (line_of db.valves) (order_by asc (λ d. d.device_id) db.devices)

-- In `ORDER BY id` the name is that of the function's own column, which has no value yet, so the
-- rows stay as they come.
unfoldable pub web_get_valves : Database → List ValveRow
web_get_valves db = db.valves

-- The function of the same name with the number of a device.
unfoldable pub web_get_valves_of : Database → (device_id : ℕ) → List ValveRow
web_get_valves_of db device = filter (λ v. v.device_id == device) db.valves

unfoldable pub web_get_schedules : Database → List ScheduleRow
web_get_schedules db = order_by desc (λ r. r.schedule_id) db.schedules

-- The function of the same name with the number of a valve.
unfoldable pub web_get_schedules_of : Database → (valveid : ℕ) → List ScheduleRow
web_get_schedules_of db valve =
    order_by desc (λ r. r.schedule_id) (filter (λ r. r.valve_id == valve) db.schedules)
