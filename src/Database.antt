-- ===== src/Database.antt =====
-- server/src/db/bbd.sql: the tables and the functions that the receiver and the web server call.
-- A query returns the rows in the order of the table, one of the orders that SQL allows.
pub mod Laws
pub mod Updates
pub mod Order
pub mod Listings
pub mod Unordered
use Prim.Native.String.{String, count}
use bbd.Prelude.{
  ℕ, ◌+◌, Bool, true, false, not, ◌&&◌, Option, none, some, List, [], ◌∷◌, ◌++◌, map, filter, any,
  leb, ◌==◌, if◌then◌else◌,
}

pub record DeviceRow : Type 0 where
  pub device_id : ℕ
  pub description : Option String

pub record ValveRow : Type 0 where
  pub valve_id : ℕ
  pub description : Option String
  pub device_id : ℕ

pub record ScheduleRow : Type 0 where
  pub schedule_id : ℕ
  pub valve_id : ℕ
  pub description : String
  pub created_on : ℕ
  pub start_time : ℕ
  pub stop_time : ℕ
  pub sent : Bool
  pub sent_on : Option ℕ
  pub active : Bool
  pub deactivated_on : Option ℕ

-- `next_id` is the SERIAL of the schedules.
pub record Database : Type 0 where
  pub devices : List DeviceRow
  pub valves : List ValveRow
  pub schedules : List ScheduleRow
  pub next_id : ℕ

unfoldable pub rcv_get_device_valves : Database → ℕ → List ℕ
rcv_get_device_valves db device =
    map (λ v. v.valve_id) (filter (λ v. v.device_id == device) db.valves)

-- The rows of valves that the join gives for a schedule of `valve`.
abbrev pub joined : List ValveRow → ℕ → ℕ → List ValveRow
joined valves device valve =
    filter (λ v. v.valve_id == valve) (filter (λ v. v.device_id == device) valves)

-- One row of the result, in the order of its columns.
pub record ActiveRow : Type 0 where
  pub schedule_id : ℕ
  pub valve_id : ℕ
  pub start_time : ℕ
  pub stop_time : ℕ
  pub sent : Bool

abbrev pub row_of : ScheduleRow → ValveRow → ActiveRow
row_of r v = record {
  schedule_id = r.schedule_id;
  valve_id = v.valve_id;
  start_time = r.start_time;
  stop_time = r.stop_time;
  sent = r.sent;
}

abbrev pub rows_of : List ValveRow → ℕ → ScheduleRow → List ActiveRow
rows_of valves device r = if r.active then map (row_of r) (joined valves device r.valve_id) else []

unfoldable pub select_active : List ValveRow → ℕ → List ScheduleRow → List ActiveRow
select_active valves device [] = []
select_active valves device (r ∷ rows) = rows_of valves device r ++ select_active valves device rows

unfoldable pub rcv_get_active_schedules : Database → ℕ → List ActiveRow
unfolding select_active
rcv_get_active_schedules db device = select_active db.valves device db.schedules

-- UPDATE on the rows that the test picks.
abbrev pub update_where :
    (ScheduleRow → Bool) → (ScheduleRow → ScheduleRow) → List ScheduleRow → List ScheduleRow
update_where test change rows = map (λ r. if test r then change r else r) rows

abbrev pub is_unsent : ℕ → ScheduleRow → Bool
is_unsent id r = r.schedule_id == id && not r.sent

-- The new tables, and whether a row was updated. `now` is CURRENT_TIMESTAMP.
unfoldable pub rcv_set_schedule_sent : ℕ → Database → ℕ → Database × Bool
rcv_set_schedule_sent now db id = (
  record db {
    schedules =
        update_where (is_unsent id) (λ r. record r { sent = true; sent_on = some now })
          db.schedules;
  },
  any (is_unsent id) db.schedules,
)

abbrev pub is_none {ℓ} : {A : Type ℓ} → Option A → Bool
is_none none = true
is_none (some _) = false

abbrev pub is_requested : ScheduleRow → Bool
is_requested r = not r.active && is_none r.deactivated_on

unfoldable pub deactivation_requests_done : ℕ → Database → Database × List ℕ
deactivation_requests_done now db = (
  record db {
    schedules =
        update_where is_requested (λ r. record r { deactivated_on = some now }) db.schedules;
  },
  map (λ r. r.schedule_id) (filter is_requested db.schedules),
)

-- The row of the INSERT, with the defaults of the table.
abbrev pub new_row : ℕ → Database → ℕ → String → ℕ → ℕ → ScheduleRow
new_row now db valve description start stop = record {
  schedule_id = db.next_id;
  valve_id = valve;
  description = description;
  created_on = now;
  start_time = start;
  stop_time = stop;
  sent = false;
  sent_on = none;
  active = true;
  deactivated_on = none;
}

abbrev pub inserted : ℕ → Database → ℕ → String → ℕ → ℕ → Database
inserted now db valve description start stop = record db {
  schedules = db.schedules ++ new_row now db valve description start stop ∷ [];
  next_id = db.next_id + 1;
}

-- INSERT with the checks and the foreign key of the table; `none` where one of them refuses the
-- row. Both checks read start_time.
unfoldable pub web_create_new_schedule : ℕ → Database → ℕ → String → ℕ → ℕ → Option Database
web_create_new_schedule now db valve description start stop =
    if leb start 1440 && leb (count description) 100 && any (λ v. v.valve_id == valve) db.valves
    then some (inserted now db valve description start stop)
    else none

unfoldable pub web_deactivate_schedule_request : Database → ℕ → Database
web_deactivate_schedule_request db id = record db {
  schedules =
      update_where (λ r. r.schedule_id == id) (λ r. record r { active = false }) db.schedules;
}
