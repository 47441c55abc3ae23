-- ===== src/Database/Laws.antt =====
-- bbd.sql: what the receiver's functions see of what the web server's functions do.
use Prim.Native.String.{String}
use bbd.Prelude.{
  ℕ, ◌≡◌, refl, sym, ap, ap₂, ◌∙◌, Bool, false, not, ◌&&◌, some, List, [], ◌∷◌, ◌++◌, map, filter,
  any, any-append, any-map, filter-append, ◌==◌, if◌then◌else◌, arith, append_assoc, append-nil,
}
use bbd.Database.{
  Database, inserted, ValveRow, ScheduleRow, ActiveRow, row_of, joined, rows_of, select_active,
  rcv_get_active_schedules, web_create_new_schedule, web_deactivate_schedule_request,
}

any-select_active :
    (valves : List ValveRow) (device : ℕ) (p : ActiveRow → Bool) (rows : List ScheduleRow)
    → any p (select_active valves device rows)
      ≡ any (λ r. r.active && any (λ v. p (row_of r v)) (joined valves device r.valve_id)) rows
unfolding select_active
any-select_active valves device p [] = refl
any-select_active valves device p (r ∷ rows) =
    any-append p (rows_of valves device r) (select_active valves device rows)
    ∙ ground (
      arith,
      any-select_active valves device p rows,
      any-map p (row_of r) (joined valves device r.valve_id),
    )

-- The rows for a device are those of the active schedules on its valves: some row passes a test
-- exactly if the row of some active schedule and some valve of the device with its number does.
pub any-rcv_get_active_schedules :
    (db : Database) (device : ℕ) (p : ActiveRow → Bool)
    → any p (rcv_get_active_schedules db device)
      ≡ any
          (λ r. r.active && any (λ v. p (row_of r v)) (joined db.valves device r.valve_id))
          db.schedules
unfolding rcv_get_active_schedules
any-rcv_get_active_schedules db device p = any-select_active db.valves device p db.schedules

abbrev pub other_than : ℕ → ActiveRow → Bool
other_than id row = not (row.schedule_id == id)

filter-rows :
    (id : ℕ) (r : ScheduleRow) (vs : List ValveRow)
    → filter (other_than id) (map (row_of r) vs)
      ≡ (if r.schedule_id == id then [] else map (row_of r) vs)
filter-rows id r [] = ground arith
filter-rows id r (v ∷ vs) = ground (arith, filter-rows id r vs)

abbrev deactivated : ℕ → ScheduleRow → ScheduleRow
deactivated id r = if r.schedule_id == id then record r { active = false } else r

rows_of-deactivated :
    (valves : List ValveRow) (device id : ℕ) (r : ScheduleRow)
    → rows_of valves device (deactivated id r) ≡ filter (other_than id) (rows_of valves device r)
rows_of-deactivated valves device id r =
    ground (arith, filter-rows id r (joined valves device r.valve_id))

select_active-deactivated :
    (valves : List ValveRow) (device id : ℕ) (rows : List ScheduleRow)
    → select_active valves device (map (deactivated id) rows)
      ≡ filter (other_than id) (select_active valves device rows)
unfolding select_active
select_active-deactivated valves device id [] = refl
select_active-deactivated valves device id (r ∷ rows) =
    ap₂ ◌++◌ (rows_of-deactivated valves device id r)
      (select_active-deactivated valves device id rows)
    ∙ sym
        (filter-append (other_than id) (rows_of valves device r) (select_active valves device rows))

-- A deactivation takes exactly the rows of that schedule from what the receiver sees, for every
-- device, and keeps the others in their order.
pub rcv_get_active_schedules-web_deactivate_schedule_request :
    (db : Database) (device id : ℕ)
    → rcv_get_active_schedules (web_deactivate_schedule_request db id) device
      ≡ filter (other_than id) (rcv_get_active_schedules db device)
unfolding rcv_get_active_schedules web_deactivate_schedule_request
rcv_get_active_schedules-web_deactivate_schedule_request db device id =
    select_active-deactivated db.valves device id db.schedules

select_active-append :
    (valves : List ValveRow) (device : ℕ) (xs ys : List ScheduleRow)
    → select_active valves device (xs ++ ys)
      ≡ select_active valves device xs ++ select_active valves device ys
unfolding select_active
select_active-append valves device [] ys = refl
select_active-append valves device (x ∷ xs) ys =
    ap (◌++◌ (rows_of valves device x)) (select_active-append valves device xs ys)
    ∙ sym (
        append_assoc (rows_of valves device x) (select_active valves device xs)
          (select_active valves device ys))

pub web_create_new_schedule-inserted :
    (now : ℕ) (db : Database) {db' : Database} (valve : ℕ) (description : String) (start stop : ℕ)
    → web_create_new_schedule now db valve description start stop ≡ some db'
    → db' ≡ inserted now db valve description start stop
unfolding web_create_new_schedule
web_create_new_schedule-inserted now db valve description start stop h = ground arith

-- A schedule that is created is seen by the receiver behind the rows of before, active and not
-- sent, once for each row of the valve with the device.
pub rcv_get_active_schedules-web_create_new_schedule :
    (now : ℕ) (db db' : Database) (device valve : ℕ) (description : String) (start stop : ℕ)
    → web_create_new_schedule now db valve description start stop ≡ some db'
    → rcv_get_active_schedules db' device
      ≡ rcv_get_active_schedules db device
        ++ map
            (λ v. record {
              schedule_id = db.next_id;
              valve_id = v.valve_id;
              start_time = start;
              stop_time = stop;
              sent = false;
            })
            (joined db.valves device valve)
unfolding rcv_get_active_schedules select_active
rcv_get_active_schedules-web_create_new_schedule now db db' device valve description start stop h =
    ap (λ d. rcv_get_active_schedules d device)
      (web_create_new_schedule-inserted now db valve description start stop h)
    ∙ select_active-append db.valves device db.schedules _
    ∙ ap (◌++◌ (select_active db.valves device db.schedules)) (append-nil _)
