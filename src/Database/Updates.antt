-- ===== src/Database/Updates.antt =====
-- bbd.sql: the two updates that the receiver makes.
use bbd.Prelude.{
  ℕ, ◌≡◌, refl, sym, ap₂, ◌∙◌, Bool, true, false, some, List, [], ◌∷◌, ◌++◌, map, any, filter-none,
  ◌==◌, if◌then◌else◌, arith, map-append,
}
use bbd.Database.{
  Database, ValveRow, ScheduleRow, ActiveRow, row_of, joined, rows_of, select_active, update_where,
  is_unsent, is_requested, rcv_get_active_schedules, rcv_set_schedule_sent,
  deactivation_requests_done,
}

update_where_idem :
    (test : ScheduleRow → Bool) (change : ScheduleRow → ScheduleRow) (rows : List ScheduleRow)
    → any test rows ≡ false
    → update_where test change rows ≡ rows
update_where_idem test change [] h = refl
update_where_idem test change (r ∷ rows) h = ground (arith, update_where_idem test change rows)

any-update_where :
    (test : ScheduleRow → Bool) (change : ScheduleRow → ScheduleRow) (rows : List ScheduleRow)
    → ((r : ScheduleRow) → test (change r) ≡ false)
    → any test (update_where test change rows) ≡ false
any-update_where test change [] h = refl
any-update_where test change (r ∷ rows) h = ground (arith, h r, any-update_where test change rows h)

-- Where no row is updated the tables stay.
pub rcv_set_schedule_sent-none :
    (now : ℕ) (db : Database) (id : ℕ)
    → any (is_unsent id) db.schedules ≡ false
    → rcv_set_schedule_sent now db id ≡ (db, false)
unfolding rcv_set_schedule_sent
rcv_set_schedule_sent-none now db id h = ground (
  arith,
  update_where_idem (is_unsent id) (λ r. record r { sent = true; sent_on = some now }) db.schedules
      h,
)

-- To mark a schedule as sent a second time reports no row and changes nothing, not even the time.
pub rcv_set_schedule_sent_idem :
    (now later : ℕ) (db : Database) (id : ℕ)
    → rcv_set_schedule_sent later (rcv_set_schedule_sent now db id).0 id
      ≡ ((rcv_set_schedule_sent now db id).0, false)
unfolding rcv_set_schedule_sent
rcv_set_schedule_sent_idem now later db id =
    rcv_set_schedule_sent-none later (rcv_set_schedule_sent now db id).0 id (
      any-update_where (is_unsent id) (λ r. record r { sent = true; sent_on = some now })
        db.schedules (λ r. ground arith))

deactivation_requests_done-none :
    (now : ℕ) (db : Database)
    → any is_requested db.schedules ≡ false
    → deactivation_requests_done now db ≡ (db, [])
unfolding deactivation_requests_done
deactivation_requests_done-none now db h = ground (
  arith,
  update_where_idem is_requested (λ r. record r { deactivated_on = some now }) db.schedules h,
  filter-none is_requested db.schedules h,
)

-- After the requests for deactivation are done none is left: a second call returns no row and
-- changes nothing, not even the times.
pub deactivation_requests_done_idem :
    (now later : ℕ) (db : Database)
    → deactivation_requests_done later (deactivation_requests_done now db).0
      ≡ ((deactivation_requests_done now db).0, [])
unfolding deactivation_requests_done
deactivation_requests_done_idem now later db =
    deactivation_requests_done-none later (deactivation_requests_done now db).0 (
      any-update_where is_requested (λ r. record r { deactivated_on = some now }) db.schedules
        (λ r. ground arith))

-- An update that changes no row's window, valve or activity changes the rows seen by `mark` alone.
select_active-update :
    (valves : List ValveRow) (device : ℕ) (change : ScheduleRow → ScheduleRow)
    (mark : ActiveRow → ActiveRow) (rows : List ScheduleRow)
    → ((r : ScheduleRow) → rows_of valves device (change r) ≡ map mark (rows_of valves device r))
    → select_active valves device (map change rows) ≡ map mark (select_active valves device rows)
unfolding select_active
select_active-update valves device change mark [] h = refl
select_active-update valves device change mark (r ∷ rows) h =
    ap₂ ◌++◌ (h r) (select_active-update valves device change mark rows h)
    ∙ sym (map-append mark (rows_of valves device r) (select_active valves device rows))

-- A schedule's row with the mark that it has been sent.
abbrev pub marked : ℕ → ActiveRow → ActiveRow
marked id row = if row.schedule_id == id then record row { sent = true } else row

abbrev sent_row : ℕ → ℕ → ScheduleRow → ScheduleRow
sent_row now id r = if is_unsent id r then record r { sent = true; sent_on = some now } else r

map-marked :
    (now id : ℕ) (r : ScheduleRow) (vs : List ValveRow)
    → map (row_of (sent_row now id r)) vs ≡ map (marked id) (map (row_of r) vs)
map-marked now id r [] = refl
map-marked now id r (v ∷ vs) = ground (arith, map-marked now id r vs)

rows_of-marked :
    (valves : List ValveRow) (device now id : ℕ) (r : ScheduleRow)
    → rows_of valves device (sent_row now id r) ≡ map (marked id) (rows_of valves device r)
rows_of-marked valves device now id r =
    ground (arith, map-marked now id r (joined valves device r.valve_id))

-- To mark a schedule as sent changes the rows that the receiver sees in that mark only.
pub rcv_get_active_schedules-rcv_set_schedule_sent :
    (now : ℕ) (db : Database) (device id : ℕ)
    → rcv_get_active_schedules (rcv_set_schedule_sent now db id).0 device
      ≡ map (marked id) (rcv_get_active_schedules db device)
unfolding rcv_get_active_schedules rcv_set_schedule_sent
rcv_get_active_schedules-rcv_set_schedule_sent now db device id =
    select_active-update db.valves device (sent_row now id) (marked id) db.schedules
      (rows_of-marked db.valves device now id)

pub rcv_set_schedule_sent-some :
    (now : ℕ) (db : Database) (id : ℕ)
    → any (is_unsent id) db.schedules ≡ true
    → rcv_set_schedule_sent now db id ≡ ((rcv_set_schedule_sent now db id).0, true)
unfolding rcv_set_schedule_sent
rcv_set_schedule_sent-some now db id h = ground arith
