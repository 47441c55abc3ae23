-- ===== src/Web/Listing.antt =====
-- server/src/web/src/bbd/views.py: the pages that show the tables. A field of a request is the text
-- of its bytes, `none` where it is missing.
pub mod Links
use Prim.Native.String.{String}
use bbd.Prelude.{
  ℕ, zero, suc, ◌-◌, ◌/◌, ◌%◌, ◌^◌, Bool, true, false, Option, none, some, List, [], ◌∷◌, ◌++◌, map,
  length, replicate, ltb, ◌==◌, if◌then◌else◌,
}
use bbd.Text.{decimal, scan_digits}
use bbd.Database.{Database, ValveRow, ScheduleRow}
use bbd.Database.Listings.{
  DeviceLine, web_get_devices, web_get_valves, web_get_valves_of, web_get_schedules,
  web_get_schedules_of,
}

-- The context that the template is rendered with, an exception, or what a field that is no number
-- makes of the text of the SQL statement.
pub data Page {ℓ} (A : Type ℓ) : Type ℓ where
  shown : A → Page A
  raised : Page A
  other_statement : Page A

abbrev pub then_show {ℓ κ} : {A : Type ℓ} {B : Type κ} → Page A → (A → Page B) → Page B
then_show (shown a) f = f a
then_show raised f = raised
then_show other_statement f = other_statement

unfoldable pub devices_index : Database → Page (List DeviceLine)
devices_index db = shown (web_get_devices db)

-- The call of a function whose argument is an INT, with the field in its place. A text of digits
-- alone is that number, and raises where it is no INT.
abbrev pub call_with {ℓ} : {A : Type ℓ} → (ℕ → A) → ℕ × List ℕ → Page A
call_with query (id, []) = if ltb id (2 ^ 31) then shown (query id) else raised
call_with query (id, _ ∷ _) = other_statement

-- Where the field is missing or empty the function without an argument is called.
abbrev pub call_function {ℓ} : {A : Type ℓ} → A → (ℕ → A) → Option (List ℕ) → Page A
call_function all query none = shown all
call_function all query (some []) = shown all
call_function all query (some (c ∷ text)) = call_with query (scan_digits 0 (c ∷ text))

unfoldable pub valves_index : Database → (deviceid : Option (List ℕ)) → Page (List ValveRow)
valves_index db deviceid = call_function (web_get_valves db) (web_get_valves_of db) deviceid

-- device_click of devices_index.html, with the number that the row of the device puts into its call:
-- the field that it goes on to the page of the valves with, or none where it does nothing.
unfoldable pub device_click : (device_id : ℕ) → Option (List ℕ)
device_click zero = none
device_click (suc n) = some (decimal (suc n))

-- '%02d:%02d' % (t/60, t%60)
abbrev pub two_digits : ℕ → List ℕ
two_digits n = replicate (2 - length (decimal n)) b'0' ++ decimal n

abbrev pub clock : ℕ → List ℕ
clock t = two_digits (t / 60) ++ b':' ∷ two_digits (t % 60)

pub record Selected : Type 0 where
  pub schedule_id : ℕ
  pub valve_id : ℕ
  pub description : String
  pub created_on : ℕ
  pub start_time : List ℕ
  pub stop_time : List ℕ
  pub sent : Bool
  pub sent_on : Option ℕ
  pub active : Bool
  pub deactivated_on : Option ℕ

abbrev pub selected_of : ScheduleRow → Selected
selected_of r = record {
  schedule_id = r.schedule_id;
  valve_id = r.valve_id;
  description = r.description;
  created_on = r.created_on;
  start_time = clock r.start_time;
  stop_time = clock r.stop_time;
  sent = r.sent;
  sent_on = r.sent_on;
  active = r.active;
  deactivated_on = r.deactivated_on;
}

-- fetchone
abbrev pub first_with : ℕ → List ScheduleRow → Option ScheduleRow
first_with id [] = none
first_with id (r ∷ rows) =
    let rest = first_with id rows in if r.schedule_id == id then some r else rest

-- The fields of a row that is not there raise.
abbrev pub selected_row : Option ScheduleRow → Page (Option Selected)
selected_row none = raised
selected_row (some r) = shown (some (selected_of r))

-- The statement of the selection compares the column, so a number that is no INT finds no row.
abbrev pub select_number : Database → ℕ × List ℕ → Page (Option Selected)
select_number db (id, []) = selected_row (first_with id db.schedules)
select_number db (id, _ ∷ _) = other_statement

pub data Method : Type 0 where
  get : Method
  post : (sel_schedule_id : Option (List ℕ)) → Method

abbrev pub select : Database → Method → Page (Option Selected)
select db get = shown none
select db (post none) = shown none
select db (post (some [])) = shown none
select db (post (some (c ∷ text))) = select_number db (scan_digits 0 (c ∷ text))

pub record SchedulesContext : Type 0 where
  pub schedule_list : List ScheduleRow
  pub valveid : Option (List ℕ)
  pub selected_sche : Option Selected

-- An empty field of the address is as good as none.
abbrev pub if_filled : Option (List ℕ) → Option (List ℕ)
if_filled none = none
if_filled (some []) = none
if_filled (some (c ∷ text)) = some (c ∷ text)

unfoldable pub schedules_index :
    Database → (valveid : Option (List ℕ)) → Method → Page SchedulesContext
schedules_index db valveid method =
    then_show (call_function (web_get_schedules db) (web_get_schedules_of db) valveid) (λ rows.
      then_show (select db method) (λ sel.
        shown (record { schedule_list = rows; valveid = if_filled valveid; selected_sche = sel })))

pub record AddContext : Type 0 where
  pub valveid : Option (List ℕ)
  pub valve_id_list : List ℕ

unfoldable pub add_schedule : Database → (valveid : Option (List ℕ)) → Page AddContext
add_schedule db valveid =
    shown (record { valveid = if_filled valveid; valve_id_list = map (λ v. v.valve_id) db.valves })
