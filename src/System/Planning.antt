-- ===== src/System/Planning.antt =====
-- From the page of the web server to the device: a schedule that is planned.
use Prim.Native.String.{String, count}
use bbd.Prelude.{ℕ, ◌+◌, ◌*◌, ◌≤◌, ◌≡◌, true, false, some, any, leb, ◌==◌}
use bbd.Schedule.{Schedule}
use bbd.Text.{codes, pos}
use bbd.Database.{Database, ValveRow, ActiveRow, inserted}
use bbd.Client.State.{Client}
use bbd.Web.{Form, has_quote}

-- The form for these hours and minutes.
abbrev pub form : (valve start_h start_m stop_h stop_m : ℕ) → String → Form
form valve start_h start_m stop_h stop_m text = record {
  valveid_f = some (pos valve);
  start_h = some (pos start_h);
  start_m = some (pos start_m);
  stop_h = some (pos stop_h);
  stop_m = some (pos stop_m);
  description = some text;
}

module _ (now : ℕ) (db : Database) (valve start_h start_m stop_h stop_m : ℕ) (text : String)
    (exists_valve : any (λ v. v.valve_id == valve) db.valves ≡ true)
    (ascii : any (λ c. leb 128 c) (codes text) ≡ false) (no_quote : has_quote text ≡ false)
    (short : count text ≤ 100) (start_in_day : start_h * 60 + start_m ≤ 1440)
    (stop_in_day : stop_h * 60 + stop_m ≤ 1440) where
  abbrev planned : Database
  planned = inserted now db valve text (start_h * 60 + start_m) (stop_h * 60 + stop_m)

  abbrev new_row : ValveRow → ActiveRow
  new_row v = record {
    schedule_id = db.next_id;
    valve_id = v.valve_id;
    start_time = start_h * 60 + start_m;
    stop_time = stop_h * 60 + stop_m;
    sent = false;
  }
