-- ===== src/System/Evolution.antt =====
-- The web server, the receiver and a device over time, in any order of what each of them does.
pub mod Rows
pub mod Pages
pub mod Known
pub mod Numbers
use bbd.Prelude.{ℕ, ◌<◌, suc, ◌≡◌, true, false, Option, some, List, All, length}
use Prim.Native.String.{String}
use bbd.Bytes.{Incoming}
use bbd.Database.{Database, rcv_get_active_schedules}
use bbd.Client.SocketData.{Network, get_active_sches_msg, check_new_schedules_msg}
use bbd.Client.State.{Client}
use bbd.Client.ScheduleManager.{pass}
use bbd.Client.Controller.{
  Machine, ret, client_device_id, cc_set_valve_info, cc_set_active_schedules,
  cc_check_new_schedules,
}
use bbd.Server.Db.{PqxxLaws}
use bbd.Server.Db.Fetch.{RowFits}
use bbd.Server.Main.{Env, serve}
use bbd.System.{served, ask_schedules, ask_check}
use bbd.Web.{Answer, Form, done, quoted, create_new_schedule, deactivate_schedule}

pub record World : Type 0 where
  pub db : Database
  pub client : Client

-- The receiver's connection and its sending work, and what it fetches fits the messages.
pub record Healthy (env : Env) (db : Database) : Type 0 where
  pub laws : PqxxLaws env.px
  pub send_ok : env.send_ok ≡ true
  pub get_up : env.get_up ≡ true
  pub rows_fit : All RowFits (rcv_get_active_schedules db client_device_id)
  pub few_rows : length (rcv_get_active_schedules db client_device_id) < 6554

-- The pages, where the text of the field leaves the SQL statement the one that is meant; a connection
-- of anyone to the receiver; a request of the device for its schedules that the receiver answers, or
-- that fails with a number; a request for its valves that returns; a pass of the scheduler.
pub data Step (m : Machine) (w : World) : World → Type 0 where
  created :
      (now : ℕ) (f : Form) (answer : Answer) (db : Database)
      → quoted f ≡ false
      → create_new_schedule now w.db f ≡ done answer db
      → Step m w (record w { db = db })
  deactivated :
      (schedule_id : Option String) (answer : Answer) (db : Database)
      → deactivate_schedule w.db schedule_id ≡ done answer db
      → Step m w (record w { db = db })
  connected : (env : Env) (sock : Incoming) → Step m w (record w { db = (serve env w.db sock).0 })
  fetched :
      (env : Env)
      → Healthy env w.db
      → Step m w (record {
        db = (served env w.db get_active_sches_msg).0;
        client = (ask_schedules m env w.db w.client).0;
      })
  checked :
      (env : Env)
      → Healthy env w.db
      → Step m w (record {
        db = (served env w.db check_new_schedules_msg).0;
        client = (ask_check m env w.db w.client).0;
      })
  valves_asked :
      (net : Network) (n : ℕ)
      → (cc_set_valve_info m net w.client).1 ≡ ret n
      → Step m w (record w { client = (cc_set_valve_info m net w.client).0 })
  not_fetched :
      (net : Network) (n : ℕ)
      → (cc_set_active_schedules m net w.client).1 ≡ ret (suc n)
      → Step m w (record w { client = (cc_set_active_schedules m net w.client).0 })
  not_checked :
      (net : Network) (n : ℕ)
      → (cc_check_new_schedules m net w.client).1 ≡ ret (suc n)
      → Step m w (record w { client = (cc_check_new_schedules m net w.client).0 })
  passed : (minute : ℕ) → Step m w (record w { client = pass minute w.client })

pub data Reach (m : Machine) (w : World) : World → Type 0 where
  here : Reach m w w
  later : {u v : World} → Reach m w u → Step m u v → Reach m w v
