-- ===== src/Server/Logged.antt =====
-- server/src/receiver: the calls of the log, and the functions of db.cpp with the calls that they
-- make. The parent has the same functions without their logs.
pub mod Loop
pub mod Erased
pub mod Responses
use Prim.Native.String.{String}
use bbd.Prelude.{
  ℕ, zero, suc, Bool, true, false, Option, none, some, List, [], ◌∷◌, ◌++◌, if◌then◌else◌,
}
use bbd.Text.{codes}
use bbd.Schedule.{Schedule}
use bbd.Database.{Database, rcv_set_schedule_sent}
use bbd.Database as Database
use bbd.Server.Db.{
  Pqxx, Txn, active, commit_if, Fetched, db_get_device_valves, db_get_active_schedules,
}
use bbd.Server.SocketData.{RequestType}
use bbd.Server.Log as Log

-- A call of the log, with its arguments; `exception` is log_error with __func__ and what().
pub data Event : Type 0 where
  info : String → Event
  error : String → Event
  error_from : (ip : List ℕ) → String → Event
  exception : (func : String) → (what : List ℕ) → Event
  request : (ip : List ℕ) → (device_id : ℕ) → RequestType → Event
  response : (ip : List ℕ) → (device_id : ℕ) → RequestType → (msg_len : ℕ) → Event
  db_valves : List ℕ → Event
  db_schedules : List Schedule → Event
  db_update : (msg : String) → (id : ℕ) → Event

-- The bytes that the call writes to the file.
abbrev pub line : ℕ → Event → List ℕ
line now (info str) = Log.info now (codes str)
line now (error str) = Log.error now (codes str)
line now (error_from ip str) = Log.error_in now ip (codes str)
line now (exception func what) = Log.error_in now (codes func) what
line now (request ip device_id msg_type) = Log.request now ip device_id msg_type
line now (response ip device_id msg_type msg_len) = Log.response now ip device_id msg_type msg_len
line now (db_valves vec) = Log.db_valves now vec
line now (db_schedules vec) = Log.db_schedules now vec
line now (db_update msg id) = Log.db_update now (codes msg) id

abbrev pub Logged {ℓ} : Type ℓ → Type ℓ
Logged A = A × List Event

abbrev pub behind {ℓ} : {A : Type ℓ} → List Event → Logged A → Logged A
behind events (a, more) = (a, events ++ more)

abbrev valves_fetched : (what : List ℕ) → Option (List ℕ) → Event
valves_fetched what none = exception "db_get_device_valves" what
valves_fetched what (some valve_ids) = db_valves valve_ids

unfoldable pub db_get_device_valves_logged :
    Pqxx → (up : Bool) → (what : List ℕ) → Database → ℕ → Logged (Option (List ℕ))
db_get_device_valves_logged px up what db device =
    let valve_ids = db_get_device_valves px up db device in
    (valve_ids, info "requesting get_device_valves from db" ∷ valves_fetched what valve_ids ∷ [])

abbrev schedules_fetched : (what : List ℕ) → Option Fetched → Event
schedules_fetched what none = exception "db_get_active_schedules" what
schedules_fetched what (some f) = db_schedules f.sches

unfoldable pub db_get_active_schedules_logged :
    Pqxx → (up : Bool) → (what : List ℕ) → Database → ℕ → Logged (Option Fetched)
db_get_active_schedules_logged px up what db device =
    let f = db_get_active_schedules px up db device in
    (f, info "requesting get_active_schedules from db" ∷ schedules_fetched what f ∷ [])

-- What the loop over the schedules logs after one statement.
abbrev pub sent_event : Bool → ℕ → List Event
sent_event true id = db_update "set schedule sent" id ∷ []
sent_event false id = []

unfoldable pub mark_sent_logged :
    Pqxx → ℕ → (what : List ℕ) → Txn → List Schedule → Logged (Database × ℕ)
mark_sent_logged px now what t [] = ((t.stored, 0), [])
mark_sent_logged px now what t (s ∷ sches) =
    let r = rcv_set_schedule_sent now t.working s.schedule_id in
    let rest = mark_sent_logged px now what (commit_if t r) sches in
    if px.accepts t.status
    then behind (sent_event r.1 s.schedule_id) rest
    else ((t.stored, 1), exception "set_schedules_sent" what ∷ [])

unfoldable pub set_schedules_sent_logged :
    Pqxx → (up : Bool) → ℕ → (what : List ℕ) → Database → List Schedule → Logged (Database × ℕ)
unfolding mark_sent_logged
set_schedules_sent_logged px false now what db sches = (
  (db, 1),
  info "requesting set_schedules_sent from db" ∷ exception "set_schedules_sent" what ∷ [],
)
set_schedules_sent_logged px true now what db sches =
    behind (info "requesting set_schedules_sent from db" ∷ [])
      (mark_sent_logged px now what (record { status = active; working = db; stored = db }) sches)

-- The number that the line has is the converted truth value.
abbrev number_of : Bool → ℕ
number_of true = 1
number_of false = 0

unfoldable pub all_bool_logged : Pqxx → (what : List ℕ) → List ℕ → Logged ℕ
all_bool_logged px what [] = (0, [])
all_bool_logged px what (id ∷ rows) = elim (px.as_bool id) [
  | some b ↦
      behind (db_update "schedule deactivated" (number_of b) ∷ []) (all_bool_logged px what rows)
  | none ↦ (1, exception "deactivation_requests_done" what ∷ [])
]

abbrev with_tables : Database → Logged ℕ → Logged (Database × ℕ)
with_tables db (n, events) = ((db, n), events)

unfoldable pub deactivation_requests_done_logged :
    Pqxx → (up : Bool) → ℕ → (what : List ℕ) → Database → Logged (Database × ℕ)
unfolding all_bool_logged
deactivation_requests_done_logged px false now what db = (
  (db, 1),
  info "requesting deactivation_requests_done from db"
      ∷ exception "deactivation_requests_done" what
      ∷ [],
)
deactivation_requests_done_logged px true now what db =
    let (db', rows) = Database.deactivation_requests_done now db in
    behind (info "requesting deactivation_requests_done from db" ∷ [])
      (with_tables db' (all_bool_logged px what rows))
