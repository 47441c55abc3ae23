-- ===== src/Server/Db.antt =====
-- server/src/receiver/src/db: the receiver's calls of the database, each over its own connection
-- and transaction. The library pqxx is a parameter.
pub mod Sent
pub mod Fetch
use bbd.Prelude.{
  ℕ, zero, Bool, true, false, Option, none, some, List, [], ◌∷◌, ◌≡◌, ◌<◌, ltb, ◌>>=◌,
  if◌then◌else◌,
}
use bbd.Schedule.{Schedule}
use bbd.Database.{
  Database, ActiveRow, rcv_get_device_valves, rcv_get_active_schedules, rcv_set_schedule_sent,
  deactivation_requests_done as sql_deactivation_requests_done,
}

-- A pqxx::work before and after its commit.
pub data TxnStatus : Type 0 where
  active committed : TxnStatus

-- What the code takes from pqxx: `none` is an exception of a conversion, and `accepts` tells
-- whether a transaction in this state runs a statement, in place of an exception.
pub record Pqxx : Type 0 where
  pub as_u16 : ℕ → Option ℕ
  pub as_bool : ℕ → Option Bool
  pub accepts : TxnStatus → Bool

-- What pqxx documents: a number that a uint16_t holds is converted and no other, and a transaction
-- runs statements until it is committed.
pub record PqxxLaws (px : Pqxx) : Type 0 where
  pub as_u16_fits : (n : ℕ) → n < 65536 → px.as_u16 n ≡ some n
  pub accepts_active : px.accepts active ≡ true
  pub accepts_committed : px.accepts committed ≡ false

-- `up` says whether the connection is made. `none` where the code returns 1.
valve_rows : Pqxx → List ℕ → Option (List ℕ)
valve_rows px [] = some []
valve_rows px (id ∷ rows) = do id ← px.as_u16 id; rest ← valve_rows px rows; some (id ∷ rest)

unfoldable pub db_get_device_valves : Pqxx → (up : Bool) → Database → ℕ → Option (List ℕ)
unfolding valve_rows
db_get_device_valves px false db device = none
db_get_device_valves px true db device = valve_rows px (rcv_get_device_valves db device)

schedule_of : Pqxx → ActiveRow → Option Schedule
schedule_of px r = do
  id ← px.as_u16 r.schedule_id
  valve ← px.as_u16 r.valve_id
  start ← px.as_u16 r.start_time
  stop ← px.as_u16 r.stop_time
  some (record { schedule_id = id; valve_id = valve; start = start; stop = stop })

-- The two vectors that the rows are pushed to.
pub record Fetched : Type 0 where
  pub sches : List Schedule
  pub sents : List Bool

schedule_rows : Pqxx → List ActiveRow → Option Fetched
unfolding schedule_of
schedule_rows px [] = some (record { sches = []; sents = [] })
schedule_rows px (r ∷ rows) = do
  s ← schedule_of px r
  rest ← schedule_rows px rows
  some (record { sches = s ∷ rest.sches; sents = r.sent ∷ rest.sents })

unfoldable pub db_get_active_schedules : Pqxx → (up : Bool) → Database → ℕ → Option Fetched
unfolding schedule_rows
db_get_active_schedules px false db device = none
db_get_active_schedules px true db device = schedule_rows px (rcv_get_active_schedules db device)

-- The transaction: what its statements have made of the tables, and what is committed.
pub record Txn : Type 0 where
  pub status : TxnStatus
  pub working : Database
  pub stored : Database

abbrev pub commit_if : Txn → Database × Bool → Txn
commit_if t (db, true) = record { status = committed; working = db; stored = db }
commit_if t (db, false) = record t { working = db }

-- The loop over the schedules; the number is what the function returns, and what is not committed
-- is lost with the transaction.
unfoldable pub mark_sent : Pqxx → ℕ → Txn → List Schedule → Database × ℕ
mark_sent px now t [] = (t.stored, 0)
mark_sent px now t (s ∷ sches) =
    let rest =
      mark_sent px now (commit_if t (rcv_set_schedule_sent now t.working s.schedule_id)) sches in
    if px.accepts t.status then rest else (t.stored, 1)

unfoldable pub set_schedules_sent : Pqxx → (up : Bool) → ℕ → Database → List Schedule → Database × ℕ
unfolding mark_sent
set_schedules_sent px false now db sches = (db, 1)
set_schedules_sent px true now db sches =
    mark_sent px now (record { status = active; working = db; stored = db }) sches

unfoldable pub all_bool : Pqxx → List ℕ → ℕ
all_bool px [] = 0
all_bool px (id ∷ rows) = elim (px.as_bool id) [ some _ ↦ all_bool px rows | none ↦ 1 ]

-- The commit stands before the conversions, which may fail.
unfoldable pub deactivation_requests_done : Pqxx → (up : Bool) → ℕ → Database → Database × ℕ
unfolding all_bool
deactivation_requests_done px false now db = (db, 1)
deactivation_requests_done px true now db =
    let (db', rows) = sql_deactivation_requests_done now db in (db', all_bool px rows)
