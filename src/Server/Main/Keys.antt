-- ===== src/Server/Main/Keys.antt =====
-- main.cpp: the receiver changes no schedule but its marks and its times of sending and stopping.
use bbd.Prelude.{
  ℕ, ◌≡◌, refl, ap, ◌∙◌, Bool, true, false, Bool-cases, Option, none, some, List, [], ◌∷◌, map, inl,
  inr, ◌==◌,
}
use bbd.Bytes.{Incoming}
use bbd.Schedule.{Schedule}
use bbd.Database.{
  Database, DeviceRow, ValveRow, ScheduleRow, update_where, is_unsent, is_requested,
  rcv_set_schedule_sent,
}
use bbd.Database as Database
use bbd.Server.SocketData.{
  RequestType, get_device_valves_msg, get_active_sches_msg, check_new_schedules_msg, unidentified,
  Status, ok, failed, Header, recv_socket_header,
}
use bbd.Server.Db.{
  Pqxx, Txn, active, commit_if, mark_sent, set_schedules_sent, deactivation_requests_done, Fetched,
  db_get_active_schedules,
}
use bbd.Server.Main.{
  Env, Reply, silent, replied, fault, after_reply, after_active, answer_active, answer_check,
  dispatch, on_header, request_type, serve, reply_schedules, reply_check, stop_at_fault, run_server,
  magic_numer,
}

-- What a row says of the watering.
abbrev pub key : ScheduleRow → Schedule
key r = record {
  schedule_id = r.schedule_id;
  valve_id = r.valve_id;
  start = r.start_time;
  stop = r.stop_time;
}

abbrev pub keys : Database → List Schedule
keys db = map key db.schedules

pub map-update_where :
    (test : ScheduleRow → Bool) (change : ScheduleRow → ScheduleRow) (rows : List ScheduleRow)
    → ((r : ScheduleRow) → key (change r) ≡ key r)
    → map key (update_where test change rows) ≡ map key rows
map-update_where test change [] same = refl
map-update_where test change (r ∷ rows) same = elim (Bool-cases (test r)) [
  | inl e ↦ rw (e, same r, map-update_where test change rows same) refl
  | inr e ↦ rw (e, map-update_where test change rows same) refl
]

abbrev pub Lasting : Type 0
Lasting = List DeviceRow × List ValveRow × ℕ × List Schedule

abbrev pub with_keys : Database → List Schedule → Lasting
with_keys db ks = (db.devices, db.valves, db.next_id, ks)

-- All of the tables but the marks and the times of sending and stopping.
abbrev pub lasting : Database → Lasting
lasting db = with_keys db (keys db)

lasting-rcv_set_schedule_sent :
    (now : ℕ) (db : Database) (id : ℕ) → lasting (rcv_set_schedule_sent now db id).0 ≡ lasting db
unfolding rcv_set_schedule_sent
lasting-rcv_set_schedule_sent now db id = ap (with_keys db) (
    map-update_where (is_unsent id) (λ r. record r { sent = true; sent_on = some now }) db.schedules
      (λ r. refl))

-- Neither what the statements of a transaction have made nor what is stored has other lasting.
abbrev Keeps : Lasting → Txn → Type 0
Keeps ks t = (lasting t.working ≡ ks) × (lasting t.stored ≡ ks)

commit_if-Keeps :
    (ks : Lasting) (t : Txn) (r : Database × Bool)
    → Keeps ks t
    → lasting r.0 ≡ ks
    → Keeps ks (commit_if t r)
commit_if-Keeps ks t (db, true) k e = (e, e)
commit_if-Keeps ks t (db, false) k e = (e, k.1)

lasting-mark_sent :
    (px : Pqxx) (now : ℕ) (ks : Lasting) (t : Txn) (sches : List Schedule)
    → Keeps ks t
    → lasting (mark_sent px now t sches).0 ≡ ks
unfolding mark_sent
lasting-mark_sent px now ks t [] k = k.1
lasting-mark_sent px now ks t (s ∷ sches) k = elim (Bool-cases (px.accepts t.status)) [
  | inl e ↦ rw e (
      lasting-mark_sent px now ks (commit_if t (rcv_set_schedule_sent now t.working s.schedule_id))
        sches
        (commit_if-Keeps ks t (rcv_set_schedule_sent now t.working s.schedule_id) k
          (lasting-rcv_set_schedule_sent now t.working s.schedule_id ∙ k.0)))
  | inr e ↦ rw e (k.1)
]

lasting-set_schedules_sent :
    (px : Pqxx) (up : Bool) (now : ℕ) (db : Database) (sches : List Schedule)
    → lasting (set_schedules_sent px up now db sches).0 ≡ lasting db
unfolding set_schedules_sent
lasting-set_schedules_sent px false now db sches = refl
lasting-set_schedules_sent px true now db sches =
    lasting-mark_sent px now (lasting db) (record { status = active; working = db; stored = db })
      sches (refl, refl)

lasting-deactivation_requests_done :
    (px : Pqxx) (up : Bool) (now : ℕ) (db : Database)
    → lasting (deactivation_requests_done px up now db).0 ≡ lasting db
unfolding deactivation_requests_done Database.deactivation_requests_done
lasting-deactivation_requests_done px false now db = refl
lasting-deactivation_requests_done px true now db = ap (with_keys db) (
    map-update_where is_requested (λ r. record r { deactivated_on = some now }) db.schedules
      (λ r. refl))

lasting-after_active :
    (env : Env) (db : Database) (sches : List Schedule)
    → lasting (after_active env db sches) ≡ lasting db
lasting-after_active env db sches =
    lasting-deactivation_requests_done env.px env.done_up env.now _
    ∙ lasting-set_schedules_sent env.px env.sent_up env.now db sches

lasting-after_reply :
    (db : Database) (reply : Reply) (db' : Database)
    → lasting db' ≡ lasting db
    → lasting (after_reply db reply db').0 ≡ lasting db
lasting-after_reply db silent db' e = e
lasting-after_reply db (replied _) db' e = e
lasting-after_reply db fault db' e = refl

lasting-answer_active :
    (env : Env) (db : Database) (f : Option Fetched)
    → lasting (answer_active env db f).0 ≡ lasting db
unfolding answer_active
lasting-answer_active env db none = refl
lasting-answer_active env db (some f) =
    lasting-after_reply db (reply_schedules env f.sches) _ (lasting-after_active env db f.sches)

lasting-answer_check :
    (env : Env) (db : Database) (f : Option Fetched)
    → lasting (answer_check env db f).0 ≡ lasting db
unfolding answer_check
lasting-answer_check env db none = refl
lasting-answer_check env db (some f) =
    lasting-after_reply db (reply_check env f) _
      (lasting-set_schedules_sent env.px env.sent_up env.now db f.sches)

lasting-dispatch :
    (env : Env) (db : Database) (device : ℕ) (type : RequestType)
    → lasting (dispatch env db device type).0 ≡ lasting db
unfolding dispatch
lasting-dispatch env db device get_device_valves_msg = refl
lasting-dispatch env db device get_active_sches_msg =
    lasting-answer_active env db (db_get_active_schedules env.px env.get_up db device)
lasting-dispatch env db device check_new_schedules_msg =
    lasting-answer_check env db (db_get_active_schedules env.px env.get_up db device)
lasting-dispatch env db device (unidentified _) = refl

lasting-on_header :
    (env : Env) (db : Database) (s : Status Header) → lasting (on_header env db s).0 ≡ lasting db
unfolding on_header
lasting-on_header env db (ok h) = elim (Bool-cases (h.magic_number == magic_numer)) [
  | inl e ↦ rw e (lasting-dispatch env db h.device_id (request_type h.msg_type))
  | inr e ↦ rw e refl
]
lasting-on_header env db (failed _) = refl
lasting-on_header env db Status.fault = refl

pub lasting-serve :
    (env : Env) (db : Database) (sock : Incoming) → lasting (serve env db sock).0 ≡ lasting db
unfolding serve
lasting-serve env db sock =
    lasting-on_header env db (recv_socket_header env.endian env.allocator sock)

pub keys-serve :
    (env : Env) (db : Database) (sock : Incoming) → keys (serve env db sock).0 ≡ keys db
keys-serve env db sock = ap (λ t. t.3) (lasting-serve env db sock)

lasting-stop_at_fault :
    (reply : Reply) (rest : Database × List Reply) (db : Database) (ks : Lasting)
    → lasting rest.0 ≡ ks
    → lasting db ≡ ks
    → lasting (stop_at_fault reply rest db).0 ≡ ks
unfolding stop_at_fault
lasting-stop_at_fault fault rest db ks e e' = e'
lasting-stop_at_fault silent rest db ks e e' = e
lasting-stop_at_fault (replied _) rest db ks e e' = e

-- Whatever connections come to the receiver's loop, and whatever its host, its connections to the
-- database and `send` do, it changes neither the devices nor the valves nor the next number, adds
-- and removes no schedule and leaves the number, the valve and the two times of each as they are.
pub lasting-run_server :
    (db : Database) (conns : List (Env × Incoming)) → lasting (run_server db conns).0 ≡ lasting db
unfolding run_server
lasting-run_server db [] = refl
lasting-run_server db ((env, sock) ∷ conns) =
    lasting-stop_at_fault (serve env db sock).1 (run_server (serve env db sock).0 conns)
      (serve env db sock).0 (lasting db)
      (lasting-run_server (serve env db sock).0 conns ∙ lasting-serve env db sock)
      (lasting-serve env db sock)

keys-run_server :
    (db : Database) (conns : List (Env × Incoming)) → keys (run_server db conns).0 ≡ keys db
keys-run_server db conns = ap (λ t. t.3) (lasting-run_server db conns)
