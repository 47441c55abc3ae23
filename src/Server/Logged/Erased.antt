-- ===== src/Server/Logged/Erased.antt =====
-- main.cpp and db.cpp: with the calls of the log the programs do what they do without.
pub mod Rounds
use bbd.Prelude.{
  ℕ, ◌≡◌, refl, ap, ◌∙◌, Bool, true, false, Bool-cases, inl, inr, Option, Option-cases, none, some,
  List, [], ◌∷◌, map, ◌==◌, arith,
}
use bbd.Bytes.{Incoming}
use bbd.Schedule.{Schedule}
use bbd.Database.{Database, rcv_set_schedule_sent}
use bbd.Database as Database
use bbd.Server.SocketData.{
  RequestType, get_device_valves_msg, get_active_sches_msg, check_new_schedules_msg, unidentified,
  request_type, Header, Status, ok, failed, recv_socket_header,
}
use bbd.Server.Db.{
  Pqxx, Txn, active, commit_if, mark_sent, set_schedules_sent, all_bool, deactivation_requests_done,
  db_get_device_valves, db_get_active_schedules,
}
use bbd.Server.Main.{
  Env, Reply, silent, replied, fault, reply_valves, reply_schedules, reply_check, answer_active,
  answer_check, after_reply, after_active, handle_device_valves, handle_active_schedules,
  handle_check_schedules, dispatch, on_header, magic_numer, serve, run_server, stop_at_fault,
}
use bbd.Server.Main.Listen.{start_loop, start_socket_server, accept_loop, start_server}
use bbd.Server.Logged.{
  Logged, Event, behind, mark_sent_logged, set_schedules_sent_logged, all_bool_logged,
  deactivation_requests_done_logged, db_get_device_valves_logged, db_get_active_schedules_logged,
}
use bbd.Server.Logged.Loop.{
  Outside, handle_device_valves_logged, handle_active_schedules_logged,
  handle_check_schedules_logged, sent_step, after_active_logged, after_reply_logged,
  dispatch_logged, on_header_logged, serve_logged, Accepted, again, error_number, connection,
  next_round, rounds_logged, started, start_loop_logged, start_server_logged,
}

mark_sent_logged-erased :
    (px : Pqxx) (now : ℕ) (what : List ℕ) (t : Txn) (sches : List Schedule)
    → (mark_sent_logged px now what t sches).0 ≡ mark_sent px now t sches
unfolding mark_sent mark_sent_logged
mark_sent_logged-erased px now what t [] = refl
mark_sent_logged-erased px now what t (s ∷ sches) = ground (
  arith,
  mark_sent_logged-erased px now what
      (commit_if t (rcv_set_schedule_sent now t.working s.schedule_id)) sches,
)

set_schedules_sent_logged-erased :
    (px : Pqxx) (up : Bool) (now : ℕ) (what : List ℕ) (db : Database) (sches : List Schedule)
    → (set_schedules_sent_logged px up now what db sches).0 ≡ set_schedules_sent px up now db sches
unfolding set_schedules_sent set_schedules_sent_logged
set_schedules_sent_logged-erased px false now what db sches = refl
set_schedules_sent_logged-erased px true now what db sches =
    mark_sent_logged-erased px now what (record { status = active; working = db; stored = db })
      sches

all_bool_logged-erased :
    (px : Pqxx) (what rows : List ℕ) → (all_bool_logged px what rows).0 ≡ all_bool px rows
unfolding all_bool all_bool_logged
all_bool_logged-erased px what [] = refl
all_bool_logged-erased px what (id ∷ rows) = elim (Option-cases (px.as_bool id)) [
  | inl e ↦ rw (e, all_bool_logged, all_bool) refl
  | inr (b, e) ↦ rw (e, all_bool_logged, all_bool) (all_bool_logged-erased px what rows)
]

deactivation_requests_done_logged-erased :
    (px : Pqxx) (up : Bool) (now : ℕ) (what : List ℕ) (db : Database)
    → (deactivation_requests_done_logged px up now what db).0
      ≡ deactivation_requests_done px up now db
unfolding deactivation_requests_done deactivation_requests_done_logged
deactivation_requests_done_logged-erased px false now what db = refl
deactivation_requests_done_logged-erased px true now what db =
    let (db', rows) = Database.deactivation_requests_done now db in
    ap (λ n. (db', n)) (all_bool_logged-erased px what rows)

module _ (out : Outside) (device : ℕ) (db : Database) where
  sent_step-erased :
      (sches : List Schedule)
      → (sent_step out device db sches).0
        ≡ (set_schedules_sent out.env.px out.env.sent_up out.env.now db sches).0
  sent_step-erased sches =
      ap (λ r. r.0)
        (set_schedules_sent_logged-erased out.env.px out.env.sent_up out.env.now out.sent_what db
          sches)

  after_active_logged-erased :
      (sches : List Schedule)
      → (after_active_logged out device db sches).0 ≡ after_active out.env db sches
  after_active_logged-erased sches =
      ap (λ r. r.0)
        (deactivation_requests_done_logged-erased out.env.px out.env.done_up out.env.now
          out.done_what (sent_step out device db sches).0)
      ∙ ap (λ d. (deactivation_requests_done out.env.px out.env.done_up out.env.now d).0)
          (sent_step-erased sches)

  after_reply_logged-erased :
      (reply : Reply) (r : Logged Database) {db' : Database}
      → r.0 ≡ db'
      → (after_reply_logged out device db reply r).0 ≡ after_reply db reply db'
  after_reply_logged-erased silent r e = ap (λ d. (d, silent)) e
  after_reply_logged-erased (replied msg) r e = ap (λ d. (d, replied msg)) e
  after_reply_logged-erased fault r e = refl

  valves-erased :
      (handle_device_valves_logged out device db).0 ≡ handle_device_valves out.env db device
  unfolding handle_device_valves handle_device_valves_logged db_get_device_valves_logged
      reply_valves
  valves-erased = elim (Option-cases (db_get_device_valves out.env.px out.env.get_up db device)) [
    | inl e ↦ rw e refl
    | inr (ids, e) ↦ rw e refl
  ]

  active-erased :
      (handle_active_schedules_logged out device db).0 ≡ handle_active_schedules out.env db device
  unfolding handle_active_schedules handle_active_schedules_logged db_get_active_schedules_logged
      answer_active
  active-erased =
      elim (Option-cases (db_get_active_schedules out.env.px out.env.get_up db device)) [
        | inl e ↦ rw e refl
        | inr (f, e) ↦ rw e (
            after_reply_logged-erased (reply_schedules out.env f.sches)
              (after_active_logged out device db f.sches) (after_active_logged-erased f.sches))
      ]

  check-erased :
      (handle_check_schedules_logged out device db).0 ≡ handle_check_schedules out.env db device
  unfolding handle_check_schedules handle_check_schedules_logged db_get_active_schedules_logged
      answer_check
  check-erased = elim (Option-cases (db_get_active_schedules out.env.px out.env.get_up db device)) [
    | inl e ↦ rw e refl
    | inr (f, e) ↦ rw e (
        after_reply_logged-erased (reply_check out.env f) (sent_step out device db f.sches)
          (sent_step-erased f.sches))
  ]

  dispatch_logged-erased :
      (type : RequestType)
      → (dispatch_logged out device db type).0 ≡ dispatch out.env db device type
  unfolding dispatch dispatch_logged
  dispatch_logged-erased get_device_valves_msg = valves-erased
  dispatch_logged-erased get_active_sches_msg = active-erased
  dispatch_logged-erased check_new_schedules_msg = check-erased
  dispatch_logged-erased (unidentified _) = refl

on_header_logged-erased :
    (out : Outside) (db : Database) (s : Status Header)
    → (on_header_logged out db s).0 ≡ on_header out.env db s
unfolding on_header on_header_logged
on_header_logged-erased out db (ok h) = elim (Bool-cases (h.magic_number == magic_numer)) [
  | inl e ↦ rw e (dispatch_logged-erased out h.device_id db (request_type h.msg_type))
  | inr e ↦ rw e refl
]
on_header_logged-erased out db (failed _) = refl
on_header_logged-erased out db Status.fault = refl

pub serve_logged-erased :
    (out : Outside) (db : Database) (sock : Incoming)
    → (serve_logged out db sock).0 ≡ serve out.env db sock
unfolding serve serve_logged
serve_logged-erased out db sock =
    on_header_logged-erased out db (recv_socket_header out.env.endian out.env.allocator sock)
