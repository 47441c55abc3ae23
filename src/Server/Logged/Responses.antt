-- ===== src/Server/Logged/Responses.antt =====
-- db.cpp: the calls of the database log no response.
pub mod Sizes
pub mod Rounds
use bbd.Prelude.{
  ℕ, zero, suc, ◌+◌, ◌*◌, ◌≡◌, refl, ap, ap₂, sym, ◌∙◌, Bool, true, false, Bool-cases, inl, inr,
  Option, Option-cases, none, some, List, [], ◌∷◌, ◌++◌, map, map-append, length, ◌==◌, ◌>>=◌,
  >>=-eq-some, if◌then◌else◌, arith,
}
use bbd.Bytes.{Incoming, Allocator, Endian, read, u16, overwrite, write_at}
use bbd.Schedule.{Schedule}
use bbd.Database.{Database, rcv_set_schedule_sent}
use bbd.Server.SocketData.{
  RequestType, get_device_valves_msg, get_active_sches_msg, check_new_schedules_msg, unidentified,
  request_type, Header, Status, ok, failed, recv_socket_header, send_rsp_msg, prep_to_send_16,
}
use bbd.Server.Db.{
  Pqxx, Txn, active, commit_if, Fetched, db_get_device_valves, db_get_active_schedules,
}
use bbd.Server.Main.{
  Env, Reply, silent, replied, fault, deliver, send_reply, reply_valves, reply_schedules,
  reply_check, magic_numer, need_update,
}
use bbd.Server.Logged.{
  Logged, Event, info, error, error_from, exception, request, response, db_valves, db_schedules,
  db_update, behind, sent_event, mark_sent_logged, set_schedules_sent_logged, all_bool_logged,
  deactivation_requests_done_logged, db_get_device_valves_logged, db_get_active_schedules_logged,
  valves_fetched, schedules_fetched,
}
use bbd.Server.Logged.Loop.{
  Outside, sent_log, failed_log, valves_logged, active_logged, check_logged, check_len,
  handle_device_valves_logged, handle_active_schedules_logged, handle_check_schedules_logged,
  sent_step, done_step, after_active_logged, after_reply_logged, dispatch_logged, on_header_logged,
  serve_logged, Accepted, again, error_number, connection, next_round, rounds_logged,
}

-- The lengths that the responses in a log have.
abbrev pub logged_sizes : List Event → List ℕ
logged_sizes [] = []
logged_sizes (response _ _ _ msg_len ∷ events) = msg_len ∷ logged_sizes events
logged_sizes (info _ ∷ events) = logged_sizes events
logged_sizes (error _ ∷ events) = logged_sizes events
logged_sizes (error_from _ _ ∷ events) = logged_sizes events
logged_sizes (exception _ _ ∷ events) = logged_sizes events
logged_sizes (request _ _ _ ∷ events) = logged_sizes events
logged_sizes (db_valves _ ∷ events) = logged_sizes events
logged_sizes (db_schedules _ ∷ events) = logged_sizes events
logged_sizes (db_update _ _ ∷ events) = logged_sizes events

-- The lengths of the messages that clients have got.
abbrev pub sent_sizes : List Reply → List ℕ
sent_sizes [] = []
sent_sizes (silent ∷ replies) = sent_sizes replies
sent_sizes (fault ∷ replies) = sent_sizes replies
sent_sizes (replied msg ∷ replies) = length msg ∷ sent_sizes replies

pub logged_sizes-append :
    (xs ys : List Event) → logged_sizes (xs ++ ys) ≡ logged_sizes xs ++ logged_sizes ys
logged_sizes-append [] ys = refl
logged_sizes-append (response _ _ _ msg_len ∷ xs) ys = ap (◌∷◌ msg_len) (logged_sizes-append xs ys)
logged_sizes-append (info _ ∷ xs) ys = logged_sizes-append xs ys
logged_sizes-append (error _ ∷ xs) ys = logged_sizes-append xs ys
logged_sizes-append (error_from _ _ ∷ xs) ys = logged_sizes-append xs ys
logged_sizes-append (exception _ _ ∷ xs) ys = logged_sizes-append xs ys
logged_sizes-append (request _ _ _ ∷ xs) ys = logged_sizes-append xs ys
logged_sizes-append (db_valves _ ∷ xs) ys = logged_sizes-append xs ys
logged_sizes-append (db_schedules _ ∷ xs) ys = logged_sizes-append xs ys
logged_sizes-append (db_update _ _ ∷ xs) ys = logged_sizes-append xs ys

-- Logs without responses.
pub quiet-append :
    (xs ys : List Event)
    → logged_sizes xs ≡ []
    → logged_sizes ys ≡ []
    → logged_sizes (xs ++ ys) ≡ []
quiet-append xs ys h h' = logged_sizes-append xs ys ∙ ap₂ ◌++◌ h h'

quiet-sent_event : (b : Bool) (id : ℕ) → logged_sizes (sent_event b id) ≡ []
quiet-sent_event true id = refl
quiet-sent_event false id = refl

quiet-mark_sent :
    (px : Pqxx) (now : ℕ) (what : List ℕ) (t : Txn) (sches : List Schedule)
    → logged_sizes (mark_sent_logged px now what t sches).1 ≡ []
unfolding mark_sent_logged
quiet-mark_sent px now what t [] = refl
quiet-mark_sent px now what t (s ∷ sches) = elim (Bool-cases (px.accepts t.status)) [
  | inl e ↦
      let r = rcv_set_schedule_sent now t.working s.schedule_id in
      rw e (
        quiet-append (sent_event r.1 s.schedule_id) _ (quiet-sent_event r.1 s.schedule_id)
          (quiet-mark_sent px now what (commit_if t r) sches))
  | inr e ↦ rw e refl
]

pub quiet-set_schedules_sent :
    (px : Pqxx) (up : Bool) (now : ℕ) (what : List ℕ) (db : Database) (sches : List Schedule)
    → logged_sizes (set_schedules_sent_logged px up now what db sches).1 ≡ []
unfolding set_schedules_sent_logged
quiet-set_schedules_sent px false now what db sches = refl
quiet-set_schedules_sent px true now what db sches =
    quiet-mark_sent px now what (record { status = active; working = db; stored = db }) sches

quiet-all_bool :
    (px : Pqxx) (what rows : List ℕ) → logged_sizes (all_bool_logged px what rows).1 ≡ []
unfolding all_bool_logged
quiet-all_bool px what [] = refl
quiet-all_bool px what (id ∷ rows) = elim (Option-cases (px.as_bool id)) [
  | inl e ↦ rw (e, all_bool_logged) refl
  | inr (b, e) ↦ rw (e, all_bool_logged) (quiet-all_bool px what rows)
]

pub quiet-done :
    (px : Pqxx) (up : Bool) (now : ℕ) (what : List ℕ) (db : Database)
    → logged_sizes (deactivation_requests_done_logged px up now what db).1 ≡ []
unfolding deactivation_requests_done_logged
quiet-done px false now what db = refl
quiet-done px true now what db =
    quiet-all_bool px what (bbd.Database.deactivation_requests_done now db).1
