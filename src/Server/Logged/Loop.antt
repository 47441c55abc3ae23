-- ===== src/Server/Logged/Loop.antt =====
-- server/src/receiver/src/main.cpp with the calls of the log.
use Prim.Native.String.{String}
use bbd.Prelude.{
  ℕ, zero, suc, ◌*◌, Bool, true, false, Option, none, some, List, [], ◌∷◌, ◌++◌, ◌==◌, length,
  if◌then◌else◌,
}
use bbd.Bytes.{u16, Incoming}
use bbd.Schedule.{Schedule}
use bbd.Database.{Database}
use bbd.Server.Db.{Fetched}
use bbd.Server.SocketData.{
  RequestType, get_device_valves_msg, get_active_sches_msg, check_new_schedules_msg, unidentified,
  request_type, Header, Status, ok, failed, recv_socket_header, sizeof_schedule,
}
use bbd.Server.Main.{
  Env, Reply, silent, replied, fault, reply_valves, reply_schedules, reply_check, need_update,
  magic_numer,
}
use bbd.Server.Main.Listen.{start_socket_server}
use bbd.Server.Logged.{
  Event, info, error, error_from, request, response, Logged, behind, db_get_device_valves_logged,
  db_get_active_schedules_logged, set_schedules_sent_logged, deactivation_requests_done_logged,
}

-- What the logs have from the outside: the address of the client, and what each of the exceptions
-- says, if there is one.
pub record Outside : Type 0 where
  pub env : Env
  pub ip : List ℕ
  pub get_what : List ℕ
  pub sent_what : List ℕ
  pub done_what : List ℕ

module _ (out : Outside) (device : ℕ) where
  -- The log behind send_rsp_msg.
  abbrev pub sent_log : RequestType → (sending : String) → (rsp_len : ℕ) → Reply → List Event
  sent_log msg_type sending rsp_len fault = []
  sent_log msg_type sending rsp_len silent = error sending ∷ []
  sent_log msg_type sending rsp_len (replied _) = response out.ip device msg_type rsp_len ∷ []

  abbrev pub valves_logged : Database → Logged (Option (List ℕ)) → Logged (Database × Reply)
  valves_logged db (none, fetch) =
      ((db, silent), fetch ++ error "db fetch GET_DEVICE_VALVES_MSG" ∷ [])
  valves_logged db (some ids, fetch) =
      let reply = reply_valves out.env (some ids) in
      (
        (db, reply),
        fetch
            ++ sent_log get_device_valves_msg "sending GET_DEVICE_VALVES_MSG response"
                (u16 (2 * length ids)) reply,
      )

  unfoldable pub handle_device_valves_logged : Database → Logged (Database × Reply)
  handle_device_valves_logged db =
      valves_logged db
        (db_get_device_valves_logged out.env.px out.env.get_up out.get_what db device)

  -- `if(n)` behind a call of the database.
  abbrev pub failed_log : (call : String) → ℕ → List Event
  failed_log call zero = []
  failed_log call (suc _) = error call ∷ []

  abbrev pub sent_step : Database → List Schedule → Logged Database
  sent_step db sches =
      let ((db', n), events) =
        set_schedules_sent_logged out.env.px out.env.sent_up out.env.now out.sent_what db sches in
      (db', events ++ failed_log "db call set_schedules_sent" n)

  abbrev pub done_step : Database → Logged Database
  done_step db =
      let ((db', n), events) =
        deactivation_requests_done_logged out.env.px out.env.done_up out.env.now out.done_what db in
      (db', events ++ failed_log "db call deactivation_requests_done" n)

  abbrev pub after_active_logged : Database → List Schedule → Logged Database
  after_active_logged db sches =
      let (sent, events) = sent_step db sches in behind events (done_step sent)

  -- A fault ends the program before the updates and their logs.
  abbrev pub after_reply_logged : Database → Reply → Logged Database → Logged (Database × Reply)
  after_reply_logged db fault (db', events) = ((db, fault), [])
  after_reply_logged db silent (db', events) = ((db', silent), events)
  after_reply_logged db (replied msg) (db', events) = ((db', replied msg), events)

  abbrev pub active_logged : Database → Logged (Option Fetched) → Logged (Database × Reply)
  active_logged db (none, fetch) =
      ((db, silent), fetch ++ error "db fetch GET_ACTIVE_SCHES_MSG" ∷ [])
  active_logged db (some f, fetch) =
      let reply = reply_schedules out.env f.sches in
      behind
        (fetch
          ++ sent_log get_active_sches_msg "sending GET_ACTIVE_SCHES_MSG response"
              (u16 (sizeof_schedule * length f.sches)) reply)
        (after_reply_logged db reply (after_active_logged db f.sches))

  unfoldable pub handle_active_schedules_logged : Database → Logged (Database × Reply)
  handle_active_schedules_logged db =
      active_logged db
        (db_get_active_schedules_logged out.env.px out.env.get_up out.get_what db device)

  abbrev pub check_len : Fetched → ℕ
  check_len f = if need_update f.sents then u16 (sizeof_schedule * length f.sches) else 0

  abbrev pub check_logged : Database → Logged (Option Fetched) → Logged (Database × Reply)
  check_logged db (none, fetch) =
      ((db, silent), fetch ++ error "db fetch GET_ACTIVE_SCHES_MSG" ∷ [])
  check_logged db (some f, fetch) =
      let reply = reply_check out.env f in
      behind
        (fetch
          ++ sent_log check_new_schedules_msg "sending CHECK_NEW_SCHEDULES_MSG response"
              (check_len f) reply)
        (after_reply_logged db reply (sent_step db f.sches))

  unfoldable pub handle_check_schedules_logged : Database → Logged (Database × Reply)
  handle_check_schedules_logged db =
      check_logged db
        (db_get_active_schedules_logged out.env.px out.env.get_up out.get_what db device)

  unfoldable pub dispatch_logged : Database → RequestType → Logged (Database × Reply)
  unfolding handle_device_valves_logged handle_active_schedules_logged handle_check_schedules_logged
  dispatch_logged db get_device_valves_msg = handle_device_valves_logged db
  dispatch_logged db get_active_sches_msg = handle_active_schedules_logged db
  dispatch_logged db check_new_schedules_msg = handle_check_schedules_logged db
  dispatch_logged db (unidentified _) = ((db, silent), [])

unfoldable pub on_header_logged : Outside → Database → Status Header → Logged (Database × Reply)
unfolding dispatch_logged
on_header_logged out db (ok h) =
    let msg_type = request_type h.msg_type in
    if h.magic_number == magic_numer
    then behind (info "request received" ∷ request out.ip h.device_id msg_type ∷ [])
        (dispatch_logged out h.device_id db msg_type)
    else (
      (db, silent),
      error_from out.ip "bad magic number!" ∷ request out.ip h.device_id msg_type ∷ [],
    )
on_header_logged out db (failed _) = ((db, silent), error "receiving message request header" ∷ [])
on_header_logged out db Status.fault = ((db, fault), [])

unfoldable pub serve_logged : Outside → Database → Incoming → Logged (Database × Reply)
unfolding on_header_logged
serve_logged out db sock =
    on_header_logged out db (recv_socket_header out.env.endian out.env.allocator sock)

-- What `accept` gives: a connection, or a failure, which may be that of the time limit.
pub data Accepted : Type 0 where
  again : Accepted
  error_number : Accepted
  connection : Outside → Incoming → Accepted

abbrev pub waiting : Event
waiting = info "waiting for new connection"

-- A fault ends the program, otherwise the next round begins.
abbrev pub next_round :
    Logged (Database × Reply) → Logged (Database × List Reply) → Logged (Database × List Reply)
next_round ((db, fault), events) rest = ((db, fault ∷ []), events)
next_round ((db, silent), events) ((last, replies), more) =
    ((last, silent ∷ replies), events ++ waiting ∷ more)
next_round ((db, replied msg), events) ((last, replies), more) =
    ((last, replied msg ∷ replies), events ++ waiting ∷ more)

-- The rounds of `while(true)` with the loop round `accept`, from the first call of `accept` on.
unfoldable pub rounds_logged : Database → List Accepted → Logged (Database × List Reply)
unfolding serve_logged
rounds_logged db [] = ((db, []), [])
rounds_logged db (again ∷ calls) = rounds_logged db calls
rounds_logged db (error_number ∷ calls) =
    behind (error "accepting connection!" ∷ []) (rounds_logged db calls)
rounds_logged db (connection out sock ∷ calls) =
    next_round (serve_logged out db sock) (rounds_logged (serve_logged out db sock).0.0 calls)

-- The tries to open the socket; `none` while none has succeeded.
unfoldable pub start_loop_logged : List Bool → Logged (Option (List Bool))
unfolding start_socket_server
start_loop_logged [] = (none, [])
start_loop_logged (bound ∷ tries) = elim (start_socket_server bound) [
  | zero ↦ (some tries, [])
  | suc _ ↦ behind (error "binding socket!" ∷ []) (start_loop_logged tries)
]

abbrev pub started :
    Database → List Accepted → Logged (Option (List Bool)) → Logged (Database × List Reply)
started db calls (none, events) = ((db, []), events)
started db calls (some _, events) =
    behind (events ++ info "server started" ∷ waiting ∷ []) (rounds_logged db calls)

-- `_run_server`; `none` is its return with 1.
unfoldable pub start_server_logged :
    (logs_open : Bool)
    → List Bool
    → Database
    → List Accepted
    → Option (Logged (Database × List Reply))
unfolding start_loop_logged rounds_logged
start_server_logged false tries db calls = none
start_server_logged true tries db calls = some (started db calls (start_loop_logged tries))
