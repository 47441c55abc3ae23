-- ===== src/Server/Main.antt =====
-- server/src/receiver/src/main.cpp: the socket is opened, and each connection is one request,
-- answered from the database. Server/Logged has the same with the calls of the log.
pub mod Replies
pub mod Listen
pub mod Keys
use bbd.Prelude.{
  ℕ, zero, suc, ◌*◌, Bool, true, false, not, Option, none, some, List, [], ◌∷◌, ◌==◌, ◌>>=◌, any,
  length, if◌then◌else◌,
}
use bbd.Bytes.{Endian, u16, Allocator, Incoming}
use bbd.Schedule.{Schedule}
use bbd.Database.{Database}
use bbd.Server.SocketData.{
  RequestType, get_device_valves_msg, get_active_sches_msg, check_new_schedules_msg, unidentified,
  request_type, Header, Status, ok, failed, recv_socket_header, send_rsp_msg,
  craft_active_schedules_rsp, craft_device_valves_rsp, sizeof_schedule,
}
use bbd.Server.Db.{
  Pqxx, Fetched, db_get_device_valves, db_get_active_schedules, set_schedules_sent,
  deactivation_requests_done,
}

abbrev pub magic_numer : ℕ
magic_numer = 38017

-- The host, and what the outside does during one request: whether each connection to the database
-- is made, whether `send` succeeds, and the time.
pub record Env : Type 0 where
  pub endian : Endian
  pub allocator : Allocator
  pub px : Pqxx
  pub get_up : Bool
  pub sent_up : Bool
  pub done_up : Bool
  pub send_ok : Bool
  pub now : ℕ

-- What the client has when the connection is closed.
pub data Reply : Type 0 where
  silent : Reply
  replied : List ℕ → Reply
  -- An access outside a buffer.
  fault : Reply

abbrev pub deliver : Bool → Option (List ℕ) → Reply
deliver delivered none = fault
deliver true (some msg) = replied msg
deliver false (some msg) = silent

-- The buffer `rsp` is sent with the length `rsp_len`.
abbrev pub send_reply : Env → Option (List ℕ) → ℕ → Reply
send_reply env rsp rsp_len =
    deliver env.send_ok (rsp >>= λ r. send_rsp_msg env.endian env.allocator r rsp_len)

unfoldable pub reply_valves : Env → Option (List ℕ) → Reply
reply_valves env none = silent
reply_valves env (some ids) =
    send_reply env (craft_device_valves_rsp env.endian env.allocator ids) (u16 (2 * length ids))

unfoldable pub handle_device_valves : Env → Database → ℕ → Database × Reply
unfolding reply_valves
handle_device_valves env db device =
    (db, reply_valves env (db_get_device_valves env.px env.get_up db device))

abbrev pub reply_schedules : Env → List Schedule → Reply
reply_schedules env sches =
    send_reply env (craft_active_schedules_rsp env.endian env.allocator sches)
      (u16 (sizeof_schedule * length sches))

-- The updates come after the reply, whether it could be sent or not; a fault ends the program.
abbrev pub after_reply : Database → Reply → Database → Database × Reply
after_reply db fault db' = (db, fault)
after_reply db reply db' = (db', reply)

abbrev pub after_active : Env → Database → List Schedule → Database
after_active env db sches =
    (deactivation_requests_done env.px env.done_up env.now
      (set_schedules_sent env.px env.sent_up env.now db sches).0).0

unfoldable pub answer_active : Env → Database → Option Fetched → Database × Reply
answer_active env db none = (db, silent)
answer_active env db (some f) =
    after_reply db (reply_schedules env f.sches) (after_active env db f.sches)

unfoldable pub handle_active_schedules : Env → Database → ℕ → Database × Reply
unfolding answer_active
handle_active_schedules env db device =
    answer_active env db (db_get_active_schedules env.px env.get_up db device)

-- `need_update` of the loop over `sents`.
abbrev pub need_update : List Bool → Bool
need_update sents = any not sents

abbrev pub reply_check : Env → Fetched → Reply
reply_check env f =
    if need_update f.sents then reply_schedules env f.sches else send_reply env (some []) 0

unfoldable pub answer_check : Env → Database → Option Fetched → Database × Reply
answer_check env db none = (db, silent)
answer_check env db (some f) =
    after_reply db (reply_check env f) (set_schedules_sent env.px env.sent_up env.now db f.sches).0

unfoldable pub handle_check_schedules : Env → Database → ℕ → Database × Reply
unfolding answer_check
handle_check_schedules env db device =
    answer_check env db (db_get_active_schedules env.px env.get_up db device)

-- The `switch`.
unfoldable pub dispatch : Env → Database → ℕ → RequestType → Database × Reply
unfolding handle_device_valves handle_active_schedules handle_check_schedules
dispatch env db device get_device_valves_msg = handle_device_valves env db device
dispatch env db device get_active_sches_msg = handle_active_schedules env db device
dispatch env db device check_new_schedules_msg = handle_check_schedules env db device
dispatch env db device (unidentified _) = (db, silent)

unfoldable pub on_header : Env → Database → Status Header → Database × Reply
unfolding dispatch request_type
on_header env db (ok h) =
    if h.magic_number == magic_numer
    then dispatch env db h.device_id (request_type h.msg_type)
    else (db, silent)
on_header env db (failed _) = (db, silent)
on_header env db Status.fault = (db, fault)

-- One round of the server's loop, from the accepted connection to its close.
unfoldable pub serve : Env → Database → Incoming → Database × Reply
unfolding on_header
serve env db sock = on_header env db (recv_socket_header env.endian env.allocator sock)

-- A fault ends the program.
unfoldable pub stop_at_fault : Reply → Database × List Reply → Database → Database × List Reply
stop_at_fault fault rest db = (db, fault ∷ [])
stop_at_fault reply (last, replies) db = (last, reply ∷ replies)

-- The rounds of `while(true)`, over the connections that come.
unfoldable pub run_server : Database → List (Env × Incoming) → Database × List Reply
unfolding serve stop_at_fault
run_server db [] = (db, [])
run_server db ((env, sock) ∷ conns) =
    let (db', reply) = serve env db sock in stop_at_fault reply (run_server db' conns) db'
