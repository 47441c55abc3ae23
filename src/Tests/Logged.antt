-- ===== src/Tests/Logged.antt =====
-- The theorems on the receiver with its log, for the garden.
use bbd.Prelude.{List, ◌≡◌, refl, [], ◌∷◌, map}
use bbd.Bytes.{Incoming}
use bbd.Text.{codes}
use bbd.Server.SocketData.{get_active_sches_msg, check_new_schedules_msg}
use bbd.Server.Logged.{line, Event}
use bbd.Server.Logged.Loop.{
  Outside, Accepted, again, error_number, connection, serve_logged, rounds_logged,
}
use bbd.Server.Logged.Responses.{logged_sizes, sent_sizes}
use bbd.Server.Logged.Responses.Sizes.{with_size}
use bbd.Server.Logged.Responses.Rounds.{logged_sizes-rounds_logged}
use bbd.Tests.Data.{host, garden, dawn, dusk}

abbrev outside : Outside
outside = record {
  env = host;
  ip = codes "10.0.0.7";
  get_what = [];
  sent_what = codes "transaction is closed";
  done_what = [];
}

-- A connection that asks for the schedules, a time limit, one without a header, and a check.
abbrev calls : List Accepted
calls =
    connection outside (Incoming.bytes (148 ∷ 129 ∷ 1 ∷ 2 ∷ 0 ∷ 0 ∷ []))
    ∷ again
    ∷ connection outside (Incoming.bytes [])
    ∷ error_number
    ∷ connection outside (Incoming.bytes (148 ∷ 129 ∷ 1 ∷ 3 ∷ 0 ∷ 0 ∷ []))
    ∷ []

sizes_example :
    map with_size (logged_sizes (rounds_logged garden calls).1)
    ≡ sent_sizes (rounds_logged garden calls).0.1
sizes_example = logged_sizes-rounds_logged garden calls

-- A test: the answered request marks the first schedule, and the second statement of the transaction
-- raises.
request_log :
    (serve_logged outside garden (Incoming.bytes (148 ∷ 129 ∷ 1 ∷ 2 ∷ 0 ∷ 0 ∷ []))).1
    ≡ Event.info "request received"
      ∷ Event.request (codes "10.0.0.7") 1 get_active_sches_msg
      ∷ Event.info "requesting get_active_schedules from db"
      ∷ Event.db_schedules (dawn ∷ dusk ∷ [])
      ∷ Event.response (codes "10.0.0.7") 1 get_active_sches_msg 16
      ∷ Event.info "requesting set_schedules_sent from db"
      ∷ Event.db_update "set schedule sent" 1
      ∷ Event.exception "set_schedules_sent" (codes "transaction is closed")
      ∷ Event.error "db call set_schedules_sent"
      ∷ Event.info "requesting deactivation_requests_done from db"
      ∷ Event.exception "deactivation_requests_done" []
      ∷ Event.error "db call deactivation_requests_done"
      ∷ []
unfolding serve_logged bbd.Server.Logged.db_get_active_schedules_logged
    bbd.Server.Logged.set_schedules_sent_logged bbd.Server.Logged.deactivation_requests_done_logged
    bbd.Server.SocketData.recv_socket_header bbd.Server.SocketData.request_type
    bbd.Server.Db.db_get_active_schedules bbd.Database.rcv_get_active_schedules
    bbd.Database.select_active bbd.Database.rcv_set_schedule_sent
    bbd.Database.deactivation_requests_done bbd.Server.SocketData.craft_active_schedules_rsp
    bbd.Server.SocketData.send_rsp_msg
request_log = refl
