-- ===== src/Server/Logged/Responses/Rounds.antt =====
-- main.cpp: the responses in the log are those that were sent.
use Prim.Native.String.{String}
use bbd.Prelude.{
  ℕ, ◌*◌, ◌≡◌, refl, ap, ap₂, sym, ◌∙◌, Bool-cases, inl, inr, Option-cases, some, List, [], ◌∷◌,
  ◌++◌, map, map-append, length, ◌==◌,
}
use bbd.Bytes.{Incoming, u16}
use bbd.Database.{Database}
use bbd.Server.SocketData.{
  RequestType, get_device_valves_msg, get_active_sches_msg, check_new_schedules_msg, unidentified,
  request_type, Header, Status, ok, failed, recv_socket_header, sizeof_schedule,
}
use bbd.Server.Db.{Fetched, db_get_device_valves, db_get_active_schedules}
use bbd.Server.Main.{
  Reply, silent, replied, fault, reply_valves, reply_schedules, reply_check, magic_numer,
}
use bbd.Server.Logged.{
  Logged, Event, info, db_schedules, behind, db_get_device_valves_logged,
  db_get_active_schedules_logged,
}
use bbd.Server.Logged.Responses.{logged_sizes, sent_sizes, logged_sizes-append}
use bbd.Server.Logged.Responses.Sizes.{
  with_size, SizedReply, SizedReply-reply_valves, SizedReply-reply_schedules,
  SizedReply-reply_check, quiet-sent_step, quiet-after_active,
}
use bbd.Server.Logged.Loop.{
  Outside, sent_log, check_len, handle_device_valves_logged, handle_active_schedules_logged,
  handle_check_schedules_logged, sent_step, after_active_logged, after_reply_logged,
  dispatch_logged, on_header_logged, serve_logged, Accepted, again, error_number, connection,
  next_round, waiting, rounds_logged,
}

-- A log and replies that agree.
abbrev Agree : List Event → List Reply → Type 0
Agree events replies = map with_size (logged_sizes events) ≡ sent_sizes replies

-- What a round has logged and replied.
abbrev AgreeRound : Logged (Database × Reply) → Type 0
AgreeRound r = Agree r.1 (r.0.1 ∷ [])

abbrev fetch_log : Fetched → List Event
fetch_log f = info "requesting get_active_schedules from db" ∷ db_schedules f.sches ∷ []

module _ (out : Outside) (device : ℕ) where
  Agree-sent_log :
      (type : RequestType) (sending : String) (len : ℕ) (reply : Reply)
      → SizedReply len reply
      → Agree (sent_log out device type sending len reply) (reply ∷ [])
  Agree-sent_log type sending len silent h = refl
  Agree-sent_log type sending len fault h = refl
  Agree-sent_log type sending len (replied msg) h = ap (λ n. n ∷ []) (sym h)

  -- The log of a response, behind what was fetched, with the quiet updates behind it.
  AgreeRound-updates :
      (db : Database) (f : Fetched) (type : RequestType) (sending : String) (len : ℕ)
      (reply : Reply) (r : Logged Database)
      → SizedReply len reply
      → logged_sizes r.1 ≡ []
      → AgreeRound (
          behind
            (fetch_log f ++ sent_log out device type sending len reply)
            (after_reply_logged out device db reply r))
  AgreeRound-updates db f type sending len silent r sized h = ap (map with_size) h
  AgreeRound-updates db f type sending len fault r sized h = refl
  AgreeRound-updates db f type sending len (replied msg) r sized h =
      ap₂ (λ n ns. n ∷ ns) (sym sized) (ap (map with_size) h)

  AgreeRound-valves : (db : Database) → AgreeRound (handle_device_valves_logged out device db)
  unfolding handle_device_valves_logged db_get_device_valves_logged
  AgreeRound-valves db =
      elim (Option-cases (db_get_device_valves out.env.px out.env.get_up db device)) [
        | inl e ↦ rw e refl
        | inr (ids, e) ↦ rw e (
            Agree-sent_log get_device_valves_msg "sending GET_DEVICE_VALVES_MSG response"
              (u16 (2 * length ids)) (reply_valves out.env (some ids))
              (SizedReply-reply_valves out.env ids))
      ]

  AgreeRound-active : (db : Database) → AgreeRound (handle_active_schedules_logged out device db)
  unfolding handle_active_schedules_logged db_get_active_schedules_logged
  AgreeRound-active db =
      elim (Option-cases (db_get_active_schedules out.env.px out.env.get_up db device)) [
        | inl e ↦ rw e refl
        | inr (f, e) ↦ rw e (
            AgreeRound-updates db f get_active_sches_msg "sending GET_ACTIVE_SCHES_MSG response"
              (u16 (sizeof_schedule * length f.sches)) (reply_schedules out.env f.sches)
              (after_active_logged out device db f.sches)
              (SizedReply-reply_schedules out.env f.sches)
              (quiet-after_active out device db f.sches))
      ]

  AgreeRound-check : (db : Database) → AgreeRound (handle_check_schedules_logged out device db)
  unfolding handle_check_schedules_logged db_get_active_schedules_logged
  AgreeRound-check db =
      elim (Option-cases (db_get_active_schedules out.env.px out.env.get_up db device)) [
        | inl e ↦ rw e refl
        | inr (f, e) ↦ rw e (
            AgreeRound-updates db f check_new_schedules_msg
              "sending CHECK_NEW_SCHEDULES_MSG response" (check_len out device f)
              (reply_check out.env f) (sent_step out device db f.sches)
              (SizedReply-reply_check out device f) (quiet-sent_step out device db f.sches))
      ]

  AgreeRound-dispatch :
      (db : Database) (type : RequestType) → AgreeRound (dispatch_logged out device db type)
  unfolding dispatch_logged
  AgreeRound-dispatch db get_device_valves_msg = AgreeRound-valves db
  AgreeRound-dispatch db get_active_sches_msg = AgreeRound-active db
  AgreeRound-dispatch db check_new_schedules_msg = AgreeRound-check db
  AgreeRound-dispatch db (unidentified _) = refl

AgreeRound-on_header :
    (out : Outside) (db : Database) (s : Status Header) → AgreeRound (on_header_logged out db s)
unfolding on_header_logged
AgreeRound-on_header out db (ok h) = elim (Bool-cases (h.magic_number == magic_numer)) [
  | inl e ↦ rw e (AgreeRound-dispatch out h.device_id db (request_type h.msg_type))
  | inr e ↦ rw e refl
]
AgreeRound-on_header out db (failed _) = refl
AgreeRound-on_header out db Status.fault = refl

AgreeRound-serve :
    (out : Outside) (db : Database) (sock : Incoming) → AgreeRound (serve_logged out db sock)
unfolding serve_logged
AgreeRound-serve out db sock =
    AgreeRound-on_header out db (recv_socket_header out.env.endian out.env.allocator sock)

Agree-append :
    (xs ys : List Event) (ns ms : List ℕ)
    → map with_size (logged_sizes xs) ≡ ns
    → map with_size (logged_sizes ys) ≡ ms
    → map with_size (logged_sizes (xs ++ ys)) ≡ ns ++ ms
Agree-append xs ys ns ms h h' =
    ap (map with_size) (logged_sizes-append xs ys)
    ∙ map-append with_size (logged_sizes xs) (logged_sizes ys)
    ∙ ap₂ ◌++◌ h h'

Agree-next_round :
    (r : Logged (Database × Reply)) (rest : Logged (Database × List Reply))
    → Agree r.1 (r.0.1 ∷ [])
    → Agree rest.1 rest.0.1
    → Agree (next_round r rest).1 (next_round r rest).0.1
Agree-next_round ((db, fault), events) rest h h' = h
Agree-next_round ((db, silent), events) rest h h' =
    Agree-append events (waiting ∷ rest.1) [] (sent_sizes rest.0.1) h h'
Agree-next_round ((db, replied msg), events) rest h h' =
    Agree-append events (waiting ∷ rest.1) (length msg ∷ []) (sent_sizes rest.0.1) h h'

-- The responses in the receiver's log are the messages that were sent, in their order: over all
-- connections the lengths in the log, each with the two bytes of the size added in 16 bits, are
-- the lengths of the messages. Nothing is logged for a response that could not be sent, nor for a
-- request without one.
pub logged_sizes-rounds_logged :
    (db : Database) (calls : List Accepted)
    → map with_size (logged_sizes (rounds_logged db calls).1)
      ≡ sent_sizes (rounds_logged db calls).0.1
unfolding rounds_logged
logged_sizes-rounds_logged db [] = refl
logged_sizes-rounds_logged db (again ∷ calls) = logged_sizes-rounds_logged db calls
logged_sizes-rounds_logged db (error_number ∷ calls) = logged_sizes-rounds_logged db calls
logged_sizes-rounds_logged db (connection out sock ∷ calls) =
    let r = serve_logged out db sock in
    Agree-next_round r (rounds_logged r.0.0 calls) (AgreeRound-serve out db sock)
      (logged_sizes-rounds_logged r.0.0 calls)
