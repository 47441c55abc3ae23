-- ===== src/Server/Main/Replies.antt =====
-- main.cpp: what the client of a request gets, from the header on the wire to the reply's bytes.
use bbd.Prelude.{
  ℕ, ◌*◌, ◌<◌, ◌≡◌, ◌≢◌, ◌⊎◌, ap, ◌∙◌, Bool, true, false, not, some, List, [], ◌++◌, map, any,
  any-map, All, arith, length, length-map, if◌then◌else◌,
}
use bbd.Bytes.{Incoming, u16}
use bbd.Schedule.{Schedule, IsU16}
use bbd.Database.{Database, ActiveRow, rcv_get_device_valves, rcv_get_active_schedules}
use bbd.Server.SocketData.{Header, request_type, ok}
use bbd.Server.Db.{PqxxLaws, db_get_device_valves, db_get_active_schedules, set_schedules_sent}
use bbd.Server.Db.Fetch.{
  RowFits, to_schedule, fetched, All-to_schedule, db_get_device_valves-fit,
  db_get_active_schedules-fit,
}
use bbd.Server.Main.{
  Env, silent, replied, magic_numer, need_update, reply_schedules, reply_valves, after_reply,
  after_active, reply_check, answer_active, answer_check, handle_device_valves,
  handle_active_schedules, handle_check_schedules, dispatch, on_header, serve,
}
use bbd.Wire.Format.{framed, wire_schedules, wire_valves, length-wire_schedules, length-wire_valves}
use bbd.Wire.Header.{wire_header, HeaderFits, recv_socket_header-wire}
use bbd.Wire.Encode.{
  craft_active_schedules_rsp-wire, craft_device_valves_rsp-wire, send_rsp_msg-framed,
}

-- A whole header on the wire is what the server decides on.
pub serve-header :
    (env : Env) (db : Database) (h : Header) (more : List ℕ)
    → HeaderFits h
    → serve env db (Incoming.bytes (wire_header h ++ more)) ≡ on_header env db (ok h)
unfolding serve
serve-header env db h more fits =
    ap (on_header env db) (recv_socket_header-wire env.endian env.allocator h more fits)

-- A request whose header has another magic number, or a type that is none of the three, gets no
-- reply and changes nothing in the database.
pub serve_refused :
    (env : Env) (db : Database) (h : Header) (more : List ℕ)
    → HeaderFits h
    → (h.magic_number ≢ magic_numer) ⊎ (h.msg_type ≡ 0) ⊎ (3 < h.msg_type)
    → serve env db (Incoming.bytes (wire_header h ++ more)) ≡ (db, silent)
unfolding on_header dispatch request_type
serve_refused env db h more fits bad = serve-header env db h more fits ∙ ground arith

-- What a check is answered with: all the active schedules, or nothing.
abbrev pub check_bytes : List ActiveRow → List ℕ
check_bytes rows = if any (λ r. not r.sent) rows then wire_schedules (map to_schedule rows) else []

module _ (env : Env) (laws : PqxxLaws env.px) (send_ok : env.send_ok ≡ true)
    (get_up : env.get_up ≡ true) where
  reply_schedules-framed :
      (sches : List Schedule)
      → All IsU16 sches
      → length sches < 8192
      → reply_schedules env sches ≡ replied (framed (wire_schedules sches))
  reply_schedules-framed sches fits few =
      let n : u16 (8 * length sches) ≡ length (wire_schedules sches) =
        omega (arith, length-wire_schedules sches) in
      rw (
        send_ok,
        craft_active_schedules_rsp-wire env.endian env.allocator sches fits few,
        n,
        send_rsp_msg-framed env.endian env.allocator (wire_schedules sches)
            (omega (arith, length-wire_schedules sches)),
      )

  reply_valves-framed :
      (ids : List ℕ)
      → All (λ id. id < 65536) ids
      → length ids < 32767
      → reply_valves env (some ids) ≡ replied (framed (wire_valves ids))
  unfolding handle_device_valves
  reply_valves-framed ids fits few =
      let n : u16 (2 * length ids) ≡ length (wire_valves ids) =
        omega (arith, length-wire_valves ids) in
      rw (
        send_ok,
        craft_device_valves_rsp-wire env.endian env.allocator ids fits (omega arith),
        n,
        send_rsp_msg-framed env.endian env.allocator (wire_valves ids)
            (omega (arith, length-wire_valves ids)),
      )

  rows-framed :
      (rows : List ActiveRow)
      → All RowFits rows
      → length rows < 8192
      → reply_schedules env (map to_schedule rows)
        ≡ replied (framed (wire_schedules (map to_schedule rows)))
  rows-framed rows fits few =
      reply_schedules-framed (map to_schedule rows) (All-to_schedule rows fits)
        (omega (arith, length-map to_schedule rows))

  fetch :
      (db : Database) (device : ℕ)
      → All RowFits (rcv_get_active_schedules db device)
      → db_get_active_schedules env.px env.get_up db device
        ≡ some (fetched (rcv_get_active_schedules db device))
  fetch db device fits =
      ap (λ up. db_get_active_schedules env.px up db device) get_up
      ∙ db_get_active_schedules-fit env.px laws db device fits

  -- A request for the valves is answered with the numbers of the device's valves, and the database
  -- stays. Conditions: they fit in 16 bits, there are fewer than 32767, the connection to the
  -- database and `send` work.
  pub handle_device_valves-framed :
      (db : Database) (device : ℕ)
      → All (λ id. id < 65536) (rcv_get_device_valves db device)
      → length (rcv_get_device_valves db device) < 32767
      → handle_device_valves env db device
        ≡ (db, replied (framed (wire_valves (rcv_get_device_valves db device))))
  unfolding handle_device_valves
  handle_device_valves-framed db device fits few =
      ap (λ o. (db, reply_valves env o))
        (ap (λ up. db_get_device_valves env.px up db device) get_up
          ∙ db_get_device_valves-fit env.px laws db device fits)
      ∙ ap (λ r. (db, r)) (reply_valves-framed (rcv_get_device_valves db device) fits few)

  -- A request for the active schedules is answered with them; then set_schedules_sent and
  -- deactivation_requests_done have run on the database. Conditions: the numbers fit in 16 bits,
  -- there are fewer than 8192 schedules, the connection to the database and `send` work.
  pub handle_active_schedules-framed :
      (db : Database) (device : ℕ)
      → All RowFits (rcv_get_active_schedules db device)
      → length (rcv_get_active_schedules db device) < 8192
      → let sches = map to_schedule (rcv_get_active_schedules db device) in
        handle_active_schedules env db device
        ≡ (after_active env db sches, replied (framed (wire_schedules sches)))
  unfolding handle_active_schedules
  handle_active_schedules-framed db device fits few =
      let rows = rcv_get_active_schedules db device in
      ap (answer_active env db) (fetch db device fits)
      ∙ ap (λ r. after_reply db r (after_active env db (map to_schedule rows)))
          (rows-framed rows fits few)

  check_bytes-framed :
      (rows : List ActiveRow)
      → All RowFits rows
      → length rows < 8192
      → reply_check env (fetched rows) ≡ replied (framed (check_bytes rows))
  check_bytes-framed rows fits few =
      chosen (any (λ r. not r.sent) rows) (any-map not (λ r. r.sent) rows)
    where
      chosen :
          (b : Bool)
          → need_update (map (λ r. r.sent) rows) ≡ b
          → reply_check env (fetched rows)
            ≡ replied (framed (if b then wire_schedules (map to_schedule rows) else []))
      chosen true e = rw e (rows-framed rows fits few)
      chosen false e =
          rw (e, send_ok, send_rsp_msg-framed env.endian env.allocator [] (omega arith))

  -- A check is answered with all the active schedules if one of them is not marked as sent, and
  -- otherwise with an empty response; the database is then as set_schedules_sent leaves it.
  -- Conditions: the numbers fit in 16 bits, there are fewer than 8192 schedules, the connection to
  -- the database and `send` work.
  pub handle_check_schedules-framed :
      (db : Database) (device : ℕ)
      → All RowFits (rcv_get_active_schedules db device)
      → length (rcv_get_active_schedules db device) < 8192
      → let rows = rcv_get_active_schedules db device in
        handle_check_schedules env db device ≡ (
          (set_schedules_sent env.px env.sent_up env.now db (map to_schedule rows)).0,
          replied (framed (check_bytes rows)),
        )
  unfolding handle_check_schedules
  handle_check_schedules-framed db device fits few =
      let rows = rcv_get_active_schedules db device in
      ap (answer_check env db) (fetch db device fits)
      ∙ ap
          (λ r.
            after_reply db r
              (set_schedules_sent env.px env.sent_up env.now db (map to_schedule rows)).0)
          (check_bytes-framed rows fits few)
