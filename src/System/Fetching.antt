-- ===== src/System/Fetching.antt =====
-- What the device has after a request that goes well: what the database says of it.
use bbd.Prelude.{
  ◌<◌, ◌≡◌, ap, ◌∙◌, true, not, List, [], ◌∷◌, map, any, All, arith, length, length-map,
  if◌then◌else◌,
}
use bbd.Bytes.{Incoming}
use bbd.Database.{Database, ActiveRow, rcv_get_device_valves, rcv_get_active_schedules}
use bbd.Client.SocketData.{
  msg_type, get_device_valves_msg, get_active_sches_msg, check_new_schedules_msg, connected,
}
use bbd.Client.State.{Client}
use bbd.Client.ValveManager.{vm_init_set_valves}
use bbd.Client.ScheduleManager.{scheduled}
use bbd.Client.Controller.{
  Machine, ret, client_device_id, cc_set_valve_info, cc_set_active_schedules,
  cc_check_new_schedules,
}
use bbd.Client.Controller.Response.{
  request, request-HeaderFits, answered, cc_set_valve_info-wire, cc_set_active_schedules-wire,
  cc_check_new_schedules-wire,
}
use bbd.Client.Controller.Empty.{receive_empty}
use bbd.Server.Db.{PqxxLaws}
use bbd.Server.Db.Fetch.{RowFits, to_schedule, All-to_schedule}
use bbd.Server.Main.{
  Env, Reply, replied, on_header, handle_device_valves, handle_active_schedules,
  handle_check_schedules, after_active,
}
use bbd.Server.Main.Replies.{
  serve-header, handle_device_valves-framed, handle_active_schedules-framed,
  handle_check_schedules-framed,
}
use bbd.Wire.Format.{framed, wire_schedules, wire_valves}
use bbd.System.{served, received, ask_valves, ask_schedules, ask_check}

served-valves :
    (env : Env) (db : Database)
    → served env db get_device_valves_msg ≡ handle_device_valves env db client_device_id
unfolding on_header msg_type
served-valves env db =
    serve-header env db (request get_device_valves_msg) []
      (request-HeaderFits get_device_valves_msg)

served-active :
    (env : Env) (db : Database)
    → served env db get_active_sches_msg ≡ handle_active_schedules env db client_device_id
unfolding on_header msg_type
served-active env db =
    serve-header env db (request get_active_sches_msg) [] (request-HeaderFits get_active_sches_msg)

pub served-check :
    (env : Env) (db : Database)
    → served env db check_new_schedules_msg ≡ handle_check_schedules env db client_device_id
unfolding on_header msg_type
served-check env db =
    serve-header env db (request check_new_schedules_msg) []
      (request-HeaderFits check_new_schedules_msg)

length-pos : (rows : List ActiveRow) → any (λ r. not r.sent) rows ≡ true → 0 < length rows
length-pos [] h = cc
length-pos (r ∷ rows) h = omega arith

All-empty : (rows : List ActiveRow) → rows ≡ [] → All RowFits rows
All-empty [] e = tt
All-empty (r ∷ rows) e = cc

module _ (m : Machine) (env : Env) (laws : PqxxLaws env.px) (send_ok : env.send_ok ≡ true)
    (get_up : env.get_up ≡ true) where
  -- At a request of the device for its valves it gets those that the database has for it, all
  -- closed, and the call returns 0. Conditions: there is such a valve, the numbers fit in 16 bits,
  -- there are fewer than 32767, the connection to the database and `send` work.
  pub ask_valves_lem :
      (db : Database) (c : Client)
      → All (λ id. id < 65536) (rcv_get_device_valves db client_device_id)
      → 0 < length (rcv_get_device_valves db client_device_id)
      → length (rcv_get_device_valves db client_device_id) < 32767
      → let ids = rcv_get_device_valves db client_device_id in
        ask_valves m env db c ≡ (
          vm_init_set_valves (answered get_device_valves_msg (length (wire_valves ids)) c) ids,
          ret 0,
        )
  unfolding ask_valves
  ask_valves_lem db c fits pos few =
      ap (λ r. cc_set_valve_info m (connected (received r.1)) c)
        (served-valves env db
          ∙ handle_device_valves-framed env laws send_ok get_up db client_device_id fits few)
      ∙ cc_set_valve_info-wire m (rcv_get_device_valves db client_device_id) c fits pos
          (omega arith)

  -- At a request of the device for its active schedules it gets those that the database has for
  -- its valves, marked inactive, and the call returns 0. Conditions: there is such a schedule, the
  -- numbers fit in 16 bits, there are fewer than 6554 schedules, the connection to the database
  -- and `send` work.
  pub ask_schedules_lem :
      (db : Database) (c : Client)
      → All RowFits (rcv_get_active_schedules db client_device_id)
      → 0 < length (rcv_get_active_schedules db client_device_id)
      → length (rcv_get_active_schedules db client_device_id) < 6554
      → let sches = map to_schedule (rcv_get_active_schedules db client_device_id) in
        ask_schedules m env db c
        ≡ (scheduled (answered get_active_sches_msg (length (wire_schedules sches)) c) sches, ret 0)
  unfolding ask_schedules
  ask_schedules_lem db c fits pos few =
      let rows = rcv_get_active_schedules db client_device_id in
      ap (λ r. cc_set_active_schedules m (connected (received r.1)) c)
        (served-active env db
          ∙ handle_active_schedules-framed env laws send_ok get_up db client_device_id fits
              (omega arith))
      ∙ cc_set_active_schedules-wire m (map to_schedule rows) c (All-to_schedule rows fits)
          (omega (arith, length-map to_schedule rows)) (omega (arith, length-map to_schedule rows))

  -- A device for which nothing is active keeps what it has.
  pub ask_schedules_empty :
      (db : Database) (c : Client)
      → rcv_get_active_schedules db client_device_id ≡ []
      → ask_schedules m env db c ≡ (answered get_active_sches_msg 0 c, ret 0)
  unfolding ask_schedules
  ask_schedules_empty db c empty =
      let receive =
        λ (r : Database × Reply). cc_set_active_schedules m (connected (received r.1)) c in
      let reply = λ (rows : List ActiveRow). receive (
        after_active env db (map to_schedule rows),
        replied (framed (wire_schedules (map to_schedule rows))),
      ) in
      ap receive (
        served-active env db
        ∙ handle_active_schedules-framed env laws send_ok get_up db client_device_id
            (All-empty _ empty) (omega (arith, ap length empty)))
      ∙ ap reply empty
      ∙ (receive_empty m c).0

  -- At a check of the device where an active schedule is not marked as sent, the device gets all
  -- its active schedules, marked inactive, and the call returns 0. Conditions: the numbers fit in
  -- 16 bits, there are fewer than 6554 schedules, the connection to the database and `send` work.
  pub ask_check_lem :
      (db : Database) (c : Client)
      → All RowFits (rcv_get_active_schedules db client_device_id)
      → any (λ r. not r.sent) (rcv_get_active_schedules db client_device_id) ≡ true
      → length (rcv_get_active_schedules db client_device_id) < 6554
      → let sches = map to_schedule (rcv_get_active_schedules db client_device_id) in
        ask_check m env db c ≡ (
          scheduled (answered check_new_schedules_msg (length (wire_schedules sches)) c) sches,
          ret 0,
        )
  unfolding ask_check
  ask_check_lem db c fits new few =
      let rows = rcv_get_active_schedules db client_device_id in
      ap (λ r. cc_check_new_schedules m (connected (received r.1)) c)
        (served-check env db
          ∙ handle_check_schedules-framed env laws send_ok get_up db client_device_id fits
              (omega arith))
      ∙ ap
          (λ b.
            cc_check_new_schedules m
              (connected
                (Incoming.bytes (framed (if b then wire_schedules (map to_schedule rows) else []))))
              c)
          new
      ∙ cc_check_new_schedules-wire m (map to_schedule rows) c (All-to_schedule rows fits)
          (omega (arith, length-map to_schedule rows, length-pos rows new))
          (omega (arith, length-map to_schedule rows))
