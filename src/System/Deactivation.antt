-- ===== src/System/Deactivation.antt =====
-- What a deactivation on the web page does for a device that checks for new schedules.
use bbd.Prelude.{
  ℕ, ◌≤◌, ◌<◌, ◌≡◌, refl, ap, ◌∙◌, Bool, true, false, not, List, [], ◌∷◌, map, filter, any, All,
  arith, length, if◌then◌else◌,
}
use bbd.Bytes.{Incoming}
use bbd.Database.{Database, ActiveRow, rcv_get_active_schedules, web_deactivate_schedule_request}
use bbd.Database.Laws.{other_than, rcv_get_active_schedules-web_deactivate_schedule_request}
use bbd.Client.SocketData.{get_active_sches_msg, check_new_schedules_msg, connected}
use bbd.Client.State.{Client, log_request, log_response}
use bbd.Client.Controller.{Machine, ret, logged, client_device_id, cc_check_new_schedules}
use bbd.Client.Controller.Empty.{receive_empty}
use bbd.Server.Db.{PqxxLaws}
use bbd.Server.Db.Fetch.{RowFits, to_schedule}
use bbd.Server.Main.{Env}
use bbd.Server.Main.Replies.{handle_check_schedules-framed}
use bbd.Wire.Format.{framed, wire_schedules}
use bbd.System.{received, ask_check}
use bbd.System.Fetching.{served-check}

All-filter :
    (p : ActiveRow → Bool) (rows : List ActiveRow) → All RowFits rows → All RowFits (filter p rows)
All-filter p [] h = tt
All-filter p (r ∷ rows) h = ground (arith, All-filter p rows h.1)

any-filter :
    (p q : ActiveRow → Bool) (rows : List ActiveRow)
    → any q rows ≡ false
    → any q (filter p rows) ≡ false
any-filter p q [] h = refl
any-filter p q (r ∷ rows) h = ground (arith, any-filter p q rows)

length-filter-le :
    (p : ActiveRow → Bool) (rows : List ActiveRow) → length (filter p rows) ≤ length rows
length-filter-le p [] = omega arith
length-filter-le p (r ∷ rows) = ground (arith, length-filter-le p rows)

module _ (m : Machine) (env : Env) (laws : PqxxLaws env.px) (send_ok : env.send_ok ≡ true)
    (get_up : env.get_up ≡ true) where
  -- Where every active schedule of the device is marked as sent, a check changes nothing there.
  pub ask_check_quiet :
      (db : Database) (c : Client)
      → All RowFits (rcv_get_active_schedules db client_device_id)
      → any (λ r. not r.sent) (rcv_get_active_schedules db client_device_id) ≡ false
      → length (rcv_get_active_schedules db client_device_id) < 8192
      → ask_check m env db c ≡ (
        logged
            (log_response get_active_sches_msg 0)
            (logged (log_request check_new_schedules_msg) c),
        ret 0,
      )
  unfolding ask_check
  ask_check_quiet db c fits sent few =
      let rows = rcv_get_active_schedules db client_device_id in
      ap (λ r. cc_check_new_schedules m (connected (received r.1)) c)
        (served-check env db
          ∙ handle_check_schedules-framed env laws send_ok get_up db client_device_id fits few)
      ∙ ap
          (λ b.
            cc_check_new_schedules m
              (connected
                (Incoming.bytes (framed (if b then wire_schedules (map to_schedule rows) else []))))
              c)
          sent
      ∙ (receive_empty m c).1

  -- The bug: a device that has received its schedules is not told of a deactivation. Whichever
  -- schedule is deactivated in the database, where all that is active was sent, the next check
  -- returns 0 and leaves the device with the schedules and the valve states that it had.
  -- Conditions: the numbers fit in 16 bits, there are fewer than 8192 schedules, the connection to
  -- the database and `send` work.
  pub ask_check_deactivated :
      (db : Database) (c : Client) (id : ℕ)
      → All RowFits (rcv_get_active_schedules db client_device_id)
      → any (λ r. not r.sent) (rcv_get_active_schedules db client_device_id) ≡ false
      → length (rcv_get_active_schedules db client_device_id) < 8192
      → let after = ask_check m env (web_deactivate_schedule_request db id) c in
        (after.1 ≡ ret 0) × (after.0.ss ≡ c.ss) × (after.0.valves_map ≡ c.valves_map)
  ask_check_deactivated db c id fits sent few =
      let e = rcv_get_active_schedules-web_deactivate_schedule_request db client_device_id id in
      let rows = rcv_get_active_schedules db client_device_id in
      let quiet =
        ask_check_quiet (web_deactivate_schedule_request db id) c
          (rw e (All-filter (other_than id) rows fits))
          (rw e (any-filter (other_than id) (λ r. not r.sent) rows sent))
          (rw e (omega (arith, length-filter-le (other_than id) rows))) in
      (ap (λ r. r.1) quiet, ap (λ r. r.0.ss) quiet, ap (λ r. r.0.valves_map) quiet)
