-- ===== src/System/Startup.antt =====
-- From the database to the valves: the start-up of the device and the first pass of its thread.
use bbd.Prelude.{
  ℕ, ◌<◌, ◌≡◌, ◌⊎◌, inl, inr, refl, sym, ap, ◌∙◌, Bool, true, false, ◌&&◌, Option, some, List, [],
  ◌∷◌, map, any, All, arith, length, if◌then◌else◌, ◌==◌, leb,
}
use bbd.Schedule.{Schedule}
use bbd.Database.{Database, ActiveRow, rcv_get_device_valves, rcv_get_active_schedules}
use bbd.Client.SocketData.{get_device_valves_msg, get_active_sches_msg, connected}
use bbd.Client.State.{Client, valve_open, valve_closed, ScheduleStatus}
use bbd.Client.ValveManager.{get_entry, vm_init_set_valves}
use bbd.Client.ValveManager.Laws.{get_entry-closed}
use bbd.Client.ScheduleManager.{closes, pass}
use bbd.Client.ScheduleManager.Pass.{settle, pass-settle}
use bbd.Client.ScheduleManager.Consistent.{
  wanted, some_closes, some_in_window, pass-Consistent, wanted-settle,
}
use bbd.Client.Controller.{Machine, Return, ret, client_device_id}
use bbd.Client.Controller.Response.{answered}
use bbd.Client.DeviceClient.{Startup, initial, start}
use bbd.Client.DeviceClient.Start.{before_valves, before_schedules, running, start-running}
use bbd.Server.Db.{PqxxLaws}
use bbd.Server.Db.Fetch.{RowFits, to_schedule}
use bbd.Server.Main.{Env}
use bbd.Wire.Format.{wire_valves}
use bbd.System.{served, received, ask_valves, ask_schedules}
use bbd.System.Fetching.{ask_valves_lem, ask_schedules_empty, ask_schedules_lem}

-- The device starts while the server answers from `db`.
abbrev pub healthy : Env → Database → Startup
healthy env db = record {
  mutex_ok = true;
  valves_net = connected (received (served env db get_device_valves_msg).1);
  schedules_net = connected (received (served env db get_active_sches_msg).1);
  thread_ok = true;
}

abbrev inactive : Schedule → ScheduleStatus
inactive s = record { sche = s; is_active = false }

-- No schedule that is marked inactive closes a valve.
some_closes-inactive :
    (m v : ℕ) (sches : List Schedule) → some_closes m v (map inactive sches) ≡ false
unfolding closes
some_closes-inactive m v [] = refl
some_closes-inactive m v (s ∷ sches) = ground (arith, some_closes-inactive m v sches)

wanted-inactive : (v : ℕ) (sches : List Schedule) → wanted v (map inactive sches) ≡ valve_closed
wanted-inactive v [] = refl
wanted-inactive v (s ∷ sches) = ground (arith, wanted-inactive v sches)

-- Whether a row's window covers the minute, for the valve `v`.
abbrev pub covers : ℕ → ℕ → ActiveRow → Bool
covers m v r = r.valve_id == v && (leb r.start_time m && leb m r.stop_time)

some_in_window-rows :
    (m v : ℕ) (rows : List ActiveRow)
    → some_in_window m v (map inactive (map to_schedule rows)) ≡ any (covers m v) rows
some_in_window-rows m v [] = refl
some_in_window-rows m v (r ∷ rows) = cc (some_in_window-rows m v rows)

-- The first pass after the schedules came opens exactly the valves that one of them wants open.
first_pass :
    (m v : ℕ) (c : Client) (rows : List ActiveRow)
    → c.ss ≡ map inactive (map to_schedule rows)
    → get_entry v c.valves_map ≡ some valve_closed
    → get_entry v (pass m c).valves_map
      ≡ some (if any (covers m v) rows then valve_open else valve_closed)
first_pass m v c rows e closed =
    pass-Consistent m v c (inl (ap (some_closes m v) e ∙ some_closes-inactive m v sches))
      (closed ∙ ap some (sym (ap (wanted v) e ∙ wanted-inactive v sches)))
    ∙ ap (λ ss. some (wanted v ss)) (pass-settle m c ∙ ap (map (settle m)) e)
    ∙ ap (λ b. some (if b then valve_open else valve_closed))
        (wanted-settle m v (map inactive sches) ∙ some_in_window-rows m v rows)
  where
    sches : List Schedule
    sches = map to_schedule rows

pub length-cases : (rows : List ActiveRow) → (rows ≡ []) ⊎ (0 < length rows)
length-cases [] = inl refl
length-cases (r ∷ rows) = inr (omega arith)

-- The call succeeded; the client has these schedules, and the valves of before.
pub record HasSchedules (c : Client) (sches : List Schedule) (r : Client × Return) : Type 0 where
  pub succeeded : r.1 ≡ ret 0
  scheduled : r.0.ss ≡ map inactive sches
  same_valves : r.0.valves_map ≡ c.valves_map

module _ (m : Machine) (env : Env) (laws : PqxxLaws env.px) (send_ok : env.send_ok ≡ true)
    (get_up : env.get_up ≡ true) (db : Database)
    (rows_fit : All RowFits (rcv_get_active_schedules db client_device_id))
    (few_rows : length (rcv_get_active_schedules db client_device_id) < 6554) where
  abbrev rows : List ActiveRow
  rows = rcv_get_active_schedules db client_device_id

  pub ask_schedules-HasSchedules :
      (c : Client) → c.ss ≡ [] → HasSchedules c (map to_schedule rows) (ask_schedules m env db c)
  ask_schedules-HasSchedules c none_yet = elim (length-cases rows) [
    | inl empty ↦
        let e = ask_schedules_empty m env laws send_ok get_up db c empty in
        record { succeeded = rw e; scheduled = rw (e, none_yet, empty); same_valves = rw e }
    | inr pos ↦
        let e = ask_schedules_lem m env laws send_ok get_up db c rows_fit pos few_rows in
        record { succeeded = rw e; scheduled = rw e; same_valves = rw e }
  ]

  -- The device and the server together: the start-up returns 0, and after the first pass of the
  -- scheduler thread a valve of the device is open exactly if an active schedule of the database
  -- for it covers the minute, both ends included, and closed otherwise. Conditions: the device has
  -- valves, the network, the mutex, the thread and the connection to the database work, the
  -- numbers fit in 16 bits, and there are fewer than 32767 valves and 6554 schedules.
  pub start-first_pass :
      (minute v : ℕ)
      → All (λ id. id < 65536) (rcv_get_device_valves db client_device_id)
      → 0 < length (rcv_get_device_valves db client_device_id)
      → length (rcv_get_device_valves db client_device_id) < 32767
      → any (λ id. id == v) (rcv_get_device_valves db client_device_id) ≡ true
      → ((start m (healthy env db)).1 ≡ ret 0)
        × (get_entry v (pass minute (start m (healthy env db)).0).valves_map
            ≡ some (
                if any (covers minute v) (rcv_get_active_schedules db client_device_id)
                then valve_open
                else valve_closed))
  unfolding vm_init_set_valves initial ask_valves ask_schedules
  start-first_pass minute v fits pos few mine =
      let ids = rcv_get_device_valves db client_device_id in
      let c =
        vm_init_set_valves (answered get_device_valves_msg (length (wire_valves ids)) before_valves)
          ids in
      let answer = ask_schedules m env db (before_schedules c) in
      let has = ask_schedules-HasSchedules (before_schedules c) refl in
      let e =
        start-running m (healthy env db) c answer.0 refl
          (ask_valves_lem m env laws send_ok get_up db before_valves fits pos few)
          (ap (λ r. (answer.0, r)) has.succeeded) refl in
      (
        ap (λ r. r.1) e,
        ap (λ r. get_entry v (pass minute r.0).valves_map) e
            ∙ first_pass minute v (running answer.0) rows has.scheduled (
                ap (get_entry v) has.same_valves
                ∙ get_entry-closed v ids
                ∙ ap (λ b. if b then some valve_closed else Option.none) mine),
      )
