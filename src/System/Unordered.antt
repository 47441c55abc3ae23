-- ===== src/System/Unordered.antt =====
-- From the tables without an order of their rows to the valves of the device.
use mathlib.Core.Path.{subst}
use mathlib.Core.Quot
use mathlib.Core.Quot.{Quot}
use bbd.Prelude.{
  ℕ, ◌<◌, ◌≡◌, sym, ap, ◌∙◌, Bool, true, some, any, All, length, if◌then◌else◌, ◌==◌, any-Permᴰ,
  All-Permᴰ, length-Permᴰ,
}
use bbd.Database.{Database, rcv_get_device_valves, rcv_get_active_schedules}
use bbd.Database.Unordered.{SameTables, rcv_get_active_schedules-Permᴰ, rcv_get_device_valves-Permᴰ}
use bbd.Client.State.{valve_open, valve_closed}
use bbd.Client.ValveManager.{get_entry}
use bbd.Client.ScheduleManager.{pass}
use bbd.Client.Controller.{Machine, ret, client_device_id}
use bbd.Client.DeviceClient.{start}
use bbd.Server.Db.{PqxxLaws}
use bbd.Server.Db.Fetch.{RowFits}
use bbd.Server.Main.{Env}
use bbd.System.Startup.{healthy, covers, start-first_pass}

-- The tables as SQL has them.
abbrev pub Tables : Type 0
Tables = Quot SameTables

-- Whether an active schedule for the valve covers the minute.
unfoldable pub is_watered : (device minute valve : ℕ) → Tables → Bool
is_watered device minute v =
    Quot.lift (hlevel) (λ db. any (covers minute v) (rcv_get_active_schedules db device))
      (λ db db' s. any-Permᴰ (covers minute v) (rcv_get_active_schedules-Permᴰ s device))

module _ (m : Machine) (env : Env) (laws : PqxxLaws env.px) (send_ok : env.send_ok ≡ true)
    (get_up : env.get_up ≡ true) (db : Database)
    (rows_fit : All RowFits (rcv_get_active_schedules db client_device_id))
    (few_rows : length (rcv_get_active_schedules db client_device_id) < 6554) where
  -- The device and the server together implement what the tables say without an order of their
  -- rows: whichever order the rows of the three tables have, the start-up returns 0, and after the
  -- first pass a valve of the device is open exactly if some active schedule for it covers the
  -- minute, and closed otherwise. Conditions, on one order of the rows: those of the theorem for
  -- that order, that the device has valves, the network, the mutex, the thread and the connection
  -- to the database work, the numbers fit in 16 bits, and there are fewer than 32767 valves and
  -- 6554 schedules.
  pub start-is_watered :
      (db' : Database) (minute v : ℕ)
      → SameTables db db'
      → All (λ id. id < 65536) (rcv_get_device_valves db client_device_id)
      → 0 < length (rcv_get_device_valves db client_device_id)
      → length (rcv_get_device_valves db client_device_id) < 32767
      → any (λ id. id == v) (rcv_get_device_valves db client_device_id) ≡ true
      → ((start m (healthy env db')).1 ≡ ret 0)
        × (get_entry v (pass minute (start m (healthy env db')).0).valves_map
            ≡ some (
                if is_watered client_device_id minute v (Quot.mk db)
                then valve_open
                else valve_closed))
  unfolding is_watered
  start-is_watered db' minute v s fits pos few mine =
      let rows = rcv_get_active_schedules-Permᴰ s client_device_id in
      let valves = rcv_get_device_valves-Permᴰ s client_device_id in
      let started =
        start-first_pass m env laws send_ok get_up db' (All-Permᴰ RowFits rows rows_fit)
          (subst (λ n. n < 6554) (length-Permᴰ rows) few_rows) minute v
          (All-Permᴰ (λ id. id < 65536) valves fits) (subst (λ n. 0 < n) (length-Permᴰ valves) pos)
          (subst (λ n. n < 32767) (length-Permᴰ valves) few)
          (sym (any-Permᴰ (λ id. id == v) valves) ∙ mine) in
      (
        started.0,
        started.1
            ∙ ap (λ b. some (if b then valve_open else valve_closed))
                (sym (any-Permᴰ (covers minute v) rows)),
      )
