-- ===== src/Database/Unordered.antt =====
-- bbd.sql: the tables without an order of their rows.
use mathlib.Core.List.Permᴰ
use bbd.Prelude.{
  ℕ, ◌≡◌, refl, sym, ap, ap₂, ◌∙◌, List, [], ◌∷◌, map, Distinct, Permᴰ, filter-Permᴰ, length-Permᴰ,
  Permᴰ-append_swap, ◌==◌, Bool-cases, inl, inr,
}
use bbd.Database.{
  Database, DeviceRow, ValveRow, ScheduleRow, row_of, rows_of, select_active, rcv_get_device_valves,
  rcv_get_active_schedules,
}
use bbd.Database.Order.{asc, desc, order_by, order_by-eq_of_Permᴰ}
use bbd.Database.Listings.{line_of, web_get_devices, web_get_schedules}
use bbd.Database.Listings.Laws.{ids, count-left_outer_join}

-- The same rows, in any order.
pub record SameTables (db db' : Database) : Type 0 where
  pub devices : Permᴰ db.devices db'.devices
  pub valves : Permᴰ db.valves db'.valves
  pub schedules : Permᴰ db.schedules db'.schedules

module _ (device : ℕ) where
  rows_of-Permᴰ :
      {vs vs' : List ValveRow} (r : ScheduleRow)
      → Permᴰ vs vs'
      → Permᴰ (rows_of vs device r) (rows_of vs' device r)
  rows_of-Permᴰ r d = elim (Bool-cases r.active) [
    | inl e ↦ rw e (
        Permᴰ.map (row_of r) (
          filter-Permᴰ (λ v. v.valve_id == r.valve_id)
            (filter-Permᴰ (λ v. v.device_id == device) d)))
    | inr e ↦ rw e Permᴰ.nil
  ]

  select_active-valves :
      {vs vs' : List ValveRow} (rows : List ScheduleRow)
      → Permᴰ vs vs'
      → Permᴰ (select_active vs device rows) (select_active vs' device rows)
  unfolding select_active
  select_active-valves [] d = Permᴰ.nil
  select_active-valves {vs} {vs'} (r ∷ rows) d =
      Permᴰ.trans (Permᴰ.append_right _ (rows_of-Permᴰ r d))
        (Permᴰ.append_left (rows_of vs' device r) (select_active-valves rows d))

  select_active-schedules :
      (vs : List ValveRow) {rows rows' : List ScheduleRow}
      → Permᴰ rows rows'
      → Permᴰ (select_active vs device rows) (select_active vs device rows')
  unfolding select_active
  select_active-schedules vs Permᴰ.nil = Permᴰ.nil
  select_active-schedules vs (Permᴰ.cons {a} {b} {l₁} {l₂} e d) =
      rw e (Permᴰ.append_left (rows_of vs device b) (select_active-schedules vs d))
  select_active-schedules vs (Permᴰ.swap {a} {b} {a'} {b'} {l} e e') =
      rw (e, e')
        (Permᴰ-append_swap (rows_of vs device b') (rows_of vs device a')
          (select_active vs device l))
  select_active-schedules vs (Permᴰ.trans d d') =
      Permᴰ.trans (select_active-schedules vs d) (select_active-schedules vs d')

module _ {db db' : Database} (s : SameTables db db') where
  -- The receiver fetches the same rows, in some order.
  pub rcv_get_active_schedules-Permᴰ :
      (device : ℕ)
      → Permᴰ (rcv_get_active_schedules db device) (rcv_get_active_schedules db' device)
  unfolding rcv_get_active_schedules
  rcv_get_active_schedules-Permᴰ device =
      Permᴰ.trans (select_active-schedules device db.valves s.schedules)
        (select_active-valves device db'.schedules s.valves)

  pub rcv_get_device_valves-Permᴰ :
      (device : ℕ) → Permᴰ (rcv_get_device_valves db device) (rcv_get_device_valves db' device)
  unfolding rcv_get_device_valves
  rcv_get_device_valves-Permᴰ device =
      Permᴰ.map (λ v. v.valve_id) (filter-Permᴰ (λ v. v.device_id == device) s.valves)

  line_of-valves : (d : DeviceRow) → line_of db.valves d ≡ line_of db'.valves d
  line_of-valves d =
      ap (λ n. record { id = d.device_id; description = d.description; n_valves = n })
        (count-left_outer_join db.valves d
          ∙ length-Permᴰ (filter-Permᴰ (λ v. v.device_id == d.device_id) s.valves)
          ∙ sym (count-left_outer_join db'.valves d))

  map-line_of : (ds : List DeviceRow) → map (line_of db.valves) ds ≡ map (line_of db'.valves) ds
  map-line_of [] = refl
  map-line_of (d ∷ ds) = ap₂ ◌∷◌ (line_of-valves d) (map-line_of ds)

  -- The lists of the devices and of the schedules do not depend on the order of the rows, if the
  -- numbers of the devices and those of the schedules are different.
  pub pages-SameTables :
      Distinct (map (λ d. d.device_id) db.devices)
      → Distinct (ids db)
      → (web_get_devices db ≡ web_get_devices db') × (web_get_schedules db ≡ web_get_schedules db')
  unfolding web_get_devices web_get_schedules
  pages-SameTables h h' = (
    ap (map (line_of db.valves)) (order_by-eq_of_Permᴰ asc (λ d. d.device_id) s.devices h)
        ∙ map-line_of (order_by asc (λ d. d.device_id) db'.devices),
    order_by-eq_of_Permᴰ desc (λ r. r.schedule_id) s.schedules h',
  )
