-- ===== src/Database/Listings/Laws.antt =====
-- bbd.sql: what the queries of the pages return.
use mathlib.Core.List.Permᴰ
use Prim.Native.String.{String}
use bbd.Prelude.{
  ℕ, suc, ◌+◌, ◌<◌, ◌≡◌, refl, ap, ap₂, ◌∙◌, Bool, true, false, some, List, [], ◌∷◌, ◌++◌, map,
  filter, any, length, All, Distinct, Permᴰ, arith, ◌==◌, if◌then◌else◌,
}
use bbd.Database.{
  DeviceRow, ValveRow, ScheduleRow, Database, new_row, web_create_new_schedule, inserted,
}
use bbd.Database.Order.{asc, desc, order_by, order_by-Permᴰ}
use bbd.Database.Listings.{
  left_outer_join, count, DeviceLine, line_of, web_get_devices, web_get_valves_of,
  web_get_schedules,
}

abbrev on_device : ℕ → ValveRow → Bool
on_device device v = v.device_id == device

count_somes : (d : DeviceRow) (vs : List ValveRow) → count (map (λ w. (d, some w)) vs) ≡ length vs
count_somes d [] = refl
count_somes d (v ∷ vs) = ap suc (count_somes d vs)

-- The group of a device counts its valves; the row without a valve does not count.
pub count-left_outer_join :
    (valves : List ValveRow) (d : DeviceRow)
    → count (left_outer_join valves d) ≡ length (filter (on_device d.device_id) valves)
count-left_outer_join valves d = outer_lem (filter (on_device d.device_id) valves)
  where
    outer_lem : (vs : List ValveRow) → count (bbd.Database.Listings.outer d vs) ≡ length vs
    outer_lem [] = refl
    outer_lem (v ∷ vs) = count_somes d (v ∷ vs)

counts_agree :
    (db : Database) (ds : List DeviceRow)
    → All (λ l. l.n_valves ≡ length (web_get_valves_of db l.id)) (map (line_of db.valves) ds)
unfolding web_get_valves_of
counts_agree db [] = tt
counts_agree db (d ∷ ds) = (count-left_outer_join db.valves d, counts_agree db ds)

pub web_get_devices-web_get_valves_of :
    (db : Database)
    → All (λ l. l.n_valves ≡ length (web_get_valves_of db l.id)) (web_get_devices db)
unfolding web_get_devices
web_get_devices-web_get_valves_of db = counts_agree db (order_by asc (λ d. d.device_id) db.devices)

abbrev pub total : List DeviceLine → ℕ
total [] = 0
total (l ∷ lines) = l.n_valves + total lines

total-Permᴰ : {xs ys : List DeviceLine} → Permᴰ xs ys → total xs ≡ total ys
total-Permᴰ Permᴰ.nil = refl
total-Permᴰ (Permᴰ.cons e d) = ap₂ (λ l n. l.n_valves + n) e (total-Permᴰ d)
total-Permᴰ (Permᴰ.swap {l} e e') = rw (e, e') (omega arith)
total-Permᴰ (Permᴰ.trans d d') = total-Permᴰ d ∙ total-Permᴰ d'

-- A valve counts once, on its own device.
abbrev hits : ℕ → List DeviceRow → ℕ
hits device [] = 0
hits device (d ∷ ds) = (if device == d.device_id then 1 else 0) + hits device ds

hits-none :
    (device : ℕ) (ds : List DeviceRow)
    → any (λ y. y == device) (map (λ d. d.device_id) ds) ≡ false
    → hits device ds ≡ 0
hits-none device [] h = refl
hits-none device (d ∷ ds) h = ground (arith, hits-none device ds)

hits_one :
    (device : ℕ) (ds : List DeviceRow)
    → Distinct (map (λ d. d.device_id) ds)
    → any (λ d. d.device_id == device) ds ≡ true
    → hits device ds ≡ 1
hits_one device [] h found = cc
hits_one device (d ∷ ds) h found = ground (arith, h.0, hits-none device ds, hits_one device ds h.1)

total-cons :
    (v : ValveRow) (vs : List ValveRow) (ds : List DeviceRow)
    → total (map (line_of (v ∷ vs)) ds) ≡ hits v.device_id ds + total (map (line_of vs) ds)
total-cons v vs [] = refl
total-cons v vs (d ∷ ds) =
    ground (arith, total-cons v vs ds, count-left_outer_join (v ∷ vs) d, count-left_outer_join vs d)

-- Every valve stands on a device of the table.
abbrev pub Placed : List DeviceRow → ValveRow → Type 0
Placed ds v = any (λ d. d.device_id == v.device_id) ds ≡ true

total_none : (ds : List DeviceRow) → total (map (line_of []) ds) ≡ 0
total_none [] = refl
total_none (d ∷ ds) = ground (arith, total_none ds, count-left_outer_join [] d)

total-length :
    (ds : List DeviceRow) (vs : List ValveRow)
    → Distinct (map (λ d. d.device_id) ds)
    → All (Placed ds) vs
    → total (map (line_of vs) ds) ≡ length vs
total-length ds [] h h' = total_none ds
total-length ds (v ∷ vs) h h' =
    omega (arith, total-cons v vs ds, hits_one v.device_id ds h h'.0, total-length ds vs h h'.1)

-- The numbers of valves that the list of the devices has add up to the number of valves in the
-- table, if the devices have different numbers and every valve stands on one of them, as the keys
-- of the tables have it.
pub total-web_get_devices :
    (db : Database)
    → Distinct (map (λ d. d.device_id) db.devices)
    → All (Placed db.devices) db.valves
    → total (web_get_devices db) ≡ length db.valves
unfolding web_get_devices
total-web_get_devices db h h' =
    total-Permᴰ (Permᴰ.map (line_of db.valves) (order_by-Permᴰ asc (λ d. d.device_id) db.devices))
    ∙ total-length db.devices db.valves h h'

abbrev pub ids : Database → List ℕ
ids db = map (λ r. r.schedule_id) db.schedules

-- The numbers of the schedules are different, and the SERIAL has not come to any of them yet.
abbrev pub Numbered : Database → Type 0
Numbered db = All (λ id. id < db.next_id) (ids db) × Distinct (ids db)

order_by-last :
    (new : ScheduleRow) (rows : List ScheduleRow)
    → All (λ id. id < new.schedule_id) (map (λ r. r.schedule_id) rows)
    → order_by desc (λ r. r.schedule_id) (rows ++ new ∷ [])
      ≡ new ∷ order_by desc (λ r. r.schedule_id) rows
unfolding order_by
order_by-last new [] h = refl
order_by-last new (r ∷ rows) h = rw (order_by-last new rows h.1) (ground (arith, h.0))

pub web_get_schedules-inserted :
    (now : ℕ) (db : Database) (valve : ℕ) (description : String) (start stop : ℕ)
    → Numbered db
    → web_get_schedules (inserted now db valve description start stop)
      ≡ new_row now db valve description start stop ∷ web_get_schedules db
unfolding web_get_schedules
web_get_schedules-inserted now db valve description start stop h = order_by-last _ db.schedules h.0
