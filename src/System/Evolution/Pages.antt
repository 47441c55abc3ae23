-- ===== src/System/Evolution/Pages.antt =====
-- What the two pages do to what the table says of the schedules.
use Prim.Native.String.{String}
use bbd.Prelude.{
  ℕ, ◌≤◌, ◌≡◌, inl, inr, refl, ap, ◌∙◌, sym, false, Bool-cases, Option, none, some, List, [], ◌∷◌,
  ◌++◌, All, map-append, append-nil, ltb, ◌^◌, ◌==◌,
}
use bbd.Schedule.{Schedule}
use bbd.Text.{scan_digits, codes}
use bbd.Database.{Database, web_deactivate_schedule_request}
use bbd.Database.Laws.{web_create_new_schedule-inserted}
use bbd.Server.Main.Keys.{key, keys, lasting, with_keys, map-update_where}
use bbd.Web.{Answer, Outcome, done, other_statement, deactivate_number, deactivate_schedule}
use bbd.Web.Create.{Explained, kept, create_new_schedule-Explained}
use bbd.Web.Create as Create

-- Both times lie within the day.
abbrev pub InDay : Schedule → Type 0
InDay s = (s.start ≤ 1440) × (s.stop ≤ 1440)

-- The table has its keys still, and maybe more with times within the day.
abbrev pub Grows : List Schedule → List Schedule → Type 0
Grows ks ks' = (more : List Schedule) × (ks' ≡ ks ++ more) × All InDay more

pub Grows-same : (ks ks' : List Schedule) → ks' ≡ ks → Grows ks ks'
Grows-same ks ks' e = ([], e ∙ sym (append-nil ks), tt)

-- The page that creates a schedule.
pub Explained-Grows :
    (now : ℕ) (db db' : Database) (answer : Answer)
    → Explained now db (done answer db')
    → Grows (keys db) (keys db')
Explained-Grows now db db' answer (kept a next n le) =
    Grows-same (keys db) (keys (record db { next_id = next })) refl
Explained-Grows now db db' answer (Create.created valve start stop text d h h' e) = (
  record { schedule_id = db.next_id; valve_id = valve; start = start; stop = stop } ∷ [],
  ap keys (web_create_new_schedule-inserted now db valve text start stop e)
      ∙ map-append key db.schedules _,
  ((h, h'), tt),
)

-- The page that deactivates one changes nothing that lasts.
abbrev pub KeepsLasting : Database → Outcome → Type 0
KeepsLasting db (done answer db') = lasting db' ≡ lasting db
KeepsLasting db other_statement = Unit

deactivate_number-KeepsLasting :
    (db : Database) (read : ℕ × List ℕ) → KeepsLasting db (deactivate_number db read)
unfolding web_deactivate_schedule_request
deactivate_number-KeepsLasting db (id, []) = elim (Bool-cases (ltb id (2 ^ 31))) [
  | inl e ↦ rw e (
      ap (with_keys db) (
        map-update_where (λ r. r.schedule_id == id) (λ r. record r { active = false }) db.schedules
          (λ r. refl)))
  | inr e ↦ rw e refl
]
deactivate_number-KeepsLasting db (id, _ ∷ _) = tt

pub deactivate_schedule-KeepsLasting :
    (db : Database) (s : Option String) → KeepsLasting db (deactivate_schedule db s)
unfolding deactivate_schedule
deactivate_schedule-KeepsLasting db none = refl
deactivate_schedule-KeepsLasting db (some String.[]) = refl
deactivate_schedule-KeepsLasting db (some (String.◌∷◌ c text)) =
    deactivate_number-KeepsLasting db (scan_digits 0 (codes (String.◌∷◌ c text)))
