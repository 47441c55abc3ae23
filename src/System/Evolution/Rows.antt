-- ===== src/System/Evolution/Rows.antt =====
-- Schedules that stand in a list, and what the receiver fetches from the table.
use mathlib.Core.Path.{subst}
use bbd.Prelude.{
  ℕ, ◌≡◌, ◌⊎◌, inl, inr, refl, sym, Bool-cases, List, [], ◌∷◌, ◌++◌, All, map, map-append, filter,
  ◌==◌, ==_iff,
}
use bbd.Schedule.{Schedule}
use bbd.Database.{ScheduleRow, ValveRow, row_of, rows_of, select_active}
use bbd.Server.Db.Fetch.{to_schedule}
use bbd.Server.Main.Keys.{key}

abbrev pub Known : List Schedule → Schedule → Type 0
Known [] s = ⊥
Known (k ∷ ks) s = (k ≡ s) ⊎ Known ks s

module _ (P Q : Schedule → Type 0) where
  pub All-imply : (xs : List Schedule) → ((x : Schedule) → P x → Q x) → All P xs → All Q xs
  All-imply [] f h = tt
  All-imply (x ∷ xs) f h = (f x h.0, All-imply xs f h.1)

pub All-append :
    (P : Schedule → Type 0) (xs ys : List Schedule) → All P xs → All P ys → All P (xs ++ ys)
All-append P [] ys h h' = h'
All-append P (x ∷ xs) ys h h' = (h.0, All-append P xs ys h.1 h')

pub Known-append : (ks more : List Schedule) (s : Schedule) → Known ks s → Known (ks ++ more) s
Known-append [] more s h = absurd h
Known-append (k ∷ ks) more s (inl e) = inl e
Known-append (k ∷ ks) more s (inr h) = inr (Known-append ks more s h)

pub Known-all : (ks : List Schedule) → All (Known ks) ks
Known-all [] = tt
Known-all (k ∷ ks) =
    (inl refl, All-imply (Known ks) (Known (k ∷ ks)) ks (λ s h. inr h) (Known-all ks))

pub All-Known :
    (P : Schedule → Type 0) (ks : List Schedule) (s : Schedule) → All P ks → Known ks s → P s
All-Known P [] s h k = absurd k
All-Known P (k ∷ ks) s h (inl e) = subst P e h.0
All-Known P (k ∷ ks) s h (inr more) = All-Known P ks s h.1 more

module _ (P : Schedule → Type 0) where
  All-joined :
      (r : ScheduleRow) (vs : List ValveRow)
      → P (key r)
      → All P (map to_schedule (map (row_of r) (filter (λ v. v.valve_id == r.valve_id) vs)))
  All-joined r [] h = tt
  All-joined r (v ∷ vs) h = elim (Bool-cases (v.valve_id == r.valve_id)) [
    | inl e ↦ rw e (
        (
          subst (λ id. P (record (key r) { valve_id = id }))
              (sym ((==_iff v.valve_id r.valve_id).0 e)) h,
          All-joined r vs h,
        ))
    | inr e ↦ rw e (All-joined r vs h)
  ]

  All-rows_of :
      (valves : List ValveRow) (device : ℕ) (r : ScheduleRow)
      → P (key r)
      → All P (map to_schedule (rows_of valves device r))
  All-rows_of valves device r h = elim (Bool-cases r.active) [
    | inl e ↦ rw e (All-joined r (filter (λ v. v.device_id == device) valves) h)
    | inr e ↦ rw e tt
  ]

  -- What holds of the rows of the table holds of what the receiver fetches.
  pub All-select_active :
      (valves : List ValveRow) (device : ℕ) (rows : List ScheduleRow)
      → All P (map key rows)
      → All P (map to_schedule (select_active valves device rows))
  unfolding select_active
  All-select_active valves device [] h = tt
  All-select_active valves device (r ∷ rows) h =
      rw (map-append to_schedule (rows_of valves device r) (select_active valves device rows)) (
        All-append P (map to_schedule (rows_of valves device r))
          (map to_schedule (select_active valves device rows)) (All-rows_of valves device r h.0)
          (All-select_active valves device rows h.1))
