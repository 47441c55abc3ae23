-- ===== src/System/Evolution/Known.antt =====
-- Every schedule of the device stands in the table of the schedules, with times within the day.
use mathlib.Core.Path.{subst}
use bbd.Prelude.{
  ℕ, suc, ◌≡◌, arith, inl, inr, refl, ap, ◌∙◌, sym, false, not, Bool-cases, List, [], ◌∷◌, ◌++◌,
  All, any, map,
}
use bbd.Schedule.{Schedule}
use bbd.Database.{Database, rcv_get_active_schedules}
use bbd.Client.State.{Client, ScheduleStatus}
use bbd.Client.ScheduleManager.{pass}
use bbd.Client.ScheduleManager.Pass.{settle, pass-settle}
use bbd.Client.Controller.{
  Machine, Return, ret, client_device_id, cc_set_valve_info, cc_set_active_schedules,
  cc_check_new_schedules,
}
use bbd.Client.Controller.Failure.{SetsOnSuccess, cc_calls-SetsOnSuccess}
use bbd.Client.Controller.Valves.{KeepsSchedules, cc_set_valve_info-ss}
use bbd.Server.Db.Fetch.{to_schedule}
use bbd.Server.Main.{Env, serve}
use bbd.Server.Main.Keys.{keys, keys-serve}
use bbd.System.{ask_schedules, ask_check}
use bbd.System.Fetching.{ask_schedules_lem, ask_schedules_empty, ask_check_lem}
use bbd.System.Deactivation.{ask_check_quiet}
use bbd.System.Startup.{length-cases}
use bbd.System.Evolution.Rows.{
  Known, All-imply, Known-append, Known-all, All-append, All-Known, All-select_active,
}
use bbd.System.Evolution.Pages.{
  InDay, Grows, Grows-same, Explained-Grows, KeepsLasting, deactivate_schedule-KeepsLasting,
}
use bbd.System.Evolution.{
  World, Healthy, Step, created, deactivated, connected, fetched, checked, valves_asked,
  not_fetched, not_checked, passed, Reach, here, later,
}
use bbd.Web.Create.{Explained, create_new_schedule-Explained}

abbrev pub schedules_of : Client → List Schedule
schedules_of c = map (λ s. s.sche) c.ss

-- The table's times lie within the day, and it has every schedule of the device.
record Sourced (w : World) : Type 0 where
  in_day : All InDay (keys w.db)
  known : All (Known (keys w.db)) (schedules_of w.client)

Sourced-Grows :
    (w u : World)
    → Sourced w
    → Grows (keys w.db) (keys u.db)
    → All (Known (keys w.db)) (schedules_of u.client)
    → Sourced u
Sourced-Grows w u s (more, e, day) known = record {
  in_day = subst (All InDay) (sym e) (All-append InDay (keys w.db) more s.in_day day);
  known =
      subst (λ ks. All (Known ks) (schedules_of u.client)) (sym e)
        (All-imply (Known (keys w.db)) (Known (keys w.db ++ more)) (schedules_of u.client)
          (λ k h. Known-append (keys w.db) more k h) known);
}

-- The marks put aside.
scheduled-schedules_of :
    (sches : List Schedule)
    → map (λ (s : ScheduleStatus). s.sche) (map (λ s. record { sche = s; is_active = false }) sches)
      ≡ sches
scheduled-schedules_of [] = refl
scheduled-schedules_of (s ∷ sches) = ap (◌∷◌ s) (scheduled-schedules_of sches)

settle-schedules_of :
    (m : ℕ) (ss : List ScheduleStatus)
    → map (λ s. s.sche) (map (settle m) ss) ≡ map (λ s. s.sche) ss
settle-schedules_of m [] = refl
settle-schedules_of m (s ∷ ss) = ap (◌∷◌ s.sche) (settle-schedules_of m ss)

-- A call that returns another number than 0 leaves the schedules.
not_set :
    (c : Client) (r : Client × Return) (n : ℕ)
    → SetsOnSuccess c r
    → r.1 ≡ ret (suc n)
    → schedules_of r.0 ≡ schedules_of c
not_set c r n (inl e) h = cc
not_set c r n (inr (inl e)) h = cc
not_set c r n (inr (inr k)) h = ap (map (λ s. s.sche)) k.1

valves_set :
    (c : Client) (r : Client × Return) (n : ℕ)
    → KeepsSchedules c r
    → r.1 ≡ ret n
    → schedules_of r.0 ≡ schedules_of c
valves_set c r n (inl e) h = cc
valves_set c r n (inr k) h = ap (map (λ s. s.sche)) k

module _ (m : Machine) (w : World) (s : Sourced w) where
  abbrev fetched_schedules : List Schedule
  fetched_schedules = map to_schedule (rcv_get_active_schedules w.db client_device_id)

  Known-fetched : All (Known (keys w.db)) fetched_schedules
  unfolding rcv_get_active_schedules
  Known-fetched =
      All-select_active (Known (keys w.db)) w.db.valves client_device_id w.db.schedules
        (Known-all (keys w.db))

  Known-ask_schedules :
      (env : Env)
      → Healthy env w.db
      → All (Known (keys w.db)) (schedules_of (ask_schedules m env w.db w.client).0)
  Known-ask_schedules env h = elim (length-cases (rcv_get_active_schedules w.db client_device_id)) [
    | inl empty ↦
        rw (ask_schedules_empty m env h.laws h.send_ok h.get_up w.db w.client empty) s.known
    | inr pos ↦
        rw
          (
            ask_schedules_lem m env h.laws h.send_ok h.get_up w.db w.client h.rows_fit pos
                h.few_rows,
            scheduled-schedules_of fetched_schedules,
          )
          Known-fetched
  ]

  Known-ask_check :
      (env : Env)
      → Healthy env w.db
      → All (Known (keys w.db)) (schedules_of (ask_check m env w.db w.client).0)
  Known-ask_check env h =
      elim (Bool-cases (any (λ r. not r.sent) (rcv_get_active_schedules w.db client_device_id))) [
        | inl new ↦
            rw
              (
                ask_check_lem m env h.laws h.send_ok h.get_up w.db w.client h.rows_fit new
                    h.few_rows,
                scheduled-schedules_of fetched_schedules,
              )
              Known-fetched
        | inr sent ↦
            rw
              (ask_check_quiet m env h.laws h.send_ok h.get_up w.db w.client h.rows_fit sent
                (omega (arith, h.few_rows)))
              s.known
      ]

  changed : (db : Database) → Grows (keys w.db) (keys db) → Sourced (record w { db = db })
  changed db g = Sourced-Grows w (record w { db = db }) s g s.known

  not_changed :
      (c : Client) → schedules_of c ≡ schedules_of w.client → Sourced (record w { client = c })
  not_changed c e =
      Sourced-Grows w (record w { client = c }) s (Grows-same (keys w.db) (keys w.db) refl)
        (subst (All (Known (keys w.db))) (sym e) s.known)

  Step-Sourced : (u : World) → Step m w u → Sourced u
  Step-Sourced _ (created now f answer db no_quote e) = changed db (
      Explained-Grows now w.db db answer
        (subst (Explained now w.db) e (create_new_schedule-Explained now w.db f no_quote)))
  Step-Sourced _ (deactivated id answer db e) = changed db (
      Grows-same (keys w.db) (keys db)
        (ap (λ t. t.3) (subst (KeepsLasting w.db) e (deactivate_schedule-KeepsLasting w.db id))))
  Step-Sourced _ (connected env sock) =
      changed (serve env w.db sock).0 (Grows-same (keys w.db) _ (keys-serve env w.db sock))
  Step-Sourced _ (fetched env h) =
      Sourced-Grows w _ s (Grows-same (keys w.db) _ (keys-serve env w.db _))
        (Known-ask_schedules env h)
  Step-Sourced _ (checked env h) =
      Sourced-Grows w _ s (Grows-same (keys w.db) _ (keys-serve env w.db _)) (Known-ask_check env h)
  Step-Sourced _ (valves_asked net n e) = not_changed (cc_set_valve_info m net w.client).0 (
      valves_set w.client (cc_set_valve_info m net w.client) n (cc_set_valve_info-ss m net w.client)
        e)
  Step-Sourced _ (not_fetched net n e) = not_changed (cc_set_active_schedules m net w.client).0 (
      not_set w.client (cc_set_active_schedules m net w.client) n
        (cc_calls-SetsOnSuccess m net w.client).1 e)
  Step-Sourced _ (not_checked net n e) = not_changed (cc_check_new_schedules m net w.client).0 (
      not_set w.client (cc_check_new_schedules m net w.client) n
        (cc_calls-SetsOnSuccess m net w.client).2 e)
  Step-Sourced _ (passed minute) = not_changed (pass minute w.client) (
      ap (map (λ s. s.sche)) (pass-settle minute w.client) ∙ settle-schedules_of minute w.client.ss)

Reach-Sourced : (m : Machine) (w u : World) → Sourced w → Reach m w u → Sourced u
Reach-Sourced m w _ s here = s
Reach-Sourced m w u s (later {u = v} r e) = Step-Sourced m v (Reach-Sourced m w v s r) u e

-- Every schedule of the device stands in the table as it is then, with the same number, valve and
-- times, and these lie within the day. So it is however the system goes on from a device without
-- schedules and a table whose times all lie within the day, in any order of the pages that create
-- and deactivate schedules, connections of anyone to the receiver, requests of the device for
-- schedules that are answered or that fail with a number, requests for valves that return, and
-- passes of the scheduler. Conditions: no description in a form has a quote, and the field of a
-- deactivation is missing, empty or of digits alone, since with another text either page can run
-- another SQL statement; no request leaves the client's buffers; where a request for schedules is
-- answered, pqxx converts and accepts as it documents, the connection to the database and `send`
-- work, the numbers fit in 16 bits, and there are fewer than 6554 schedules.
pub Reach-Known :
    (m : Machine) (w u : World)
    → Reach m w u
    → All InDay (keys w.db)
    → w.client.ss ≡ []
    → All (λ s. Known (keys u.db) s × InDay s) (schedules_of u.client)
Reach-Known m w u r day none_yet =
    let s = Reach-Sourced m w u (record { in_day = day; known = rw none_yet tt }) r in
    All-imply (Known (keys u.db)) (λ k. Known (keys u.db) k × InDay k) (schedules_of u.client)
      (λ k h. (h, All-Known InDay (keys u.db) k s.in_day h)) s.known
