-- ===== src/System/Evolution/Numbers.antt =====
-- The numbers of the schedules, over time.
use mathlib.Core.Path.{subst}
use bbd.Prelude.{
  ℕ, ◌+◌, ◌≤◌, ◌<◌, ◌≡◌, refl, sym, ap, ◌∙◌, true, false, List, [], ◌∷◌, ◌++◌, All, any, map,
  map-append, arith, Distinct, ◌==◌,
}
use bbd.Schedule.{Schedule}
use bbd.Database.{Database, ScheduleRow, new_row}
use bbd.Database.Laws.{web_create_new_schedule-inserted}
use bbd.Database.Listings.{web_get_schedules}
use bbd.Database.Listings.Laws.{ids, Numbered, web_get_schedules-inserted}
use bbd.Client.Controller.{Machine}
use bbd.Bytes.{Incoming}
use bbd.Server.Main.{Env, serve}
use bbd.Server.Main.Keys.{key, lasting, lasting-serve}
use bbd.System.Evolution.Pages.{KeepsLasting, deactivate_schedule-KeepsLasting}
use bbd.System.Evolution.{
  World, Step, created, deactivated, connected, fetched, checked, valves_asked, not_fetched,
  not_checked, passed, Reach, here, later,
}
use bbd.Web.{
  Answer, redirected, bad_request, server_error, Form, Outcome, done, quoted, create_new_schedule,
}
use bbd.Web.Create.{Explained, kept, create_new_schedule-Explained}
use bbd.Web.Create as Create

map-key :
    (rows : List ScheduleRow)
    → map (λ s. s.schedule_id) (map key rows) ≡ map (λ r. r.schedule_id) rows
map-key [] = refl
map-key (r ∷ rows) = ap (◌∷◌ r.schedule_id) (map-key rows)

abbrev Numbers : ℕ → List ℕ → Type 0
Numbers next ns = All (λ n. n < next) ns × Distinct ns

-- What lasts decides the numbers.
Numbered-lasting : (db db' : Database) → lasting db' ≡ lasting db → Numbered db → Numbered db'
Numbered-lasting db db' e h =
    subst (λ ns. Numbers db'.next_id ns) (map-key db'.schedules)
      (subst (λ t. Numbers t.2 (map (λ (s : Schedule). s.schedule_id) t.3)) (sym e)
        (subst (λ ns. Numbers db.next_id ns) (sym (map-key db.schedules)) h))

any-below : (n : ℕ) (ns : List ℕ) → All (λ k. k < n) ns → any (λ k. k == n) ns ≡ false
any-below n [] h = refl
any-below n (k ∷ ns) h = ground (arith, h.0, any-below n ns h.1)

any-snoc :
    (k n : ℕ) (ns : List ℕ)
    → k < n
    → any (λ i. i == k) ns ≡ false
    → any (λ i. i == k) (ns ++ n ∷ []) ≡ false
any-snoc k n [] h e = ground arith
any-snoc k n (i ∷ ns) h e = ground (arith, any-snoc k n ns h)

Numbers-snoc : (n : ℕ) (ns : List ℕ) → Numbers n ns → Numbers (n + 1) (ns ++ n ∷ [])
Numbers-snoc n [] h = ((omega arith, tt), (refl, tt))
Numbers-snoc n (k ∷ ns) h =
    let rest = Numbers-snoc n ns (h.0.1, h.1.1) in
    ((omega (arith, h.0.0), rest.0), (any-snoc k n ns h.0.0 h.1.0, rest.1))

-- The SERIAL numbers a new schedule.
Numbered-inserted :
    (db : Database) (r : ScheduleRow)
    → r.schedule_id ≡ db.next_id
    → Numbered db
    → Numbered (record db { schedules = db.schedules ++ r ∷ []; next_id = db.next_id + 1 })
Numbered-inserted db r e h =
    subst (λ ns. Numbers (db.next_id + 1) ns)
      (ap (λ n. ids db ++ n ∷ []) (sym e) ∙ sym (map-append (λ s. s.schedule_id) db.schedules _))
      (Numbers-snoc db.next_id (ids db) h)

below-later : (n next : ℕ) (ns : List ℕ) → n ≤ next → All (λ k. k < n) ns → All (λ k. k < next) ns
below-later n next [] le h = tt
below-later n next (k ∷ ns) le h = (omega (arith, le, h.0), below-later n next ns le h.1)

-- Numbers that the SERIAL has passed over.
Numbered-later :
    (db : Database) (next : ℕ)
    → db.next_id ≤ next
    → Numbered db
    → Numbered (record db { next_id = next })
Numbered-later db next le h = (below-later db.next_id next (ids db) le h.0, h.1)

Explained-Numbered :
    (now : ℕ) (db db' : Database) (answer : Answer)
    → Explained now db (done answer db')
    → Numbered db
    → Numbered db'
Explained-Numbered now db db' answer (kept a next n le) h = Numbered-later db next le h
Explained-Numbered now db db' answer (Create.created valve start stop text d hs ht e) h =
    subst Numbered (sym (web_create_new_schedule-inserted now db valve text start stop e))
      (Numbered-inserted db (new_row now db valve text start stop) refl h)

Numbered-serve :
    (env : Env) (db : Database) (sock : Incoming) → Numbered db → Numbered (serve env db sock).0
Numbered-serve env db sock = Numbered-lasting db (serve env db sock).0 (lasting-serve env db sock)

module _ (m : Machine) where
  Step-Numbered : (w u : World) → Step m w u → Numbered w.db → Numbered u.db
  Step-Numbered w _ (created now f answer db no_quote e) h =
      Explained-Numbered now w.db db answer
        (subst (Explained now w.db) e (create_new_schedule-Explained now w.db f no_quote)) h
  Step-Numbered w _ (deactivated id answer db e) h =
      Numbered-lasting w.db db
        (subst (KeepsLasting w.db) e (deactivate_schedule-KeepsLasting w.db id)) h
  Step-Numbered w _ (connected env sock) h = Numbered-serve env w.db sock h
  Step-Numbered w _ (fetched env healthy) h = Numbered-serve env w.db _ h
  Step-Numbered w _ (checked env healthy) h = Numbered-serve env w.db _ h
  Step-Numbered w _ (valves_asked net n e) h = h
  Step-Numbered w _ (not_fetched net n e) h = h
  Step-Numbered w _ (not_checked net n e) h = h
  Step-Numbered w _ (passed minute) h = h

  -- The numbers of the schedules stay different from one another and below the next number of the
  -- table, however the pages, the receiver and the device go on, in any order of their steps.
  -- Conditions: no description in a form has a quote, and the field of a deactivation is missing,
  -- empty or of digits alone, since with another text either page can run another SQL statement;
  -- no request leaves the client's buffers; where a request of the device for schedules is
  -- answered, pqxx converts and accepts as it documents, the connection to the database and `send`
  -- work, the numbers fit in 16 bits, and there are fewer than 6554 schedules.
  pub Reach-Numbered : (w u : World) → Reach m w u → Numbered w.db → Numbered u.db
  Reach-Numbered w _ here h = h
  Reach-Numbered w u (later {u = v} r e) h = Step-Numbered v u e (Reach-Numbered w v r h)

-- The list of the page has a new schedule at its head, behind it what it had before.
abbrev pub ShownFirst : Database → Database → Type 0
ShownFirst db db' =
    (row : ScheduleRow) × (web_get_schedules db' ≡ row ∷ web_get_schedules db)
    × (row.schedule_id ≡ db.next_id)
    × (row.active ≡ true)
    × (row.sent ≡ false)

abbrev ShownAfter : Database → Outcome → Type 0
ShownAfter db (done redirected db') = ShownFirst db db'
ShownAfter db _ = Unit

Explained-ShownAfter :
    (now : ℕ) (db : Database) (o : Outcome) → Numbered db → Explained now db o → ShownAfter db o
Explained-ShownAfter now db _ h (kept redirected next n le) = absurd (n refl)
Explained-ShownAfter now db _ h (kept bad_request next n le) = tt
Explained-ShownAfter now db _ h (kept server_error next n le) = tt
Explained-ShownAfter now db _ h (Create.created valve start stop text d hs ht e) =
    subst (ShownFirst db) (sym (web_create_new_schedule-inserted now db valve text start stop e)) (
      new_row now db valve text start stop,
      web_get_schedules-inserted now db valve text start stop h,
      refl,
      refl,
      refl,
    )

-- Whatever has happened since a table whose schedules have different numbers below the next one,
-- when the page that creates a schedule leads on to the list, the list has the new schedule first,
-- active and not sent, with the next number, and behind it what it had before. Conditions: the
-- descriptions have no quote and the fields of deactivations are missing, empty or of digits
-- alone; no request leaves the client's buffers; where a request of the device for schedules is
-- answered, pqxx converts and accepts as it documents, the connection to the database and `send`
-- work, the numbers fit in 16 bits, and there are fewer than 6554 schedules.
pub Reach-ShownFirst :
    (m : Machine) (w u : World)
    → Reach m w u
    → Numbered w.db
    → (now : ℕ) (f : Form) (db' : Database) → quoted f ≡ false
    → create_new_schedule now u.db f ≡ done redirected db'
    → ShownFirst u.db db'
Reach-ShownFirst m w u r h now f db' no_quote e = subst (ShownAfter u.db) e (
    Explained-ShownAfter now u.db _ (Reach-Numbered m w u r h)
      (create_new_schedule-Explained now u.db f no_quote))
