-- ===== src/Web/Create.antt =====
-- views.py, create_new_schedule: what it does to the table of the schedules.
use Prim.Native.String.{String}
use mathlib.Core.Path.{subst}
use bbd.Prelude.{
  ℕ, ◌+◌, arith, ◌≤◌, ◌≡◌, ◌≢◌, refl, sym, false, ◌&&◌, Option, none, some, List, [], ◌∷◌, ◌++◌,
  All, any, leb, ◌==◌, Bool-cases, Option-cases, inl, inr, tests, ◌⊎◌,
}
use bbd.Text.{codes, ℤ, pos, negsuc}
use bbd.Database.{Database, ScheduleRow, web_create_new_schedule}
use bbd.Database.Laws.{web_create_new_schedule-inserted}
use bbd.Web.{
  Answer, redirected, bad_request, server_error, Outcome, done, other_statement, Form, has_quote,
  quoted, described, execute_create, in_day, on_valve, on_description, numbers, create_new_schedule,
}

-- The page leaves the tables alone, maybe with numbers of the SERIAL used up, and does not lead on, or it has called the function of the
-- database with times within the day.
pub data Explained (now : ℕ) (db : Database) : Outcome → Type 0 where
  kept :
      (answer : Answer) (next : ℕ)
      → answer ≢ redirected
      → db.next_id ≤ next
      → Explained now db (done answer (record db { next_id = next }))
  created :
      (valve start stop : ℕ) (text : String) (db' : Database)
      → start ≤ 1440
      → stop ≤ 1440
      → web_create_new_schedule now db valve text start stop ≡ some db'
      → Explained now db (done redirected db')

module _ (now : ℕ) (db : Database) where
  refused : Explained now db (done bad_request db)
  refused = kept bad_request db.next_id (λ q. cc) (omega arith)

  failed : Explained now db (done server_error db)
  failed = kept server_error db.next_id (λ q. cc) (omega arith)

  refused_row : Explained now db (done server_error (record db { next_id = db.next_id + 1 }))
  refused_row = kept server_error (db.next_id + 1) (λ q. cc) (omega arith)

  module _ (text : String) (no_quote : has_quote text ≡ false) where
    execute_create-Explained :
        (valve start stop : ℕ)
        → start ≤ 1440
        → stop ≤ 1440
        → Explained now db (execute_create now db valve text start stop)
    execute_create-Explained valve start stop h h' =
        elim (Option-cases (web_create_new_schedule now db valve text start stop)) [
          | inl e ↦ rw (no_quote, e) refused_row
          | inr (db', e) ↦ rw (no_quote, e) (created valve start stop text db' h h' e)
        ]

    in_day-Explained :
        (valve : ℕ) (start stop : ℤ) → Explained now db (in_day now db valve text start stop)
    in_day-Explained valve (pos start) (pos stop) =
        elim (Bool-cases (leb start 1440 && leb stop 1440)) [
          | inl e ↦ rw e (execute_create-Explained valve start stop (grind tests) (grind tests))
          | inr e ↦ rw e refused
        ]
    in_day-Explained valve (pos start) (negsuc _) = refused
    in_day-Explained valve (negsuc _) stop = refused

    on_valve-Explained : (read : Option (ℤ × ℤ × ℤ)) → Explained now db (on_valve now db text read)
    on_valve-Explained none = failed
    on_valve-Explained (some (negsuc _, start, stop)) = failed
    on_valve-Explained (some (pos valve, start, stop)) =
        elim (Bool-cases (any (λ v. v.valve_id == valve) db.valves)) [
          | inl e ↦ rw e (in_day-Explained valve start stop)
          | inr e ↦ rw e failed
        ]

  on_description-Explained :
      (field : Option String) (read : Option (ℤ × ℤ × ℤ))
      → (elim field [ none ↦ false | some text ↦ has_quote text ]) ≡ false
      → Explained now db (on_description now db (described field) read)
  on_description-Explained none read no_quote = on_valve-Explained "None" refl read
  on_description-Explained (some text) read no_quote =
      elim (Bool-cases (any (λ c. leb 128 c) (codes text))) [
        | inl e ↦ rw e failed
        | inr e ↦ rw e (on_valve-Explained text no_quote read)
      ]

  pub create_new_schedule-Explained :
      (f : Form) → quoted f ≡ false → Explained now db (create_new_schedule now db f)
  unfolding create_new_schedule
  create_new_schedule-Explained f no_quote =
      on_description-Explained f.description (numbers f) no_quote

-- Both times lie within the day.
abbrev pub InDay : ScheduleRow → Type 0
InDay r = (r.start_time ≤ 1440) × (r.stop_time ≤ 1440)

All-snoc :
    (rows : List ScheduleRow) (r : ScheduleRow)
    → All InDay rows
    → InDay r
    → All InDay (rows ++ r ∷ [])
All-snoc [] r h h' = (h', tt)
All-snoc (x ∷ rows) r h h' = (h.0, All-snoc rows r h.1 h')

-- What the page may leave behind: times within the day, and where it does not lead on the tables
-- of before, but for the next number.
abbrev pub Sound : Database → Outcome → Type 0
Sound db other_statement = ⊥
Sound db (done answer db') =
    All InDay db'.schedules × ((answer ≡ redirected) ⊎ (db' ≡ record db { next_id = db'.next_id }))

Explained-Sound :
    (now : ℕ) (db : Database) (o : Outcome)
    → All InDay db.schedules
    → Explained now db o
    → Sound db o
Explained-Sound now db _ h (kept answer next n _) = (h, inr refl)
Explained-Sound now db _ h (created valve start stop text db' hs ht e) = (
  subst (λ d. All InDay d.schedules)
      (sym (web_create_new_schedule-inserted now db valve text start stop e))
      (All-snoc db.schedules _ h (hs, ht)),
  inl refl,
)

-- Whatever the form has, if its description has no quote, the page keeps it true that both times
-- of every schedule are at most 1440, which the table does not check for the stop, and the tables,
-- but for the next number, change only where it leads on to the list.
pub create_new_schedule-Sound :
    (now : ℕ) (db : Database) (f : Form)
    → All InDay db.schedules
    → quoted f ≡ false
    → Sound db (create_new_schedule now db f)
create_new_schedule-Sound now db f h no_quote =
    Explained-Sound now db (create_new_schedule now db f) h
      (create_new_schedule-Explained now db f no_quote)
