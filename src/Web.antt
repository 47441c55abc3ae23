-- ===== src/Web.antt =====
-- server/src/web/src/bbd/views.py: the two pages that change the database. A request that the page
-- does not handle ends in an exception, which the server answers as an error of its own.
pub mod Create
pub mod Listing
use Prim.Native.String.{String}
use bbd.Prelude.{
  ℕ, zero, suc, ◌+◌, ◌-◌, ◌*◌, ◌^◌, Bool, true, false, ◌&&◌, Option, none, some, List, [], ◌∷◌, any,
  leb, ltb, ◌==◌, if◌then◌else◌, ◌>>=◌,
}
use bbd.Text.{codes, ℤ, pos, negsuc, scan_digits, starts_number}
use bbd.Database.{Database, web_create_new_schedule, web_deactivate_schedule_request}

pub data Answer : Type 0 where
  redirected bad_request server_error : Answer

-- The answer with the new tables, or another SQL statement than the call that is meant, since the
-- values are put into its text as they are.
pub data Outcome : Type 0 where
  done : Answer → Database → Outcome
  other_statement : Outcome

-- What `int()` makes of the fields of the form, `none` where one is missing or no number; a missing
-- description becomes the text None.
pub record Form : Type 0 where
  pub valveid_f : Option ℤ
  pub start_h : Option ℤ
  pub start_m : Option ℤ
  pub stop_h : Option ℤ
  pub stop_m : Option ℤ
  pub description : Option String

-- `str()` raises on a character that is not ASCII.
abbrev pub described : Option String → Option String
described none = some "None"
described (some text) = if any (λ c. leb 128 c) (codes text) then none else some text

-- The difference of two numbers.
abbrev minus : ℕ → ℕ → ℤ
minus a b = if leb b a then pos (a - b) else negsuc (b - a - 1)

-- h*60+m
abbrev pub minutes_of : ℤ → ℤ → ℤ
minutes_of (pos h) (pos m) = pos (h * 60 + m)
minutes_of (pos h) (negsuc m) = minus (h * 60) (suc m)
minutes_of (negsuc h) (pos m) = minus m (suc h * 60)
minutes_of (negsuc h) (negsuc m) = negsuc (suc h * 60 + m)

abbrev pub numbers : Form → Option (ℤ × ℤ × ℤ)
numbers f = do
  valve ← f.valveid_f
  start_h ← f.start_h
  start_m ← f.start_m
  stop_h ← f.stop_h
  stop_m ← f.stop_m
  some (valve, minutes_of start_h start_m, minutes_of stop_h stop_m)

abbrev pub has_quote : String → Bool
has_quote text = any (λ c. c == 39) (codes text)

-- A description that is missing has none.
abbrev pub quoted : Form → Bool
quoted f = elim f.description [ none ↦ false | some text ↦ has_quote text ]

-- An INSERT that is refused has taken its number from the SERIAL.
abbrev pub inserted_or_error : Database → Option Database → Outcome
inserted_or_error db none = done server_error (record db { next_id = db.next_id + 1 })
inserted_or_error db (some db') = done redirected db'

abbrev pub execute_create : ℕ → Database → ℕ → String → ℕ → ℕ → Outcome
execute_create now db valve text start stop =
    if has_quote text
    then other_statement
    else inserted_or_error db (web_create_new_schedule now db valve text start stop)

-- The test of both times.
abbrev pub in_day : ℕ → Database → ℕ → String → ℤ → ℤ → Outcome
in_day now db valve text (pos start) (pos stop) =
    if leb start 1440 && leb stop 1440
    then execute_create now db valve text start stop
    else done bad_request db
in_day now db valve text (pos start) (negsuc _) = done bad_request db
in_day now db valve text (negsuc _) stop = done bad_request db

-- Valve.objects.get raises where no valve has the number.
abbrev pub on_valve : ℕ → Database → String → Option (ℤ × ℤ × ℤ) → Outcome
on_valve now db text none = done server_error db
on_valve now db text (some (negsuc _, start, stop)) = done server_error db
on_valve now db text (some (pos valve, start, stop)) =
    if any (λ v. v.valve_id == valve) db.valves
    then in_day now db valve text start stop
    else done server_error db

abbrev pub on_description : ℕ → Database → Option String → Option (ℤ × ℤ × ℤ) → Outcome
on_description now db none read = done server_error db
on_description now db (some text) read = on_valve now db text read

unfoldable pub create_new_schedule : ℕ → Database → Form → Outcome
create_new_schedule now db f = on_description now db (described f.description) (numbers f)

-- A text of digits alone is the number of a schedule, and raises where it is no INT.
abbrev pub deactivate_number : Database → ℕ × List ℕ → Outcome
deactivate_number db (id, []) =
    if ltb id (2 ^ 31)
    then done redirected (web_deactivate_schedule_request db id)
    else done server_error db
deactivate_number db (id, _ ∷ _) = other_statement

unfoldable pub deactivate_schedule : Database → (schedule_id : Option String) → Outcome
deactivate_schedule db none = done bad_request db
deactivate_schedule db (some String.[]) = done bad_request db
deactivate_schedule db (some (String.◌∷◌ c text)) =
    deactivate_number db (scan_digits 0 (codes (String.◌∷◌ c text)))
