-- ===== src/Tests/Web.antt =====
-- The theorems on the pages, for the garden.
use Prim.Native.String.{String}
use bbd.Prelude.{◌≡◌, refl, some, none, [], arith, All}
use bbd.Text.{codes, pos, negsuc}
use bbd.Schedule.{Schedule, IsU16}
use bbd.Database.{Database, inserted, rcv_get_active_schedules}
use bbd.System.{ask_check, served}
use bbd.System.Evolution.{World, Healthy, Step, Reach}
use bbd.System.Evolution.Rows.{Known}
use bbd.System.Evolution.Known as Known
use bbd.System.Evolution.Pages as Pages
use bbd.System.Evolution.Numbers.{Reach-Numbered, ShownFirst, Reach-ShownFirst}
use bbd.Database.Listings.Laws.{Numbered}
use bbd.System.Evolution.Known.{Reach-Known}
use bbd.Server.Main.Keys.{keys}
use bbd.Client.SocketData.{check_new_schedules_msg}
use bbd.Client.ScheduleManager.{pass}
use bbd.System.Planning.{form}
use bbd.Web.{
  Form, redirected, bad_request, server_error, done, other_statement, create_new_schedule,
  deactivate_schedule,
}
use bbd.Web.Create.{InDay, Sound, create_new_schedule-Sound}
use bbd.Tests.Data.{device, host, pqxx-PqxxLaws, garden, watering, dawn-IsU16, dusk-IsU16}

-- Half past twelve, for a quarter of an hour.
abbrev noon : Schedule
noon = record { schedule_id = 4; valve_id = 3; start = 750; stop = 765 }

noon-IsU16 : IsU16 noon
noon-IsU16 = record {
  id_fits = omega arith;
  valve_fits = omega arith;
  start_fits = omega arith;
  stop_fits = omega arith;
}

garden-InDay : All InDay garden.schedules
garden-InDay =
    ((omega arith, omega arith), ((omega arith, omega arith), ((omega arith, omega arith), tt)))

-- The stop lies at half past twenty-four.
abbrev late : Form
late = form 3 12 30 24 30 "noon"

late_example : Sound garden (create_new_schedule 700 garden late)
late_example = create_new_schedule-Sound 700 garden late garden-InDay refl

-- A test: it is refused.
late_refused : create_new_schedule 700 garden late ≡ done bad_request garden
unfolding create_new_schedule
late_refused = refl

-- A test: a minute before zero counts, as long as the hour makes up for it.
negative_minute :
    create_new_schedule 700 garden
      (record late { stop_h = some (pos 13); stop_m = some (negsuc 14) })
    ≡ done redirected (inserted 700 garden 3 "noon" 750 765)
unfolding create_new_schedule bbd.Database.web_create_new_schedule
negative_minute = refl

abbrev long : String
long =
    "rosebushesrosebushesrosebushesrosebushesrosebushesrosebushesrosebushesrosebushesrosebushesrosebushes!"

-- A test: no valve has the number 5.
no_valve : create_new_schedule 700 garden (form 5 12 30 12 45 "noon") ≡ done server_error garden
unfolding create_new_schedule
no_valve = refl

-- A test: a description in Greek ends in an exception, and one of 101 characters in another that
-- uses up a number.
refused_descriptions :
    (create_new_schedule 700 garden (form 3 12 30 12 45 "μεσημέρι") ≡ done server_error garden)
    × (create_new_schedule 700 garden (form 3 12 30 12 45 long)
        ≡ done server_error (record garden { next_id = 5 }))
unfolding create_new_schedule bbd.Database.web_create_new_schedule
refused_descriptions = (refl, refl)

-- A test: a quote in the description makes another statement of the text.
with_quote : create_new_schedule 700 garden (form 3 12 30 12 45 "Tom's") ≡ other_statement
unfolding create_new_schedule
with_quote = refl

-- A test: the number of a schedule, and a text that goes on.
deactivated_or_not :
    (deactivate_schedule garden (some "2")
      ≡ done redirected (bbd.Database.web_deactivate_schedule_request garden 2))
    × (deactivate_schedule garden (some "2) OR (1") ≡ other_statement)
    × (deactivate_schedule garden none ≡ done bad_request garden)
unfolding deactivate_schedule bbd.Text.scan_digits
deactivated_or_not = (refl, refl, refl)

-- The device before it has schedules, the garden with the new schedule, the check, and the pass at
-- half past twelve.
abbrev at_first : World
at_first = record { db = garden; client = record watering { ss = [] } }

abbrev after_page : World
after_page = record at_first { db = inserted 700 garden 3 "noon" 750 765 }

abbrev after_check : World
after_check = record {
  db = (served host after_page.db check_new_schedules_msg).0;
  client = (ask_check device host after_page.db after_page.client).0;
}

abbrev at_noon : World
at_noon = record after_check { client = pass 750 after_check.client }

host-Healthy : Healthy host after_page.db
unfolding rcv_get_active_schedules bbd.Database.select_active
host-Healthy = record {
  laws = pqxx-PqxxLaws;
  send_ok = refl;
  get_up = refl;
  rows_fit = (dawn-IsU16, (dusk-IsU16, (noon-IsU16, tt)));
  few_rows = omega arith;
}

Reach-after_page : Reach device at_first after_page
unfolding create_new_schedule bbd.Database.web_create_new_schedule
Reach-after_page =
    Reach.later Reach.here
      (Step.created 700 (form 3 12 30 12 45 "noon") redirected after_page.db refl refl)

Reach-at_noon : Reach device at_first at_noon
Reach-at_noon =
    Reach.later (Reach.later Reach-after_page (Step.checked host host-Healthy)) (Step.passed 750)

at_noon_example :
    All (λ s. Known (keys at_noon.db) s × Pages.InDay s) (Known.schedules_of at_noon.client)
at_noon_example =
    Reach-Known device at_first at_noon Reach-at_noon
      ((omega arith, omega arith), ((omega arith, omega arith), ((omega arith, omega arith), tt)))
      refl

garden-Numbered : Numbered garden
garden-Numbered = ((omega arith, (omega arith, (omega arith, tt))), (refl, (refl, (refl, tt))))

numbers_example : Numbered at_noon.db
numbers_example = Reach-Numbered device at_first at_noon Reach-at_noon garden-Numbered

newest_example : ShownFirst garden (inserted 700 garden 3 "noon" 750 765)
unfolding create_new_schedule bbd.Database.web_create_new_schedule
newest_example =
    Reach-ShownFirst device at_first at_first Reach.here garden-Numbered 700
      (form 3 12 30 12 45 "noon") (inserted 700 garden 3 "noon" 750 765) refl refl
