-- ===== src/Tests/Pages.antt =====
-- The theorems on the pages that show the tables and on the order of their rows, for the garden.
use mathlib.Core.List.Permᴰ
use bbd.Prelude.{◌≡◌, refl, none, some, [], ◌∷◌, length, All, Permᴰ, arith}
use bbd.Database.{Database, select_active, rcv_get_active_schedules, rcv_get_device_valves}
use bbd.Database.Listings.{web_get_devices, web_get_schedules, web_get_valves}
use bbd.Database.Listings.Laws.{total, total-web_get_devices}
use bbd.Database.Order.{order_by}
use bbd.Database.Unordered.{SameTables}
use bbd.Client.State.{valve_open}
use bbd.Client.ValveManager.{get_entry}
use bbd.Client.ScheduleManager.{pass}
use bbd.Client.Controller.{ret}
use bbd.Client.DeviceClient.{start}
use bbd.System.Startup.{healthy}
use bbd.System.Unordered.{is_watered, start-is_watered}
use bbd.Web.Listing.{
  shown, raised, other_statement, get, post, selected_of, schedules_index, valves_index,
  add_schedule,
}
use bbd.Web.Listing.Links.{
  LinkWorks, web_get_devices-valves_index, SelectionShown, schedules_index-SelectionShown,
}
use bbd.Text.{codes, scan_digits}
use bbd.Tests.Data.{
  host, pqxx-PqxxLaws, device, garden, morning, evening, cancelled, dawn-IsU16, dusk-IsU16,
}

total_example : total (web_get_devices garden) ≡ length garden.valves
total_example = total-web_get_devices garden (refl, (refl, tt)) (refl, (refl, (refl, tt)))

links_example : All (LinkWorks garden) (web_get_devices garden)
links_example = web_get_devices-valves_index garden (omega arith, (omega arith, tt))

selections_example : All (SelectionShown garden) (web_get_schedules garden)
selections_example = schedules_index-SelectionShown garden (refl, (refl, (refl, tt)))

-- A test: the morning's schedule among those of its valve, the newest first.
selected_morning :
    schedules_index garden (some (codes "3")) (post (some (codes "1")))
    ≡ shown (record {
      schedule_list = cancelled ∷ morning ∷ [];
      valveid = some (codes "3");
      selected_sche = some (record (selected_of morning) { start_time = codes "06:00" });
    })
unfolding schedules_index scan_digits bbd.Database.Listings.web_get_schedules_of order_by
    bbd.Text.decimal bbd.Text.digits
selected_morning = refl

-- A test: no schedule has the number 7, and a number is no INT from 2^31 on.
none_selected :
    (schedules_index garden none (post (some (codes "7"))) ≡ raised)
    × (schedules_index garden (some (codes "2147483648")) get ≡ raised)
    × (valves_index garden (some (codes "1) OR (1")) ≡ other_statement)
unfolding schedules_index valves_index scan_digits
none_selected = (refl, refl, refl)

-- A test: the form offers all valves.
offered :
    add_schedule garden (some [])
    ≡ shown (record { valveid = none; valve_id_list = 3 ∷ 4 ∷ 9 ∷ [] })
unfolding add_schedule
offered = refl

-- The same rows, the evening's schedule first.
abbrev turned : Database
turned = record garden { schedules = evening ∷ morning ∷ cancelled ∷ [] }

garden-SameTables : SameTables garden turned
garden-SameTables = record {
  devices = Permᴰ.refl garden.devices;
  valves = Permᴰ.refl garden.valves;
  schedules = Permᴰ.swap refl refl;
}

turned_example :
    ((start device (healthy host turned)).1 ≡ ret 0)
    × (get_entry 3 (pass 365 (start device (healthy host turned)).0).valves_map ≡ some valve_open)
unfolding rcv_get_device_valves rcv_get_active_schedules select_active is_watered
turned_example =
    start-is_watered device host pqxx-PqxxLaws refl refl garden (dawn-IsU16, (dusk-IsU16, tt))
      (omega arith) turned 365 3 garden-SameTables (omega arith, (omega arith, tt)) (omega arith)
      (omega arith) refl
