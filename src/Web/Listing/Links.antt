-- ===== src/Web/Listing/Links.antt =====
-- views.py: the links between the pages, and what the page shows of a schedule that is selected.
use bbd.Prelude.{
  ℕ, zero, suc, ◌+◌, ◌*◌, ◌-◌, ◌/◌, ◌%◌, ◌^◌, ◌<◌, ◌≡◌, refl, sym, ap, ◌∙◌, true, false, none, some,
  List, [], ◌∷◌, ◌++◌, map, length, replicate, ◌==◌, any, All, Distinct, append-nil, append_assoc,
  arith, lt→ltb, ==_self, All-Permᴰ,
}
use mathlib.Core.List.Permᴰ
use bbd.Text.{decimal, scan_digits, starts_number}
use bbd.Text.Decimal.{scan_digits-decimal, starts_number-decimal, Ends}
use bbd.Database.{Database, DeviceRow, ValveRow, ScheduleRow}
use bbd.Database.Order.{order_by, asc, desc, order_by-Permᴰ}
use bbd.Database.Listings.{
  DeviceLine, line_of, web_get_devices, web_get_valves, web_get_valves_of, web_get_schedules,
}
use bbd.Database.Listings.Laws.{ids, web_get_devices-web_get_valves_of}
use bbd.Web.Listing.{
  shown, call_function, call_with, valves_index, two_digits, clock, selected_of, first_with,
  selected_row, select_number, post, select, schedules_index, device_click,
}

-- A decimal number alone is read whole.
scan-decimal : (n : ℕ) → scan_digits 0 (decimal n) ≡ (n, [])
scan-decimal n = ap (scan_digits 0) (sym (append-nil (decimal n))) ∙ scan_digits-decimal n [] tt

starts-decimal : (n : ℕ) → starts_number (decimal n) ≡ true
starts-decimal n = ap starts_number (sym (append-nil (decimal n))) ∙ starts_number-decimal n []

module _ (db : Database) where
  select-filled :
      (text : List ℕ)
      → starts_number text ≡ true
      → select db (post (some text)) ≡ select_number db (scan_digits 0 text)
  select-filled [] h = cc
  select-filled (c ∷ text) h = refl

  select-decimal :
      (id : ℕ) → select db (post (some (decimal id))) ≡ selected_row (first_with id db.schedules)
  select-decimal id =
      select-filled (decimal id) (starts-decimal id) ∙ ap (select_number db) (scan-decimal id)

call_function-filled {ℓ} :
    {A : Type ℓ} (all : A) (query : ℕ → A) (text : List ℕ)
    → starts_number text ≡ true
    → call_function all query (some text) ≡ call_with query (scan_digits 0 text)
call_function-filled all query [] h = cc
call_function-filled all query (c ∷ text) h = refl

valves_index-decimal :
    (db : Database) (id : ℕ)
    → id < 2 ^ 31
    → valves_index db (some (decimal id)) ≡ shown (web_get_valves_of db id)
unfolding valves_index
valves_index-decimal db id h =
    call_function-filled (web_get_valves db) (web_get_valves_of db) (decimal id) (starts-decimal id)
    ∙ ap (call_with (web_get_valves_of db)) (scan-decimal id)
    ∙ rw (lt→ltb id (2 ^ 31) h) refl

-- The page behind the button of a line: none for the number 0, else one of as many valves as the
-- line counts.
abbrev pub ButtonLeads : Database → ℕ → (n_valves : ℕ) → Type 0
ButtonLeads db zero n_valves = device_click zero ≡ none
ButtonLeads db (suc n) n_valves =
    (field : List ℕ) × (valves : List ValveRow) × (device_click (suc n) ≡ some field)
    × (valves_index db (some field) ≡ shown valves)
    × (valves ≡ web_get_valves_of db (suc n))
    × (length valves ≡ n_valves)

abbrev pub LinkWorks : Database → DeviceLine → Type 0
LinkWorks db l = ButtonLeads db l.id l.n_valves

ButtonLeads-device_click :
    (db : Database) (id n_valves : ℕ)
    → id < 2 ^ 31
    → n_valves ≡ length (web_get_valves_of db id)
    → ButtonLeads db id n_valves
unfolding device_click
ButtonLeads-device_click db zero n_valves h e = refl
ButtonLeads-device_click db (suc n) n_valves h e = (
  decimal (suc n),
  web_get_valves_of db (suc n),
  refl,
  valves_index-decimal db (suc n) h,
  refl,
  sym e,
)

LinkWorks-lines :
    (db : Database) (ds : List DeviceRow)
    → All (λ d. d.device_id < 2 ^ 31) ds
    → All (λ l. l.n_valves ≡ length (web_get_valves_of db l.id)) (map (line_of db.valves) ds)
    → All (LinkWorks db) (map (line_of db.valves) ds)
LinkWorks-lines db [] h h' = tt
LinkWorks-lines db (d ∷ ds) h h' =
    (ButtonLeads-device_click db d.device_id _ h.0 h'.0, LinkWorks-lines db ds h.1 h'.1)

-- The button of every device in the list leads to the page of that device's valves, which has as
-- many as the list counts for the device, and for a device with the number 0 it does nothing. The
-- numbers of the devices are below 2^31, as an INT is.
pub web_get_devices-valves_index :
    (db : Database)
    → All (λ d. d.device_id < 2 ^ 31) db.devices
    → All (LinkWorks db) (web_get_devices db)
unfolding web_get_devices
web_get_devices-valves_index db h =
    LinkWorks-lines db (order_by asc (λ d. d.device_id) db.devices)
      (All-Permᴰ (λ d. d.device_id < 2 ^ 31)
        (Permᴰ.symm (order_by-Permᴰ asc (λ d. d.device_id) db.devices)) h)
      (web_get_devices-web_get_valves_of db)

-- Behind a row with another number.
first_with-behind :
    (r : ScheduleRow) (rows all : List ScheduleRow)
    → any (λ n. n == r.schedule_id) (map (λ s. s.schedule_id) rows) ≡ false
    → All (λ s. first_with s.schedule_id all ≡ some s) rows
    → All (λ s. first_with s.schedule_id (r ∷ all) ≡ some s) rows
first_with-behind r [] all h hs = tt
first_with-behind r (s ∷ rows) all h hs =
    (ground (arith, hs.0), first_with-behind r rows all (ground arith) hs.1)

first_with-Distinct :
    (rows : List ScheduleRow)
    → Distinct (map (λ s. s.schedule_id) rows)
    → All (λ s. first_with s.schedule_id rows ≡ some s) rows
first_with-Distinct [] h = tt
first_with-Distinct (r ∷ rows) h = (
  rw (==_self r.schedule_id) refl,
  first_with-behind r rows rows h.0 (first_with-Distinct rows h.1),
)

abbrev pub SelectionShown : Database → ScheduleRow → Type 0
SelectionShown db r =
    schedules_index db none (post (some (decimal r.schedule_id)))
    ≡ shown (record {
      schedule_list = web_get_schedules db;
      valveid = none;
      selected_sche = some (selected_of r);
    })

SelectionShown-all :
    (db : Database) (rows : List ScheduleRow)
    → All (λ s. first_with s.schedule_id db.schedules ≡ some s) rows
    → All (SelectionShown db) rows
unfolding schedules_index
SelectionShown-all db [] h = tt
SelectionShown-all db (r ∷ rows) h =
    (rw (select-decimal db r.schedule_id, h.0) refl, SelectionShown-all db rows h.1)

-- For every schedule in the list, its button shows the list with that schedule below it, if the
-- numbers of the schedules are different.
pub schedules_index-SelectionShown :
    (db : Database) → Distinct (ids db) → All (SelectionShown db) (web_get_schedules db)
unfolding web_get_schedules
schedules_index-SelectionShown db h =
    SelectionShown-all db (order_by desc (λ r. r.schedule_id) db.schedules) (
      All-Permᴰ (λ s. first_with s.schedule_id db.schedules ≡ some s)
        (Permᴰ.symm (order_by-Permᴰ desc (λ r. r.schedule_id) db.schedules))
        (first_with-Distinct db.schedules h))

scan-zeros : (k : ℕ) (text : List ℕ) → scan_digits 0 (replicate k b'0' ++ text) ≡ scan_digits 0 text
unfolding scan_digits
scan-zeros zero text = refl
scan-zeros (suc k) text = scan-zeros k text

scan-two_digits :
    (n : ℕ) (rest : List ℕ) → Ends rest → scan_digits 0 (two_digits n ++ rest) ≡ (n, rest)
scan-two_digits n rest h =
    rw (append_assoc (replicate (2 - length (decimal n)) b'0') (decimal n) rest)
      (scan-zeros (2 - length (decimal n)) (decimal n ++ rest) ∙ scan_digits-decimal n rest h)

-- The time that the page shows is read back as the hour and the minute that give it.
pub scan_digits-clock :
    (t : ℕ)
    → (scan_digits 0 (clock t) ≡ (t / 60, b':' ∷ two_digits (t % 60)))
      × (scan_digits 0 (two_digits (t % 60)) ≡ (t % 60, []))
      × (t / 60 * 60 + t % 60 ≡ t)
scan_digits-clock t = (
  scan-two_digits (t / 60) (b':' ∷ two_digits (t % 60)) refl,
  ap (scan_digits 0) (sym (append-nil (two_digits (t % 60)))) ∙ scan-two_digits (t % 60) [] tt,
  omega arith,
)
