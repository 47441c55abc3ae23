-- ===== src/Client/ScheduleManager/Consistent.antt =====
-- schedule_manager.c: when the valves agree with the schedules after a pass, and when not.
use bbd.Prelude.{
  ℕ, Bool, true, false, ◌&&◌, ◌||◌, some, List, [], ◌∷◌, map, ◌≡◌, ◌⊎◌, refl, sym, inl, inr, arith,
  ◌==◌, if◌then◌else◌, ap, ◌∙◌, ◌++◌, any,
}
use bbd.Client.State.{ValveState, valve_open, valve_closed, ScheduleStatus, Client}
use bbd.Client.ValveManager.{get_entry}
use bbd.Client.ScheduleManager.{opens, closes, pass}
use bbd.Client.ScheduleManager.Pass.{
  in_window, settle, turned, turned_all, pass-settle, pass-turned_all,
}

-- What the schedules in `ss` ask of valve `v`.
abbrev pub wanted : ℕ → List ScheduleStatus → ValveState
wanted v ss = if any (λ s. s.valve_id == v && s.is_active) ss then valve_open else valve_closed

-- A valve of the device is open exactly if one of its schedules is marked active.
abbrev pub Consistent : ℕ → Client → Type 0
Consistent v c = get_entry v c.valves_map ≡ some (wanted v c.ss)

abbrev pub some_closes : ℕ → ℕ → List ScheduleStatus → Bool
some_closes m v ss = any (λ s. s.valve_id == v && closes m s) ss

abbrev pub some_in_window : ℕ → ℕ → List ScheduleStatus → Bool
some_in_window m v ss = any (λ s. s.valve_id == v && in_window m s) ss

abbrev some_opens : ℕ → ℕ → List ScheduleStatus → Bool
some_opens m v ss = any (λ s. s.valve_id == v && opens m s) ss

abbrev pub some_active : ℕ → List ScheduleStatus → Bool
some_active v ss = any (λ s. s.valve_id == v && s.is_active) ss

opens-closes : (m : ℕ) (s : ScheduleStatus) → closes m s ≡ true → opens m s ≡ false
unfolding opens closes
opens-closes m s h = ground arith

no_closing :
    (m v : ℕ) (st : ValveState) (ss : List ScheduleStatus)
    → some_closes m v ss ≡ false
    → turned_all m v st ss ≡ (if some_opens m v ss then valve_open else st)
no_closing m v st [] h = refl
no_closing m v st (s ∷ ss) h = ground (arith, no_closing m v (turned m v st s) ss)

no_opening :
    (m v : ℕ) (st : ValveState) (ss : List ScheduleStatus)
    → some_opens m v ss ≡ false
    → turned_all m v st ss ≡ (if some_closes m v ss then valve_closed else st)
no_opening m v st [] h = refl
no_opening m v st (s ∷ ss) h = ground (arith, no_opening m v (turned m v st s) ss)

in_window_parts :
    (m v : ℕ) (ss : List ScheduleStatus)
    → some_closes m v ss ≡ false
    → some_in_window m v ss ≡ (some_opens m v ss || some_active v ss)
unfolding opens closes
in_window_parts m v [] h = refl
in_window_parts m v (s ∷ ss) h = ground (arith, in_window_parts m v ss)

closing_parts :
    (m v : ℕ) (ss : List ScheduleStatus)
    → some_in_window m v ss ≡ false
    → (some_opens m v ss ≡ false) × (some_closes m v ss ≡ some_active v ss)
unfolding opens closes
closing_parts m v [] h = (refl, refl)
closing_parts m v (s ∷ ss) h = ground (arith, closing_parts m v ss)

pub wanted-settle :
    (m v : ℕ) (ss : List ScheduleStatus) → some_active v (map (settle m) ss) ≡ some_in_window m v ss
wanted-settle m v [] = refl
wanted-settle m v (s ∷ ss) =
    ap (λ b. (s.valve_id == v && in_window m s) || b) (wanted-settle m v ss)

turned_all-wanted :
    (m v : ℕ) (ss : List ScheduleStatus)
    → (some_closes m v ss ≡ false) ⊎ (some_in_window m v ss ≡ false)
    → turned_all m v (wanted v ss) ss ≡ wanted v (map (settle m) ss)
turned_all-wanted m v ss (inl h) =
    ground
      (arith, no_closing m v (wanted v ss) ss h, in_window_parts m v ss h, wanted-settle m v ss)
turned_all-wanted m v ss (inr h) = ground (
  arith,
  closing_parts m v ss h,
  no_opening m v (wanted v ss) ss (closing_parts m v ss h).0,
  wanted-settle m v ss,
)

-- A pass keeps it true that a valve is open exactly while one of its schedules is marked active,
-- if no schedule of the valve closes it in this pass or none covers the minute.
pub pass-Consistent :
    (m v : ℕ) (c : Client)
    → (some_closes m v c.ss ≡ false) ⊎ (some_in_window m v c.ss ≡ false)
    → Consistent v c
    → Consistent v (pass m c)
pass-Consistent m v c apart h =
    pass-turned_all m v c h
    ∙ ap some (turned_all-wanted m v c.ss apart ∙ ap (wanted v) (sym (pass-settle m c)))

turned_all-append :
    (m v : ℕ) (st : ValveState) (xs ys : List ScheduleStatus)
    → turned_all m v st (xs ++ ys) ≡ turned_all m v (turned_all m v st xs) ys
turned_all-append m v st [] ys = refl
turned_all-append m v st (x ∷ xs) ys = turned_all-append m v (turned m v st x) xs ys

turned_all-closed :
    (m v : ℕ) (st : ValveState) (a : ScheduleStatus) (zs : List ScheduleStatus)
    → a.valve_id ≡ v
    → closes m a ≡ true
    → some_opens m v zs ≡ false
    → turned_all m v st (a ∷ zs) ≡ valve_closed
turned_all-closed m v st a zs av ac quiet =
    ground (arith, turned_by_closing, no_opening m v valve_closed zs quiet)
  where
    turned_by_closing : turned m v st a ≡ valve_closed
    turned_by_closing = ground (arith, opens-closes m a ac)

-- The bug: whenever a schedule of a valve has run out and no later entry of the array turns the
-- valve on in the same pass, the pass closes the valve, though some schedule of the valve covers
-- the minute and is marked active. So it goes where windows overlap, and also where the next
-- window begins in the minute after and stands earlier in the array.
pub pass-closes-wanted :
    (m v : ℕ) (c : Client) (a : ScheduleStatus) (xs zs : List ScheduleStatus) {st : ValveState}
    → get_entry v c.valves_map ≡ some st
    → c.ss ≡ xs ++ a ∷ zs
    → a.valve_id ≡ v
    → closes m a ≡ true
    → some_opens m v zs ≡ false
    → some_in_window m v c.ss ≡ true
    → (get_entry v (pass m c).valves_map ≡ some valve_closed)
      × (wanted v (pass m c).ss ≡ valve_open)
pass-closes-wanted m v c a xs zs {st} h e av ac quiet covered = (
  pass-turned_all m v c h
      ∙ ap some (
          ap (turned_all m v st) e
          ∙ turned_all-append m v st xs (a ∷ zs)
          ∙ turned_all-closed m v (turned_all m v st xs) a zs av ac quiet),
  ap (wanted v) (pass-settle m c)
      ∙ ap (λ b. if b then valve_open else valve_closed) (wanted-settle m v c.ss ∙ covered),
)
