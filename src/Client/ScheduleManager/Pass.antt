-- ===== src/Client/ScheduleManager/Pass.antt =====
-- schedule_manager.c: what one pass of the scheduler thread does to the schedules and the valves.
use bbd.Prelude.{
  ℕ, Bool, false, ◌&&◌, some, List, [], ◌∷◌, map, ◌≡◌, refl, arith, ◌==◌, leb, if◌then◌else◌, ap,
}
use bbd.Client.State.{ValveState, valve_open, valve_closed, ScheduleStatus, Client}
use bbd.Client.ValveManager.{get_entry}
use bbd.Client.ValveManager.Laws.{get_entry-vm_set_valve_state}
use bbd.Client.ScheduleManager.{opens, closes, activate, deactivate, scan, pass}

-- The window of a schedule, both ends included.
abbrev pub in_window : ℕ → ScheduleStatus → Bool
in_window m s = leb s.start m && leb m s.stop

abbrev pub settle : ℕ → ScheduleStatus → ScheduleStatus
settle m s = record s { is_active = in_window m s }

-- What the pass at minute `m` makes of valve `v` when it comes to the entry `s`.
abbrev pub turned : ℕ → ℕ → ValveState → ScheduleStatus → ValveState
turned m v st s =
    if s.valve_id == v
    then if opens m s then valve_open else if closes m s then valve_closed else st
    else st

abbrev pub turned_all : ℕ → ℕ → ValveState → List ScheduleStatus → ValveState
turned_all m v st [] = st
turned_all m v st (s ∷ ss) = turned_all m v (turned m v st s) ss

check_entry-settle :
    (m : ℕ) (c : Client) (s : ScheduleStatus) → (deactivate m (activate m (c, s))).1 ≡ settle m s
unfolding activate deactivate
check_entry-settle m c s = ground arith

scan-settle : (m : ℕ) (c : Client) (ss : List ScheduleStatus) → (scan m c ss).1 ≡ map (settle m) ss
unfolding scan
scan-settle m c [] = refl
scan-settle m c (s ∷ ss) =
    cc (check_entry-settle m c s, scan-settle m (deactivate m (activate m (c, s))).0 ss)

check_entry-turned :
    (m v : ℕ) (c : Client) (s : ScheduleStatus) {st : ValveState}
    → get_entry v c.valves_map ≡ some st
    → get_entry v (deactivate m (activate m (c, s))).0.valves_map ≡ some (turned m v st s)
unfolding activate deactivate
check_entry-turned m v c s h = ground (
  arith,
  get_entry-vm_set_valve_state c s.valve_id v valve_open,
  get_entry-vm_set_valve_state c s.valve_id v valve_closed,
)

scan-turned_all :
    (m v : ℕ) (c : Client) (ss : List ScheduleStatus) {st : ValveState}
    → get_entry v c.valves_map ≡ some st
    → get_entry v (scan m c ss).0.valves_map ≡ some (turned_all m v st ss)
unfolding scan
scan-turned_all m v c [] h = h
scan-turned_all m v c (s ∷ ss) h =
    scan-turned_all m v (deactivate m (activate m (c, s))).0 ss (check_entry-turned m v c s h)

-- After a pass every schedule is marked active exactly if the minute lies in its window, both ends
-- included, whatever the marks were before; the schedules themselves and their order stay.
pub pass-settle : (m : ℕ) (c : Client) → (pass m c).ss ≡ map (settle m) c.ss
unfolding pass
pass-settle m c = scan-settle m c c.ss

-- The state of a valve of the device after a pass is that before it, with the openings and
-- closings of the schedules on it carried out in the order of the array.
pub pass-turned_all :
    (m v : ℕ) (c : Client) {st : ValveState}
    → get_entry v c.valves_map ≡ some st
    → get_entry v (pass m c).valves_map ≡ some (turned_all m v st c.ss)
unfolding pass
pass-turned_all m v c h = scan-turned_all m v c c.ss h

settle-settled :
    (m : ℕ) (s : ScheduleStatus) → (opens m (settle m s) ≡ false) × (closes m (settle m s) ≡ false)
unfolding opens closes
settle-settled m s = (ground arith, ground arith)

scan-quiet :
    (m : ℕ) (c : Client) (ss : List ScheduleStatus)
    → scan m c (map (settle m) ss) ≡ (c, map (settle m) ss)
unfolding scan activate deactivate
scan-quiet m c [] = refl
scan-quiet m c (s ∷ ss) = rw ((settle-settled m s).0, (settle-settled m s).1, scan-quiet m c ss)

pass-settled :
    (m : ℕ) (d : Client) (ss : List ScheduleStatus) → d.ss ≡ map (settle m) ss → pass m d ≡ d
unfolding pass
pass-settled m d ss e = ground (arith, ap (scan m d) e, scan-quiet m d ss)

-- A second pass within the same minute does nothing, and logs nothing.
pub pass_idem : (m : ℕ) (c : Client) → pass m (pass m c) ≡ pass m c
pass_idem m c = pass-settled m (pass m c) c.ss (pass-settle m c)
