-- ===== src/Client/Thread/Bounds.antt =====
-- schedule_manager.c: while nobody sets new schedules, the thread stays inside its array.
use bbd.Prelude.{
  ℕ, zero, suc, ◌+◌, ◌<◌, ◌≡◌, ◌≢◌, refl, sym, ap, ◌∙◌, Bool, true, false, some, List, [], ◌∷◌, map,
  length, arith, Bool-cases, inl, inr, ltb, leb, not, if◌then◌else◌,
}
use mathlib.Core.Path.{subst}
use bbd.Schedule.{Schedule}
use bbd.Client.State.{ValveState, valve_open, valve_closed, ScheduleStatus, Client}
use bbd.Client.ValveManager.{vm_set_valve_state}
use bbd.Client.ValveManager.Laws.{vm_set_valve_state_status}
use bbd.Client.ScheduleManager.{Tm, minutes}
use bbd.Client.Thread.{
  Pc, clock, crashed, condition, test_open, open_start, open_stop, opening, test_close, close_start,
  close_stop, closing, outside, World, entry, write_entry, goto, thread_step,
}

-- The thread alone, from before its first round on.
pub data Alone (c : Client) : World → Type 0 where
  started : Alone c (record { client = c; pc = clock; setter = outside })
  tick :
      {w : World} → Alone c w → (t : Tm) → w.pc ≡ clock → Alone c (goto w (condition (minutes t) 0))
  advance : {w : World} → Alone c w → Alone c (thread_step w)

abbrev InBounds : List ScheduleStatus → Pc → Type 0
InBounds ss clock = Unit
InBounds ss crashed = ⊥
InBounds ss (condition m i) = Unit
InBounds ss (test_open m i) = i < length ss
InBounds ss (open_start m i) = i < length ss
InBounds ss (open_stop m i) = i < length ss
InBounds ss (opening m i) = i < length ss
InBounds ss (test_close m i) = i < length ss
InBounds ss (close_start m i) = i < length ss
InBounds ss (close_stop m i) = i < length ss
InBounds ss (closing m i) = i < length ss

abbrev schedules_of : Client → List Schedule
schedules_of c = map (λ s. s.sche) c.ss

abbrev ids_of : Client → List ℕ
ids_of c = map (λ v. v.v_id) c.valves_map

record Kept (c : Client) (w : World) : Type 0 where
  nobody_else : w.setter ≡ outside
  in_bounds : InBounds w.client.ss w.pc
  same_schedules : schedules_of w.client ≡ schedules_of c
  same_ids : ids_of w.client ≡ ids_of c

entry-some :
    (ss : List ScheduleStatus) (i : ℕ)
    → i < length ss
    → (s : ScheduleStatus) × (entry ss i ≡ some s)
unfolding entry
entry-some [] i h = absurd (omega arith)
entry-some (s ∷ ss) zero h = (s, refl)
entry-some (s ∷ ss) (suc i) h = entry-some ss i (omega arith)

length-write_entry :
    (ss : List ScheduleStatus) (i : ℕ) (s : ScheduleStatus)
    → length (write_entry ss i s) ≡ length ss
unfolding write_entry
length-write_entry [] i s = refl
length-write_entry (x ∷ ss) zero s = refl
length-write_entry (x ∷ ss) (suc i) s = ap suc (length-write_entry ss i s)

map-write_entry :
    (ss : List ScheduleStatus) (i : ℕ) (s : ScheduleStatus) (active : Bool)
    → entry ss i ≡ some s
    → map (λ s. s.sche) (write_entry ss i (record s { is_active = active })) ≡ map (λ s. s.sche) ss
unfolding entry write_entry
map-write_entry [] i s active h = refl
map-write_entry (x ∷ ss) zero s active h = cc
map-write_entry (x ∷ ss) (suc i) s active h = ap (◌∷◌ x.sche) (map-write_entry ss i s active h)

abbrev idle_at : Client → Pc → World
idle_at d p = record { client = d; pc = p; setter = outside }

module _ (c : Client) (d : Client) (schedules : schedules_of d ≡ schedules_of c)
    (ids : ids_of d ≡ ids_of c) where
  goto-Kept : (p : Pc) → InBounds d.ss p → Kept c (idle_at d p)
  goto-Kept p h = record {
    nobody_else = refl;
    in_bounds = h;
    same_schedules = schedules;
    same_ids = ids;
  }

  branch-Kept :
      (b : Bool) (p q : Pc)
      → InBounds d.ss p
      → InBounds d.ss q
      → Kept c (idle_at d (if b then p else q))
  branch-Kept true p q h h' = goto-Kept p h
  branch-Kept false p q h h' = goto-Kept q h'

  -- A change of the entry at `i`, after which the thread stands at `p`.
  change-Kept :
      (i : ℕ) (s : ScheduleStatus) (active : Bool) (st : ValveState) (p : Pc)
      → entry d.ss i ≡ some s
      → InBounds (write_entry d.ss i (record s { is_active = active })) p
      → Kept c (
          idle_at
            (record (vm_set_valve_state d s.valve_id st).0 {
              ss = write_entry d.ss i (record s { is_active = active });
            })
            p)
  change-Kept i s active st p e h = record {
    nobody_else = refl;
    in_bounds = h;
    same_schedules = map-write_entry d.ss i s active e ∙ schedules;
    same_ids = (vm_set_valve_state_status d s.valve_id st).1 ∙ ids;
  }

  step-Kept : (p : Pc) → InBounds d.ss p → Kept c (thread_step (idle_at d p))
  unfolding thread_step
  step-Kept clock h = goto-Kept clock h
  step-Kept crashed h = absurd h
  step-Kept (condition m i) h = elim (Bool-cases (ltb i (length d.ss))) [
    | inl e ↦ rw e (goto-Kept (test_open m i) (ground arith))
    | inr e ↦ rw e (goto-Kept clock tt)
  ]
  step-Kept (test_open m i) h =
      let (s, e) = entry-some d.ss i h in
      rw e (branch-Kept (not s.is_active) (open_start m i) (test_close m i) h h)
  step-Kept (open_start m i) h =
      let (s, e) = entry-some d.ss i h in
      rw e (branch-Kept (leb s.start m) (open_stop m i) (test_close m i) h h)
  step-Kept (open_stop m i) h =
      let (s, e) = entry-some d.ss i h in
      rw e (branch-Kept (leb m s.stop) (opening m i) (test_close m i) h h)
  step-Kept (opening m i) h =
      let (s, e) = entry-some d.ss i h in
      rw e (
        change-Kept i s true valve_open (test_close m i) e
          (omega (arith, length-write_entry d.ss i (record s { is_active = true }))))
  step-Kept (test_close m i) h =
      let (s, e) = entry-some d.ss i h in
      rw e (branch-Kept s.is_active (close_start m i) (condition m (i + 1)) h tt)
  step-Kept (close_start m i) h =
      let (s, e) = entry-some d.ss i h in
      rw e (branch-Kept (ltb m s.start) (closing m i) (close_stop m i) h h)
  step-Kept (close_stop m i) h =
      let (s, e) = entry-some d.ss i h in
      rw e (branch-Kept (ltb s.stop m) (closing m i) (condition m (i + 1)) h tt)
  step-Kept (closing m i) h =
      let (s, e) = entry-some d.ss i h in
      rw e (change-Kept i s false valve_closed (condition m (i + 1)) e tt)

thread_step-Kept : (c : Client) (w : World) → Kept c w → Kept c (thread_step w)
thread_step-Kept c w k =
    subst (λ s. Kept c (thread_step (record w { setter = s }))) (sym k.nobody_else)
      (step-Kept c w.client k.same_schedules k.same_ids w.pc k.in_bounds)

Alone-Kept : (c : Client) (w : World) → Alone c w → Kept c w
Alone-Kept c _ started = goto-Kept c c refl refl clock tt
Alone-Kept c _ (tick {w} a t e) =
    let k = Alone-Kept c w a in
    record {
      nobody_else = k.nobody_else;
      in_bounds = tt;
      same_schedules = k.same_schedules;
      same_ids = k.same_ids;
    }
Alone-Kept c _ (advance {w} a) = thread_step-Kept c w (Alone-Kept c w a)

not_crashed : (ss : List ScheduleStatus) (p : Pc) → InBounds ss p → p ≢ crashed
not_crashed ss p h e = subst (InBounds ss) e h

-- As long as no other thread sets schedules, however the steps of the scheduler go and whatever
-- the clock says, it never reads or writes outside its array, and has the schedules and the
-- valves, in their order, with which it was started.
pub Alone-safe :
    (c : Client) (w : World)
    → Alone c w
    → (w.pc ≢ crashed)
      × ((map (λ s. s.sche) w.client.ss ≡ map (λ s. s.sche) c.ss)
          × (map (λ v. v.v_id) w.client.valves_map ≡ map (λ v. v.v_id) c.valves_map))
Alone-safe c w a =
    let k = Alone-Kept c w a in
    (not_crashed w.client.ss w.pc k.in_bounds, (k.same_schedules, k.same_ids))
