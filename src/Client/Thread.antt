-- ===== src/Client/Thread.antt =====
-- schedule_manager.c: the scheduler thread in the steps between which another thread can run. It
-- reads the array without the lock, which it takes round a change of one entry only. Each read
-- of an entry outside the lock is a step of its own.
pub mod Round
pub mod Bounds
pub mod Race
use bbd.Prelude.{
  ℕ, zero, suc, ◌+◌, Bool, true, false, Option, none, some, List, [], ◌∷◌, not, leb, ltb, length,
  if◌then◌else◌, ◌≡◌,
}
use bbd.Schedule.{Schedule}
use bbd.Client.State.{valve_open, valve_closed, ScheduleStatus, Client}
use bbd.Client.ValveManager.{vm_set_valve_state}
use bbd.Client.ScheduleManager.{Tm, minutes, sm_set_new_schedules}

-- Where the thread stands: before it reads the clock, at the loop's condition, before each read of
-- entry `i` in the two tests, of the mark, the start and the stop, and before the lock for each of
-- the two changes.
pub data Pc : Type 0 where
  clock crashed : Pc
  condition : (curr_mins i : ℕ) → Pc
  test_open open_start open_stop opening : (curr_mins i : ℕ) → Pc
  test_close close_start close_stop closing : (curr_mins i : ℕ) → Pc

-- Where the thread that sets new schedules stands: outside, or between `free` and the end.
pub data Setter : Type 0 where
  outside : Setter
  replacing : List Schedule → Setter

pub record World : Type 0 where
  pub client : Client
  pub pc : Pc
  pub setter : Setter

-- The entry at an index of the array, `none` past its end.
unfoldable pub entry : List ScheduleStatus → ℕ → Option ScheduleStatus
entry [] i = none
entry (s ∷ ss) zero = some s
entry (s ∷ ss) (suc i) = entry ss i

unfoldable pub write_entry : List ScheduleStatus → ℕ → ScheduleStatus → List ScheduleStatus
write_entry [] i s = []
write_entry (_ ∷ ss) zero s = s ∷ ss
write_entry (x ∷ ss) (suc i) s = x ∷ write_entry ss i s

-- What a read of `_ss[i]` gives; the array is not there while it is replaced.
abbrev pub read_entry : World → ℕ → Option ScheduleStatus
read_entry w i = elim w.setter [ outside ↦ entry w.client.ss i | replacing _ ↦ none ]

abbrev pub goto : World → Pc → World
goto w p = record w { pc = p }

-- The unlocked read of an entry and what it decides.
abbrev branch :
    World → Option ScheduleStatus → (ScheduleStatus → Bool) → (then_pc else_pc : Pc) → World
branch w none test then_pc else_pc = goto w crashed
branch w (some s) test then_pc else_pc = goto w (if test s then then_pc else else_pc)

-- The change of an entry, inside the lock.
abbrev change : World → ℕ → Option ScheduleStatus → Bool → Pc → World
change w i none active next = goto w crashed
change w i (some s) active next = record w {
  client =
      record (vm_set_valve_state w.client s.valve_id
        (if active then valve_open else valve_closed)).0 {
          ss = write_entry w.client.ss i (record s { is_active = active });
        };
  pc = next;
}

-- The thread waits while the lock is taken.
abbrev locked : World → World → World
locked w after = elim w.setter [ outside ↦ after | replacing _ ↦ w ]

-- One step of the thread; the clock is read by a step of its own.
unfoldable pub thread_step : World → World
unfolding entry write_entry
thread_step w = elim w.pc [
  | clock ↦ w
  | crashed ↦ w
  | condition m i ↦ goto w (if ltb i (length w.client.ss) then test_open m i else clock)
  | test_open m i ↦
      branch w (read_entry w i) (λ s. not s.is_active) (open_start m i) (test_close m i)
  | open_start m i ↦ branch w (read_entry w i) (λ s. leb s.start m) (open_stop m i) (test_close m i)
  | open_stop m i ↦ branch w (read_entry w i) (λ s. leb m s.stop) (opening m i) (test_close m i)
  | opening m i ↦ locked w (change w i (entry w.client.ss i) true (test_close m i))
  | test_close m i ↦
      branch w (read_entry w i) (λ s. s.is_active) (close_start m i) (condition m (i + 1))
  | close_start m i ↦ branch w (read_entry w i) (λ s. ltb m s.start) (closing m i) (close_stop m i)
  | close_stop m i ↦
      branch w (read_entry w i) (λ s. ltb s.stop m) (closing m i) (condition m (i + 1))
  | closing m i ↦ locked w (change w i (entry w.client.ss i) false (condition m (i + 1)))
]

-- The end of sm_set_new_schedules.
abbrev pub installed : World → Option Client → World
installed w none = record w { pc = crashed; setter = outside }
installed w (some c) = record w { client = c; setter = outside }

-- Any order of the steps of the two threads.
pub data Step (w : World) : World → Type 0 where
  tick : (t : Tm) → w.pc ≡ clock → Step w (goto w (condition (minutes t) 0))
  advance : Step w (thread_step w)
  take_lock :
      (sches : List Schedule) → w.setter ≡ outside → Step w (record w { setter = replacing sches })
  install :
      (sches : List Schedule)
      → w.setter ≡ replacing sches
      → Step w (installed w (sm_set_new_schedules w.client sches))

pub data Reach (w : World) : World → Type 0 where
  here : Reach w w
  later : {u v : World} → Reach w u → Step u v → Reach w v
