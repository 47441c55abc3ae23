-- ===== src/Tests/Thread.antt =====
-- The theorems on the steps of the scheduler thread, for a device with two valves.
use bbd.Prelude.{refl, ◌≡◌, ◌≢◌, [], ◌∷◌, map}
use bbd.Client.ScheduleManager.{Tm, minutes, pass}
use bbd.Client.Thread.{World, clock, crashed, condition, outside, goto, thread_step}
use bbd.Client.Thread.Round.{Runs, Runs-pass}
use bbd.Client.Thread.Bounds.{Alone, Alone-safe}
use bbd.Tests.Data.{watering, dawn, dusk}

-- Ten minutes past six in the morning.
abbrev morning_time : Tm
morning_time = record { tm_hour = 6; tm_min = 10 }

Runs-pass_example :
    Runs
      (record { client = watering; pc = condition 1210 0; setter = outside })
      (record { client = pass 1210 watering; pc = clock; setter = outside })
Runs-pass_example = Runs-pass 1210 watering

-- The thread past the test of the first entry.
abbrev past_test : World
past_test = thread_step (
    thread_step (
      goto (record { client = watering; pc = clock; setter = outside })
        (condition (minutes morning_time) 0)))

Alone-past_test : Alone watering past_test
Alone-past_test = Alone.advance (Alone.advance (Alone.tick Alone.started morning_time refl))

Alone-safe_example :
    (past_test.pc ≢ crashed)
    × ((map (λ s. s.sche) past_test.client.ss ≡ dawn ∷ dusk ∷ [])
        × (map (λ v. v.v_id) past_test.client.valves_map ≡ 3 ∷ 4 ∷ []))
Alone-safe_example = Alone-safe watering past_test Alone-past_test
