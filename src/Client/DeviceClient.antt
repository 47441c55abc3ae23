-- ===== src/Client/DeviceClient.antt =====
-- client/daemon/src/device_client.c: the order of the start-up, and what it returns where a part
-- of it fails.
pub mod Start
use bbd.Prelude.{ℕ, zero, suc, Bool, ◌∷◌, []}
use bbd.Client.SocketData.{Network}
use bbd.Client.State.{Client, log_info}
use bbd.Client.ScheduleManager.{sm_init_scheduler, sm_start_scheduler, sm_wait_on_thread}
use bbd.Client.Controller.{Machine, Return, ret, logged, cc_set_valve_info, cc_set_active_schedules}
use bbd.Client.Controller as Controller

-- The static variables before `main`.
unfoldable pub initial : Client
initial = record { valves_map = []; ss = []; schedules_set = Bool.false; log = [] }

-- What the system does for the calls of the start-up: the mutex, the network for each of the two
-- requests, and the thread.
pub record Startup : Type 0 where
  pub mutex_ok : Bool
  pub valves_net : Network
  pub schedules_net : Network
  pub thread_ok : Bool

start_thread : Startup → Client × Return → Client × Return
start_thread s (c, Return.fault) = (c, Return.fault)
start_thread s (c, ret (suc _)) = (c, ret 3)
start_thread s (c, ret zero) =
    started (sm_start_scheduler s.thread_ok (logged (log_info "starting schedule manager") c))
  where
    started : Client × ℕ → Client × Return
    started (d, zero) = (d, ret 0)
    started (d, suc _) = (d, ret 4)

fetch_schedules : Machine → Startup → Client × Return → Client × Return
unfolding start_thread
fetch_schedules m s (c, Return.fault) = (c, Return.fault)
fetch_schedules m s (c, ret (suc _)) = (c, ret 2)
fetch_schedules m s (c, ret zero) = start_thread s (
    cc_set_active_schedules m s.schedules_net
      (logged (log_info "updating schedule info from server") c))

fetch_valves : Machine → Startup → Client × ℕ → Client × Return
unfolding fetch_schedules
fetch_valves m s (c, suc _) = (c, ret 1)
fetch_valves m s (c, zero) =
    fetch_schedules m s
      (cc_set_valve_info m s.valves_net (logged (log_info "updating valve info from server") c))

-- `_start` of the source.
unfoldable pub start : Machine → Startup → Client × Return
unfolding fetch_valves sm_init_scheduler sm_start_scheduler
start m s = fetch_valves m s (sm_init_scheduler s.mutex_ok initial)

-- `main` of the source; `joined` and `destroyed` are for pthread_join and pthread_mutex_destroy.
unfoldable pub main : Machine → Startup → (joined destroyed : Bool) → Client × Return
unfolding start sm_wait_on_thread
main m s joined destroyed = waited (start m s)
  where
    waited : Client × Return → Client × Return
    waited (c, Return.fault) = (c, Return.fault)
    waited (c, ret (suc _)) = (c, ret 1)
    waited (c, ret zero) = elim (sm_wait_on_thread joined destroyed) [
      | zero ↦ (c, ret 0)
      | suc _ ↦ (c, ret 2)
    ]
