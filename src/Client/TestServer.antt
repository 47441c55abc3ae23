-- ===== src/Client/TestServer.antt =====
-- client/daemon/src/test_server.c: a program that makes the two requests of the start-up and prints
-- how they end.
use Prim.Native.String.{String}
use bbd.Prelude.{ℕ, zero, suc, Bool, List, ◌++◌}
use bbd.Text.{codes, decimal}
use bbd.Client.SocketData.{Network}
use bbd.Client.State.{Client}
use bbd.Client.ScheduleManager.{sm_init_scheduler}
use bbd.Client.Controller.{Machine, Return, ret, cc_set_valve_info, cc_set_active_schedules}
use bbd.Client.DeviceClient.{initial}

-- The client behind a run, what the calls of printf write, and the exit status.
pub record Run : Type 0 where
  pub client : Client
  pub printed : List ℕ
  pub status : Return

abbrev failure_line : String → ℕ → List ℕ
failure_line call n = codes call ++ (codes " failed: " ++ (decimal n ++ codes "\n"))

abbrev pub tested_schedules : List ℕ → Client × Return → Run
tested_schedules out (c, Return.fault) = record { client = c; printed = out; status = Return.fault }
tested_schedules out (c, ret (suc n)) = record {
  client = c;
  printed = out ++ failure_line "cc_set_active_schedules" (suc n);
  status = ret 2;
}
tested_schedules out (c, ret zero) = record {
  client = c;
  printed = out ++ codes "tests succeeded!\n";
  status = ret 0;
}

abbrev pub tested_valves : Machine → Network → List ℕ → Client × Return → Run
tested_valves m net out (c, Return.fault) = record {
  client = c;
  printed = out;
  status = Return.fault;
}
tested_valves m net out (c, ret (suc n)) = record {
  client = c;
  printed = out ++ failure_line "cc_set_valve_info" (suc n);
  status = ret 1;
}
tested_valves m net out (c, ret zero) =
    tested_schedules (out ++ codes "testing cc_set_active_schedules..\n")
      (cc_set_active_schedules m net c)

abbrev pub tested : Machine → (valves_net schedules_net : Network) → Client × ℕ → Run
tested m valves_net schedules_net (c, suc _) = record {
  client = c;
  printed = codes "";
  status = ret 99;
}
tested m valves_net schedules_net (c, zero) =
    tested_valves m schedules_net (codes "testing cc_set_valve_info..\n")
      (cc_set_valve_info m valves_net c)

-- `main` of the source.
unfoldable pub test_server :
    Machine → (mutex_ok : Bool) → (valves_net schedules_net : Network) → Run
test_server m mutex_ok valves_net schedules_net =
    tested m valves_net schedules_net (sm_init_scheduler mutex_ok initial)
