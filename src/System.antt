-- ===== src/System.antt =====
-- The two programs together: a request of the client, the server's answer from the database, and
-- what the client makes of it. The definitions only compose those of the programs.
pub mod Fetching
pub mod Deactivation
pub mod Startup
pub mod Unordered
pub mod Testing
pub mod Planning
pub mod Evolution
use bbd.Prelude.{ℕ, List, []}
use bbd.Bytes.{Incoming}
use bbd.Database.{Database}
use bbd.Client.SocketData.{
  RequestType, get_device_valves_msg, get_active_sches_msg, check_new_schedules_msg, connected,
}
use bbd.Client.State.{Client}
use bbd.Client.Controller.{
  Machine, Return, cc_set_valve_info, cc_set_active_schedules, cc_check_new_schedules,
}
use bbd.Client.Controller.Response.{request_header}
use bbd.Server.Main.{Env, Reply, silent, replied, fault, serve}

-- What the client receives: a connection that closes without a reply gives no bytes.
abbrev pub received : Reply → Incoming
received silent = Incoming.bytes []
received (replied msg) = Incoming.bytes msg
received fault = Incoming.bytes []

abbrev pub served : Env → Database → RequestType → Database × Reply
served env db type = serve env db (Incoming.bytes (request_header type))

pub ask_valves : Machine → Env → Database → Client → Client × Return
ask_valves m env db c =
    cc_set_valve_info m (connected (received (served env db get_device_valves_msg).1)) c

pub ask_schedules : Machine → Env → Database → Client → Client × Return
ask_schedules m env db c =
    cc_set_active_schedules m (connected (received (served env db get_active_sches_msg).1)) c

pub ask_check : Machine → Env → Database → Client → Client × Return
ask_check m env db c =
    cc_check_new_schedules m (connected (received (served env db check_new_schedules_msg).1)) c
