-- ===== src/Client/State.antt =====
-- The static variables of valve_manager.c and schedule_manager.c, and the lines of log.c as events.
use Prim.Native.String.{String}
use bbd.Prelude.{ℕ, Bool, List}
use bbd.Schedule.{Schedule}
use bbd.Client.SocketData.{RequestType}

pub data ValveState : Type 0 where
  valve_closed valve_open : ValveState

pub record ValveMapEntry : Type 0 where
  pub v_id : ℕ
  pub v_state : ValveState

pub record ScheduleStatus : Type 0 where
  pub sche : Schedule
  pub open sche use *
  pub is_active : Bool

-- One line of the log, or of a list that log.c prints.
pub data Event : Type 0 where
  log_info log_error : String → Event
  log_request : RequestType → Event
  log_response : RequestType → (rsp_len : ℕ) → Event
  log_set_valves : List ℕ → Event
  log_set_schedules : List Schedule → Event
  log_valve_newstate : ℕ → ValveState → Event

-- `valves_map` is the array of length `_n_valves`, and `ss` that of length `_ss_len`. The newest
-- event stands first.
pub record Client : Type 0 where
  pub valves_map : List ValveMapEntry
  pub ss : List ScheduleStatus
  pub schedules_set : Bool
  pub log : List Event
