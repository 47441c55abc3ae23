-- ===== src/Client/Log.antt =====
-- client/daemon/src/log/log.c: the file of the logs, and the lines as they are written.
pub mod Numbers
pub mod Tables
use Prim.Native.String.{String}
use bbd.Prelude.{◌==◌, if◌then◌else◌, ℕ, Bool, true, false, List, [], ◌∷◌, ◌++◌}
use bbd.Text.{codes, decimal, pad}
use bbd.Schedule.{Schedule}
use bbd.Client.SocketData.{
  msg_type, get_device_valves_msg, get_active_sches_msg, check_new_schedules_msg,
}
use bbd.Client.State.{
  ValveState, valve_open, valve_closed, Event, log_info, log_error, log_request, log_response,
  log_set_valves, log_set_schedules, log_valve_newstate,
}
use bbd.Text.Lines.{stamp, green, red, yellow, blue, purple, no_color}

pub data LogFd : Type 0 where
  null stdout file closed : LogFd

abbrev pub init_logs_stdout : LogFd
init_logs_stdout = stdout

-- `opened` says whether fopen succeeds; behind the file are what is printed and what the function
-- returns.
unfoldable pub init_logs_file : ℕ → (opened : Bool) → LogFd × (List ℕ × ℕ)
init_logs_file now true = (file, ([], 0))
init_logs_file now false = (
  null,
  (
    codes "["
        ++ (decimal now
            ++ (codes "]"
                ++ (red
                    ++ (codes " Error initializing logs"
                        ++ (no_color ++ codes ": could not open log file\n"))))),
    1,
  ),
)

unfoldable pub close_logs : LogFd → LogFd
close_logs stdout = stdout
close_logs null = closed
close_logs file = closed
close_logs closed = closed

unfoldable pub sd_req_type_to_str : ℕ → List ℕ
unfolding msg_type
sd_req_type_to_str req_type =
    if req_type == msg_type get_active_sches_msg
    then codes "GET_ACTIVE_SCHES_MSG"
    else if req_type == msg_type get_device_valves_msg
    then codes "GET_DEVICE_VALVES_MSG"
    else if req_type == msg_type check_new_schedules_msg
    then codes "CHECK_NEW_SCHEDULES_MSG"
    else codes "UNIDENTIFIED"

unfoldable pub info : ℕ → List ℕ → List ℕ
info now str = stamp now green (codes "info") ++ (str ++ codes "\n")

unfoldable pub error : ℕ → List ℕ → List ℕ
error now str = stamp now red (codes "error") ++ (str ++ codes "\n")

-- IP and PORT of server_info.h, which all calls of log_request and log_response pass on.
abbrev pub ip : List ℕ
ip = codes "127.0.0.1"

abbrev pub port : ℕ
port = 7777

unfoldable pub request : ℕ → (ip : List ℕ) → (port msg_type : ℕ) → List ℕ
unfolding sd_req_type_to_str
request now ip port msg_type =
    stamp now yellow (codes "req")
    ++ (codes "[to:"
        ++ (ip
            ++ (codes ", port:"
                ++ (decimal port
                    ++ (codes ", msg_type:" ++ (sd_req_type_to_str msg_type ++ codes "]\n"))))))

unfoldable pub response : ℕ → (ip : List ℕ) → (msg_type rsp_len : ℕ) → List ℕ
unfolding sd_req_type_to_str
response now ip msg_type rsp_len =
    stamp now blue (codes "rsp")
    ++ (codes "[from_ip:"
        ++ (ip
            ++ (codes ", msg_type:"
                ++ (sd_req_type_to_str msg_type
                    ++ (codes ", rsp_len:" ++ (decimal rsp_len ++ codes "]\n"))))))

-- The loop of log_set_valves: a space stands behind every number but the last.
unfoldable pub valve_numbers : List ℕ → List ℕ
valve_numbers [] = []
valve_numbers (v ∷ []) = decimal v
valve_numbers (v ∷ w ∷ valve_ids) = decimal v ++ (codes " " ++ valve_numbers (w ∷ valve_ids))

unfoldable pub set_valves : ℕ → List ℕ → List ℕ
unfolding valve_numbers
set_valves now valve_ids =
    stamp now purple (codes "set_valves") ++ (codes "[" ++ (valve_numbers valve_ids ++ codes "]\n"))

-- "\n[%11u %11u %11u %11u]"
abbrev pub schedule_row : Schedule → List ℕ
schedule_row s =
    codes "\n["
    ++ (pad 11 (decimal s.schedule_id)
        ++ (codes " "
            ++ (pad 11 (decimal s.valve_id)
                ++ (codes " "
                    ++ (pad 11 (decimal s.start)
                        ++ (codes " " ++ (pad 11 (decimal s.stop) ++ codes "]")))))))

unfoldable pub schedule_rows : List Schedule → List ℕ
schedule_rows [] = []
schedule_rows (s ∷ sches) = schedule_row s ++ schedule_rows sches

-- The table of log_set_schedules, behind its tag.
unfoldable pub schedule_table : List Schedule → List ℕ
unfolding schedule_rows
schedule_table sches =
    codes "["
    ++ (pad 11 (codes "schedule_id")
        ++ (codes " "
            ++ (pad 11 (codes "valve_id")
                ++ (codes " "
                    ++ (pad 11 (codes "start")
                        ++ (codes " "
                            ++ (pad 11 (codes "stop")
                                ++ (codes "]" ++ (schedule_rows sches ++ codes "\n")))))))))

unfoldable pub set_schedules : ℕ → List Schedule → List ℕ
unfolding schedule_table
set_schedules now sches =
    (codes "["
      ++ (decimal now
          ++ (codes "] " ++ (purple ++ (codes "set_schedules" ++ (no_color ++ codes ":\n"))))))
    ++ schedule_table sches

-- The number of the enum.
abbrev pub state_number : ValveState → ℕ
state_number valve_closed = 0
state_number valve_open = 1

-- CYAN_C is defined as the code of purple.
unfoldable pub valve_newstate : ℕ → (valve_id : ℕ) → ValveState → List ℕ
valve_newstate now valve_id v_state =
    stamp now purple (codes "valve_newstate")
    ++ (codes "[valve_id:"
        ++ (decimal valve_id
            ++ (codes " newstate:" ++ (decimal (state_number v_state) ++ codes "]\n"))))

-- What an event of the client writes.
unfoldable pub render : ℕ → Event → List ℕ
unfolding info error request response set_valves set_schedules valve_newstate
render now (log_info str) = info now (codes str)
render now (log_error str) = error now (codes str)
render now (log_request type) = request now ip port (msg_type type)
render now (log_response type rsp_len) = response now ip (msg_type type) rsp_len
render now (log_set_valves valve_ids) = set_valves now valve_ids
render now (log_set_schedules sches) = set_schedules now sches
render now (log_valve_newstate valve_id v_state) = valve_newstate now valve_id v_state
