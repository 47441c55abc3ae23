-- ===== src/Server/Log.antt =====
-- server/src/receiver/src/log/log.cpp: the file of the logs, and the lines as they are written.
pub mod Tables
use Prim.Native.String.{String}
use bbd.Prelude.{ℕ, Bool, true, false, List, [], ◌∷◌, ◌++◌}
use bbd.Text.{codes, decimal, pad}
use bbd.Schedule.{Schedule}
use bbd.Server.SocketData.{
  RequestType, get_device_valves_msg, get_active_sches_msg, check_new_schedules_msg, unidentified,
}
use bbd.Text.Lines.{stamp, green, red, yellow, blue, purple, no_color}

pub data LogFd : Type 0 where
  null stdout file closed : LogFd

abbrev pub init_logs_stdout : LogFd
init_logs_stdout = stdout

-- `opened` says whether fopen succeeds; behind the file are what is printed and what the function
-- returns.
unfoldable pub init_logs_file : ℕ → (opened : Bool) → LogFd × (List ℕ × ℕ)
init_logs_file now true = (file, ([], 0))
init_logs_file now false = (
  null,
  (
    codes "["
        ++ (decimal now
            ++ (codes "]"
                ++ (red
                    ++ (codes " Error initializing logs"
                        ++ (no_color ++ codes ": could not open log file\n"))))),
    1,
  ),
)

unfoldable pub close_logs : LogFd → LogFd
close_logs stdout = stdout
close_logs null = closed
close_logs file = closed
close_logs closed = closed

unfoldable pub sd_req_type_to_str : RequestType → List ℕ
sd_req_type_to_str get_active_sches_msg = codes "GET_ACTIVE_SCHES_MSG"
sd_req_type_to_str get_device_valves_msg = codes "GET_DEVICE_VALVES_MSG"
sd_req_type_to_str check_new_schedules_msg = codes "CHECK_NEW_SCHEDULES_MSG"
sd_req_type_to_str (unidentified _) = codes "UNIDENTIFIED"

unfoldable pub info : ℕ → List ℕ → List ℕ
info now str = stamp now green (codes "info") ++ (str ++ codes "\n")

unfoldable pub error : ℕ → List ℕ → List ℕ
error now str = stamp now red (codes "error") ++ (str ++ codes "\n")

-- log_error with a description.
unfoldable pub error_in : ℕ → (descr error : List ℕ) → List ℕ
error_in now descr error = stamp now red (codes "error " ++ descr) ++ (error ++ codes "\n")

unfoldable pub request : ℕ → (ip : List ℕ) → (device_id : ℕ) → RequestType → List ℕ
unfolding sd_req_type_to_str
request now ip device_id msg_type =
    stamp now yellow (codes "req")
    ++ (codes "[from_ip:"
        ++ (ip
            ++ (codes ", dev_id:"
                ++ (decimal device_id
                    ++ (codes ", msg_type:" ++ (sd_req_type_to_str msg_type ++ codes "]\n"))))))

unfoldable pub response : ℕ → (ip : List ℕ) → (device_id : ℕ) → RequestType → (msg_len : ℕ) → List ℕ
unfolding sd_req_type_to_str
response now ip device_id msg_type msg_len =
    stamp now blue (codes "rsp")
    ++ (codes "[to_ip:"
        ++ (ip
            ++ (codes ", dev_id:"
                ++ (decimal device_id
                    ++ (codes ", msg_type:"
                        ++ (sd_req_type_to_str msg_type
                            ++ (codes ", msg_len:" ++ (decimal msg_len ++ codes "]\n"))))))))

-- "[%11u %11u %11u %11u]\n"
abbrev pub schedule_row : Schedule → List ℕ
schedule_row s =
    codes "["
    ++ (pad 11 (decimal s.schedule_id)
        ++ (codes " "
            ++ (pad 11 (decimal s.valve_id)
                ++ (codes " "
                    ++ (pad 11 (decimal s.start)
                        ++ (codes " " ++ (pad 11 (decimal s.stop) ++ codes "]\n")))))))

unfoldable pub schedule_rows : List Schedule → List ℕ
schedule_rows [] = []
schedule_rows (s ∷ sches) = schedule_row s ++ schedule_rows sches

-- log_db_response for a vector of schedules, behind its tag.
unfoldable pub schedule_table : List Schedule → List ℕ
unfolding schedule_rows
schedule_table vec =
    codes "["
    ++ (pad 11 (codes "schedule_id")
        ++ (codes " "
            ++ (pad 11 (codes "valve_id")
                ++ (codes " "
                    ++ (pad 11 (codes "start")
                        ++ (codes " "
                            ++ (pad 11 (codes "stop") ++ (codes "]\n" ++ schedule_rows vec))))))))

-- The tag of log_db_response, "db_fetch", is followed by a line break.
abbrev pub fetch_stamp : ℕ → List ℕ
fetch_stamp now =
    codes "["
    ++ (decimal now ++ (codes "] " ++ (purple ++ (codes "db_fetch" ++ (no_color ++ codes ":\n")))))

unfoldable pub db_schedules : ℕ → List Schedule → List ℕ
unfolding schedule_table
db_schedules now vec = fetch_stamp now ++ schedule_table vec

unfoldable pub valve_rows : List ℕ → List ℕ
valve_rows [] = []
valve_rows (v ∷ vec) = (codes "[" ++ (pad 11 (decimal v) ++ codes "]\n")) ++ valve_rows vec

-- log_db_response for a vector of numbers.
unfoldable pub db_valves : ℕ → List ℕ → List ℕ
unfolding valve_rows
db_valves now vec =
    fetch_stamp now ++ (codes "[" ++ (pad 11 (codes "valve_id") ++ (codes "]\n" ++ valve_rows vec)))

-- log_db_response for one number.
unfoldable pub db_update : ℕ → (msg : List ℕ) → (id : ℕ) → List ℕ
db_update now msg id =
    stamp now purple (codes "db_update")
    ++ (codes " " ++ (msg ++ (codes "  {id:" ++ (decimal id ++ codes "}\n"))))
