-- ===== src/Tests/Text.antt =====
-- The theorems on what the programs write: logs, schedules and the file of the process.
use bbd.Prelude.{ℕ, refl, ◌≡◌, true, none, some, List, [], ◌∷◌, ◌++◌, length, arith}
use bbd.Text.{codes, pos}
use bbd.Client.Log as Client
use bbd.Client.Log.Numbers.{read_numbers, read_numbers-valve_numbers}
use bbd.Client.Log.Tables.{schedule_table-equal}
use bbd.Server.Log as Server
use bbd.Server.Log.Tables.{length-schedule_table}
use bbd.Server.Daemon.{Process, child, returned, daemonize, killed, send_stop_signal}
use bbd.Server.Daemon.PidFile.{daemonize-send_stop_signal}
use bbd.Server.Print.{print, read_schedule, read_schedule-print}
use bbd.Tests.Data.{dawn, dusk, dawn-IsU16, dusk-IsU16}

schedule_table-equal_example :
    Client.schedule_table (dawn ∷ dusk ∷ []) ≡ Server.schedule_table (dawn ∷ dusk ∷ [])
schedule_table-equal_example = schedule_table-equal (dawn ∷ dusk ∷ [])

-- A test: the row of a schedule.
dawn_row : Server.schedule_row dawn ≡ codes "[          1           3         360         375]\n"
unfolding bbd.Text.decimal
dawn_row = refl

length-schedule_table_example : length (Server.schedule_table (dawn ∷ dusk ∷ [])) ≡ 150
length-schedule_table_example =
    length-schedule_table (dawn ∷ dusk ∷ []) (dawn-IsU16, (dusk-IsU16, tt))

read_numbers_example :
    read_numbers 2 (Client.valve_numbers (3 ∷ 104 ∷ []) ++ codes "]\n") ≡ 3 ∷ 104 ∷ []
read_numbers_example = read_numbers-valve_numbers 2 (3 ∷ 104 ∷ []) (omega arith)

-- A test: the line of two valves.
two_valves : Client.valve_numbers (3 ∷ 104 ∷ []) ≡ codes "3 104"
unfolding Client.valve_numbers bbd.Text.decimal
two_valves = refl

-- A test: a schedule of fifteen minutes.
dawn_printed : print dawn ≡ codes "{id:[1], valve_id:[3], start:[6:0], stop:[6:15]}"
unfolding print bbd.Text.decimal
dawn_printed = refl

read_schedule-print_example : read_schedule (print dawn) ≡ dawn
read_schedule-print_example = read_schedule-print dawn

abbrev shell : Process
shell = record { cwd = codes "/root"; umask = 18; sigusr1 = none; files = [] }

abbrev pid_file : List ℕ
pid_file = codes "/var/run/bbd_server.pid"

daemonize_example :
    (d : Process) × (daemonize child (pos 4711) true pid_file 5 shell ≡ returned d)
    × (d.sigusr1 ≡ some 5)
    × (send_stop_signal pid_file (record d { cwd = codes "/root" }) ≡ killed (pos 4711))
daemonize_example =
    daemonize-send_stop_signal shell (pos 4711) pid_file (codes "/root") 5 (omega arith) refl

-- A test: the line of a request, whose tag stands between the codes of its colour.
check_logged :
    Client.request 700 Client.ip Client.port 3
    ≡ codes "[700] "
      ++ (27 ∷ codes "[1;33mreq"
          ++ (27 ∷ codes "[0m: [to:127.0.0.1, port:7777, msg_type:CHECK_NEW_SCHEDULES_MSG]\n"))
unfolding Client.request bbd.Client.SocketData.msg_type bbd.Text.decimal
check_logged = refl
