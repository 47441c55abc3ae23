-- ===== src/Lib.antt =====
-- bbd is an irrigation controller. A receiver (server/src/receiver) answers the requests of
-- devices from a PostgreSQL database (server/src/db/bbd.sql) that a web server writes; a device
-- (client/daemon) asks for its valves and schedules over a TCP connection per request and opens
-- and closes its valves by the clock. The two programs share no code, only the format on the
-- wire.
--
-- The files:
--   Prelude      lists, options and tests on the native numbers, and the library's names; Permuted
--                has what does not depend on the order of a list.
--   Bytes        memory as lists of bytes, words in the host's byte order, htons, malloc, recv.
--   Text         text as lists of bytes, decimal numbers and stol. Decimal and Signed have what is
--                read back, Lines what all lines of the logs begin with.
--   Schedule     `struct schedule` of both programs.
--   Database     the tables and functions of bbd.sql. Laws: what the receiver sees of the web
--                server's changes. Updates: the receiver's own two updates. Order is ORDER BY, and
--                Listings the queries of the web server's pages, with their Laws; Unordered is on
--                tables that differ in the order of their rows.
--   Server       the receiver. SocketData is socket_data.cpp; Db is db.cpp, with Fetch for rows whose
--                numbers fit a uint16_t and Sent for set_schedules_sent; Main is _run_server of
--                main.cpp, with Listen for its start and the accept loop; Replies tells what a
--                request gets, Keys what of the tables stays. Log is log.cpp, with Tables; Print
--                is schedule.cpp; Daemon is daemon.cpp, with PidFile. Logged is db.cpp and, in
--                Loop, main.cpp once more, with every call of the log: Erased relates them to
--                the functions without, Responses the log to what was sent.
--   Client       the device. State has the static variables, ValveManager and ScheduleManager the two
--                managers, SocketData and Controller the requests, DeviceClient the start-up,
--                TestServer test_server.c, Log log.c. Thread has the scheduler and the setting of
--                schedules in single steps: Round and Bounds are on the thread alone, Race on both.
--                Below the others stand the theorems: Pass, Consistent, Stuck and Bound for the
--                scheduler, Response, Empty, Failure, Cut and Valves for the requests, Start for the start-up,
--                Tables and Numbers for the log.
--   Web          views.py of the web server: the pages that create and deactivate a schedule. Create
--                has what the first does to the table. Listing has the pages that show the tables,
--                and device_click of templates/bbd/devices_index.html, Links the ways from one to
--                another.
--   Wire         the format of the messages, described once. Encode, Decode and Header relate the
--                code of both ends to it, and Overflow shows where it ends.
--   System       both programs on one connection: Fetching, Deactivation, Startup, Testing;
--                Planning goes from the page to the device, Evolution has the steps of all three in
--                any order, with Rows, Pages, Known and Numbers. Unordered is the start-up for tables
--                without an order of their rows.
--   Gsm          the library for the GSM module (GSMSHIELD), which the other parts do not use yet:
--                State is GSM.h; Receive, Command and Setup are GSM.cpp, TextFinder is
--                WideTextFinder.cpp with Value for its numbers, Http is httpGET of inetGSM.cpp with
--                getRestContent of SIM900.cpp, Gprs the rest of inetGSM.cpp, Modem, Phone, Network
--                and Action are SIM900.cpp; Bounds, Attempts, Found, RoundTrip, Content, Request, Registration,
--                Report, Silent, Endless and Code have theorems on them.
--   Tests        concrete data and the theorems at it.
--
-- A function of the source has its name, without a leading underscore; the static variables of
-- the device are the record `Client`, the tables the record `Database`. A function that returns
-- an int gives that number beside the new state, or an Option where only failure matters. An
-- access outside a buffer is a fault, a value of its own (`none` or `fault`); what it leaves of the
-- device's variables is the parameter `wrecked`, of which nothing is assumed. A number of a C
-- type is a native number, and each conversion to uint16_t is written as `u16`. The host's byte
-- order, the contents of a fresh buffer and of unset variables, pqxx, and what the network and
-- the database's connection do are parameters; PqxxLaws has what is taken from the documentation
-- of pqxx. sizeof(struct schedule) is 8 and sizeof(struct schedule_status) is 10, as the usual
-- ABIs have it.
--
-- Loops are recursions on the list that is left or on the number of rounds that are left, so no
-- fuel is needed. The receiver's `while(true)` is a function of the connections that come, and
-- the scheduler's a function of the clock readings of its passes; as a thread it is a step
-- relation, in which the lock stands for the time between `take_lock` and `install`, and each
-- read of an entry outside the lock is a step. A read of
-- the HTTP answer is a recursion on the bytes that come, `waiting` where they end first. A wait
-- for the GSM module is a recursion on what the serial line does at each poll, with `none` while
-- the wait goes on.
--
-- The receiver's functions stand twice, without and with the calls of the log: the second are the
-- same with the writes to the log, in the order of the source. The address of the client and the
-- messages of exceptions are parameters there.
--
-- A SQL query without an order returns the rows in the order of the table, one of those that SQL
-- allows; Database/Unordered and System/Unordered say for what the order does not matter. ORDER BY
-- is an insertion sort: the sorted columns are keys, so no other order of the result is allowed.
--
-- The pages put text of the request into their SQL statements: where it makes another statement
-- (`other_statement`) nothing is said of the tables, and the theorems on sequences of steps are
-- under the condition that it does not. str() raises beyond ASCII, as in the Python 2 that
-- server/docker/web/Dockerfile installs, and an INSERT that is refused uses up a number of the
-- SERIAL.
--
-- Not modelled: the templates, but for device_click, and forms of the web server and what Django
-- does before a view is called, the broken numbers of WideTextFinder.cpp (float), and of SIM900.cpp
-- readSMS, which is deprecated, and the loops that copy the serial line to the console.
-- Makefiles, containers and the database's configuration have no behaviour of their own.
pub mod Prelude
pub mod Bytes
pub mod Schedule
pub mod Database
pub mod Server
pub mod Client
pub mod Wire
pub mod System
pub mod Text
pub mod Web
pub mod Gsm
pub mod Tests
