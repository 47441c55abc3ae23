-- ===== src/Server/Logged/Erased/Rounds.antt =====
-- main.cpp: the loop of the server, with the calls of the log and without.
use bbd.Prelude.{◌≡◌, refl, ap, ◌∙◌, Bool, true, false, Option, none, some, List, [], ◌∷◌, map}
use bbd.Bytes.{Incoming}
use bbd.Database.{Database}
use bbd.Server.Main.{Env, Reply, silent, replied, fault, run_server, stop_at_fault}
use bbd.Server.Main.Listen.{start_loop, start_socket_server, accept_loop, start_server}
use bbd.Server.Logged.{Logged, Event, error, behind}
use bbd.Server.Logged.Erased.{serve_logged-erased}
use bbd.Server.Logged.Loop.{
  serve_logged, Accepted, again, error_number, connection, next_round, rounds_logged, started,
  start_loop_logged, start_server_logged,
}

-- What the loop without logs is told of a call of `accept`.
abbrev pub call_of : Accepted → Option (Env × Incoming)
call_of again = none
call_of error_number = none
call_of (connection out sock) = some (out.env, sock)

next_round-erased :
    (r : Logged (Database × Reply)) (rest : Logged (Database × List Reply))
    → (next_round r rest).0 ≡ stop_at_fault r.0.1 rest.0 r.0.0
unfolding stop_at_fault
next_round-erased ((db, fault), events) rest = refl
next_round-erased ((db, silent), events) rest = refl
next_round-erased ((db, replied msg), events) rest = refl

rounds_logged-erased :
    (db : Database) (calls : List Accepted)
    → (rounds_logged db calls).0 ≡ run_server db (accept_loop (map call_of calls))
unfolding rounds_logged run_server accept_loop
rounds_logged-erased db [] = refl
rounds_logged-erased db (again ∷ calls) = rounds_logged-erased db calls
rounds_logged-erased db (error_number ∷ calls) = rounds_logged-erased db calls
rounds_logged-erased db (connection out sock ∷ calls) =
    let r = serve_logged out db sock in
    next_round-erased r (rounds_logged r.0.0 calls)
    ∙ ap (λ rest. stop_at_fault r.0.1 rest r.0.0) (rounds_logged-erased r.0.0 calls)
    ∙ ap
        (λ (t : Database × Reply).
          stop_at_fault t.1 (run_server t.0 (accept_loop (map call_of calls))) t.0)
        (serve_logged-erased out db sock)

abbrev pub erased : Option (Logged (Database × List Reply)) → Option (Database × List Reply)
erased none = none
erased (some r) = some r.0

started-behind :
    (db : Database) (calls : List Accepted) (events : List Event) (r : Logged (Option (List Bool)))
    → (started db calls (behind events r)).0 ≡ (started db calls r).0
started-behind db calls events (none, _) = refl
started-behind db calls events (some _, _) = refl

started-erased :
    (db : Database) (calls : List Accepted) (tries : List Bool)
    → some (started db calls (start_loop_logged tries)).0
      ≡ start_server true tries db (map call_of calls)
unfolding start_server start_loop start_loop_logged start_socket_server
started-erased db calls [] = refl
started-erased db calls (true ∷ tries) = ap some (rounds_logged-erased db calls)
started-erased db calls (false ∷ tries) =
    ap some (started-behind db calls (error "binding socket!" ∷ []) (start_loop_logged tries))
    ∙ started-erased db calls tries

-- The receiver with the calls of its log serves as the model without them does: from the same
-- start, tables and connections it has the same tables and replies, or returns 1 in the same case,
-- whatever addresses and messages of exceptions stand in the log.
pub start_server_logged-erased :
    (logs_open : Bool) (tries : List Bool) (db : Database) (calls : List Accepted)
    → erased (start_server_logged logs_open tries db calls)
      ≡ start_server logs_open tries db (map call_of calls)
unfolding start_server start_server_logged
start_server_logged-erased false tries db calls = refl
start_server_logged-erased true tries db calls = started-erased db calls tries
