-- ===== src/Server/Main/Listen.antt =====
-- main.cpp: the start of the server, and the wait for a connection.
use bbd.Prelude.{ℕ, zero, suc, Bool, true, false, Option, none, some, List, [], ◌∷◌}
use bbd.Bytes.{Incoming}
use bbd.Database.{Database}
use bbd.Server.Main.{Env, Reply, run_server}

-- The test after `socket` is on the pointer, which is not negative: only `bind` can fail, and does so
-- where no socket was created.
unfoldable pub start_socket_server : (bound : Bool) → ℕ
start_socket_server true = 0
start_socket_server false = 2

-- The loop that tries again every five seconds: what the later tries are not needed for is left.
-- `none` while no try has succeeded.
unfoldable pub start_loop : List Bool → Option (List Bool)
unfolding start_socket_server
start_loop [] = none
start_loop (bound ∷ tries) = elim (start_socket_server bound) [
  | zero ↦ some tries
  | suc _ ↦ start_loop tries
]

-- The loop round `accept`, over what the calls give: a failure is tried again, whatever it is.
unfoldable pub accept_loop : List (Option (Env × Incoming)) → List (Env × Incoming)
accept_loop [] = []
accept_loop (none ∷ calls) = accept_loop calls
accept_loop (some conn ∷ calls) = conn ∷ accept_loop calls

-- `_run_server` up to the calls of `accept` that have been made; `none` is its return with 1, where
-- the file of the logs cannot be opened. No connection is served before the socket is open.
unfoldable pub start_server :
    (logs_open : Bool)
    → List Bool
    → Database
    → List (Option (Env × Incoming))
    → Option (Database × List Reply)
unfolding start_loop accept_loop
start_server false tries db calls = none
start_server true tries db calls = elim (start_loop tries) [
  | none ↦ some (db, [])
  | some _ ↦ some (run_server db (accept_loop calls))
]
