-- ===== src/Client/Log/Tables.antt =====
-- log.c and log.cpp: the tables of schedules of the two programs.
use bbd.Prelude.{◌≡◌, refl, ap, ◌∙◌, List, [], ◌∷◌, ◌++◌, append_assoc}
use bbd.Text.{codes}
use bbd.Schedule.{Schedule}
use bbd.Client.Log.{schedule_row, schedule_rows, schedule_table}
use bbd.Server.Log as Server

-- The breaks stand before the rows in the one program and behind them in the other.
rows-break :
    (sches : List Schedule)
    → schedule_rows sches ++ codes "\n" ≡ codes "\n" ++ Server.schedule_rows sches
unfolding schedule_rows Server.schedule_rows
rows-break [] = refl
rows-break (s ∷ sches) =
    append_assoc (schedule_row s) (schedule_rows sches) (codes "\n")
    ∙ ap (λ x. schedule_row s ++ x) (rows-break sches)
    ∙ simp append_assoc

-- For the same schedules the client and the server log the same table, though one breaks the line
-- before each row and the other behind it.
pub schedule_table-equal :
    (sches : List Schedule) → schedule_table sches ≡ Server.schedule_table sches
unfolding schedule_table Server.schedule_table
schedule_table-equal sches = cc (rows-break sches)
