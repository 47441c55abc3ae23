-- ===== src/Server/Log/Tables.antt =====
-- log.cpp: the width of the rows of a table.
use bbd.Prelude.{ℕ, ◌<◌, ◌≡◌, List, [], ◌∷◌, ◌++◌, length, length-append, arith, All, ◌*◌, ◌+◌}
use bbd.Text.{codes, decimal, pad}
use bbd.Text.Decimal.{length-decimal, length-pad}
use bbd.Schedule.{Schedule, IsU16}
use bbd.Server.Log.{schedule_row, schedule_rows, schedule_table}

length-field : (n : ℕ) → n < 65536 → length (pad 11 (decimal n)) ≡ 11
length-field n h = length-pad 11 (decimal n) (omega (arith, length-decimal n))

length-schedule_row : (s : Schedule) → IsU16 s → length (schedule_row s) ≡ 50
length-schedule_row s fits =
    let id = length-field s.schedule_id fits.id_fits in
    let valve = length-field s.valve_id fits.valve_fits in
    let start = length-field s.start fits.start_fits in
    let stop = length-field s.stop fits.stop_fits in
    omega (
      arith,
      id,
      valve,
      start,
      stop,
      length-append (pad 11 (decimal s.schedule_id)) (
          codes " "
          ++ (pad 11 (decimal s.valve_id)
              ++ (codes " "
                  ++ (pad 11 (decimal s.start)
                      ++ (codes " " ++ (pad 11 (decimal s.stop) ++ codes "]\n")))))),
      length-append (pad 11 (decimal s.valve_id)) (
          codes " "
          ++ (pad 11 (decimal s.start) ++ (codes " " ++ (pad 11 (decimal s.stop) ++ codes "]\n")))),
      length-append (pad 11 (decimal s.start))
          (codes " " ++ (pad 11 (decimal s.stop) ++ codes "]\n")),
      length-append (pad 11 (decimal s.stop)) (codes "]\n"),
    )

length-schedule_rows :
    (sches : List Schedule) → All IsU16 sches → length (schedule_rows sches) ≡ 50 * length sches
unfolding schedule_rows
length-schedule_rows [] fits = omega arith
length-schedule_rows (s ∷ sches) fits = omega (
  arith,
  length-append (schedule_row s) (schedule_rows sches),
  length-schedule_row s fits.0,
  length-schedule_rows sches fits.1,
)

-- Every line of the table, that of the headings and that of each schedule whose fields fit in 16 bits,
-- has 49 characters and a line break.
pub length-schedule_table :
    (sches : List Schedule)
    → All IsU16 sches
    → length (schedule_table sches) ≡ 50 + 50 * length sches
unfolding schedule_table
length-schedule_table sches fits = omega (arith, length-schedule_rows sches fits)
