-- ===== src/Server/Print.antt =====
-- server/src/receiver/src/schedule/schedule.cpp: how a stream shows a schedule, and a reader of it.
use bbd.Prelude.{ℕ, ◌+◌, ◌*◌, ◌/◌, ◌%◌, ◌≡◌, refl, List, ◌++◌, drop, arith}
use bbd.Text.{codes, decimal, scan_digits}
use bbd.Text.Decimal.{scan_digits-decimal}
use bbd.Schedule.{Schedule}

-- `operator<<` of the source; the minutes of the day are shown as hours and minutes.
unfoldable pub print : Schedule → List ℕ
print sche =
    codes "{id:["
    ++ (decimal sche.schedule_id
        ++ (codes "], valve_id:["
            ++ (decimal sche.valve_id
                ++ (codes "], start:["
                    ++ (decimal (sche.start / 60)
                        ++ (codes ":"
                            ++ (decimal (sche.start % 60)
                                ++ (codes "], stop:["
                                    ++ (decimal (sche.stop / 60)
                                        ++ (codes ":"
                                            ++ (decimal (sche.stop % 60) ++ codes "]}")))))))))))

-- The number behind so many characters, and what follows it.
abbrev number_behind : ℕ → List ℕ → ℕ × List ℕ
number_behind n text = scan_digits 0 (drop n text)

abbrev pub read_schedule : List ℕ → Schedule
read_schedule text =
    let (id, at_valve) = number_behind 5 text in
    let (valve, at_start) = number_behind 13 at_valve in
    let (start_h, at_start_m) = number_behind 10 at_start in
    let (start_m, at_stop) = number_behind 1 at_start_m in
    let (stop_h, at_stop_m) = number_behind 9 at_stop in
    let (stop_m, _) = number_behind 1 at_stop_m in
    record {
      schedule_id = id;
      valve_id = valve;
      start = start_h * 60 + start_m;
      stop = stop_h * 60 + stop_m;
    }

minutes_of_day : (n : ℕ) → n / 60 * 60 + n % 60 ≡ n
minutes_of_day n = omega arith

-- A schedule can be read back.
pub read_schedule-print : (sche : Schedule) → read_schedule (print sche) ≡ sche
unfolding print
read_schedule-print sche =
    let at_stop_m = codes "]}" in
    let at_stop_h = codes ":" ++ (decimal (sche.stop % 60) ++ at_stop_m) in
    let at_stop = codes "], stop:[" ++ (decimal (sche.stop / 60) ++ at_stop_h) in
    let at_start_m = codes ":" ++ (decimal (sche.start % 60) ++ at_stop) in
    let at_start = codes "], start:[" ++ (decimal (sche.start / 60) ++ at_start_m) in
    let at_valve = codes "], valve_id:[" ++ (decimal sche.valve_id ++ at_start) in
    rw
      (
        scan_digits-decimal sche.schedule_id at_valve refl,
        scan_digits-decimal sche.valve_id at_start refl,
        scan_digits-decimal (sche.start / 60) at_start_m refl,
        scan_digits-decimal (sche.start % 60) at_stop refl,
        scan_digits-decimal (sche.stop / 60) at_stop_h refl,
        scan_digits-decimal (sche.stop % 60) at_stop_m refl,
        minutes_of_day sche.start,
        minutes_of_day sche.stop,
      )
      refl
