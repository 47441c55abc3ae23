-- ===== src/Client/Log/Numbers.antt =====
-- log_set_valves of log.c: the list of the valves, and a reader of it.
use bbd.Prelude.{
  ℕ, zero, suc, ◌≤◌, ◌≡◌, refl, ap, List, [], ◌∷◌, ◌++◌, append_assoc, arith, if◌then◌else◌, ◌==◌,
  length,
}
use bbd.Text.{codes, decimal, scan_digits, starts_number}
use bbd.Text.Decimal.{scan_digits-decimal, starts_number-decimal}
use bbd.Client.Log.{valve_numbers}

-- A number stands before the end of the list or before a space and more of it.
abbrev after_number : (List ℕ → List ℕ) → ℕ × List ℕ → List ℕ
after_number more (n, []) = n ∷ []
after_number more (n, c ∷ rest) = n ∷ (if c == b' ' then more rest else [])

-- A reader of the list: numbers, each behind a space but the first, up to anything else.
unfoldable pub read_numbers : (rounds : ℕ) → List ℕ → List ℕ
read_numbers zero text = []
read_numbers (suc rounds) text =
    if starts_number text then after_number (read_numbers rounds) (scan_digits 0 text) else []

-- The numbers that log_set_valves writes between its brackets can be read back from the line:
-- there is one space between two of them and none behind the last. The reader has at least as many
-- rounds as there are numbers.
pub read_numbers-valve_numbers :
    (rounds : ℕ) (valve_ids : List ℕ)
    → length valve_ids ≤ rounds
    → read_numbers rounds (valve_numbers valve_ids ++ codes "]\n") ≡ valve_ids
unfolding read_numbers valve_numbers
read_numbers-valve_numbers zero [] h = refl
read_numbers-valve_numbers (suc rounds) [] h = refl
read_numbers-valve_numbers zero (v ∷ valve_ids) h = ground arith
read_numbers-valve_numbers (suc rounds) (v ∷ []) h =
    rw (starts_number-decimal v (codes "]\n"), scan_digits-decimal v (codes "]\n") refl) refl
read_numbers-valve_numbers (suc rounds) (v ∷ w ∷ valve_ids) h =
    rw
      (
        append_assoc (decimal v) (codes " " ++ valve_numbers (w ∷ valve_ids)) (codes "]\n"),
        starts_number-decimal v (codes " " ++ (valve_numbers (w ∷ valve_ids) ++ codes "]\n")),
        scan_digits-decimal v (codes " " ++ (valve_numbers (w ∷ valve_ids) ++ codes "]\n")) refl,
      )
      (ap (λ ids. v ∷ ids) (read_numbers-valve_numbers rounds (w ∷ valve_ids) (omega arith)))
