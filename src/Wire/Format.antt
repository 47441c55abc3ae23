-- ===== src/Wire/Format.antt =====
-- An independent description of the messages: words in network order, one after the other.
use bbd.Prelude.{ℕ, List, [], ◌∷◌, ◌++◌, ◌*◌, ◌≡◌, arith, length}
use bbd.Bytes.{be16}
use bbd.Schedule.{Schedule}

abbrev pub wire_schedule : Schedule → List ℕ
wire_schedule s = be16 s.schedule_id ++ be16 s.valve_id ++ be16 s.start ++ be16 s.stop

abbrev pub wire_schedules : List Schedule → List ℕ
wire_schedules [] = []
wire_schedules (s ∷ sches) = wire_schedule s ++ wire_schedules sches

abbrev pub wire_valves : List ℕ → List ℕ
wire_valves [] = []
wire_valves (v ∷ vs) = be16 v ++ wire_valves vs

-- The bytes of a response: its length in front.
abbrev pub framed : List ℕ → List ℕ
framed msg = be16 (length msg) ++ msg

pub length-wire_schedules :
    (sches : List Schedule) → length (wire_schedules sches) ≡ 8 * length sches
length-wire_schedules [] = omega arith
length-wire_schedules (s ∷ sches) = omega (arith, length-wire_schedules sches)

pub length-wire_valves : (vs : List ℕ) → length (wire_valves vs) ≡ 2 * length vs
length-wire_valves [] = omega arith
length-wire_valves (v ∷ vs) = omega (arith, length-wire_valves vs)
