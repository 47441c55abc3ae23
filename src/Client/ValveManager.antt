-- ===== src/Client/ValveManager.antt =====
-- client/daemon/src/valve_manager: the state of each valve of the device.
pub mod Laws
use bbd.Prelude.{ℕ, Option, none, some, List, [], ◌∷◌, map, ◌==◌, if◌then◌else◌, ◌>>=◌}
use bbd.Client.State.{
  ValveState, valve_closed, ValveMapEntry, Client, log_info, log_error, log_set_valves,
  log_valve_newstate,
}

-- The map before is not freed.
unfoldable pub vm_init_set_valves : Client → List ℕ → Client
vm_init_set_valves c valve_ids = record c {
  valves_map = map (λ id. record { v_id = id; v_state = valve_closed }) valve_ids;
  log = log_info "valve manager initialized; new valves set" ∷ log_set_valves valve_ids ∷ c.log;
}

-- The loop: the first entry with the number is written; `none` where there is no such entry.
unfoldable pub set_entry : ℕ → ValveState → List ValveMapEntry → Option (List ValveMapEntry)
set_entry id st [] = none
set_entry id st (v ∷ valves) =
    if v.v_id == id
    then some (record v { v_state = st } ∷ valves)
    else (set_entry id st valves >>= λ valves'. some (v ∷ valves'))

unfoldable pub vm_set_valve_state : Client → ℕ → ValveState → Client × ℕ
unfolding set_entry
vm_set_valve_state c valve_id newstate = elim (set_entry valve_id newstate c.valves_map) [
  | some valves ↦
      (record c { valves_map = valves; log = log_valve_newstate valve_id newstate ∷ c.log }, 0)
  | none ↦
      (record c { log = log_error "attempting set_valve_state but valve_id not found" ∷ c.log }, 1)
]

unfoldable pub get_entry : ℕ → List ValveMapEntry → Option ValveState
get_entry id [] = none
get_entry id (v ∷ valves) = if v.v_id == id then some v.v_state else get_entry id valves

-- The state where the code returns 0, and `none` where it returns 1.
unfoldable pub vm_get_valve_state : Client → ℕ → Client × Option ValveState
unfolding get_entry
vm_get_valve_state c valve_id = elim (get_entry valve_id c.valves_map) [
  | some st ↦ (c, some st)
  | none ↦ (
    record c { log = log_error "attempting get_valve_state but valve_id not found" ∷ c.log },
    none,
  )
]
