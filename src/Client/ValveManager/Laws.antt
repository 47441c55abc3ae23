-- ===== src/Client/ValveManager/Laws.antt =====
-- valve_manager.c: what a write and a read of a valve's state do to one another.
use bbd.Prelude.{
  ℕ, Bool, true, false, Option, none, some, List, [], ◌∷◌, map, ◌≡◌, refl, inl, inr, arith, ◌==◌,
  if◌then◌else◌, any, Bool-cases, Option-cases,
}
use bbd.Client.State.{ValveState, valve_closed, ValveMapEntry, Client}
use bbd.Client.ValveManager.{
  set_entry, get_entry, vm_init_set_valves, vm_set_valve_state, vm_get_valve_state,
}

abbrev pub has_valve : ℕ → List ValveMapEntry → Bool
has_valve id valves = any (λ v. v.v_id == id) valves

-- What a read of `j` gives after a write to `id`, from what it gave before.
abbrev pub overlay : ℕ → ValveState → ℕ → Option ValveState → Option ValveState
overlay id st j none = none
overlay id st j (some old) = some (if id == j then st else old)

-- A write that finds no entry is a write to a valve that a read does not find either.
set_entry-none :
    (id : ℕ) (st : ValveState) (valves : List ValveMapEntry)
    → set_entry id st valves ≡ none
    → get_entry id valves ≡ none
unfolding set_entry get_entry
set_entry-none id st [] h = refl
set_entry-none id st (v ∷ valves) h = ground (arith, set_entry-none id st valves)

get_entry-set_entry :
    (id j : ℕ) (st : ValveState) (valves out : List ValveMapEntry)
    → set_entry id st valves ≡ some out
    → get_entry j out ≡ overlay id st j (get_entry j valves)
unfolding set_entry get_entry
get_entry-set_entry id j st [] out h = cc
get_entry-set_entry id j st (v ∷ valves) out h = elim (Option-cases (set_entry id st valves)) [
  | inl e ↦ ground arith
  | inr (rest, e) ↦ ground (arith, get_entry-set_entry id j st valves rest e)
]

pub get_entry-vm_set_valve_state :
    (c : Client) (id j : ℕ) (st : ValveState)
    → get_entry j (vm_set_valve_state c id st).0.valves_map
      ≡ overlay id st j (get_entry j c.valves_map)
unfolding vm_set_valve_state
get_entry-vm_set_valve_state c id j st = elim (Option-cases (set_entry id st c.valves_map)) [
  | inl e ↦ rw (e, vm_set_valve_state) (ground (arith, set_entry-none id st c.valves_map))
  | inr (valves, e) ↦ rw (e, vm_set_valve_state) (get_entry-set_entry id j st c.valves_map valves e)
]

-- Reading a valve after writing a state to one gives that state where the two numbers are the same
-- and the device has that valve, and what was read before for every other number; a number that is
-- no valve stays one.
pub vm_get_valve_state-vm_set_valve_state :
    (c : Client) (id j : ℕ) (st : ValveState)
    → (vm_get_valve_state (vm_set_valve_state c id st).0 j).1
      ≡ overlay id st j (vm_get_valve_state c j).1
unfolding vm_get_valve_state
vm_get_valve_state-vm_set_valve_state c id j st =
    ground (arith, get_entry-vm_set_valve_state c id j st)

set_entry-has_valve :
    (id : ℕ) (st : ValveState) (valves : List ValveMapEntry)
    → (has_valve id valves ≡ true
        → (out : List ValveMapEntry) × (set_entry id st valves ≡ some out))
      × (has_valve id valves ≡ false → set_entry id st valves ≡ none)
unfolding set_entry
set_entry-has_valve id st [] = (λ h. cc, λ h. refl)
set_entry-has_valve id st (v ∷ valves) = elim (Bool-cases (v.v_id == id)) [
  | inl same ↦ (λ h. (record v { v_state = st } ∷ valves, rw same), λ h. ground arith)
  | inr other ↦ (
    λ h.
        let (out, e) = (set_entry-has_valve id st valves).0 (ground arith) in
        (v ∷ out, rw (other, e)),
    λ h. rw (other, (set_entry-has_valve id st valves).1 (ground arith)),
  )
]

set_entry-ids :
    (id : ℕ) (st : ValveState) (valves out : List ValveMapEntry)
    → set_entry id st valves ≡ some out
    → map (λ v. v.v_id) out ≡ map (λ v. v.v_id) valves
unfolding set_entry
set_entry-ids id st [] out h = cc
set_entry-ids id st (v ∷ valves) out h = elim (Option-cases (set_entry id st valves)) [
  | inl e ↦ ground arith
  | inr (rest, e) ↦ ground (arith, set_entry-ids id st valves rest e)
]

-- Setting a valve returns 0 exactly for a valve of the device, and 1 for any other number; in both
-- cases the device has the same valves as before, in the same order.
pub vm_set_valve_state_status :
    (c : Client) (id : ℕ) (st : ValveState)
    → ((vm_set_valve_state c id st).1 ≡ (if has_valve id c.valves_map then 0 else 1))
      × (map (λ v. v.v_id) (vm_set_valve_state c id st).0.valves_map
          ≡ map (λ v. v.v_id) c.valves_map)
unfolding vm_set_valve_state
vm_set_valve_state_status c id st = elim (Bool-cases (has_valve id c.valves_map)) [
  | inl known ↦
      let (out, e) = (set_entry-has_valve id st c.valves_map).0 known in
      (
        rw (known, e, vm_set_valve_state),
        rw (e, vm_set_valve_state) (set_entry-ids id st c.valves_map out e),
      )
  | inr unknown ↦
      let e = (set_entry-has_valve id st c.valves_map).1 unknown in
      (rw (unknown, e, vm_set_valve_state), rw (e, vm_set_valve_state))
]

pub get_entry-closed :
    (j : ℕ) (ids : List ℕ)
    → get_entry j (map (λ id. record { v_id = id; v_state = valve_closed }) ids)
      ≡ (if any (λ id. id == j) ids then some valve_closed else none)
unfolding get_entry
get_entry-closed j [] = refl
get_entry-closed j (id ∷ ids) = ground (arith, get_entry-closed j ids)

-- After the set up each valve of the list is known and closed, and no other is known.
pub vm_get_valve_state-vm_init_set_valves :
    (c : Client) (ids : List ℕ) (j : ℕ)
    → (vm_get_valve_state (vm_init_set_valves c ids) j).1
      ≡ (if any (λ id. id == j) ids then some valve_closed else none)
unfolding vm_get_valve_state vm_init_set_valves
vm_get_valve_state-vm_init_set_valves c ids j = ground (arith, get_entry-closed j ids)
