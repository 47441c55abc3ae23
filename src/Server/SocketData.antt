-- ===== src/Server/SocketData.antt =====
-- server/src/receiver/src/socket_data: the header of a request is read, a response is built in a
-- buffer of bytes and sent behind its length.
use bbd.Prelude.{
  ℕ, ◌+◌, ◌*◌, Option, none, some, List, [], ◌∷◌, ◌>>=◌, ◌==◌, if◌then◌else◌, length, take,
}
use bbd.Bytes.{
  Endian, u16, store16, load16, htons, ntohs, Incoming, recv, fill, overwrite, write_at, apply_at,
  read, Allocator,
}
use bbd.Schedule.{Schedule}

-- The cast of main.cpp from the byte on the wire keeps every value, so an unknown one is a case.
pub data RequestType : Type 0 where
  get_device_valves_msg get_active_sches_msg check_new_schedules_msg : RequestType
  unidentified : ℕ → RequestType

unfoldable pub request_type : ℕ → RequestType
request_type n =
    if n == 1
    then get_device_valves_msg
    else if n == 2
    then get_active_sches_msg
    else if n == 3
    then check_new_schedules_msg
    else unidentified n

abbrev pub header_size : ℕ
header_size = 6

abbrev pub sizeof_schedule : ℕ
sizeof_schedule = 8

pub record Header : Type 0 where
  pub magic_number : ℕ
  pub device_id : ℕ
  pub msg_type : ℕ
  pub msg_size : ℕ

-- The bytes that stand at `out_data` afterwards.
unfoldable pub prep_to_send_16 : Endian → ℕ → List ℕ
prep_to_send_16 e v = store16 e (htons e v)

unfoldable pub prep_recved_8 : ℕ → ℕ
prep_recved_8 a = a

unfoldable pub prep_recved_16 : Endian → ℕ → ℕ → ℕ
prep_recved_16 e a b = ntohs e (load16 e a b)

-- The fields are taken from the buffer whatever its bytes are.
unfoldable pub parse_header : Endian → List ℕ → Option Header
unfolding prep_recved_8 prep_recved_16
parse_header e (a ∷ b ∷ c ∷ d ∷ x ∷ y ∷ _) = some (record {
  magic_number = prep_recved_16 e a b;
  device_id = prep_recved_8 c;
  msg_type = prep_recved_8 d;
  msg_size = prep_recved_16 e x y;
})
parse_header e _ = none

-- The outcomes of a function that returns an int: 0 with its out parameters, or another number.
pub data Status {ℓ} (A : Type ℓ) : Type ℓ where
  ok : A → Status A
  failed : ℕ → Status A
  -- An access outside a buffer.
  fault : Status A

unfoldable pub or_fault {ℓ} : {A : Type ℓ} → Option A → Status A
or_fault (some a) = ok a
or_fault none = fault

-- A recv that brings at least one byte passes the test `n<=0`.
unfoldable pub recv_socket_header : Endian → Allocator → Incoming → Status Header
unfolding parse_header or_fault
recv_socket_header e mem sock = elim (recv header_size sock) [
  | none ↦ failed 1
  | some ([], _) ↦ failed 1
  | some (x ∷ got, _) ↦ or_fault (parse_header e (fill (x ∷ got) (mem.malloc header_size)))
]

-- `none` is a fault. The bytes that go to the socket are the result.
unfoldable pub send_rsp_msg : Endian → Allocator → List ℕ → ℕ → Option (List ℕ)
unfolding prep_to_send_16
send_rsp_msg e mem reply_msg reply_msg_size = do
  let total_reply_msg_size = u16 (2 + reply_msg_size)
  total ← overwrite (prep_to_send_16 e reply_msg_size) (mem.malloc total_reply_msg_size)
  msg ← read reply_msg_size reply_msg
  total ← write_at 2 msg total
  read total_reply_msg_size total

-- The four writes at `msg`.
unfoldable pub encode_schedule : Endian → Schedule → List ℕ → Option (List ℕ)
unfolding prep_to_send_16
encode_schedule e s msg = do
  msg ← overwrite (prep_to_send_16 e s.schedule_id) msg
  msg ← write_at 2 (prep_to_send_16 e s.valve_id) msg
  msg ← write_at 4 (prep_to_send_16 e s.start) msg
  write_at 6 (prep_to_send_16 e s.stop) msg

-- The loops from index `i` on, over the entries that are left.
unfoldable pub encode_schedules : Endian → ℕ → List Schedule → List ℕ → Option (List ℕ)
encode_schedules e i [] msg = some msg
encode_schedules e i (s ∷ sches) msg = do
  msg ← apply_at (sizeof_schedule * i) (encode_schedule e s) msg
  encode_schedules e (i + 1) sches msg

unfoldable pub craft_active_schedules_rsp : Endian → Allocator → List Schedule → Option (List ℕ)
unfolding encode_schedules encode_schedule
craft_active_schedules_rsp e mem sches =
    let sches_size = u16 (length sches) in
    let msg_len = u16 (sizeof_schedule * sches_size) in
    encode_schedules e 0 (take sches_size sches) (mem.malloc msg_len)

unfoldable pub encode_valves : Endian → ℕ → List ℕ → List ℕ → Option (List ℕ)
unfolding prep_to_send_16
encode_valves e i [] msg = some msg
encode_valves e i (v ∷ valve_ids) msg = do
  msg ← apply_at (i * 2) (overwrite (prep_to_send_16 e v)) msg
  encode_valves e (i + 1) valve_ids msg

unfoldable pub craft_device_valves_rsp : Endian → Allocator → List ℕ → Option (List ℕ)
unfolding encode_valves
craft_device_valves_rsp e mem valve_ids =
    let valve_ids_size = u16 (length valve_ids) in
    let msg_len = u16 (2 * valve_ids_size) in
    encode_valves e 0 (take valve_ids_size valve_ids) (mem.malloc msg_len)
