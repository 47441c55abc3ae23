-- ===== src/Client/SocketData.antt =====
-- client/daemon/src/socket_data: the header of a request is sent, the length of the response and
-- the response are received, and their words are decoded.
use bbd.Prelude.{ℕ, zero, suc, Option, none, some, List, [], ◌∷◌, ◌>>=◌}
use bbd.Bytes.{
  Endian, store16, load16, htons, ntohs, Incoming, recv, fill, overwrite, write_at, read, Allocator,
}
use bbd.Schedule.{Schedule}

pub data RequestType : Type 0 where
  get_device_valves_msg get_active_sches_msg check_new_schedules_msg : RequestType

-- The value that goes into the header.
unfoldable pub msg_type : RequestType → ℕ
msg_type get_device_valves_msg = 1
msg_type get_active_sches_msg = 2
msg_type check_new_schedules_msg = 3

abbrev pub header_size : ℕ
header_size = 6

unfoldable pub sd_prep_to_send_8 : ℕ → List ℕ
sd_prep_to_send_8 v = v ∷ []

unfoldable pub sd_prep_to_send_16 : Endian → ℕ → List ℕ
sd_prep_to_send_16 e v = store16 e (htons e v)

unfoldable pub sd_prep_recved_16 : Endian → ℕ → ℕ → ℕ
sd_prep_recved_16 e a b = ntohs e (load16 e a b)

-- The bytes of the header as they go to the socket.
unfoldable pub sd_send_socket_header : Endian → Allocator → ℕ → ℕ → ℕ → ℕ → Option (List ℕ)
unfolding sd_prep_to_send_8 sd_prep_to_send_16
sd_send_socket_header e mem magic_number device_id type msg_size = do
  msg ← overwrite (sd_prep_to_send_16 e magic_number) (mem.malloc header_size)
  msg ← write_at 2 (sd_prep_to_send_8 device_id) msg
  msg ← write_at 3 (sd_prep_to_send_8 type) msg
  msg ← write_at 4 (sd_prep_to_send_16 e msg_size) msg
  read header_size msg

-- What the network does to one request: which calls fail, and what the peer sends back.
pub data Network : Type 0 where
  no_socket no_connection send_fails : Network
  connected : Incoming → Network

-- The number returned and, on 0, the connection to receive from.
unfoldable pub sd_connect_socket : Network → ℕ
sd_connect_socket no_socket = 1
sd_connect_socket no_connection = 2
sd_connect_socket send_fails = 0
sd_connect_socket (connected _) = 0

pub data Sent : Type 0 where
  refused : ℕ → Sent
  sent : (header : List ℕ) → Incoming → Sent
  -- An access outside a buffer.
  fault : Sent

abbrev after_header : Network → Option (List ℕ) → Sent
after_header net none = fault
after_header (connected sock) (some header) = sent header sock
after_header _ (some header) = refused 2

unfoldable pub sd_send_request : Endian → Allocator → Network → ℕ → ℕ → RequestType → Sent
unfolding sd_connect_socket sd_send_socket_header msg_type
sd_send_request e mem net magic_number device_id request = elim (sd_connect_socket net) [
  | zero ↦
      after_header net (sd_send_socket_header e mem magic_number device_id (msg_type request) 0)
  | suc _ ↦ refused 1
]

-- The length, and the connection after it. A recv of one byte leaves the other byte of the stack
-- variable `tmp` as it was, `stale`.
unfoldable pub sd_recv_rsp_len : Endian → ℕ → Incoming → Option (ℕ × Incoming)
unfolding sd_prep_recved_16
sd_recv_rsp_len e stale sock = elim (recv 2 sock) [
  | none ↦ none
  | some ([], _) ↦ none
  | some (x ∷ [], rest) ↦ some (sd_prep_recved_16 e x stale, Incoming.bytes rest)
  | some (x ∷ y ∷ _, rest) ↦ some (sd_prep_recved_16 e x y, Incoming.bytes rest)
]

-- `none` where the code returns 1; the buffer `rsp` is filled as far as bytes came.
unfoldable pub sd_recv_rsp_msg : ℕ → List ℕ → Incoming → Option (List ℕ)
sd_recv_rsp_msg rsp_len rsp sock = elim (recv rsp_len sock) [
  | none ↦ none
  | some ([], _) ↦ none
  | some (x ∷ got, _) ↦ some (fill (x ∷ got) rsp)
]

-- `none` is a read past the end of the buffer.
unfoldable pub sd_decode_schedule : Endian → List ℕ → Option Schedule
unfolding sd_prep_recved_16
sd_decode_schedule e (a ∷ b ∷ c ∷ d ∷ f ∷ g ∷ h ∷ k ∷ _) = some (record {
  schedule_id = sd_prep_recved_16 e a b;
  valve_id = sd_prep_recved_16 e c d;
  start = sd_prep_recved_16 e f g;
  stop = sd_prep_recved_16 e h k;
})
sd_decode_schedule e _ = none

unfoldable pub sd_decode_valve_id : Endian → List ℕ → Option ℕ
unfolding sd_prep_recved_16
sd_decode_valve_id e (a ∷ b ∷ _) = some (sd_prep_recved_16 e a b)
sd_decode_valve_id e _ = none
