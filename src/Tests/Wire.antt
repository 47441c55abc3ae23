-- ===== src/Tests/Wire.antt =====
-- The theorems on the messages, for two schedules and two valves.
use bbd.Prelude.{◌≡◌, none, some, [], ◌∷◌, arith, replicate, length-replicate}
use bbd.Bytes.{little, big, Incoming}
use bbd.Server.SocketData.{
  Header, ok, recv_socket_header, send_rsp_msg, craft_active_schedules_rsp, craft_device_valves_rsp,
}
use bbd.Client.Controller.{decode_schedules}
use bbd.Wire.Format.{wire_schedules}
use bbd.Wire.Encode.{
  craft_active_schedules_rsp-wire, craft_device_valves_rsp-wire, send_rsp_msg-framed,
}
use bbd.Wire.Decode.{decode_schedules-wire}
use bbd.Wire.Header.{HeaderFits, recv_socket_header-wire}
use bbd.Wire.Overflow.{craft_active_schedules_rsp-fault}
use bbd.Tests.Data.{zeroed, dawn, dusk, dawn-IsU16, dusk-IsU16}

craft_schedules_example :
    craft_active_schedules_rsp little zeroed (dawn ∷ dusk ∷ [])
    ≡ some (0 ∷ 1 ∷ 0 ∷ 3 ∷ 1 ∷ 104 ∷ 1 ∷ 119 ∷ 0 ∷ 2 ∷ 0 ∷ 4 ∷ 4 ∷ 176 ∷ 4 ∷ 206 ∷ [])
craft_schedules_example =
    craft_active_schedules_rsp-wire little zeroed (dawn ∷ dusk ∷ []) (dawn-IsU16, (dusk-IsU16, tt))
      (omega arith)

craft_valves_example :
    craft_device_valves_rsp little zeroed (3 ∷ 300 ∷ []) ≡ some (0 ∷ 3 ∷ 1 ∷ 44 ∷ [])
craft_valves_example =
    craft_device_valves_rsp-wire little zeroed (3 ∷ 300 ∷ []) (omega arith, (omega arith, tt))
      (omega arith)

send_rsp_msg_example :
    send_rsp_msg big zeroed (0 ∷ 3 ∷ 1 ∷ 44 ∷ []) 4 ≡ some (0 ∷ 4 ∷ 0 ∷ 3 ∷ 1 ∷ 44 ∷ [])
send_rsp_msg_example = send_rsp_msg-framed big zeroed (0 ∷ 3 ∷ 1 ∷ 44 ∷ []) (omega arith)

decode_example :
    decode_schedules big (wire_schedules (dawn ∷ dusk ∷ [])) 0 2 ≡ some (dawn ∷ dusk ∷ [])
decode_example = decode_schedules-wire big (dawn ∷ dusk ∷ []) (dawn-IsU16, (dusk-IsU16, tt))

abbrev check_header : Header
check_header = record { magic_number = 38017; device_id = 1; msg_type = 3; msg_size = 0 }

check_header-HeaderFits : HeaderFits check_header
check_header-HeaderFits = record {
  magic_fits = omega arith;
  device_fits = omega arith;
  type_fits = omega arith;
  size_fits = omega arith;
}

recv_header_example :
    recv_socket_header little zeroed (Incoming.bytes (148 ∷ 129 ∷ 1 ∷ 3 ∷ 0 ∷ 0 ∷ 5 ∷ []))
    ≡ ok check_header
recv_header_example =
    recv_socket_header-wire little zeroed check_header (5 ∷ []) check_header-HeaderFits

overflow_example : craft_active_schedules_rsp little zeroed (replicate 8192 dawn) ≡ none
overflow_example =
    craft_active_schedules_rsp-fault little zeroed (replicate 8192 dawn)
      (omega (arith, length-replicate 8192 dawn)) (omega (arith, length-replicate 8192 dawn))
