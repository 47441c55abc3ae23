-- ===== src/Wire/Header.antt =====
-- The header of a request, from the client to the server.
use bbd.Prelude.{ℕ, ◌<◌, ◌≡◌, refl, some, List, [], ◌∷◌, arith, length, ◌++◌}
use bbd.Bytes.{Endian, be16, Allocator, Incoming, store16-htons, ntohs-load16}
use bbd.Client.SocketData.{sd_send_socket_header}
use bbd.Server.SocketData.{Header, ok, recv_socket_header, prep_recved_16}

-- The six bytes of a header on the wire.
abbrev pub wire_header : Header → List ℕ
wire_header h = be16 h.magic_number ++ h.device_id ∷ h.msg_type ∷ be16 h.msg_size

pub record HeaderFits (h : Header) : Type 0 where
  pub magic_fits : h.magic_number < 65536
  pub device_fits : h.device_id < 256
  pub type_fits : h.msg_type < 256
  pub size_fits : h.msg_size < 65536

send_header_into :
    (e : Endian) (m d t z : ℕ) (buf : List ℕ)
    → m < 65536
    → z < 65536
    → length buf ≡ 6
    → (mem : Allocator) → mem.malloc 6 ≡ buf
    → sd_send_socket_header e mem m d t z
      ≡ some (wire_header (record { magic_number = m; device_id = d; msg_type = t; msg_size = z }))
unfolding sd_send_socket_header
send_header_into e m d t z (a ∷ b ∷ c ∷ x ∷ y ∷ w ∷ []) hm hz len mem eq =
    rw (eq, store16-htons e m hm, store16-htons e z hz)
send_header_into e m d t z _ hm hz len mem eq = absurd (omega arith)

-- The client puts a header whose fields fit their types on the wire as the six bytes of the
-- format.
pub sd_send_socket_header-wire :
    (e : Endian) (mem : Allocator) (h : Header)
    → HeaderFits h
    → sd_send_socket_header e mem h.magic_number h.device_id h.msg_type h.msg_size
      ≡ some (wire_header h)
sd_send_socket_header-wire e mem h fits =
    send_header_into e h.magic_number h.device_id h.msg_type h.msg_size (mem.malloc 6)
      fits.magic_fits fits.size_fits (mem.length-malloc 6) mem refl

-- The server reads a header whose fields fit their types back from the six bytes of the wire
-- format, whatever follows them on the connection.
pub recv_socket_header-wire :
    (e : Endian) (mem : Allocator) (h : Header) (more : List ℕ)
    → HeaderFits h
    → recv_socket_header e mem (Incoming.bytes (wire_header h ++ more)) ≡ ok h
unfolding recv_socket_header prep_recved_16
recv_socket_header-wire e mem h more fits =
    rw (ntohs-load16 e h.magic_number fits.magic_fits, ntohs-load16 e h.msg_size fits.size_fits)
