-- ===== src/Wire/Decode.antt =====
-- The client's loops read the format back.
use bbd.Prelude.{
  ℕ, zero, suc, ◌+◌, ◌*◌, ◌/◌, ◌%◌, ◌<◌, ◌≡◌, refl, sym, ap, ◌∙◌, some, List, [], ◌∷◌, ◌++◌, arith,
  append_assoc, append-nil, length, All, length-append, drop-length_append, take, length-take,
  take_all, drop_all,
}
use bbd.Bytes.{Endian, be16, Allocator, Incoming, ntohs-load16}
use bbd.Schedule.{Schedule, IsU16}
use bbd.Client.SocketData.{
  sd_prep_recved_16, sd_decode_schedule, sd_decode_valve_id, sd_recv_rsp_len, sd_recv_rsp_msg,
}
use bbd.Client.Controller.{decode_valve_ids, decode_schedules}
use bbd.Wire.Format.{framed, wire_schedule, wire_schedules, wire_valves}

sd_prep_recved_16-be16 :
    (e : Endian) (v : ℕ) → v < 65536 → sd_prep_recved_16 e (v / 256 % 256) (v % 256) ≡ v
unfolding sd_prep_recved_16
sd_prep_recved_16-be16 e v h = ntohs-load16 e v h

sd_decode_schedule-wire :
    (e : Endian) (s : Schedule) (more : List ℕ)
    → IsU16 s
    → sd_decode_schedule e (wire_schedule s ++ more) ≡ some s
unfolding sd_decode_schedule
sd_decode_schedule-wire e s more fits = rw (
  sd_prep_recved_16-be16 e s.schedule_id fits.id_fits,
  sd_prep_recved_16-be16 e s.valve_id fits.valve_fits,
  sd_prep_recved_16-be16 e s.start fits.start_fits,
  sd_prep_recved_16-be16 e s.stop fits.stop_fits,
)

decode_schedules-wire_from :
    (e : Endian) (i : ℕ) (sches : List Schedule) (pre : List ℕ)
    → All IsU16 sches
    → length pre ≡ i * 8
    → decode_schedules e (pre ++ wire_schedules sches) i (length sches) ≡ some sches
unfolding decode_schedules
decode_schedules-wire_from e i [] pre fits len = refl
decode_schedules-wire_from e i (s ∷ sches) pre fits len =
    rw
      (
        ← len,
        drop-length_append pre (wire_schedules (s ∷ sches)),
        sd_decode_schedule-wire e s (wire_schedules sches) fits.0,
      )
      (rw (
        ap (λ b. decode_schedules e b (i + 1) (length sches))
          (sym (append_assoc pre (wire_schedule s) (wire_schedules sches)))
        ∙ decode_schedules-wire_from e (i + 1) sches (pre ++ wire_schedule s) fits.1
            (omega (arith, length-append pre (wire_schedule s)))))

-- The client's loop reads schedules whose fields fit in 16 bits back from the words in network
-- order, on a host of either byte order.
pub decode_schedules-wire :
    (e : Endian) (sches : List Schedule)
    → All IsU16 sches
    → decode_schedules e (wire_schedules sches) 0 (length sches) ≡ some sches
decode_schedules-wire e sches fits = decode_schedules-wire_from e 0 sches [] fits refl

decode_valve_ids-wire_from :
    (e : Endian) (i : ℕ) (ids pre : List ℕ)
    → All (λ v. v < 65536) ids
    → length pre ≡ i * 2
    → decode_valve_ids e (pre ++ wire_valves ids) i (length ids) ≡ some ids
unfolding decode_valve_ids sd_decode_valve_id
decode_valve_ids-wire_from e i [] pre fits len = refl
decode_valve_ids-wire_from e i (v ∷ ids) pre fits len =
    rw (← len, drop-length_append pre (wire_valves (v ∷ ids)), sd_prep_recved_16-be16 e v fits.0)
      (rw (
        ap (λ b. decode_valve_ids e b (i + 1) (length ids))
          (sym (append_assoc pre (be16 v) (wire_valves ids)))
        ∙ decode_valve_ids-wire_from e (i + 1) ids (pre ++ be16 v) fits.1
            (omega (arith, length-append pre (be16 v)))))

pub decode_valve_ids-wire :
    (e : Endian) (ids : List ℕ)
    → All (λ v. v < 65536) ids
    → decode_valve_ids e (wire_valves ids) 0 (length ids) ≡ some ids
decode_valve_ids-wire e ids fits = decode_valve_ids-wire_from e 0 ids [] fits refl

-- The length in front of a response is received as it is.
pub sd_recv_rsp_len-framed :
    (e : Endian) (stale : ℕ) (msg : List ℕ)
    → length msg < 65536
    → sd_recv_rsp_len e stale (Incoming.bytes (framed msg)) ≡ some (length msg, Incoming.bytes msg)
unfolding sd_recv_rsp_len
sd_recv_rsp_len-framed e stale msg h = rw (sd_prep_recved_16-be16 e (length msg) h)

-- And so is the response, unless it is empty.
pub sd_recv_rsp_msg-framed :
    (mem : Allocator) (n b : ℕ) (msg : List ℕ)
    → n ≡ length (b ∷ msg)
    → sd_recv_rsp_msg n (mem.malloc n) (Incoming.bytes (b ∷ msg)) ≡ some (b ∷ msg)
unfolding sd_recv_rsp_msg
sd_recv_rsp_msg-framed mem zero b msg e = absurd (omega arith)
sd_recv_rsp_msg-framed mem (suc n) b msg e = rw (
  drop_all (suc (length (take n msg))) (mem.malloc (suc n))
      (omega (arith, mem.length-malloc (suc n), length-take n msg)),
  take_all n msg (omega arith),
  append-nil msg,
)
