-- ===== src/Wire/Encode.antt =====
-- The server's loops fill their buffers with the format, and fault where a length has wrapped.
use bbd.Prelude.{
  ℕ, zero, suc, ◌+◌, ◌*◌, ◌≤◌, ◌<◌, ◌≡◌, refl, sym, ap, ◌∙◌, Option, some, List, [], ◌∷◌, ◌++◌,
  arith, append_assoc, length, take, drop, All, take-append-drop, length-take, length-drop,
  length-append, take_all, ◌>>=◌,
}
use bbd.Bytes.{
  Endian, be16, u16, Allocator, apply_at, overwrite, write_at, read, apply_at-append,
  overwrite-append, store16-htons,
}
use bbd.Schedule.{Schedule, IsU16}
use bbd.Server.SocketData.{
  prep_to_send_16, send_rsp_msg, encode_schedule, encode_schedules, craft_active_schedules_rsp,
  encode_valves, craft_device_valves_rsp, send_rsp_msg,
}
use bbd.Wire.Format.{framed, wire_schedule, wire_schedules, wire_valves}

prep_to_send_16-be16 : (e : Endian) (v : ℕ) → v < 65536 → prep_to_send_16 e v ≡ be16 v
unfolding prep_to_send_16
prep_to_send_16-be16 e v h = store16-htons e v h

-- Eight bytes are replaced, whatever they were.
encode_schedule-wire :
    (e : Endian) (s : Schedule) (old post : List ℕ)
    → IsU16 s
    → length old ≡ 8
    → encode_schedule e s (old ++ post) ≡ some (wire_schedule s ++ post)
unfolding encode_schedule
encode_schedule-wire e s (a ∷ b ∷ c ∷ d ∷ f ∷ g ∷ h ∷ k ∷ []) post fits len = rw (
  prep_to_send_16-be16 e s.schedule_id fits.id_fits,
  prep_to_send_16-be16 e s.valve_id fits.valve_fits,
  prep_to_send_16-be16 e s.start fits.start_fits,
  prep_to_send_16-be16 e s.stop fits.stop_fits,
)
encode_schedule-wire e s _ post fits len = absurd (omega arith)

nil_of_length : (xs : List ℕ) → length xs ≡ 0 → xs ≡ []
nil_of_length [] h = refl
nil_of_length (x ∷ xs) h = absurd (omega arith)

-- One round of the loop, behind what the rounds before have written.
encode_round :
    (e : Endian) (i : ℕ) (s : Schedule) (pre rest : List ℕ)
    → IsU16 s
    → length pre ≡ 8 * i
    → 8 ≤ length rest
    → apply_at (8 * i) (encode_schedule e s) (pre ++ rest)
      ≡ some ((pre ++ wire_schedule s) ++ drop 8 rest)
encode_round e i s pre rest fits len room =
    rw (← len, append_assoc pre (wire_schedule s) (drop 8 rest))
      (apply_at-append pre (encode_schedule e s) written)
  where
    written : encode_schedule e s rest ≡ some (wire_schedule s ++ drop 8 rest)
    written =
        ap (encode_schedule e s) (sym (take-append-drop 8 rest))
        ∙ encode_schedule-wire e s (take 8 rest) (drop 8 rest) fits
            (omega (arith, length-take 8 rest))

encode_schedules-wire :
    (e : Endian) (i : ℕ) (sches : List Schedule) (pre rest : List ℕ)
    → All IsU16 sches
    → length pre ≡ 8 * i
    → length rest ≡ 8 * length sches
    → encode_schedules e i sches (pre ++ rest) ≡ some (pre ++ wire_schedules sches)
unfolding encode_schedules
encode_schedules-wire e i [] pre rest fits len room = rw (nil_of_length rest (omega arith))
encode_schedules-wire e i (s ∷ sches) pre rest fits len room =
    rw (encode_round e i s pre rest fits.0 len (omega arith)) (
      encode_schedules-wire e (i + 1) sches (pre ++ wire_schedule s) (drop 8 rest) fits.1
        (omega (arith, length-append pre (wire_schedule s))) (omega (arith, length-drop 8 rest))
      ∙ ap some (append_assoc pre (wire_schedule s) (wire_schedules sches)))

-- Up to 8191 schedules whose fields fit in 16 bits, the response is the sequence of their fields
-- as words in network order, on a host of either byte order and whatever malloc's buffer held.
pub craft_active_schedules_rsp-wire :
    (e : Endian) (mem : Allocator) (sches : List Schedule)
    → All IsU16 sches
    → length sches < 8192
    → craft_active_schedules_rsp e mem sches ≡ some (wire_schedules sches)
unfolding craft_active_schedules_rsp
craft_active_schedules_rsp-wire e mem sches fits few =
    rw (take_all (u16 (length sches)) sches (omega arith)) (
      encode_schedules-wire e 0 sches [] _ fits refl
        (omega (arith, mem.length-malloc (u16 (8 * u16 (length sches))))))

encode_valve_round :
    (e : Endian) (i v : ℕ) (pre rest : List ℕ)
    → v < 65536
    → length pre ≡ i * 2
    → 2 ≤ length rest
    → apply_at (i * 2) (overwrite (prep_to_send_16 e v)) (pre ++ rest)
      ≡ some ((pre ++ be16 v) ++ drop 2 rest)
encode_valve_round e i v pre rest fits len room =
    rw (← len, append_assoc pre (be16 v) (drop 2 rest), prep_to_send_16-be16 e v fits)
      (apply_at-append pre (overwrite (be16 v)) written)
  where
    written : overwrite (be16 v) rest ≡ some (be16 v ++ drop 2 rest)
    written =
        ap (overwrite (be16 v)) (sym (take-append-drop 2 rest))
        ∙ overwrite-append (be16 v) (take 2 rest) (drop 2 rest) (omega (arith, length-take 2 rest))

encode_valves-wire :
    (e : Endian) (i : ℕ) (ids pre rest : List ℕ)
    → All (λ v. v < 65536) ids
    → length pre ≡ i * 2
    → length rest ≡ 2 * length ids
    → encode_valves e i ids (pre ++ rest) ≡ some (pre ++ wire_valves ids)
unfolding encode_valves
encode_valves-wire e i [] pre rest fits len room = rw (nil_of_length rest (omega arith))
encode_valves-wire e i (v ∷ ids) pre rest fits len room =
    rw (encode_valve_round e i v pre rest fits.0 len (omega arith)) (
      encode_valves-wire e (i + 1) ids (pre ++ be16 v) (drop 2 rest) fits.1
        (omega (arith, length-append pre (be16 v))) (omega (arith, length-drop 2 rest))
      ∙ ap some (append_assoc pre (be16 v) (wire_valves ids)))

-- Up to 32767 valve numbers that fit in 16 bits, the response is the sequence of them as words in
-- network order.
pub craft_device_valves_rsp-wire :
    (e : Endian) (mem : Allocator) (ids : List ℕ)
    → All (λ v. v < 65536) ids
    → length ids < 32768
    → craft_device_valves_rsp e mem ids ≡ some (wire_valves ids)
unfolding craft_device_valves_rsp
craft_device_valves_rsp-wire e mem ids fits few =
    rw (take_all (u16 (length ids)) ids (omega arith)) (
      encode_valves-wire e 0 ids [] _ fits refl
        (omega (arith, mem.length-malloc (u16 (2 * u16 (length ids))))))

overwrite_all : (bs buf : List ℕ) → length buf ≡ length bs → overwrite bs buf ≡ some bs
overwrite_all [] [] h = refl
overwrite_all [] (x ∷ buf) h = absurd (omega arith)
overwrite_all (b ∷ bs) [] h = absurd (omega arith)
overwrite_all (b ∷ bs) (x ∷ buf) h = rw (overwrite_all bs buf (omega arith))

read_all : (xs : List ℕ) → read (length xs) xs ≡ some xs
read_all [] = refl
read_all (x ∷ xs) = rw (read_all xs)

abbrev send_into : Endian → List ℕ → ℕ → List ℕ → Option (List ℕ)
send_into e msg n buf = overwrite (prep_to_send_16 e (length msg)) buf >>= λ total.
    write_at 2 msg total >>= λ total. read n total

send_into-framed :
    (e : Endian) (msg : List ℕ) (n : ℕ) (buf : List ℕ)
    → length msg < 65536
    → n ≡ 2 + length msg
    → length buf ≡ n
    → send_into e msg n buf ≡ some (framed msg)
send_into-framed e msg n [] small total room = absurd (omega arith)
send_into-framed e msg n (a ∷ []) small total room = absurd (omega arith)
send_into-framed e msg zero (a ∷ b ∷ buf) small total room = absurd (omega arith)
send_into-framed e msg (suc zero) (a ∷ b ∷ buf) small total room = absurd (omega arith)
send_into-framed e msg (suc (suc n)) (a ∷ b ∷ buf) small total room =
    let same : n ≡ length msg = omega arith in
    rw (
      prep_to_send_16-be16 e (length msg) small,
      overwrite_all msg buf (omega arith),
      same,
      read_all msg,
    )

-- A response of at most 65533 bytes goes out behind its length in network order.
pub send_rsp_msg-framed :
    (e : Endian) (mem : Allocator) (msg : List ℕ)
    → length msg < 65534
    → send_rsp_msg e mem msg (length msg) ≡ some (framed msg)
unfolding send_rsp_msg
send_rsp_msg-framed e mem msg small =
    rw (send_rsp_msg, read_all msg)
      (send_into-framed e msg (u16 (2 + length msg)) (mem.malloc (u16 (2 + length msg)))
        (omega arith) (omega arith) (mem.length-malloc (u16 (2 + length msg))))
