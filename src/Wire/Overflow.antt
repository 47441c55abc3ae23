-- ===== src/Wire/Overflow.antt =====
-- From 8192 schedules on the size of the server's buffer wraps, and its loop leaves the buffer.
use bbd.Prelude.{
  ℕ, zero, suc, ◌+◌, ◌*◌, ◌≤◌, ◌<◌, ◌≡◌, refl, ◌∙◌, Option, none, some, List, [], ◌∷◌, arith,
  length, ◌>>=◌, >>=-eq-some, >>=-eq-none, take_all,
}
use bbd.Bytes.{Endian, little, big, u16, Allocator, apply_at, overwrite, write_at}
use bbd.Schedule.{Schedule}
use bbd.Server.SocketData.{
  prep_to_send_16, encode_schedule, encode_schedules, craft_active_schedules_rsp,
}

-- What a write may do: keep the length of the buffer.
abbrev KeepsLength : (List ℕ → Option (List ℕ)) → Type 0
KeepsLength f = (buf out : List ℕ) → f buf ≡ some out → length out ≡ length buf

-- It faults on a buffer of fewer than `n` bytes.
abbrev Needs : ℕ → (List ℕ → Option (List ℕ)) → Type 0
Needs n f = (buf : List ℕ) → length buf < n → f buf ≡ none

overwrite-KeepsLength : (bs : List ℕ) → KeepsLength (overwrite bs)
overwrite-KeepsLength [] buf out h = ground arith
overwrite-KeepsLength (b ∷ bs) [] out h = cc
overwrite-KeepsLength (b ∷ bs) (x ∷ buf) out h =
    let (rest, e, d) = >>=-eq-some (overwrite bs buf) (λ r. some (b ∷ r)) h in
    ground (arith, overwrite-KeepsLength bs buf rest e)

overwrite-Needs : (bs : List ℕ) → Needs (length bs) (overwrite bs)
overwrite-Needs [] buf h = absurd (omega arith)
overwrite-Needs (b ∷ bs) [] h = refl
overwrite-Needs (b ∷ bs) (x ∷ buf) h = rw (overwrite-Needs bs buf (omega arith))

apply_at-KeepsLength :
    (off : ℕ) (f : List ℕ → Option (List ℕ)) → KeepsLength f → KeepsLength (apply_at off f)
apply_at-KeepsLength zero f keep buf out h = keep buf out h
apply_at-KeepsLength (suc off) f keep [] out h = cc
apply_at-KeepsLength (suc off) f keep (x ∷ buf) out h =
    let (rest, e, d) = >>=-eq-some (apply_at off f buf) (λ r. some (x ∷ r)) h in
    ground (arith, apply_at-KeepsLength off f keep buf rest e)

apply_at-Needs :
    (off n : ℕ) (f : List ℕ → Option (List ℕ))
    → Needs n f
    → 0 < n
    → Needs (off + n) (apply_at off f)
apply_at-Needs zero n f need pos buf h = need buf (omega arith)
apply_at-Needs (suc off) n f need pos [] h = refl
apply_at-Needs (suc off) n f need pos (x ∷ buf) h =
    rw (apply_at-Needs off n f need pos buf (omega arith))

length-prep_to_send_16 : (e : Endian) (v : ℕ) → length (prep_to_send_16 e v) ≡ 2
unfolding prep_to_send_16
length-prep_to_send_16 little v = refl
length-prep_to_send_16 big v = refl

-- Both carry over to one write after another.
module _ (f g : List ℕ → Option (List ℕ)) (f_keeps : KeepsLength f) where
  KeepsLength-bind : KeepsLength g → KeepsLength (λ buf. f buf >>= g)
  KeepsLength-bind g_keeps buf out h =
      let (mid, e, h') = >>=-eq-some (f buf) g h in g_keeps mid out h' ∙ f_keeps buf mid e

  Needs-bind : (n : ℕ) → Needs n g → Needs n (λ buf. f buf >>= g)
  Needs-bind n g_needs buf short =
      >>=-eq-none (f buf) g (λ mid e. g_needs mid (omega (arith, f_keeps buf mid e)))

module _ (e : Endian) (s : Schedule) where
  abbrev put : ℕ → ℕ → List ℕ → Option (List ℕ)
  put off v = write_at off (prep_to_send_16 e v)

  put-KeepsLength : (off v : ℕ) → KeepsLength (put off v)
  put-KeepsLength off v =
      apply_at-KeepsLength off (overwrite (prep_to_send_16 e v)) (overwrite-KeepsLength _)

  put-Needs : (off v : ℕ) → Needs (off + 2) (put off v)
  put-Needs off v =
      apply_at-Needs off 2 (overwrite (prep_to_send_16 e v))
        (λ b h. overwrite-Needs (prep_to_send_16 e v) b (omega (arith, length-prep_to_send_16 e v)))
        (omega arith)

  -- The last of the four writes ends at the eighth byte.
  encode_schedule-Needs : Needs 8 (encode_schedule e s)
  unfolding encode_schedule
  encode_schedule-Needs = Needs-bind (put 0 s.schedule_id) _ (put-KeepsLength 0 _) 8 (
      Needs-bind (put 2 s.valve_id) _ (put-KeepsLength 2 _) 8
        (Needs-bind (put 4 s.start) (put 6 s.stop) (put-KeepsLength 4 _) 8 (put-Needs 6 s.stop)))

  encode_schedule-KeepsLength : KeepsLength (encode_schedule e s)
  unfolding encode_schedule
  encode_schedule-KeepsLength = KeepsLength-bind (put 0 s.schedule_id) _ (put-KeepsLength 0 _) (
      KeepsLength-bind (put 2 s.valve_id) _ (put-KeepsLength 2 _) (
        KeepsLength-bind (put 4 s.start) (put 6 s.stop) (put-KeepsLength 4 _)
          (put-KeepsLength 6 s.stop)))

encode_schedules-fault :
    (e : Endian) (i : ℕ) (s : Schedule) (sches : List Schedule) (buf : List ℕ)
    → length buf < 8 * (i + suc (length sches))
    → encode_schedules e i (s ∷ sches) buf ≡ none
unfolding encode_schedules
encode_schedules-fault e i s [] buf short =
    rw (apply_at-Needs (8 * i) 8 _ (encode_schedule-Needs e s) (omega arith) buf (omega arith))
encode_schedules-fault e i s (t ∷ sches) buf short =
    >>=-eq-none (apply_at (8 * i) (encode_schedule e s) buf) _ λ m h.
      encode_schedules-fault e (i + 1) t sches m
        (omega (arith, apply_at-KeepsLength (8 * i) _ (encode_schedule-KeepsLength e s) buf m h))

-- The bug: from 8192 schedules on, up to the 65535 that the loop counts, the code writes past the
-- end of its buffer, whose size has wrapped.
pub craft_active_schedules_rsp-fault :
    (e : Endian) (mem : Allocator) (sches : List Schedule)
    → 8192 ≤ length sches
    → length sches < 65536
    → craft_active_schedules_rsp e mem sches ≡ none
unfolding craft_active_schedules_rsp
craft_active_schedules_rsp-fault e mem [] many few = absurd (omega arith)
craft_active_schedules_rsp-fault e mem (s ∷ sches) many few =
    rw (take_all (u16 (length (s ∷ sches))) (s ∷ sches) (omega arith)) (
      encode_schedules-fault e 0 s sches _
        (omega (arith, mem.length-malloc (u16 (8 * u16 (length (s ∷ sches)))))))
