-- ===== src/Bytes.antt =====
-- What the C code of both programs does with memory: 16-bit words in the host's byte order,
-- htons and ntohs, buffers of bytes with a fault on an access outside them, and recv.
-- The standard C operations that socket_data.c and socket_data.cpp build on.
use bbd.Prelude.{
  ℕ, zero, suc, ◌+◌, ◌*◌, ◌/◌, ◌%◌, ◌<◌, ◌≡◌, refl, Option, none, some, List, [], ◌∷◌, ◌++◌, arith,
  length, take, drop, ◌>>=◌,
}

-- Conversion to uint16_t.
abbrev pub u16 : ℕ → ℕ
u16 n = n % 65536

pub data Endian : Type 0 where
  little big : Endian

-- The bytes in memory of a uint16_t.
abbrev pub store16 : Endian → ℕ → List ℕ
store16 little v = v % 256 ∷ v / 256 % 256 ∷ []
store16 big v = v / 256 % 256 ∷ v % 256 ∷ []

-- The uint16_t whose bytes in memory are `a` and `b`.
abbrev pub load16 : Endian → ℕ → ℕ → ℕ
load16 little a b = a + b * 256
load16 big a b = a * 256 + b

abbrev pub htons : Endian → ℕ → ℕ
htons little v = v % 256 * 256 + v / 256 % 256
htons big v = v

abbrev pub ntohs : Endian → ℕ → ℕ
ntohs = htons

-- The two bytes of a uint16_t in network order.
abbrev pub be16 : ℕ → List ℕ
be16 v = v / 256 % 256 ∷ v % 256 ∷ []

-- Work on the memory from `off` on, that is, through the pointer `buf + off`.
abbrev pub apply_at : ℕ → (List ℕ → Option (List ℕ)) → List ℕ → Option (List ℕ)
apply_at zero f buf = f buf
apply_at (suc off) f [] = none
apply_at (suc off) f (x ∷ buf) = do rest ← apply_at off f buf; some (x ∷ rest)

-- memcpy to the start of a buffer; a write past its end is a fault.
abbrev pub overwrite : List ℕ → List ℕ → Option (List ℕ)
overwrite [] buf = some buf
overwrite (b ∷ bs) [] = none
overwrite (b ∷ bs) (x ∷ buf) = do rest ← overwrite bs buf; some (b ∷ rest)

-- memcpy of `bs` to `buf + off`.
abbrev pub write_at : ℕ → List ℕ → List ℕ → Option (List ℕ)
write_at off bs = apply_at off (overwrite bs)

-- memcpy of `n` bytes from the start of a buffer; a read past its end is a fault.
abbrev pub read : ℕ → List ℕ → Option (List ℕ)
read zero buf = some []
read (suc n) [] = none
read (suc n) (x ∷ buf) = do rest ← read n buf; some (x ∷ rest)

-- malloc: a buffer of the size asked for, with contents that are not known.
pub record Allocator : Type 0 where
  pub malloc : ℕ → List ℕ
  pub length-malloc : (n : ℕ) → length (malloc n) ≡ n

-- The reading side of a connection: the bytes that will come before the peer closes it, or an
-- error in their place.
pub data Incoming : Type 0 where
  bytes : List ℕ → Incoming
  broken : Incoming

-- recv with MSG_WAITALL, which comes back short only where the peer has closed the connection.
-- `none` is its result -1, and `some` has what was received and what is left.
abbrev pub recv : ℕ → Incoming → Option (List ℕ × List ℕ)
recv n broken = none
recv n (bytes xs) = some (take n xs, drop n xs)

-- The buffer after a recv of `got` into it.
abbrev pub fill : List ℕ → List ℕ → List ℕ
fill got buf = got ++ drop (length got) buf

pub apply_at-append :
    (pre : List ℕ) {rest out : List ℕ} (f : List ℕ → Option (List ℕ))
    → f rest ≡ some out
    → apply_at (length pre) f (pre ++ rest) ≡ some (pre ++ out)
apply_at-append [] f h = h
apply_at-append (x ∷ pre) f h = rw (apply_at-append pre f h)

pub overwrite-append :
    (bs old post : List ℕ) → length old ≡ length bs → overwrite bs (old ++ post) ≡ some (bs ++ post)
overwrite-append [] [] post h = refl
overwrite-append [] (x ∷ old) post h = absurd (omega arith)
overwrite-append (b ∷ bs) [] post h = absurd (omega arith)
overwrite-append (b ∷ bs) (x ∷ old) post h = rw (overwrite-append bs old post (omega arith))

pub read-append : (xs ys : List ℕ) → read (length xs) (xs ++ ys) ≡ some xs
read-append [] ys = refl
read-append (x ∷ xs) ys = rw (read-append xs ys)

-- Two words of either byte order agree on the wire.
pub store16-htons : (e : Endian) (v : ℕ) → v < 65536 → store16 e (htons e v) ≡ be16 v
store16-htons little v h = ground arith
store16-htons big v h = refl

pub ntohs-load16 :
    (e : Endian) (v : ℕ) → v < 65536 → ntohs e (load16 e (v / 256 % 256) (v % 256)) ≡ v
ntohs-load16 little v h = omega arith
ntohs-load16 big v h = omega arith
