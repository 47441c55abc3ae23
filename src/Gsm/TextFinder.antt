-- ===== src/Gsm/TextFinder.antt =====
-- GSMSHIELD/WideTextFinder.cpp: the search in the stream of the module. A `read` gives the next
-- character, or 0 where none comes in time; the end of the list is such a silence.
pub mod Found
pub mod Value
use bbd.Prelude.{
  ℕ, zero, suc, ◌+◌, ◌-◌, ◌%◌, Bool, true, false, ◌&&◌, ltb, leb, ◌==◌, List, [], ◌∷◌, ◌++◌, length,
  replicate, if◌then◌else◌, drop,
}

-- The character of a C string at an index; behind the last stands 0.
unfoldable pub char_at : List ℕ → ℕ → ℕ
char_at [] i = 0
char_at (c ∷ cs) zero = c
char_at (c ∷ cs) (suc i) = char_at cs i

-- A length is kept in a byte.
abbrev pub byte_length : List ℕ → ℕ
byte_length s = length s % 256

-- The `while` loop, with what is left of the stream.
unfoldable pub find_loop :
    (target terminate : List ℕ) → (index term_index : ℕ) → List ℕ → Bool × List ℕ
unfolding char_at
find_loop target terminate index term_index [] = (false, [])
find_loop target terminate index term_index (c ∷ stream) =
    let next = if c == char_at target index then index + 1 else 0 in
    let stops = ltb 0 (byte_length terminate) && (c == char_at terminate term_index) in
    let more = find_loop target terminate next (if stops then term_index + 1 else 0) stream in
    if c == 0
    then (false, stream)
    else if (c == char_at target index) && leb (byte_length target) (index + 1)
    then (true, stream)
    else if stops && leb (byte_length terminate) (term_index + 1)
    then (false, stream)
    else more

-- `terminate` is empty for NULL.
unfoldable pub find_until : (target terminate : List ℕ) → List ℕ → Bool × List ℕ
unfolding find_loop
find_until [] terminate stream = (true, stream)
find_until (t ∷ target) terminate stream = find_loop (t ∷ target) terminate 0 0 stream

unfoldable pub find : List ℕ → List ℕ → Bool × List ℕ
unfolding find_until
find target stream = find_until target [] stream

-- The buffer that a silence leaves: its first character was 0 before the loop.
abbrev partial : List ℕ → List ℕ
partial [] = 0 ∷ []
partial (c ∷ buffer) = c ∷ buffer

-- What the loop of getString returns, and the buffer; `rounds` is `length - 1 - index`. The first
-- character of the closing string ends it: the rest of the buffer is filled and `length` returned.
unfoldable pub get_loop : (post : List ℕ) → (size rounds : ℕ) → List ℕ → List ℕ → ℕ × List ℕ
unfolding char_at
get_loop post size zero buffer stream = (length buffer, buffer ++ 0 ∷ [])
get_loop post size (suc rounds) buffer [] = (0, partial buffer)
get_loop post size (suc rounds) buffer (c ∷ stream) =
    let more = get_loop post size rounds (buffer ++ c ∷ []) stream in
    if c == 0
    then (0, partial buffer)
    else if c == char_at post 0
    then (size, buffer ++ replicate (size - length buffer) 0)
    else more

unfoldable pub get_string : (pre_string post_string : List ℕ) → (size : ℕ) → List ℕ → ℕ × List ℕ
unfolding find get_loop
get_string pre_string post_string size stream =
    let (found, rest) = find pre_string stream in
    let result = get_loop post_string size (size - 1) [] rest in if found then result else (0, [])
