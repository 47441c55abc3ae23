-- ===== src/Text.antt =====
-- Text as the list of its bytes, and what the programs use of printf, of streams and of stol:
-- decimal numbers, with a sign too, and fields of a least width that are filled with spaces.
pub mod Decimal
pub mod Lines
pub mod Signed
use Prim.Native.Char.{code}
use Prim.Native.String.{String}
use bbd.Prelude.{
  ℕ, zero, suc, ◌+◌, ◌-◌, ◌*◌, ◌/◌, ◌%◌, ◌^◌, Bool, true, false, ◌&&◌, ◌||◌, List, [], ◌∷◌, ◌++◌,
  length, replicate, ltb, leb, if◌then◌else◌, ◌==◌, Option, none, some,
}

abbrev pub codes : String → List ℕ
codes String.[] = []
codes (String.◌∷◌ c s) = code c ∷ codes s

-- The last digit stands behind those of the tenth part; a number has at most as many digits as `n`
-- has rounds.
unfoldable pub digits : (rounds n : ℕ) → List ℕ
digits zero n = (b'0' + n) ∷ []
digits (suc rounds) n = elim (ltb n 10) [
  | true ↦ (b'0' + n) ∷ []
  | false ↦ digits rounds (n / 10) ++ (b'0' + n % 10) ∷ []
]

-- %u and %lu.
unfoldable pub decimal : ℕ → List ℕ
unfolding digits
decimal n = digits n n

-- %11s and %11u, for a width of 11.
abbrev pub pad : ℕ → List ℕ → List ℕ
pad width text = replicate (width - length text) b' ' ++ text

abbrev pub is_digit : ℕ → Bool
is_digit c = leb b'0' c && leb c b'9'

-- The number that the digits at the front spell, behind those read already, and the rest.
unfoldable pub scan_digits : ℕ → List ℕ → ℕ × List ℕ
scan_digits n [] = (n, [])
scan_digits n (c ∷ text) =
    let more = scan_digits (n * 10 + (c - b'0')) text in if is_digit c then more else (n, c ∷ text)

abbrev pub starts_number : List ℕ → Bool
starts_number [] = false
starts_number (c ∷ text) = is_digit c

-- A signed number; `negsuc n` is -(n + 1).
pub data ℤ : Type 0 where
  pos negsuc : ℕ → ℤ

-- What a word of 32 bits stands for.
abbrev pub word_to_int : ℕ → ℤ
word_to_int m = if ltb m (2 ^ 31) then pos m else negsuc (2 ^ 32 - 1 - m)

-- How a stream writes an int.
unfoldable pub signed : ℤ → List ℕ
signed (pos n) = decimal n
signed (negsuc n) = b'-' ∷ decimal (suc n)

abbrev is_space : ℕ → Bool
is_space c = (c == 32) || (leb 9 c && leb c 13)

unfoldable pub skip_spaces : List ℕ → List ℕ
skip_spaces [] = []
skip_spaces (c ∷ text) = let rest = skip_spaces text in if is_space c then rest else c ∷ text

abbrev negative : ℕ → ℤ
negative zero = pos 0
negative (suc n) = negsuc n

-- The number at the front, `none` where there is none or it is no long of 64 bits.
abbrev pub converted : (is_negative : Bool) → List ℕ → Option ℤ
converted is_negative text =
    let n = (scan_digits 0 text).0 in
    if starts_number text && ltb n (if is_negative then 2 ^ 63 + 1 else 2 ^ 63)
    then some (if is_negative then negative n else pos n)
    else none

abbrev pub behind_sign : List ℕ → Option ℤ
behind_sign [] = none
behind_sign (c ∷ text) =
    if c == b'-'
    then converted true text
    else if c == b'+'
    then converted false text
    else converted false (c ∷ text)

-- `none` is an exception of stol: no number, or one out of range.
unfoldable pub stol : List ℕ → Option ℤ
unfolding skip_spaces
stol text = behind_sign (skip_spaces text)
