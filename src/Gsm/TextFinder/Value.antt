-- ===== src/Gsm/TextFinder/Value.antt =====
-- WideTextFinder.cpp: getValue, which reads a number from the stream. A silence gives the character
-- 0, and the end of the list is one that lasts.
pub mod RoundTrip
use bbd.Prelude.{
  ℕ, ◌+◌, ◌-◌, ◌*◌, ◌%◌, ◌^◌, ◌<◌, ◌≡◌, refl, Bool, true, false, ◌||◌, not, Option, none, some,
  List, [], ◌∷◌, ◌++◌, any, arith, ◌==◌, if◌then◌else◌,
}
use bbd.Text.{ℤ, pos, decimal, is_digit, scan_digits, word_to_int}

-- The first loop: the character that ends it, and the stream behind.
unfoldable pub skip_text : List ℕ → ℕ × List ℕ
skip_text [] = (0, [])
skip_text (c ∷ stream) =
    let rest = skip_text stream in
    if (c == b'-') || (is_digit c || (c == 0)) then (c, stream) else rest

-- The sign and the value so far, a long of 32 bits kept as a word.
abbrev pub with_digit : ℕ → Bool × ℕ → Bool × ℕ
with_digit c (is_negative, value) = (is_negative, (value * 10 + (c - b'0')) % 2 ^ 32)

abbrev pub signed_value : Bool × ℕ → ℤ
signed_value (false, value) = word_to_int value
signed_value (true, value) = word_to_int ((2 ^ 32 - value) % 2 ^ 32)

-- What the body of the second loop makes of a character; `none` is a silence, at which 0 is returned.
abbrev pub take_in : (skip_char c : ℕ) → Bool × ℕ → Option (Bool × ℕ)
take_in skip_char c n =
    if c == skip_char
    then some n
    else if c == 0
    then none
    else if c == b'-'
    then some (true, n.1)
    else if is_digit c
    then some (with_digit c n)
    else some n

-- The condition of the second loop, at a silence and at the character `d`; `none` is a loop that goes
-- on for ever, as it does where 0 itself is to be skipped and nothing comes.
abbrev pub at_silence : (skip_char : ℕ) → Option (Bool × ℕ) → Option (ℤ × List ℕ)
at_silence skip_char none = some (pos 0, [])
at_silence skip_char (some n) = if skip_char == 0 then none else some (signed_value n, [])

abbrev pub at_character :
    (skip_char d : ℕ)
    → List ℕ
    → (Bool × ℕ → Option (ℤ × List ℕ))
    → Option (Bool × ℕ)
    → Option (ℤ × List ℕ)
at_character skip_char d stream loop none = some (pos 0, d ∷ stream)
at_character skip_char d stream loop (some n) =
    if is_digit d || (d == skip_char) then loop n else some (signed_value n, stream)

unfoldable pub value_loop : (skip_char c : ℕ) → Bool × ℕ → List ℕ → Option (ℤ × List ℕ)
value_loop skip_char c n [] = at_silence skip_char (take_in skip_char c n)
value_loop skip_char c n (d ∷ stream) =
    at_character skip_char d stream (λ n'. value_loop skip_char d n' stream) (take_in skip_char c n)

abbrev pub value_from : ℕ → ℕ × List ℕ → Option (ℤ × List ℕ)
value_from skip_char (c, stream) = value_loop skip_char c (false, 0) stream

-- The value, and what is left of the stream: the character that ends the number is read as well.
unfoldable pub get_value : (skip_char : ℕ) → List ℕ → Option (ℤ × List ℕ)
unfolding skip_text value_loop
get_value skip_char stream = value_from skip_char (skip_text stream)
