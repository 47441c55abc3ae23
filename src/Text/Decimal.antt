-- ===== src/Text/Decimal.antt =====
-- Decimal numbers: they are read back, and those of 16 bits are short.
use bbd.Prelude.{
  ℕ, zero, suc, ◌+◌, ◌*◌, ◌/◌, ◌%◌, ◌≤◌, ◌<◌, ◌≡◌, refl, ◌∙◌, true, false, List, [], ◌∷◌, ◌++◌,
  length, any, any-append, ◌==◌, length-append, length-replicate, append_assoc, arith, ltb,
  Bool-cases, inl, inr, replicate, ◌-◌,
}
use bbd.Text.{digits, decimal, pad, is_digit, scan_digits, starts_number}

scan_last :
    (n : ℕ) (rest : List ℕ) → scan_digits (n / 10) ((b'0' + n % 10) ∷ rest) ≡ scan_digits n rest
unfolding scan_digits
scan_last n rest = ground arith

scan_one : (n : ℕ) (rest : List ℕ) → n < 10 → scan_digits 0 ((b'0' + n) ∷ rest) ≡ scan_digits n rest
unfolding scan_digits
scan_one n rest h = ground arith

scan_digits-digits :
    (rounds n : ℕ) (rest : List ℕ)
    → n ≤ rounds
    → scan_digits 0 (digits rounds n ++ rest) ≡ scan_digits n rest
unfolding digits
scan_digits-digits zero n rest h = scan_one n rest (omega arith)
scan_digits-digits (suc rounds) n rest h = elim (Bool-cases (ltb n 10)) [
  | inl small ↦ rw (small, digits) (scan_one n rest (ground arith))
  | inr large ↦
      rw (large, digits, append_assoc (digits rounds (n / 10)) ((b'0' + n % 10) ∷ []) rest)
        (scan_digits-digits rounds (n / 10) ((b'0' + n % 10) ∷ rest) (ground arith)
          ∙ scan_last n rest)
]

-- Behind a number stands the end or a character that is no digit.
abbrev pub Ends : List ℕ → Type 0
Ends [] = Unit
Ends (c ∷ rest) = is_digit c ≡ false

pub scan_digits-decimal :
    (n : ℕ) (rest : List ℕ) → Ends rest → scan_digits 0 (decimal n ++ rest) ≡ (n, rest)
unfolding decimal scan_digits
scan_digits-decimal n rest h = scan_digits-digits n n rest (omega arith) ∙ stops n rest h
  where
    stops : (n : ℕ) (rest : List ℕ) → Ends rest → scan_digits n rest ≡ (n, rest)
    stops n [] h = refl
    stops n (c ∷ rest) h = rw h refl

starts_number-digits :
    (rounds n : ℕ) (rest : List ℕ) → n ≤ rounds → starts_number (digits rounds n ++ rest) ≡ true
unfolding digits
starts_number-digits zero n rest h = ground arith
starts_number-digits (suc rounds) n rest h = elim (Bool-cases (ltb n 10)) [
  | inl small ↦ rw (small, digits) (ground arith)
  | inr large ↦
      rw (large, digits, append_assoc (digits rounds (n / 10)) ((b'0' + n % 10) ∷ []) rest)
        (starts_number-digits rounds (n / 10) ((b'0' + n % 10) ∷ rest) (ground arith))
]

pub starts_number-decimal : (n : ℕ) (rest : List ℕ) → starts_number (decimal n ++ rest) ≡ true
unfolding decimal
starts_number-decimal n rest = starts_number-digits n n rest (omega arith)

any-digits :
    (c rounds n : ℕ) → is_digit c ≡ false → n ≤ rounds → any (λ d. d == c) (digits rounds n) ≡ false
unfolding digits
any-digits c zero n h small = ground arith
any-digits c (suc rounds) n h small = ground (
  arith,
  any-digits c rounds (n / 10),
  any-append (λ d. d == c) (digits rounds (n / 10)) ((b'0' + n % 10) ∷ []),
)

-- A number has only digits.
pub any-decimal : (c n : ℕ) → is_digit c ≡ false → any (λ d. d == c) (decimal n) ≡ false
unfolding decimal
any-decimal c n h = any-digits c n n h (omega arith)

length-digits-pos : (rounds n : ℕ) → 0 < length (digits rounds n)
unfolding digits
length-digits-pos zero n = omega arith
length-digits-pos (suc rounds) n =
    ground (arith, length-append (digits rounds (n / 10)) ((b'0' + n % 10) ∷ []))

-- One more digit for a number that is ten times as large.
length_step :
    (k limit : ℕ)
    → ((rounds n : ℕ) → n < limit → length (digits rounds n) ≤ k)
    → (rounds n : ℕ) → n < 10 * limit
    → length (digits rounds n) ≤ suc k
unfolding digits
length_step k limit shorter zero n h = omega arith
length_step k limit shorter (suc rounds) n h =
    ground (
      arith,
      shorter rounds (n / 10),
      length-append (digits rounds (n / 10)) ((b'0' + n % 10) ∷ []),
    )

length_one : (rounds n : ℕ) → n < 10 → length (digits rounds n) ≤ 1
unfolding digits
length_one zero n h = omega arith
length_one (suc rounds) n h = ground arith

pub length-decimal : (n : ℕ) → n < 100000 → length (decimal n) ≤ 5
unfolding decimal
length-decimal n =
    length_step 4 10000 (length_step 3 1000 (length_step 2 100 (length_step 1 10 length_one))) n n

length_least :
    (k limit : ℕ)
    → 0 < limit
    → ((rounds n : ℕ) → limit ≤ n → n ≤ rounds → k ≤ length (digits rounds n))
    → (rounds n : ℕ) → 10 * limit ≤ n
    → n ≤ rounds
    → suc k ≤ length (digits rounds n)
unfolding digits
length_least k limit pos longer zero n h small = absurd (omega arith)
length_least k limit pos longer (suc rounds) n h small =
    ground
      (arith, longer rounds (n / 10), length-append (digits rounds (n / 10)) ((b'0' + n % 10) ∷ []))

pub length-decimal_least : (n : ℕ) → 10000 ≤ n → 5 ≤ length (decimal n)
unfolding decimal
length-decimal_least n h =
    length_least 4 1000 (omega arith)
      (length_least 3 100 (omega arith) (
        length_least 2 10 (omega arith)
          (length_least 1 1 (omega arith) (λ r m _ _. length-digits-pos r m))))
      n n h (omega arith)

pub length-decimal_port : (n : ℕ) → n < 10000 → length (decimal n) ≤ 4
unfolding decimal
length-decimal_port n = length_step 3 1000 (length_step 2 100 (length_step 1 10 length_one)) n n

pub length-pad : (width : ℕ) (text : List ℕ) → length text ≤ width → length (pad width text) ≡ width
length-pad width text h = omega (
  arith,
  length-append (replicate (width - length text) b' ') text,
  length-replicate {A = ℕ} (width - length text) b' ',
)
