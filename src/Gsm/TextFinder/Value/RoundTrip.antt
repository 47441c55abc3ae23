-- ===== src/Gsm/TextFinder/Value/RoundTrip.antt =====
-- WideTextFinder.cpp, getValue: a number that was written in decimal is read back.
use bbd.Prelude.{
  ℕ, ◌+◌, ◌-◌, ◌*◌, ◌%◌, ◌^◌, ◌<◌, ◌≡◌, refl, ap, ◌∙◌, sym, Bool, true, false, ◌||◌, Option, some,
  List, [], ◌∷◌, ◌++◌, any, arith, ◌==◌, Bool-cases, inl, inr,
}
use bbd.Text.{ℤ, pos, decimal, is_digit, scan_digits, starts_number, word_to_int}
use bbd.Text.Decimal.{scan_digits-decimal, starts_number-decimal}
use bbd.Gsm.TextFinder.Value.{
  skip_text, with_digit, take_in, at_character, value_loop, value_from, get_value,
}

-- What ends the first loop.
abbrev pub ends_text : ℕ → Bool
ends_text c = (c == b'-') || (is_digit c || (c == 0))

skip_text-append :
    (pre : List ℕ) (c : ℕ) (stream : List ℕ)
    → any ends_text pre ≡ false
    → is_digit c ≡ true
    → skip_text (pre ++ c ∷ stream) ≡ (c, stream)
unfolding skip_text
skip_text-append [] c stream h d = ground arith
skip_text-append (x ∷ pre) c stream h d = ground (arith, skip_text-append pre c stream)

scan_more :
    (n c : ℕ) (text : List ℕ)
    → is_digit c ≡ true
    → scan_digits n (c ∷ text) ≡ scan_digits (n * 10 + (c - b'0')) text
unfolding scan_digits
scan_more n c text d = rw d refl

scan_stop :
    (n c : ℕ) (text : List ℕ) → is_digit c ≡ false → scan_digits n (c ∷ text) ≡ (n, c ∷ text)
unfolding scan_digits
scan_stop n c text d = rw d refl

module _ (skip_char : ℕ) (no_digit : is_digit skip_char ≡ false) where
  take_in-digit :
      (c value : ℕ)
      → is_digit c ≡ true
      → take_in skip_char c (false, value) ≡ some (with_digit c (false, value))
  take_in-digit c value d = ground arith

  with_digit_wrapped :
      (c value : ℕ)
      → with_digit c (false, value % 2 ^ 32) ≡ (false, (value * 10 + (c - b'0')) % 2 ^ 32)
  with_digit_wrapped c value = ap (λ v. (false, v)) (omega arith)

  stopped :
      (more x : ℕ) (stream : List ℕ) (loop : Bool × ℕ → Option (ℤ × List ℕ))
      → is_digit x ≡ false
      → (x == skip_char) ≡ false
      → at_character skip_char x stream loop (some (false, more % 2 ^ 32))
        ≡ some (word_to_int (more % 2 ^ 32), stream)
  stopped more x stream loop last other = rw (last, other) refl

  ended :
      (more x : ℕ) (stream : List ℕ) (loop : Bool × ℕ → Option (ℤ × List ℕ)) (n e : ℕ)
      (rest : List ℕ)
      → is_digit x ≡ false
      → (e == skip_char) ≡ false
      → ◌≡◌ {A = ℕ × List ℕ} (more, x ∷ stream) (n, e ∷ rest)
      → at_character skip_char x stream loop (some (false, more % 2 ^ 32))
        ≡ some (word_to_int (n % 2 ^ 32), rest)
  ended more x stream loop n e rest last other h =
      let same : x ≡ e = cc h in
      let left : stream ≡ rest = cc h in
      let read : more ≡ n = cc h in
      stopped more x stream loop last (ap (λ c. c == skip_char) same ∙ other)
      ∙ ap (λ m. some (word_to_int (m % 2 ^ 32), stream)) read
      ∙ ap (λ s. some (word_to_int (n % 2 ^ 32), s)) left

  value_loop-scan_digits :
      (stream : List ℕ) (c value n e : ℕ) (rest : List ℕ)
      → is_digit c ≡ true
      → (e == skip_char) ≡ false
      → scan_digits (value * 10 + (c - b'0')) stream ≡ (n, e ∷ rest)
      → value_loop skip_char c (false, value % 2 ^ 32) stream
        ≡ some (word_to_int (n % 2 ^ 32), rest)
  unfolding value_loop scan_digits
  value_loop-scan_digits [] c value n e rest d other h = absurd (cc h)
  value_loop-scan_digits (x ∷ stream) c value n e rest d other h =
      let more = value * 10 + (c - b'0') in
      ap (at_character skip_char x stream (λ n'. value_loop skip_char x n' stream))
        (take_in-digit c (value % 2 ^ 32) d)
      ∙ ap
          (λ n'. at_character skip_char x stream (λ n'. value_loop skip_char x n' stream) (some n'))
          (with_digit_wrapped c value)
      ∙ elim (Bool-cases (is_digit x)) [
        | inl digit ↦ rw digit (
            value_loop-scan_digits stream x more n e rest digit other
              (sym (scan_more more x stream digit) ∙ h))
        | inr last ↦
            ended more x stream (λ n'. value_loop skip_char x n' stream) n e rest last other
              (sym (scan_stop more x stream last) ∙ h)
      ]

  number_read :
      (pre text : List ℕ) (n e : ℕ) (rest : List ℕ)
      → any ends_text pre ≡ false
      → starts_number text ≡ true
      → (e == skip_char) ≡ false
      → scan_digits 0 text ≡ (n, e ∷ rest)
      → get_value skip_char (pre ++ text) ≡ some (word_to_int (n % 2 ^ 32), rest)
  unfolding get_value
  number_read pre [] n e rest quiet starts other h = cc
  number_read pre (c ∷ text) n e rest quiet starts other h =
      ap (value_from skip_char) (skip_text-append pre c text quiet starts)
      ∙ value_loop-scan_digits text c 0 n e rest starts other (sym (scan_more 0 c text starts) ∙ h)

  -- getValue reads a number below 2^31 back from its decimal digits, behind any text without
  -- digits, minus signs and silences, and leaves the stream behind the one character that ends the
  -- number. That character is no digit and not the one to be skipped, which is no digit.
  pub get_value-decimal :
      (pre : List ℕ) (n e : ℕ) (rest : List ℕ)
      → any ends_text pre ≡ false
      → n < 2 ^ 31
      → is_digit e ≡ false
      → (e == skip_char) ≡ false
      → get_value skip_char (pre ++ (decimal n ++ e ∷ rest)) ≡ some (pos n, rest)
  get_value-decimal pre n e rest quiet small last other =
      number_read pre (decimal n ++ e ∷ rest) n e rest quiet (starts_number-decimal n (e ∷ rest))
        other (scan_digits-decimal n (e ∷ rest) last)
      ∙ ap (λ v. some (v, rest)) (ground arith)
