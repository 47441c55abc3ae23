-- ===== src/Gsm/Http/Content.antt =====
-- SIM900.cpp, getRestContent: what is read of an answer, and where it runs over its buffer.
use bbd.Prelude.{
  ℕ, ◌≤◌, ◌<◌, ◌≡◌, refl, ap, ◌∙◌, sym, Bool, true, false, some, List, [], ◌∷◌, ◌++◌, any, arith,
  length, length-append, ◌||◌, any-append, drop, length-drop, append_assoc, ◌==◌,
}
use bbd.Text.{codes, decimal, scan_digits, starts_number, is_digit}
use bbd.Text.Decimal.{scan_digits-decimal, starts_number-decimal, length-decimal, any-decimal}
use bbd.Text.Signed.{skip_spaces-number}
use bbd.Gsm.Http.{
  fault, content, skip_to, prepend, fill_line, atoi, fill_content, with_length, behind_sign,
  get_rest_content, behind_plus, behind_colon, ended, unsigned, with_number,
}

pub skip_to-append :
    (c : ℕ) (pre rest : List ℕ)
    → any (λ b. b == c) pre ≡ false
    → skip_to c (pre ++ c ∷ rest) ≡ some rest
unfolding skip_to
skip_to-append c [] rest h = ground arith
skip_to-append c (b ∷ pre) rest h = ground (arith, skip_to-append c pre rest)

-- Neither the head nor the tail passes the test.
no_head :
    (p : ℕ → Bool) (b : ℕ) (bs : List ℕ)
    → any p (b ∷ bs) ≡ false
    → (p b ≡ false) × (any p bs ≡ false)
no_head p b bs h = ground arith

-- A line that fits is stored at the front of the buffer.
fill_line-append :
    (line reads cont : List ℕ)
    → any (λ b. b == b'\n') line ≡ false
    → length line ≤ length cont
    → fill_line (line ++ b'\n' ∷ reads) cont ≡ content (line ++ drop (length line) cont) reads
unfolding fill_line
fill_line-append [] reads [] h fits = refl
fill_line-append [] reads (x ∷ cont) h fits = refl
fill_line-append (b ∷ line) reads [] h fits = absurd (omega arith)
fill_line-append (b ∷ line) reads (x ∷ cont) h fits =
    let (other, more) = no_head (λ c. c == b'\n') b line h in
    rw other (ap (prepend b) (fill_line-append line reads cont more (omega arith)))

fill_content-append :
    (body reads cont : List ℕ)
    → length body ≤ length cont
    → fill_content (length body) (body ++ reads) cont
      ≡ content (body ++ drop (length body) cont) reads
unfolding fill_content
fill_content-append [] reads cont fits = refl
fill_content-append (b ∷ body) reads [] fits = absurd (omega arith)
fill_content-append (b ∷ body) reads (x ∷ cont) fits =
    ap (prepend b) (fill_content-append body reads cont (omega arith))

-- More than the buffer holds.
fill_content_fault :
    (body reads cont : List ℕ)
    → length cont < length body
    → fill_content (length body) (body ++ reads) cont ≡ fault
unfolding fill_content
fill_content_fault [] reads cont over = absurd (omega arith)
fill_content_fault (b ∷ body) reads [] over = refl
fill_content_fault (b ∷ body) reads (x ∷ cont) over =
    ap (prepend b) (fill_content_fault body reads cont (omega arith))

-- A line behind a plus sign and a colon.
pub get_rest_content-line :
    (pre mid line reads cont : List ℕ)
    → any (λ b. b == b'+') pre ≡ false
    → any (λ b. b == b':') mid ≡ false
    → any (λ b. b == b'\n') line ≡ false
    → length line ≤ length cont
    → get_rest_content (pre ++ b'+' ∷ (mid ++ b':' ∷ (line ++ b'\n' ∷ reads))) cont
      ≡ with_length (content (line ++ drop (length line) cont) reads)
unfolding get_rest_content
get_rest_content-line pre mid line reads cont no_plus no_colon no_break fits =
    ap (behind_plus cont) (skip_to-append b'+' pre (mid ++ b':' ∷ (line ++ b'\n' ∷ reads)) no_plus)
    ∙ ap (behind_colon cont) (skip_to-append b':' mid (line ++ b'\n' ∷ reads) no_colon)
    ∙ ap with_length (fill_line-append line reads cont no_break fits)

behind_sign-number :
    (text : List ℕ)
    → starts_number text ≡ true
    → behind_sign text ≡ unsigned false (ended (scan_digits 0 text))
unfolding scan_digits
behind_sign-number [] h = refl
behind_sign-number (c ∷ text) h = ground arith

pub atoi-decimal :
    (n c : ℕ) (rest : List ℕ)
    → is_digit c ≡ false
    → n < 32768
    → atoi (decimal n ++ c ∷ rest) ≡ some n
unfolding atoi
atoi-decimal n c rest h small =
    ap behind_sign (skip_spaces-number (decimal n ++ c ∷ rest) (starts_number-decimal n (c ∷ rest)))
    ∙ behind_sign-number (decimal n ++ c ∷ rest) (starts_number-decimal n (c ∷ rest))
    ∙ ap (λ r. unsigned false (ended r)) (scan_digits-decimal n (c ∷ rest) h)
    ∙ ap some (omega arith)

-- The number of the content's bytes and a carriage return.
abbrev number_line : ℕ → List ℕ
number_line n = decimal n ++ codes "\r"

-- What the module sends for a content: anything up to a plus sign and a colon, the number of the
-- bytes on the rest of the line, then the bytes.
abbrev pub answer : (pre mid body rest : List ℕ) → List ℕ
answer pre mid body rest =
    pre ++ b'+' ∷ (mid ++ b':' ∷ (decimal (length body) ++ (codes "\r\n" ++ (body ++ rest))))

length-number_line : (n : ℕ) → n < 32768 → length (number_line n) ≤ 6
length-number_line n small = omega (arith, length-append (decimal n) (codes "\r"), length-decimal n)

-- The buffer behind the line of the number.
abbrev lined : ℕ → List ℕ → List ℕ
lined n cont = number_line n ++ drop (length (number_line n)) cont

length-lined : (n : ℕ) (cont : List ℕ) → length cont ≡ 50 → n < 32768 → length (lined n cont) ≡ 50
length-lined n cont fifty small = omega (
  arith,
  length-append (number_line n) (drop (length (number_line n)) cont),
  length-drop (length (number_line n)) cont,
  length-number_line n small,
)

get_rest_content-answer_body :
    (pre mid body rest cont : List ℕ)
    → any (λ b. b == b'+') pre ≡ false
    → any (λ b. b == b':') mid ≡ false
    → length cont ≡ 50
    → length body < 32768
    → get_rest_content (answer pre mid body rest) cont
      ≡ fill_content (length body) (body ++ rest) (lined (length body) cont)
get_rest_content-answer_body pre mid body rest cont no_plus no_colon fifty small =
    let n = length body in
    let end = drop (length (number_line n)) cont in
    ap (λ l. get_rest_content (pre ++ b'+' ∷ (mid ++ b':' ∷ l)) cont)
      (sym (append_assoc (decimal n) (codes "\r") (b'\n' ∷ (body ++ rest))))
    ∙ get_rest_content-line pre mid (number_line n) (body ++ rest) cont no_plus no_colon
        (any-append (λ b. b == b'\n') (decimal n) (codes "\r")
          ∙ ap (λ b. b || false) (any-decimal b'\n' n refl))
        (omega (arith, length-number_line n small))
    ∙ ap (with_number (lined n cont) (body ++ rest))
        (ap atoi (append_assoc (decimal n) (codes "\r") end) ∙ atoi-decimal n b'\r' end refl small)

-- A content that fits.
pub get_rest_content-answer :
    (pre mid body rest cont : List ℕ)
    → any (λ b. b == b'+') pre ≡ false
    → any (λ b. b == b':') mid ≡ false
    → length cont ≡ 50
    → length body ≤ 50
    → (end : List ℕ) × (get_rest_content (answer pre mid body rest) cont
        ≡ content (body ++ end) rest)
get_rest_content-answer pre mid body rest cont no_plus no_colon fifty fits = (
  _,
  get_rest_content-answer_body pre mid body rest cont no_plus no_colon fifty (omega arith)
      ∙ fill_content-append body rest (lined (length body) cont)
          (omega (arith, length-lined (length body) cont fifty)),
)

-- The bug: getRestContent does not compare the length that the module sends with its buffer of 50
-- bytes. A content of more bytes, up to 32767, is written past the end.
pub get_rest_content-answer_fault :
    (pre mid body rest cont : List ℕ)
    → any (λ b. b == b'+') pre ≡ false
    → any (λ b. b == b':') mid ≡ false
    → length cont ≡ 50
    → 50 < length body
    → length body < 32768
    → get_rest_content (answer pre mid body rest) cont ≡ fault
get_rest_content-answer_fault pre mid body rest cont no_plus no_colon fifty over small =
    get_rest_content-answer_body pre mid body rest cont no_plus no_colon fifty small
    ∙ fill_content_fault body rest (lined (length body) cont)
        (omega (arith, length-lined (length body) cont fifty))
