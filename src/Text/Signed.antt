-- ===== src/Text/Signed.antt =====
-- A number that a stream writes is read back by stol.
use bbd.Prelude.{
  ℕ, suc, ◌<◌, ◌^◌, true, false, ◌≡◌, refl, ◌∙◌, ap, some, List, [], ◌∷◌, ◌++◌, arith,
}
use bbd.Text.{
  decimal, starts_number, ℤ, pos, negsuc, signed, skip_spaces, converted, behind_sign, stol,
}
use bbd.Text.Decimal.{scan_digits-decimal, starts_number-decimal, Ends}

-- The numbers of an int of 32 bits.
abbrev pub IsInt : ℤ → Type 0
IsInt (pos n) = n < 2 ^ 31
IsInt (negsuc n) = n < 2 ^ 31

pub skip_spaces-number : (text : List ℕ) → starts_number text ≡ true → skip_spaces text ≡ text
unfolding skip_spaces
skip_spaces-number [] h = refl
skip_spaces-number (c ∷ text) h = ground arith

behind_sign-number :
    (text : List ℕ) → starts_number text ≡ true → behind_sign text ≡ converted false text
behind_sign-number [] h = refl
behind_sign-number (c ∷ text) h = ground arith

converted-decimal :
    (n : ℕ) (rest : List ℕ)
    → Ends rest
    → n < 2 ^ 31
    → converted false (decimal n ++ rest) ≡ some (pos n)
converted-decimal n rest e h =
    rw (starts_number-decimal n rest, scan_digits-decimal n rest e) (ground arith)

converted-negative :
    (n : ℕ) (rest : List ℕ)
    → Ends rest
    → n < 2 ^ 31
    → converted true (decimal (suc n) ++ rest) ≡ some (negsuc n)
converted-negative n rest e h =
    rw (starts_number-decimal (suc n) rest, scan_digits-decimal (suc n) rest e) (ground arith)

pub stol-signed : (n : ℤ) (rest : List ℕ) → Ends rest → IsInt n → stol (signed n ++ rest) ≡ some n
unfolding stol signed
stol-signed (pos n) rest e h =
    ap behind_sign (skip_spaces-number (decimal n ++ rest) (starts_number-decimal n rest))
    ∙ behind_sign-number (decimal n ++ rest) (starts_number-decimal n rest)
    ∙ converted-decimal n rest e h
stol-signed (negsuc n) rest e h = converted-negative n rest e h
