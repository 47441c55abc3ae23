-- ===== src/Gsm/TextFinder/Found.antt =====
-- WideTextFinder.cpp: what a search that succeeds has read.
use bbd.Prelude.{
  ℕ, zero, suc, ◌+◌, ◌<◌, ◌≡◌, ◌⊎◌, refl, sym, ap, ◌∙◌, true, List, [], ◌∷◌, ◌++◌, length, take,
  arith, append_assoc, take_all, ◌==◌, leb, ltb, ◌&&◌, if◌then◌else◌, Bool-cases, inl, inr,
}
use bbd.Gsm.TextFinder.{char_at, byte_length, find_loop, find_until}

take-char_at :
    (t : List ℕ) (i : ℕ) (s : List ℕ)
    → i < length t
    → take i t ++ char_at t i ∷ s ≡ take (suc i) t ++ s
unfolding char_at
take-char_at [] i s h = absurd (omega arith)
take-char_at (c ∷ t) zero s h = refl
take-char_at (c ∷ t) (suc i) s h = ap (◌∷◌ c) (take-char_at t i s (omega arith))

abbrev next_term : (terminate : List ℕ) → (j c : ℕ) → ℕ
next_term terminate j c =
    if ltb 0 (byte_length terminate) && (c == char_at terminate j) then j + 1 else 0

-- What a round does where the search ends well: the last character of the target is matched, or the
-- search goes on with more or none of the target matched.
abbrev Round : (t terminate : List ℕ) → (i j c : ℕ) → (s rest : List ℕ) → Type 0
Round t terminate i j c s rest =
    ((c ≡ char_at t i) × ((length t ≡ suc i) × (s ≡ rest)))
    ⊎ (((c ≡ char_at t i)
          × ((suc i < length t) × ((k : ℕ) × (find_loop t terminate (suc i) k s ≡ (true, rest)))))
        ⊎ ((k : ℕ) × (find_loop t terminate 0 k s ≡ (true, rest))))

find_loop-Round :
    (t terminate : List ℕ) (i j c : ℕ) (s rest : List ℕ)
    → length t < 256
    → i < length t
    → find_loop t terminate i j (c ∷ s) ≡ (true, rest)
    → Round t terminate i j c s rest
unfolding find_loop
find_loop-Round t terminate i j c s rest small inside e = elim (Bool-cases (c == char_at t i)) [
  | inl hit ↦ elim (Bool-cases (leb (length t) (suc i))) [
    | inl done ↦ inl (ground arith, (ground arith, ground arith))
    | inr more ↦ inr (inl (ground arith, (ground arith, (next_term terminate j c, ground arith))))
  ]
  | inr miss ↦ inr (inr (next_term terminate j c, ground arith))
]

-- The stream, with the part of the target that is matched in front, has the target in it.
find_loop-found :
    (t terminate : List ℕ) (i j : ℕ) (s rest : List ℕ)
    → length t < 256
    → i < length t
    → find_loop t terminate i j s ≡ (true, rest)
    → (pre : List ℕ) × (take i t ++ s ≡ pre ++ (t ++ rest))
unfolding find_loop
find_loop-found t terminate i j [] rest small inside e = cc
find_loop-found t terminate i j (c ∷ s) rest small inside e =
    elim (find_loop-Round t terminate i j c s rest small inside e) [
      | inl (hit, (last, over)) ↦ (
        [],
        ap (λ x. take i t ++ x ∷ s) hit
            ∙ take-char_at t i s inside
            ∙ ap (λ x. x ++ s) (take_all (suc i) t (omega arith))
            ∙ ap (λ x. t ++ x) over,
      )
      | inr (inl (hit, (more, (k, e')))) ↦
          let (pre, eq) = find_loop-found t terminate (suc i) k s rest small more e' in
          (pre, ap (λ x. take i t ++ x ∷ s) hit ∙ take-char_at t i s inside ∙ eq)
      | inr (inr (k, e')) ↦
          let (pre, eq) = find_loop-found t terminate 0 k s rest small (omega arith) e' in
          (
            take i t ++ c ∷ pre,
            ap (λ x. take i t ++ c ∷ x) eq ∙ sym (append_assoc (take i t) (c ∷ pre) (t ++ rest)),
          )
    ]

-- A search that succeeds, for a target of fewer than 256 characters, has read a stream that ends
-- with the target; what it leaves is the rest.
pub find_until-found :
    (target terminate stream rest : List ℕ)
    → length target < 256
    → find_until target terminate stream ≡ (true, rest)
    → (pre : List ℕ) × (stream ≡ pre ++ (target ++ rest))
unfolding find_until
find_until-found [] terminate stream rest small e = ([], ap (λ r. r.1) e)
find_until-found (t ∷ target) terminate stream rest small e =
    find_loop-found (t ∷ target) terminate 0 0 stream rest small (omega arith) e
