-- ===== src/Database/Order.antt =====
-- ORDER BY of a numeric column.
use mathlib.Core.List.Permᴰ
use bbd.Prelude.{
  ℕ, ◌≡◌, refl, ap₂, ◌∙◌, Bool, true, false, not, List, [], ◌∷◌, map, leb, if◌then◌else◌, arith,
  All, Bool-cases, inl, inr, Permᴰ, Distinct, Distinct-Permᴰ,
}

pub data Direction : Type 0 where
  asc desc : Direction

abbrev pub precedes : Direction → ℕ → ℕ → Bool
precedes asc a b = leb a b
precedes desc a b = leb b a

module _ {ℓ} {A : Type ℓ} (d : Direction) (column : A → ℕ) where
  abbrev pub insert_row : A → List A → List A
  insert_row x [] = x ∷ []
  insert_row x (y ∷ ys) =
      let rest = insert_row x ys in
      if precedes d (column x) (column y) then x ∷ y ∷ ys else y ∷ rest

  unfoldable pub order_by : List A → List A
  order_by [] = []
  order_by (x ∷ rows) = insert_row x (order_by rows)

trans :
    (d : Direction) (a b c : ℕ)
    → precedes d a b ≡ true
    → precedes d b c ≡ true
    → precedes d a c ≡ true
trans asc a b c h h' = ground arith
trans desc a b c h h' = ground arith

total : (d : Direction) (a b : ℕ) → precedes d a b ≡ false → precedes d b a ≡ true
total asc a b h = ground arith
total desc a b h = ground arith

-- Only one of two numbers comes first.
one_first : (d : Direction) (a b : ℕ) → (a ≡ b → ⊥) → precedes d a b ≡ not (precedes d b a)
one_first asc a b h = ground arith
one_first desc a b h = ground arith

module _ {ℓ} {A : Type ℓ} (d : Direction) (column : A → ℕ) where
  insert_row_comm :
      (x y : A) (rows : List A)
      → (column x ≡ column y → ⊥)
      → insert_row d column x (insert_row d column y rows)
        ≡ insert_row d column y (insert_row d column x rows)
  insert_row_comm x y [] h = ground (arith, one_first d (column x) (column y) h)
  insert_row_comm x y (z ∷ rows) h = ground (
    arith,
    one_first d (column x) (column y) h,
    insert_row_comm x y rows h,
    trans d (column x) (column y) (column z),
    trans d (column y) (column x) (column z),
  )

  Permᴰ-insert_row : (x : A) (rows : List A) → Permᴰ (insert_row d column x rows) (x ∷ rows)
  Permᴰ-insert_row x [] = Permᴰ.refl _
  Permᴰ-insert_row x (y ∷ rows) = elim (Bool-cases (precedes d (column x) (column y))) [
    | inl h ↦ rw h (Permᴰ.refl _)
    | inr h ↦ rw h (Permᴰ.trans (Permᴰ.cons refl (Permᴰ-insert_row x rows)) (Permᴰ.swap refl refl))
  ]

  pub order_by-Permᴰ : (rows : List A) → Permᴰ (order_by d column rows) rows
  unfolding order_by
  order_by-Permᴰ [] = Permᴰ.nil
  order_by-Permᴰ (x ∷ rows) =
      Permᴰ.trans (Permᴰ-insert_row x (order_by d column rows))
        (Permᴰ.cons refl (order_by-Permᴰ rows))

  -- Every row stands before those behind it.
  abbrev pub Before : A → A → Type 0
  Before x y = precedes d (column x) (column y) ≡ true

  abbrev pub IsOrdered : List A → Type 0
  IsOrdered [] = Unit
  IsOrdered (x ∷ rows) = All (Before x) rows × IsOrdered rows

  All-insert_row :
      (z x : A) (rows : List A)
      → Before z x
      → All (Before z) rows
      → All (Before z) (insert_row d column x rows)
  All-insert_row z x [] h hs = (h, tt)
  All-insert_row z x (y ∷ rows) h hs = elim (Bool-cases (precedes d (column x) (column y))) [
    | inl e ↦ rw e (h, hs)
    | inr e ↦ rw e (hs.0, All-insert_row z x rows h hs.1)
  ]

  All-trans : (x y : A) (rows : List A) → Before x y → All (Before y) rows → All (Before x) rows
  All-trans x y [] h hs = tt
  All-trans x y (z ∷ rows) h hs =
      (trans d (column x) (column y) (column z) h hs.0, All-trans x y rows h hs.1)

  insert_row-IsOrdered :
      (x : A) (rows : List A) → IsOrdered rows → IsOrdered (insert_row d column x rows)
  insert_row-IsOrdered x [] h = (tt, tt)
  insert_row-IsOrdered x (y ∷ rows) h = elim (Bool-cases (precedes d (column x) (column y))) [
    | inl e ↦ rw e ((e, All-trans x y rows e h.0), h)
    | inr e ↦ rw e (
      All-insert_row y x rows (total d (column x) (column y) e) h.0,
      insert_row-IsOrdered x rows h.1,
    )
  ]

  pub order_by-IsOrdered : (rows : List A) → IsOrdered (order_by d column rows)
  unfolding order_by
  order_by-IsOrdered [] = tt
  order_by-IsOrdered (x ∷ rows) = insert_row-IsOrdered x _ (order_by-IsOrdered rows)

  -- The result does not depend on the order of the table, if no two rows have the same number.
  pub order_by-eq_of_Permᴰ :
      {xs ys : List A}
      → Permᴰ xs ys
      → Distinct (map column xs)
      → order_by d column xs ≡ order_by d column ys
  unfolding order_by
  order_by-eq_of_Permᴰ Permᴰ.nil h = refl
  order_by-eq_of_Permᴰ (Permᴰ.cons {a} {b} {l₁} {l₂} e p) h =
      ap₂ (insert_row d column) e (order_by-eq_of_Permᴰ p h.1)
  order_by-eq_of_Permᴰ (Permᴰ.swap {a} {b} {a'} {b'} {l} e e') h =
      insert_row_comm a b (order_by d column l) (λ q. ground (arith, q, h))
      ∙ ap₂ (λ x y. insert_row d column x (insert_row d column y (order_by d column l))) e' e
  order_by-eq_of_Permᴰ (Permᴰ.trans {l₁} {l₂} {l₃} p q) h =
      order_by-eq_of_Permᴰ p h ∙ order_by-eq_of_Permᴰ q (Distinct-Permᴰ (Permᴰ.map column p) h)
