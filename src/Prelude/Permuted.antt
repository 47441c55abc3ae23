-- ===== src/Prelude/Permuted.antt =====
-- What does not depend on the order of a list.
use mathlib.Core.Path.{subst, ◌≡◌, refl, sym, ◌∙◌, ap}
use mathlib.Core.Bool.{Bool, false, ◌||◌}
use mathlib.Core.List.{List, [], ◌∷◌, ◌++◌, append_assoc, Permᴰ}
use native.Mathlib.Omega.{arith}
use Prim.Native.Nat.{ℕ, suc}
use bbd.Prelude.Lists.{All, any, filter, length}
use bbd.Prelude.Tests.{◌==◌, Bool-cases}
use mathlib.Core.Logic.{inl, inr}
use mathlib.Core.List.Permᴰ

or_swap : (a b c : Bool) → (a || (b || c)) ≡ (b || (a || c))
or_swap a b c = ground arith

-- No number stands twice.
abbrev pub Distinct : List ℕ → Type 0
Distinct [] = Unit
Distinct (x ∷ xs) = (any (λ y. y == x) xs ≡ false) × Distinct xs

module _ {ℓ} {A : Type ℓ} where
  pub any-Permᴰ : (p : A → Bool) {xs ys : List A} → Permᴰ xs ys → any p xs ≡ any p ys
  any-Permᴰ p Permᴰ.nil = refl
  any-Permᴰ p (Permᴰ.cons e d) = cc (e, any-Permᴰ p d)
  any-Permᴰ p (Permᴰ.swap {a} {b} {a'} {b'} {l} e e') = rw (e, e') (or_swap (p b') (p a') (any p l))
  any-Permᴰ p (Permᴰ.trans d d') = any-Permᴰ p d ∙ any-Permᴰ p d'

  pub length-Permᴰ : {xs ys : List A} → Permᴰ xs ys → length xs ≡ length ys
  length-Permᴰ Permᴰ.nil = refl
  length-Permᴰ (Permᴰ.cons e d) = ap suc (length-Permᴰ d)
  length-Permᴰ (Permᴰ.swap e e') = refl
  length-Permᴰ (Permᴰ.trans d d') = length-Permᴰ d ∙ length-Permᴰ d'

  filter_swap :
      (p : A → Bool) (x y : A) (xs : List A) → Permᴰ (filter p (x ∷ y ∷ xs)) (filter p (y ∷ x ∷ xs))
  filter_swap p x y xs = elim (Bool-cases (p x)) [
    | inl h ↦ elim (Bool-cases (p y)) [
      | inl h' ↦ rw (h, h') (Permᴰ.swap refl refl)
      | inr h' ↦ rw (h, h') (Permᴰ.refl _)
    ]
    | inr h ↦ elim (Bool-cases (p y)) [
      | inl h' ↦ rw (h, h') (Permᴰ.refl _)
      | inr h' ↦ rw (h, h') (Permᴰ.refl _)
    ]
  ]

  pub filter-Permᴰ :
      (p : A → Bool) {xs ys : List A} → Permᴰ xs ys → Permᴰ (filter p xs) (filter p ys)
  filter-Permᴰ p Permᴰ.nil = Permᴰ.nil
  filter-Permᴰ p (Permᴰ.cons {a} {b} e d) = elim (Bool-cases (p b)) [
    | inl h ↦ rw (e, h) (Permᴰ.cons refl (filter-Permᴰ p d))
    | inr h ↦ rw (e, h) (filter-Permᴰ p d)
  ]
  filter-Permᴰ p (Permᴰ.swap {a} {b} {a'} {b'} {l} e e') = rw (e, e') (filter_swap p b' a' l)
  filter-Permᴰ p (Permᴰ.trans d d') = Permᴰ.trans (filter-Permᴰ p d) (filter-Permᴰ p d')

pub Distinct-Permᴰ : {xs ys : List ℕ} → Permᴰ xs ys → Distinct xs → Distinct ys
Distinct-Permᴰ Permᴰ.nil h = tt
Distinct-Permᴰ (Permᴰ.cons {a} {b} {l₁} {l₂} e d) h = (
  sym (any-Permᴰ (λ y. y == b) d) ∙ ap (λ x. any (λ y. y == x) l₁) (sym e) ∙ h.0,
  Distinct-Permᴰ d h.1,
)
Distinct-Permᴰ (Permᴰ.swap {a} {b} {a'} {b'} {l} e e') h = ground (arith, e, e', h)
Distinct-Permᴰ (Permᴰ.trans d d') h = Distinct-Permᴰ d' (Distinct-Permᴰ d h)

pub All-Permᴰ {ℓ κ} :
    {A : Type ℓ} (P : A → Type κ) {xs ys : List A} → Permᴰ xs ys → All P xs → All P ys
All-Permᴰ P Permᴰ.nil h = tt
All-Permᴰ P (Permᴰ.cons e d) h = (subst P e h.0, All-Permᴰ P d h.1)
All-Permᴰ P (Permᴰ.swap e e') h = (subst P e' h.1.0, (subst P e h.0, h.1.1))
All-Permᴰ P (Permᴰ.trans d d') h = All-Permᴰ P d' (All-Permᴰ P d h)

pub Permᴰ-append_swap {ℓ} :
    {A : Type ℓ} (xs ys zs : List A) → Permᴰ (xs ++ (ys ++ zs)) (ys ++ (xs ++ zs))
Permᴰ-append_swap xs ys zs =
    rw (sym (append_assoc xs ys zs), sym (append_assoc ys xs zs))
      (Permᴰ.append_right zs (Permᴰ.append_comm xs ys))
