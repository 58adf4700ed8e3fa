-- ===== src/Prelude/Sorting.antt =====
-- A stable insertion sort that puts the elements that outrank the others first.
use mathlib.Core.Path.{◌≡◌}
use mathlib.Core.Bool.{Bool, false}
use mathlib.Core.List.{List, [], ◌∷◌, ◌++◌}
use native.Mathlib.Omega.{arith}
use mathlib.Core.Logic.{inl, inr}
use sprint_runtime.Prelude.Tests.{if◌then◌else◌, Bool-cases, if_both}
use sprint_runtime.Prelude.Lists.{is_nil, keep}
use mathlib.Core.Bool.{true}
use mathlib.Core.Path.{refl}
use sprint_runtime.Prelude.Order.{IsStrict}

-- What every element has.
abbrev pub Each {ℓ κ} : {A : Type ℓ} → (A → Type κ) → List A → Type κ
Each P [] = Unit
Each P (x ∷ xs) = P x × Each P xs

pub Each-map {ℓ κ κ'} :
    {A : Type ℓ} (P : A → Type κ) (Q : A → Type κ') (xs : List A)
    → ((x : A) → P x → Q x)
    → Each P xs
    → Each Q xs
Each-map P Q [] f h = tt
Each-map P Q (x ∷ xs) f (p, h) = (f x p, Each-map P Q xs f h)

pub Each-append {ℓ κ} :
    {A : Type ℓ} (P : A → Type κ) (xs ys : List A) → Each P xs → Each P ys → Each P (xs ++ ys)
Each-append P [] ys h k = k
Each-append P (x ∷ xs) ys (p, h) k = (p, Each-append P xs ys h k)

-- Where nothing is kept, nothing passes the test.
pub none_kept {ℓ} :
    {A : Type ℓ} (p : A → Bool) (xs : List A)
    → is_nil (keep p xs) ≡ true
    → Each (λ x. p x ≡ false) xs
none_kept p [] h = tt
none_kept p (x ∷ xs) h = ground (arith, none_kept p xs)

module _ {ℓ} {A : Type ℓ} (outranks : A → A → Bool) where
  unfoldable pub insert : A → List A → List A
  insert x [] = x ∷ []
  insert x (y ∷ ys) = let rest = insert x ys in if outranks y x then y ∷ rest else x ∷ y ∷ ys

  unfoldable pub sort_by : List A → List A
  unfolding insert
  sort_by [] = []
  sort_by (x ∷ xs) = insert x (sort_by xs)

  is_nil-insert : (x : A) (ys : List A) → is_nil (insert x ys) ≡ false
  unfolding insert
  is_nil-insert x [] = refl
  is_nil-insert x (y ∷ ys) = if_both (λ (l : List A). is_nil l ≡ false) (outranks y x) refl refl

  -- Sorting takes nothing away.
  pub is_nil-sort_by : (xs : List A) → is_nil (sort_by xs) ≡ is_nil xs
  unfolding sort_by
  is_nil-sort_by [] = refl
  is_nil-sort_by (x ∷ xs) = is_nil-insert x (sort_by xs)

  Each-insert {κ} : (P : A → Type κ) (x : A) (ys : List A) → P x → Each P ys → Each P (insert x ys)
  unfolding insert
  Each-insert P x [] p h = (p, tt)
  Each-insert P x (y ∷ ys) p (q, h) = elim (Bool-cases (outranks y x)) [
    | inl e ↦ rw e (q, Each-insert P x ys p h)
    | inr e ↦ rw e (p, (q, h))
  ]

  pub Each-sort_by {κ} : (P : A → Type κ) (xs : List A) → Each P xs → Each P (sort_by xs)
  unfolding sort_by
  Each-sort_by P [] h = tt
  Each-sort_by P (x ∷ xs) (p, h) = Each-insert P x (sort_by xs) p (Each-sort_by P xs h)

  -- Nothing in the first list outranks the head of the second, which is empty only if the first is.
  abbrev pub Tops : List A → List A → Type 0
  Tops [] [] = Unit
  Tops (x ∷ xs) [] = ⊥
  Tops xs (y ∷ ys) = Each (λ c. outranks c y ≡ false) xs

  module _ (strict : IsStrict outranks) where
    irreflexive : (x : A) → outranks x x ≡ false
    irreflexive x = ground (arith, strict.asym x x)

    insert-Tops : (x : A) (xs ys : List A) → Tops xs ys → Tops (x ∷ xs) (insert x ys)
    unfolding insert
    insert-Tops x [] [] h = (irreflexive x, tt)
    insert-Tops x (_ ∷ _) [] h = absurd h
    insert-Tops x xs (y ∷ ys) h = elim (Bool-cases (outranks y x)) [
      | inl e ↦ rw e (strict.asym y x e, h)
      | inr e ↦ rw e (irreflexive x, Each-map _ _ xs (λ c k. strict.weak c y x k e) h)
    ]

    pub sort_by-Tops : (xs : List A) → Tops xs (sort_by xs)
    unfolding sort_by
    sort_by-Tops [] = tt
    sort_by-Tops (x ∷ xs) = insert-Tops x xs (sort_by xs) (sort_by-Tops xs)
