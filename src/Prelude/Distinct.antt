-- ===== src/Prelude/Distinct.antt =====
-- Identifiers in a list, of which those that are not empty occur once.
use mathlib.Core.Path.{◌≡◌, refl, ◌∙◌, ap}
use mathlib.Core.Bool.{Bool, true, not, ◌&&◌, ◌||◌}
use mathlib.Core.List.{List, [], ◌∷◌, ◌++◌, map}
use Prim.Native.String.{String}
use text.Mathlib.Text.{◌==◌}
use native.Mathlib.Omega.{arith}
use sprint_runtime.Prelude.Text.{is_empty}
use sprint_runtime.Prelude.Lists.{member}
use sprint_runtime.Prelude.Sorting.{sort_by, insert}
use text.Mathlib.TextEquality.{eq_iff}

-- The identifier is empty, or not among the others.
abbrev pub is_free : String → List String → Bool
is_free s others = is_empty s || not (member s others)

abbrev pub distinct : List String → Bool
distinct [] = true
distinct (s ∷ rest) = is_free s rest && distinct rest

member-append : (a s : String) (xs : List String) → member a (xs ++ s ∷ []) ≡ member a xs || a == s
member-append a s [] = ground arith
member-append a s (x ∷ xs) = ground (arith, member-append a s xs)

pub member-before :
    (a s : String) (xs : List String) → member a xs ≡ true → member a (xs ++ s ∷ []) ≡ true
member-before a s xs h = ground (arith, member-append a s xs)

pub distinct-append :
    (s : String) (xs : List String)
    → distinct xs ≡ true
    → is_free s xs ≡ true
    → distinct (xs ++ s ∷ []) ≡ true
distinct-append s [] d f = ground arith
distinct-append s (x ∷ xs) d f =
    ground (arith, distinct-append s xs, member-append x s xs, eq_iff x s, eq_iff s x)

module _ {ℓ} {A : Type ℓ} (outranks : A → A → Bool) (f : A → String) where
  abbrev names : List A → List String
  names xs = map f xs

  member-insert :
      (a : String) (x : A) (ys : List A)
      → member a (names (insert outranks x ys)) ≡ member a (f x ∷ names ys)
  unfolding insert
  member-insert a x [] = refl
  member-insert a x (y ∷ ys) = ground (arith, member-insert a x ys)

  distinct-insert :
      (x : A) (ys : List A) → distinct (names (insert outranks x ys)) ≡ distinct (f x ∷ names ys)
  unfolding insert
  distinct-insert x [] = refl
  distinct-insert x (y ∷ ys) = ground (
    arith,
    distinct-insert x ys,
    member-insert (f y) x ys,
    eq_iff (f x) (f y),
    eq_iff (f y) (f x),
  )

  pub member-sort_by :
      (a : String) (xs : List A) → member a (names (sort_by outranks xs)) ≡ member a (names xs)
  unfolding sort_by
  member-sort_by a [] = refl
  member-sort_by a (x ∷ xs) =
      member-insert a x (sort_by outranks xs) ∙ ap (λ m. a == f x || m) (member-sort_by a xs)

  pub distinct-sort_by :
      (xs : List A) → distinct (names (sort_by outranks xs)) ≡ distinct (names xs)
  unfolding sort_by
  distinct-sort_by [] = refl
  distinct-sort_by (x ∷ xs) =
      distinct-insert x (sort_by outranks xs)
      ∙ ap (λ m. (is_empty (f x) || not m) && distinct (names (sort_by outranks xs)))
          (member-sort_by (f x) xs)
      ∙ ap (λ d. is_free (f x) (names xs) && d) (distinct-sort_by xs)
