-- ===== src/Backlog/Selected.antt =====
-- workflows/orchestration/scheduler.py: which item of the backlog a sprint takes first.
use sprint_runtime.Prelude.{
  Bool, true, false, ◌≡◌, refl, List, [], ◌∷◌, map, ap, Bool-cases, inl, inr,
}
use sprint_runtime.Prelude.Sorting.{
  Each, Each-map, sort_by, Each-sort_by, none_kept, Tops, sort_by-Tops,
}
use sprint_runtime.Prelude.Lists.{keep, is_nil}
use sprint_runtime.Python.{Fields}
use sprint_runtime.Python.Convert.{Result, ok, raise, ◌>>=◌}
use sprint_runtime.Python.Laws.{OkIs, OkIs-bind}
use mathlib.Core.Path.{subst}
use sprint_runtime.Backlog.Ahead.{is_pending, IsAheadOf, keyed-Ahead}
use sprint_runtime.Prelude.{sym, ◌⊎◌}
use sprint_runtime.Backlog.Order.{
  Priority, priority, is_actionable, with_priorities, first_of, first_of-IsStrict,
  select_backlog_items_for_sprint,
}

OkIs-self : {A : Type 0} (r : Result A) → OkIs (λ a. r ≡ ok a) r
OkIs-self (ok a) = refl
OkIs-self (raise e) = tt

keep-Each : {A : Type 0} (p : A → Bool) (xs : List A) → Each (λ x. p x ≡ true) (keep p xs)
keep-Each p [] = tt
keep-Each p (x ∷ xs) = elim (Bool-cases (p x)) [
  | inl e ↦ rw e (e, keep-Each p xs)
  | inr e ↦ rw e (keep-Each p xs)
]

-- What is kept has it, and the rest does not pass.
Each-kept :
    {A : Type 0} (p : A → Bool) (Q : A → Type 0) (xs : List A)
    → Each Q (keep p xs)
    → Each (λ x. (p x ≡ false) ⊎ Q x) xs
Each-kept p Q [] h = tt
Each-kept p Q (x ∷ xs) h = elim (Bool-cases (p x)) [
  | inl e ↦ let (q, more) : Q x × Each Q (keep p xs) = rw e at h in (inr q, Each-kept p Q xs more)
  | inr e ↦ (inl e, Each-kept p Q xs (rw e at h))
]

-- A key, and the item that it is of.
abbrev IsKeyed : (Fields → Type 0) → Priority × Fields → Type 0
IsKeyed P e = (priority e.1 ≡ ok e.0) × P e.1

with_priorities-Keyed :
    (P : Fields → Type 0) (items : List Fields)
    → Each P items
    → OkIs
        (λ keyed. Each (IsKeyed P) keyed × (map (λ e. e.1) keyed ≡ items))
        (with_priorities items)
unfolding with_priorities
with_priorities-Keyed P [] h = (tt, refl)
with_priorities-Keyed P (item ∷ items) (able, h) =
    OkIs-bind (λ p. priority item ≡ ok p) _ (priority item)
      (λ p. with_priorities items >>= λ rest. ok ((p, item) ∷ rest)) (OkIs-self (priority item))
      (λ p e.
        OkIs-bind (λ keyed. Each (IsKeyed P) keyed × (map (λ e. e.1) keyed ≡ items)) _
          (with_priorities items) (λ rest. ok ((p, item) ∷ rest)) (with_priorities-Keyed P items h)
          (λ rest (good, same). (((e, able), good), ap (◌∷◌ item) same)))

abbrev pub IsIn : Fields → List Fields → Type 0
IsIn x [] = ⊥
IsIn x (y ∷ ys) = (x ≡ y) ⊎ IsIn x ys

-- The first item is one of the pending ones, and ahead of all that are pending.
abbrev pub IsSelection : List Fields → List Fields → Type 0
IsSelection items [] = Each (λ item. is_pending item ≡ false) items
IsSelection items (first ∷ rest) =
    IsIn first items
    × (is_pending first ≡ true)
    × Each (λ item. (is_pending item ≡ false) ⊎ IsAheadOf first item) items

Each-mapped :
    {A B : Type 0} (f : A → B) (P : B → Type 0) (xs : List A)
    → Each (λ x. P (f x)) xs
    → Each P (map f xs)
Each-mapped f P [] h = tt
Each-mapped f P (x ∷ xs) (p, h) = (p, Each-mapped f P xs h)

Each-both :
    {A : Type 0} (P Q : A → Type 0) (xs : List A) → Each P xs → Each Q xs → Each (λ x. P x × Q x) xs
Each-both P Q [] h k = tt
Each-both P Q (x ∷ xs) (p, h) (q, k) = ((p, q), Each-both P Q xs h k)

-- What can be selected is one of the items, and pending.
abbrev CanBe : List Fields → Fields → Type 0
CanBe items item = IsIn item items × (is_pending item ≡ true)

none_pending :
    (items : List Fields)
    → [] ≡ keep is_actionable items
    → Each (λ item. is_pending item ≡ false) items
unfolding is_actionable
none_pending items same = none_kept is_pending items (ap is_nil (sym same))

sorted-IsSelection :
    (keyed sorted : List (Priority × Fields)) (items : List Fields)
    → Each (IsKeyed (CanBe items)) keyed
    → Each (IsKeyed (CanBe items)) sorted
    → map (λ e. e.1) keyed ≡ keep is_actionable items
    → Tops first_of keyed sorted
    → IsSelection items (map (λ e. e.1) sorted)
sorted-IsSelection [] [] items good sorted_good same tops = none_pending items same
sorted-IsSelection (_ ∷ _) [] items good sorted_good same tops = absurd tops
sorted-IsSelection keyed (y ∷ ys) items good ((key, able), more) same tops = (
  able.0,
  able.1,
  unfold is_actionable in
      Each-kept is_actionable (IsAheadOf y.1) items (
        subst (Each (IsAheadOf y.1)) same (
          Each-mapped (λ e. e.1) (IsAheadOf y.1) keyed
            (Each-map _ _ keyed (λ e (kept, behind). keyed-Ahead y.1 e.1 y.0 e.0 key kept.0 behind)
              (Each-both (IsKeyed (CanBe items)) (λ c. first_of c y ≡ false) keyed good tops)))),
)

Each-wider :
    (x : Fields) (items xs : List Fields)
    → Each (λ y. IsIn y items) xs
    → Each (λ y. IsIn y (x ∷ items)) xs
Each-wider x items xs h = Each-map (λ y. IsIn y items) (λ y. IsIn y (x ∷ items)) xs (λ y m. inr m) h

kept-CanBe : (items : List Fields) → Each (CanBe items) (keep is_actionable items)
unfolding is_actionable
kept-CanBe items =
    Each-both _ _ (keep is_pending items) (kept-IsIn items) (keep-Each is_pending items)
  where
    kept-IsIn : (xs : List Fields) → Each (λ y. IsIn y xs) (keep is_pending xs)
    kept-IsIn [] = tt
    kept-IsIn (x ∷ xs) = elim (Bool-cases (is_pending x)) [
      | inl e ↦ rw e (inl refl, Each-wider x xs (keep is_pending xs) (kept-IsIn xs))
      | inr e ↦ rw e (Each-wider x xs (keep is_pending xs) (kept-IsIn xs))
    ]

-- Unless an exception is raised, the selection takes first one of the items that is pending and that is
-- ahead of each pending one: its rank is larger, or the ranks are the same and positive and it is not
-- newer, or neither rank is positive and it comes from the user and the other does not, or its kind
-- comes first in the order bug, feature, enhancement, chore, or it is not newer. The selection is
-- empty only if no item is pending.
pub select-IsSelection :
    (items : List Fields) → OkIs (IsSelection items) (select_backlog_items_for_sprint items)
unfolding select_backlog_items_for_sprint
select-IsSelection items =
    OkIs-bind
      (λ keyed.
        Each (IsKeyed (CanBe items)) keyed × (map (λ e. e.1) keyed ≡ keep is_actionable items))
      (IsSelection items) (with_priorities (keep is_actionable items))
      (λ keyed. ok (map (λ e. e.1) (sort_by first_of keyed)))
      (with_priorities-Keyed (CanBe items) (keep is_actionable items) (kept-CanBe items))
      (λ keyed (good, same).
        sorted-IsSelection keyed (sort_by first_of keyed) items good
          (Each-sort_by first_of (IsKeyed (CanBe items)) keyed good) same
          (sort_by-Tops first_of first_of-IsStrict keyed))
