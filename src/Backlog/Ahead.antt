-- ===== src/Backlog/Ahead.antt =====
-- workflows/orchestration/scheduler.py: which of two backlog items a sprint takes first, in words of its own.
use sprint_runtime.Prelude.{
  ℕ, suc, ◌<◌, Bool, true, false, ◌≡◌, refl, arith, List, [], ◌∷◌, ap, Bool-cases, inl, inr,
}
use sprint_runtime.Python.{pos, Fields, get}
use sprint_runtime.Python.Convert.{Result, ok, raise, ◌>>=◌, int_or}
use sprint_runtime.Prelude.{not, ◌&&◌, ◌||◌, String, ◌==◌, ◌⊎◌, ltb, if◌then◌else◌, zero}
use sprint_runtime.Prelude.Order.{text_ltb}
use sprint_runtime.Python.{ℤ, negsuc}
use sprint_runtime.Python.Integers.{ltb_ℤ}
use sprint_runtime.Python.Convert.{at_least_zero, text, tag}
use sprint_runtime.Backlog.Order.{kind_rank, Priority, precedes, ranked_priority, priority}

abbrev pub is_pending : Fields → Bool
is_pending item = tag (get item "status") == "pending"

abbrev pub from_user : Fields → Bool
from_user item = text (get item "source") == "user"

abbrev pub is_older : Fields → Fields → Bool
is_older a b = text_ltb (text (get a "created_at")) (text (get b "created_at"))

-- The place of a kind among the kinds in the order in which they are taken; another kind comes last.
abbrev pub place : List String → String → ℕ
place [] kind = 0
place (k ∷ kinds) kind = if kind == k then 0 else suc (place kinds kind)

abbrev pub kind_place : Fields → ℕ
kind_place item = place ("bug" ∷ "feature" ∷ "enhancement" ∷ "chore" ∷ []) (tag (get item "kind"))

-- Of two items without a positive rank, the first is taken first: it comes from the user and the other
-- does not, or its kind comes first, or it is not newer.
abbrev pub IsAheadUnranked : Fields → Fields → Type 0
IsAheadUnranked first item =
    (from_user first ≡ true) × (from_user item ≡ false)
    ⊎ (from_user first ≡ from_user item) × (kind_place first < kind_place item)
    ⊎ (from_user first ≡ from_user item)
      × (kind_place first ≡ kind_place item)
      × (is_older item first ≡ false)

-- The first is taken first, for their ranks: its rank is larger, or the ranks are the same and it is
-- not newer, or neither is positive.
abbrev pub IsAhead : ℕ → ℕ → Fields → Fields → Type 0
IsAhead m n first item =
    (n < m)
    ⊎ (0 < m) × (n ≡ m) × (is_older item first ≡ false)
    ⊎ (m ≡ 0) × (n ≡ 0) × IsAheadUnranked first item

-- So it is for the ranks that the two items have.
abbrev pub IsAheadOf : Fields → Fields → Type 0
IsAheadOf first item =
    (m : ℤ) × (n : ℤ) × (int_or (get first "priority_rank") (pos 0) ≡ ok m)
    × (int_or (get item "priority_rank") (pos 0) ≡ ok n)
    × IsAhead (at_least_zero m) (at_least_zero n) first item

kind_rank-place :
    (kind : String) → kind_rank kind ≡ place ("bug" ∷ "feature" ∷ "enhancement" ∷ "chore" ∷ []) kind
kind_rank-place kind = ground arith

-- The order of two items without a positive rank, for what it compares.
unranked-cases :
    (user user' older : Bool) (k k' kind kind' : ℕ)
    → kind ≡ k
    → kind' ≡ k'
    → (ltb_ℤ (if user' then pos 0 else pos 1) (if user then pos 0 else pos 1)
        || not (ltb_ℤ (if user then pos 0 else pos 1) (if user' then pos 0 else pos 1))
          && (ltb kind' kind || not (ltb kind kind') && older))
      ≡ false
    → (user ≡ true) × (user' ≡ false)
      ⊎ (user ≡ user') × (k < k')
      ⊎ (user ≡ user') × (k ≡ k') × (older ≡ false)
unranked-cases true false older k k' kind kind' e e' h = inl (refl, refl)
unranked-cases false true older k k' kind kind' e e' h = absurd (ground (arith, h))
unranked-cases true true older k k' kind kind' e e' h = elim (Bool-cases (ltb kind kind')) [
  | inl less ↦ inr (inl (refl, ground (arith, e, e', less)))
  | inr not_less ↦ inr (inr (refl, ground (arith, e, e', h, not_less), ground (arith, h, not_less)))
]
unranked-cases false false older k k' kind kind' e e' h = elim (Bool-cases (ltb kind kind')) [
  | inl less ↦ inr (inl (refl, ground (arith, e, e', less)))
  | inr not_less ↦ inr (inr (refl, ground (arith, e, e', h, not_less), ground (arith, h, not_less)))
]

unranked-Ahead :
    (first item : Fields)
    → precedes (ranked_priority item (pos zero)) (ranked_priority first (pos zero)) ≡ false
    → IsAheadUnranked first item
unranked-Ahead first item h =
    unranked-cases (from_user first) (from_user item) (is_older item first) _ _ _ _
      (kind_rank-place (tag (get first "kind"))) (kind_rank-place (tag (get item "kind"))) h

ranked-cases :
    (m n : ℕ) (older : Bool)
    → (ltb m n || not (ltb n m) && older) ≡ false
    → (suc n < suc m) ⊎ (0 < suc m) × (suc n ≡ suc m) × (older ≡ false)
ranked-cases m n older h = elim (Bool-cases (ltb n m)) [
  | inl less ↦ inl (ground arith)
  | inr not_less ↦ inr (omega arith, ground arith, ground arith)
]

either-Ahead :
    (m n : ℕ) (first item : Fields)
    → (n < m) ⊎ (0 < m) × (n ≡ m) × (is_older item first ≡ false)
    → IsAhead m n first item
either-Ahead m n first item (inl less) = inl less
either-Ahead m n first item (inr same) = inr (inl same)

precedes-Ahead :
    (m n : ℤ) (first item : Fields)
    → precedes (ranked_priority item n) (ranked_priority first m) ≡ false
    → IsAhead (at_least_zero m) (at_least_zero n) first item
precedes-Ahead (pos (suc m)) (pos (suc n)) first item h =
    either-Ahead (suc m) (suc n) first item (ranked-cases m n (is_older item first) h)
precedes-Ahead (pos (suc m)) (pos zero) first item h = inl (omega arith)
precedes-Ahead (pos (suc m)) (negsuc n) first item h = inl (omega arith)
precedes-Ahead (pos zero) (pos (suc n)) first item h = absurd (ground (arith, h))
precedes-Ahead (negsuc m) (pos (suc n)) first item h = absurd (ground (arith, h))
precedes-Ahead (pos zero) (pos zero) first item h =
    inr (inr (refl, refl, unranked-Ahead first item h))
precedes-Ahead (pos zero) (negsuc n) first item h =
    inr (inr (refl, refl, unranked-Ahead first item h))
precedes-Ahead (negsuc m) (pos zero) first item h =
    inr (inr (refl, refl, unranked-Ahead first item h))
precedes-Ahead (negsuc m) (negsuc n) first item h =
    inr (inr (refl, refl, unranked-Ahead first item h))

abbrev ok_or {ℓ} : {A : Type ℓ} → A → Result A → A
ok_or a (ok b) = b
ok_or a (raise e) = a

same_ok : (p q : Priority) → ok p ≡ ok q → p ≡ q
same_ok p q h = ap (ok_or p) h

-- The priority of an item is made of its rank.
priority-ranked :
    (item : Fields) (p : Priority)
    → priority item ≡ ok p
    → (n : ℤ) × (int_or (get item "priority_rank") (pos 0) ≡ ok n) × (ranked_priority item n ≡ p)
unfolding priority
priority-ranked item p h = by_rank (int_or (get item "priority_rank") (pos 0)) h
  where
    by_rank :
        (r : Result ℤ)
        → (r >>= λ rank. ok (ranked_priority item rank)) ≡ ok p
        → (n : ℤ) × (r ≡ ok n) × (ranked_priority item n ≡ p)
    by_rank (ok n) e = (n, refl, same_ok (ranked_priority item n) p e)
    by_rank (raise x) e = absurd (cc e)

pub keyed-Ahead :
    (first item : Fields) (p q : Priority)
    → priority first ≡ ok p
    → priority item ≡ ok q
    → precedes q p ≡ false
    → IsAheadOf first item
keyed-Ahead first item p q hp hq h =
    let (m, rank, made) = priority-ranked first p hp in
    let (n, rank', made') = priority-ranked item q hq in
    (m, n, rank, rank', precedes-Ahead m n first item (rw (made, made') h))
