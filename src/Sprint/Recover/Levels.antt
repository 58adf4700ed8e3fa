-- ===== src/Sprint/Recover/Levels.antt =====
-- workflows/sprints/lifecycle.py: how far on the status of a todo is, in words of its own.
use sprint_runtime.Prelude.{
  ℕ, zero, suc, ◌≡◌, refl, String, Bool, arith, ltb, ◌==◌, ◌||◌, if◌then◌else◌, ap, ◌∙◌,
}
use sprint_runtime.Python.{ℤ, pos, negsuc, Fields}
use sprint_runtime.Python.Integers.{ltb_ℤ}
use sprint_runtime.Python.Convert.{tag}
use sprint_runtime.Sprint.{status_of, rank_of_status, todo_status_rank}
use sprint_runtime.Sprint.Recover.{is_further}

-- Queued todos come first, then running ones, those that are blocked, uncommitted or failed, completed
-- and committed ones; another status comes before them all.
abbrev pub level : String → ℕ
level status =
    if status == "queued"
    then 1
    else if status == "running"
    then 2
    else if status == "blocked" || status == "uncommitted" || status == "failed"
    then 3
    else if status == "completed"
    then 4
    else if status == "committed"
    then 5
    else 0

abbrev below : ℕ → ℤ
below zero = negsuc 0
below (suc n) = pos n

rank_of_status-level : (status : String) → rank_of_status status ≡ below (level status)
rank_of_status-level status = ground arith

ltb_ℤ-below : (m n : ℕ) → ltb_ℤ (below m) (below n) ≡ ltb m n
ltb_ℤ-below zero zero = refl
ltb_ℤ-below zero (suc n) = ground arith
ltb_ℤ-below (suc m) zero = ground arith
ltb_ℤ-below (suc m) (suc n) = ground arith

-- Whether the status of a recovered todo is further on than that of the stored one.
abbrev pub has_advanced : Fields → Fields → Bool
has_advanced recovered stored = ltb (level (status_of stored)) (level (status_of recovered))

pub is_further-level :
    (recovered stored : Fields) → is_further recovered stored ≡ has_advanced recovered stored
unfolding is_further todo_status_rank tag
is_further-level recovered stored =
    ap (λ r. ltb_ℤ r (rank_of_status (status_of recovered)))
      (rank_of_status-level (status_of stored))
    ∙ ap (ltb_ℤ (below (level (status_of stored)))) (rank_of_status-level (status_of recovered))
    ∙ ltb_ℤ-below (level (status_of stored)) (level (status_of recovered))
