-- ===== src/Sprint/Reversed.antt =====
-- workflows/orchestration/scheduler.py and workflows/sprints/lifecycle.py: the order in which a sprint
-- takes two items of the backlog, and that of the todos that are made of them.
use sprint_runtime.Prelude.{ℕ, suc, ◌<◌, ◌≡◌, refl, String, true, false, [], ◌∷◌, arith, ltb}
use mathlib.Core.Path.{subst}
use sprint_runtime.Prelude.Sorting.{sort_by}
use sprint_runtime.Python.{pos, Fields, get}
use sprint_runtime.Python.Convert.{ok, int_or, tag}
use sprint_runtime.Python.Laws.{OkIs, OkIs-bind, OkIs-any}
use sprint_runtime.Backlog.Ahead.{is_pending}
use sprint_runtime.Backlog.Order.{
  priority, ranked_priority, is_actionable, with_priorities, select_backlog_items_for_sprint,
}
use sprint_runtime.Sprint.{status_of, bypasses_gate, rank, sort_sprint_todos, todo_key}
use sprint_runtime.Sprint.Todos.{build_todo_item, cleaned}

less : (m n : ℕ) → m < n → ltb m n ≡ true
less m n h = ground arith

ranked-priority :
    (item : Fields) (n : ℕ)
    → int_or (get item "priority_rank") (pos 0) ≡ ok (pos (suc n))
    → priority item ≡ ok (ranked_priority item (pos (suc n)))
unfolding priority
ranked-priority item n h = rw h refl

select-larger :
    (a b : Fields) (m n : ℕ)
    → is_pending a ≡ true
    → is_pending b ≡ true
    → int_or (get a "priority_rank") (pos 0) ≡ ok (pos (suc m))
    → int_or (get b "priority_rank") (pos 0) ≡ ok (pos (suc n))
    → m < n
    → select_backlog_items_for_sprint (a ∷ b ∷ []) ≡ ok (b ∷ a ∷ [])
unfolding select_backlog_items_for_sprint is_actionable with_priorities sort_by
select-larger a b m n pa pb ra rb h =
    rw (pa, pb, ranked-priority a m ra, ranked-priority b n rb, less m n h) refl

-- A new todo is queued, with the rank of its item.
abbrev IsQueued : ℕ → Fields → Type 0
IsQueued n todo = (rank todo ≡ n) × (status_of todo ≡ "queued") × (bypasses_gate todo ≡ false)

build-IsQueued :
    (item : Fields) (owner id : String) (n : ℕ)
    → int_or (get item "priority_rank") (pos 0) ≡ ok (pos (suc n))
    → OkIs (IsQueued (suc n)) (build_todo_item item owner id)
unfolding build_todo_item
build-IsQueued item owner id n h = rw h (
    OkIs-bind {0, 0, 0, 0} (λ a. Unit) _ (cleaned (get item "acceptance_criteria")) _
      (OkIs-any (cleaned (get item "acceptance_criteria")))
      (λ criteria _. (unfold rank in refl, unfold tag in refl, unfold bypasses_gate in refl)))

sort-smaller :
    (ta tb : Fields) (m n : ℕ)
    → IsQueued (suc m) ta
    → IsQueued (suc n) tb
    → m < n
    → sort_sprint_todos (tb ∷ ta ∷ []) ≡ ta ∷ tb ∷ []
unfolding sort_sprint_todos sort_by todo_key
sort-smaller ta tb m n (ra, sa, ba) (rb, sb, bb) h =
    rw (ba, bb, sa, sb, ra, rb, less (suc m) (suc n) (omega (arith, h))) refl

-- Of two pending items with positive ranks, a sprint takes the one with the larger rank first; of the
-- todos that are made of them, which are queued, it puts the one of the smaller rank first.
pub orders-disagree :
    (a b ta tb : Fields) (m n : ℕ) (owner id id' : String)
    → is_pending a ≡ true
    → is_pending b ≡ true
    → int_or (get a "priority_rank") (pos 0) ≡ ok (pos (suc m))
    → int_or (get b "priority_rank") (pos 0) ≡ ok (pos (suc n))
    → m < n
    → build_todo_item a owner id ≡ ok ta
    → build_todo_item b owner id' ≡ ok tb
    → (select_backlog_items_for_sprint (a ∷ b ∷ []) ≡ ok (b ∷ a ∷ []))
      × (sort_sprint_todos (tb ∷ ta ∷ []) ≡ ta ∷ tb ∷ [])
orders-disagree a b ta tb m n owner id id' pa pb ra rb h made made' = (
  select-larger a b m n pa pb ra rb h,
  sort-smaller ta tb m n (subst (OkIs (IsQueued (suc m))) made (build-IsQueued a owner id m ra))
      (subst (OkIs (IsQueued (suc n))) made' (build-IsQueued b owner id' n rb)) h,
)
