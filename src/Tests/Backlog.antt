-- ===== src/Tests/Backlog.antt =====
-- Items of a backlog, and the todos of a sprint.
use sprint_runtime.Prelude.{◌≡◌, refl, arith, true, String, List, [], ◌∷◌}
use sprint_runtime.Prelude.Text.{strip, normalized}
use sprint_runtime.Python.{ℤ, pos, num, str, Fields, end, field, get}
use sprint_runtime.Python.Laws.{OkIs}
use sprint_runtime.Python.Convert.{ok, int_or}
use sprint_runtime.Backlog.{
  desired_backlog_status_for_todo, apply_backlog_state_from_todo,
  build_sprint_selected_backlog_item,
}
use sprint_runtime.Backlog.Applied.{HasTaken, apply-HasTaken}
use sprint_runtime.Backlog.Merge.{Candidate, normalize_candidate}
use sprint_runtime.Backlog.Into.{merge_item}
use sprint_runtime.Backlog.Merged.{IsKept, merge_item-IsKept}
use sprint_runtime.Backlog.Titled.{normalize_candidate-some}
use sprint_runtime.Prelude.{is_some}
use sprint_runtime.Python.{dict}
use sprint_runtime.Backlog.Built.{IsShown, build-IsShown}
use sprint_runtime.Backlog.Order.{select_backlog_items_for_sprint}
use sprint_runtime.Backlog.Selected.{IsSelection, select-IsSelection}
use sprint_runtime.Sprint.{sort_sprint_todos}
use sprint_runtime.Sprint.Todos.{build_todo_item}
use sprint_runtime.Sprint.Reversed.{orders-disagree}
use sprint_runtime.Python.Convert.{Result, raise, tag}

abbrev ranked : String → ℤ → Fields
ranked backlog_id rank =
    field "backlog_id" (str backlog_id)
      (field "status" (str "pending") (field "priority_rank" (num rank) end))

abbrev todo : Fields
todo = field "status" (str "completed") end

apply-HasTaken_example :
    OkIs
      (HasTaken (desired_backlog_status_for_todo todo) "sprint-1" (ranked "b-1" (pos 1)))
      (apply_backlog_state_from_todo (ranked "b-1" (pos 1)) todo "sprint-1")
unfolding strip
apply-HasTaken_example = apply-HasTaken (ranked "b-1" (pos 1)) todo "sprint-1" refl

build-IsShown_example :
    OkIs
      (IsShown (desired_backlog_status_for_todo todo) "sprint-1" (ranked "b-1" (pos 1)))
      (build_sprint_selected_backlog_item "b-1" (ranked "b-1" (pos 1)) end todo "sprint-1")
unfolding strip
build-IsShown_example = build-IsShown "b-1" (ranked "b-1" (pos 1)) end todo "sprint-1" refl refl

abbrev items : List Fields
items = ranked "b-1" (pos 1) ∷ ranked "b-2" (pos 2) ∷ []

select-IsSelection_example : OkIs (IsSelection items) (select_backlog_items_for_sprint items)
select-IsSelection_example = select-IsSelection items

-- The item with the larger rank is taken first.
second_first :
    select_backlog_items_for_sprint items ≡ ok (ranked "b-2" (pos 2) ∷ ranked "b-1" (pos 1) ∷ [])
unfolding select_backlog_items_for_sprint get normalized int_or
second_first = refl

abbrev made : Result Fields → Fields
made (ok todo) = todo
made (raise e) = end

abbrev todo_of : Fields → Fields
todo_of item = made (build_todo_item item "planner" "todo-1")

orders-disagree_example :
    (select_backlog_items_for_sprint items ≡ ok (ranked "b-2" (pos 2) ∷ ranked "b-1" (pos 1) ∷ []))
    × (sort_sprint_todos (todo_of (ranked "b-2" (pos 2)) ∷ todo_of (ranked "b-1" (pos 1)) ∷ [])
        ≡ todo_of (ranked "b-1" (pos 1)) ∷ todo_of (ranked "b-2" (pos 2)) ∷ [])
unfolding int_or get tag build_todo_item
orders-disagree_example =
    orders-disagree (ranked "b-1" (pos 1)) (ranked "b-2" (pos 2)) (todo_of (ranked "b-1" (pos 1)))
      (todo_of (ranked "b-2" (pos 2))) 0 1 "planner" "todo-1" "todo-1" refl refl refl refl
      (omega arith) refl refl

abbrev renamed : Candidate
renamed = record {
  item = field "title" (str "Sort the list") (field "status" (str "done") end);
  explicit = "title" ∷ [];
}

-- The candidate's status was not given, so the stored one stays.
merge_item-IsKept_example :
    OkIs
      (λ merged.
        IsKept "status" (ranked "b-1" (pos 1)) merged
        × IsKept "backlog_id" (ranked "b-1" (pos 1)) merged)
      (merge_item (ranked "b-1" (pos 1)) renamed)
merge_item-IsKept_example = merge_item-IsKept (ranked "b-1" (pos 1)) renamed "status" refl refl

normalize_candidate-some_example :
    OkIs
      (λ c. is_some c ≡ true)
      (normalize_candidate (λ s. s) (dict end) "planner" "" "backlog-1" "2026-05-01T09:00:00+09:00")
normalize_candidate-some_example =
    normalize_candidate-some (λ s. s) (dict end) "planner" "" "backlog-1"
      "2026-05-01T09:00:00+09:00" refl
