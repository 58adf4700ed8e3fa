-- ===== src/Tests/Sprints.antt =====
-- Concrete sprints, on which the theorems about their todos are applied.
use sprint_runtime.Prelude.{
  ◌≡◌, refl, arith, ℕ, String, true, false, some, none, Option, List, [], ◌∷◌,
}
use sprint_runtime.Prelude.Sorting.{Each}
use sprint_runtime.Prelude.Lists.{length}
use sprint_runtime.Python.{pos, num, str, Fields, end, field}
use sprint_runtime.Python.Convert.{Result, ok}
use sprint_runtime.Python.Laws.{OkIs}
use sprint_runtime.Sprint.{SprintState, status_of, sort_sprint_todos}
use sprint_runtime.Sprint.Execute.{Work, Executed, execute_sprint_todo}
use sprint_runtime.Sprint.Loop.{
  Round, finalized, continue_manual_daily_sprint, automatic_rounds, manual_rounds, is_ready,
}
use native.Mathlib.Nat.{le_refl}
use sprint_runtime.Prelude.Text.{strip}
use sprint_runtime.Python.{get}
use sprint_runtime.Python.Convert.{text, tag}
use sprint_runtime.Sprint.{is_executable, bypasses_gate, is_same, rank}
use sprint_runtime.Workflow.Request.{
  read_workflow, is_sprint_planning_request, is_internal_sprint_request,
}
use sprint_runtime.Sprint.Queue.{items_of_sprint}
use sprint_runtime.Sprint.Execute.{reported}
use sprint_runtime.Sprint.Loop.{turn, prepared}
use sprint_runtime.Sprint.Stops.{open_todos}
use sprint_runtime.Python.{list, of_list}
use sprint_runtime.Sprint.Todos.{cleaned}
use sprint_runtime.Sprint.Tasks.{Task}
use sprint_runtime.Sprint.Commit.{enforce_task_commit_for_completed_todo}
use sprint_runtime.Sprint.Committed.{HasStatus}
use sprint_runtime.Sprint.Committed.Reasons.{Reason, named_paths, enforce_task_commit-HasStatus}
use sprint_runtime.Sprint.InOrder.{IsInOrder, sprint_loops-InOrder}
use sprint_runtime.Sprint.Settled.{Agreed, execute_sprint_todo-Agrees}
use sprint_runtime.Sprint.Stops.{AreCalm, Stopped, manual_rounds_stop}
use sprint_runtime.Sprint.Lone.{IsStuck, IsPending, lone, Keeps}
use sprint_runtime.Python.{put}
use sprint_runtime.Python.Laws.{get-put}
use sprint_runtime.Prelude.{ap, ◌∙◌}
use sprint_runtime.Sprint.Repeats.{IsOngoing, uncommitted_repeats}
use sprint_runtime.Sprint.Skipped.{AreRanked, automatic_rounds-skips}

abbrev todo_of : String → String → ℕ → Fields
todo_of id status rank = field "todo_id" (str id) (
    field "backlog_id" (str id)
      (field "status" (str status) (field "priority_rank" (num (pos rank)) end)))

abbrev item_of : String → Fields
item_of id =
    field "backlog_id" (str id)
      (field "planned_in_sprint_id" (str "s1") (field "status" (str "selected") end))

abbrev sprint : Fields
sprint = field "sprint_id" (str "s1") end

abbrev work_with : String → Work
work_with status = record {
  request = end;
  created_id = str "r1";
  later = end;
  result = field "status" (str status) end;
  started_at = "t1";
  ended_at = "t2";
  digest = λ s. s;
  carry_over_id = "b9";
}

abbrev round_with : String → List Fields → Round
round_with status backlog = record {
  review = λ force checkpoint s. s;
  backlog = backlog;
  new_id = λ item. "t9";
  save = λ s. s;
  item = λ todo. item_of "b1";
  work = λ todo. work_with status;
  after = λ s. s;
}

abbrev two : SprintState
two = record { state = sprint; todos = todo_of "b1" "queued" 1 ∷ todo_of "b2" "queued" 2 ∷ [] }

abbrev good : Round
good = round_with "completed" (item_of "b1" ∷ item_of "b2" ∷ [])

sprint_loops-InOrder_example :
    Each IsInOrder (continue_manual_daily_sprint two (λ s. (s, true)) (good ∷ good ∷ [])).1
    × Each IsInOrder
        (automatic_rounds sprint (λ t. end) (λ t. work_with "completed") [] two.todos).1
sprint_loops-InOrder_example =
    sprint_loops-InOrder two (λ s. (s, true)) (good ∷ good ∷ []) (λ t. end)
      (λ t. work_with "completed")

execute_sprint_todo-Agrees_example :
    OkIs
      (Agreed (status_of (work_with "blocked").result))
      (execute_sprint_todo two (todo_of "b1" "queued" 1) (item_of "b1") (work_with "blocked"))
execute_sprint_todo-Agrees_example =
    execute_sprint_todo-Agrees two (todo_of "b1" "queued" 1) (item_of "b1") (work_with "blocked")

abbrev one : SprintState
one = record { state = sprint; todos = todo_of "b1" "queued" 1 ∷ [] }

abbrev calm : Round
calm = round_with "completed" (item_of "b1" ∷ [])

one-AreCalm : AreCalm true false one (calm ∷ calm ∷ [])
unfolding turn prepared is_executable tag text get read_workflow is_sprint_planning_request
    is_internal_sprint_request
one-AreCalm = (
  record { prepares = omega arith; leaves = λ p. le_refl (open_todos p); settles = λ todo. refl },
  (
    record { prepares = omega arith; leaves = λ p. le_refl (open_todos p); settles = λ todo. refl },
    tt,
  ),
)

manual_rounds_stop_example : Stopped (manual_rounds true false one (calm ∷ calm ∷ [])).0
unfolding is_executable tag get
manual_rounds_stop_example =
    manual_rounds_stop true false one (calm ∷ calm ∷ []) one-AreCalm (omega arith)

-- A save that notes when it was made.
abbrev stamped : SprintState → SprintState
stamped s = record s { state = put s.state "updated_at" (str "2026-01-01T00:00:00") }

abbrev stuck : Round
stuck = record (round_with "uncommitted" []) {
  review = λ force checkpoint s. stamped s;
  save = stamped;
  after = stamped;
}

stamped-Keeps : Keeps "s1" stamped
stamped-Keeps state todo pending = (
  put state "updated_at" (str "2026-01-01T00:00:00"),
  todo,
  refl,
  record {
    named = ap (λ v. strip (text v)) (simp get-put refl) ∙ pending.named;
    unasked = ap (λ v. strip (text v)) (simp get-put refl) ∙ pending.unasked;
    listed = pending.listed;
    uncommitted = pending.uncommitted;
  },
)

stuck-IsStuck : IsStuck "s1" stuck
unfolding items_of_sprint tag get reported read_workflow is_sprint_planning_request
    is_internal_sprint_request
stuck-IsStuck = record {
  review = λ force checkpoint. stamped-Keeps;
  save = stamped-Keeps;
  after = stamped-Keeps;
  unplanned = λ milestone. refl;
  fails = λ todo. refl;
  reports = λ todo told. tt;
}

waiting-IsPending : IsPending "s1" sprint (todo_of "b1" "uncommitted" 1)
unfolding strip text get tag
waiting-IsPending = record { named = refl; unasked = refl; listed = refl; uncommitted = refl }

uncommitted_repeats_example :
    IsOngoing
      (manual_rounds true false (lone sprint (todo_of "b1" "uncommitted" 1)) (stuck ∷ stuck ∷ [])).0
    × (length
          (manual_rounds true false
            (lone sprint (todo_of "b1" "uncommitted" 1))
            (stuck ∷ stuck ∷ [])).1
        ≡ 2)
uncommitted_repeats_example =
    uncommitted_repeats true false "s1" sprint (todo_of "b1" "uncommitted" 1) (stuck ∷ stuck ∷ [])
      refl (stuck-IsStuck, (stuck-IsStuck, tt)) waiting-IsPending

abbrev executed_of : Result (Option Executed) → Executed
executed_of (ok (some e)) = e
executed_of _ = record { todo = end; item = end; carried = none }

abbrev runs : Fields
runs = todo_of "b3" "running" 3

abbrev waits : Fields
waits = todo_of "b2" "queued" 2

abbrev both : SprintState
both = record { state = sprint; todos = runs ∷ waits ∷ [] }

abbrev done_by : Executed
unfolding execute_sprint_todo
done_by = executed_of (execute_sprint_todo both waits end (work_with "completed"))

both-AreRanked : AreRanked runs waits
unfolding bypasses_gate is_same rank tag get
both-AreRanked = record {
  runs = refl;
  is_queued = refl;
  unmarked = refl;
  unmarked_too = refl;
  apart = refl;
  behind = omega arith;
  above_one = omega arith;
  is_set = omega arith;
}

waits-executed : execute_sprint_todo both waits end (work_with "completed") ≡ ok (some done_by)
unfolding execute_sprint_todo read_workflow is_sprint_planning_request is_internal_sprint_request
waits-executed = refl

automatic_rounds-skips_example :
    ((automatic_rounds sprint
        (λ t. end)
        (λ t. work_with "completed")
        []
        (sort_sprint_todos (runs ∷ waits ∷ []))).0
      ≡ finalized (record { state = sprint; todos = runs ∷ done_by.todo ∷ [] }))
    × (is_ready (runs ∷ done_by.todo ∷ []) runs ≡ true)
unfolding tag text strip get
automatic_rounds-skips_example =
    automatic_rounds-skips sprint (λ t. end) (λ t. work_with "completed") runs waits done_by
      both-AreRanked refl waits-executed refl

abbrev unfinished : Task
unfinished = record {
  todo = todo_of "b1" "running" 1;
  request = end;
  result = field "status" (str "completed") end;
}

abbrev dirty : Fields
dirty =
    field "status" (str "pending_changes")
      (field "changed_paths" (list (of_list ("a.py" ∷ []))) end)

abbrev no_commit : Fields
no_commit = field "commit_status" (str "failed") end

dirty-cleaned : cleaned (get dirty "changed_paths") ≡ ok ("a.py" ∷ [])
unfolding cleaned get
dirty-cleaned = refl

no_commit-cleaned : cleaned (named_paths no_commit) ≡ ok []
unfolding cleaned get
no_commit-cleaned = refl

enforce_task_commit-HasStatus_example :
    (status : String) × Reason unfinished dirty no_commit ("a.py" ∷ []) [] status
    × OkIs (HasStatus status) (enforce_task_commit_for_completed_todo unfinished dirty no_commit)
unfolding tag get
enforce_task_commit-HasStatus_example =
    enforce_task_commit-HasStatus unfinished dirty no_commit ("a.py" ∷ []) [] refl dirty-cleaned
      no_commit-cleaned
