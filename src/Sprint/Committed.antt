-- ===== src/Sprint/Committed.antt =====
-- workflows/sprints/lifecycle.py: the status that the commit of a task leaves, as the code computes it.
pub mod Reasons
use sprint_runtime.Prelude.{
  ◌≡◌, refl, String, Bool, true, false, ◌||◌, List, [], ◌∷◌, if◌then◌else◌, if_both,
}
use sprint_runtime.Prelude.Lists.{member}
use sprint_runtime.Python.{Value, str, dict, Fields, get}
use sprint_runtime.Python.Convert.{Result, ok}
use sprint_runtime.Python.Laws.{OkIs, OkIs-bind, OkIs-any, get-put}
use sprint_runtime.Sprint.{status_of}
use sprint_runtime.Sprint.Todos.{cleaned}
use sprint_runtime.Sprint.Tasks.{
  Task, Left, collect_artifact_candidates, unchanged_task, tracked, is_text, pending_task,
}
use sprint_runtime.Sprint.Commit.{
  failed_status, has_failed, failed_task, finished_task, finished_status, committed_task,
  enforce_task_commit_for_completed_todo, answered, was_uncommitted, summarized, summary_of,
}

-- The request and the result have the status, and the request stores the result.
abbrev pub HasStatus : String → Task → Type 0
HasStatus status task =
    (get task.request "status" ≡ str status)
    × (get task.result "status" ≡ str status)
    × (get task.request "result" ≡ dict task.result)

tracked-Has :
    (P : Task → Type 0) (sequences : List Value) (made : List String → Task)
    → ((artifacts : List String) → P (made artifacts))
    → OkIs P (tracked sequences made)
unfolding tracked
tracked-Has P sequences made h =
    OkIs-bind {0, 0, 0, 0} (λ a. Unit) P (collect_artifact_candidates sequences) _
      (OkIs-any (collect_artifact_candidates sequences)) (λ artifacts _. h artifacts)

unchanged_task-HasStatus :
    (task : Task) (summary : String) → OkIs (HasStatus "completed") (unchanged_task task summary)
unfolding unchanged_task
unchanged_task-HasStatus task summary =
    tracked-Has (HasStatus "completed") _ _
      (λ artifacts. (simp get-put refl, simp get-put refl, simp get-put refl))

failed_task-HasStatus :
    (task : Task) (recovering : Bool) (inspected : List String) (left : Left) (answer : Fields)
    → OkIs
        (HasStatus (failed_status recovering inspected left))
        (failed_task task recovering inspected left answer)
unfolding failed_task
failed_task-HasStatus task recovering inspected left answer =
    tracked-Has (HasStatus (failed_status recovering inspected left)) _ _
      (λ artifacts. (simp get-put refl, simp get-put refl, simp get-put refl))

finished_task-HasStatus :
    (task : Task) (summary : String) (inspected : List String) (left : Left)
    → OkIs (HasStatus (finished_status left)) (finished_task task summary inspected left)
unfolding finished_task
finished_task-HasStatus task summary inspected left =
    tracked-Has (HasStatus (finished_status left)) _ _
      (λ artifacts. (simp get-put refl, simp get-put refl, simp get-put refl))

abbrev pub answered_status : Bool → List String → Left → Fields → String
answered_status recovering inspected left answer =
    if has_failed left answer then failed_status recovering inspected left else finished_status left

-- One test chooses the status and the task.
if_HasStatus :
    (b : Bool) (s t : String) (x y : Result Task)
    → OkIs (HasStatus s) x
    → OkIs (HasStatus t) y
    → OkIs (HasStatus (if b then s else t)) (if b then x else y)
if_HasStatus true s t x y hx hy = hx
if_HasStatus false s t x y hx hy = hy

committed_task-HasStatus :
    (task : Task) (summary : String) (recovering : Bool) (inspected : List String) (left : Left)
    (answer : Fields)
    → answered answer ≡ ok left
    → OkIs
        (HasStatus (answered_status recovering inspected left answer))
        (committed_task task summary recovering inspected answer)
unfolding committed_task
committed_task-HasStatus task summary recovering inspected left answer heard = rw heard (
    if_HasStatus (has_failed left answer) _ _ _ _
      (failed_task-HasStatus _ recovering inspected left answer)
      (finished_task-HasStatus _ summary inspected left))

-- The status of a task whose result is completed or uncommitted.
abbrev pub task_status : Bool → Bool → List String → Left → Fields → String
task_status clean recovering inspected left answer =
    if clean then "completed" else answered_status recovering inspected left answer

-- The request and the result get that status.
pub enforce-HasStatus :
    (task : Task) (inspection answer : Fields) (inspected : List String) (left : Left)
    → member (status_of task.result) ("completed" ∷ "uncommitted" ∷ []) ≡ true
    → cleaned (get inspection "changed_paths") ≡ ok inspected
    → answered answer ≡ ok left
    → OkIs
        (HasStatus (
          task_status
            (is_text (get inspection "status") "no_changes")
            (was_uncommitted task)
            inspected
            left
            answer))
        (enforce_task_commit_for_completed_todo task inspection answer)
unfolding enforce_task_commit_for_completed_todo
enforce-HasStatus task inspection answer inspected left due found heard =
    rw (due, found)
      (if_HasStatus (is_text (get inspection "status") "no_changes") _ _ _ _
        (unchanged_task-HasStatus (summarized task) (summary_of task))
        (if_both (OkIs answered_well)
          (is_text (get inspection "status") "pending_changes" || was_uncommitted task)
          (OkIs-bind {0, 0, 0, 0} (λ a. Unit) _ (pending_task (summarized task) inspected) _
            (OkIs-any (pending_task (summarized task) inspected))
            (λ waiting _.
              committed_task-HasStatus waiting (summary_of task) (was_uncommitted task) inspected
                left answer heard))
          (committed_task-HasStatus (summarized task) (summary_of task) (was_uncommitted task)
            inspected left answer heard)))
  where
    answered_well : Task → Type 0
    answered_well = HasStatus (answered_status (was_uncommitted task) inspected left answer)
