-- ===== src/Sprint/Commit.antt =====
-- workflows/sprints/lifecycle.py: `enforce_task_commit_for_completed_todo`, and the resumption of a
-- todo whose commit failed. What the inspection of the working tree finds, and what the version
-- controller answers, are given.
use sprint_runtime.Prelude.{
  String, ◌<>◌, Bool, not, ◌||◌, ◌==◌, List, [], ◌∷◌, ◌++◌, map, if◌then◌else◌,
}
use sprint_runtime.Prelude.Text.{is_empty, strip}
use sprint_runtime.Prelude.Lists.{keep, is_nil, member}
use sprint_runtime.Python.{Value, str, list, dict, nil, Fields, get, put, field, end}
use sprint_runtime.Python.Convert.{Result, ok, ◌>>=◌, text, tag}
use sprint_runtime.Python.Sequences.{or_value, iterate, has_key, is_end}
use sprint_runtime.Backlog.{put_text}
use sprint_runtime.Sprint.{status_of, stripped_text}
use sprint_runtime.Sprint.Execute.{dict_or_empty}
use sprint_runtime.Python.Render.{to_str}
use sprint_runtime.Sprint.Todos.{texts, cleaned}
use sprint_runtime.Sprint.Tasks.{
  tracked, Left, with_commit, Task, with_artifacts, artifacts_of, is_text, with_summary,
  unchanged_task, pending_task,
}

-- What the version controller answered.
unfoldable pub answered : Fields → Result Left
unfolding text strip get cleaned
answered answer =
    cleaned (or_value (get answer "commit_paths") (get answer "changed_paths")) >>= λ paths.
    ok (record {
      status = strip (text (or_value (get answer "commit_status") (get answer "status")));
      sha = stripped_text answer "commit_sha";
      message = stripped_text answer "commit_message";
      error = stripped_text answer "error";
      paths = paths;
    })

abbrev pub has_failed : Left → Fields → Bool
has_failed left answer =
    member left.status ("failed" ∷ "no_repo" ∷ [])
    || member (status_of answer) ("blocked" ∷ "failed" ∷ [])

-- The status of a task that is finished.
abbrev pub finished_status : Left → String
finished_status left = if left.status == "committed" then "committed" else "completed"

-- The status of a task whose commit failed: it stays to be committed if there is anything to commit.
abbrev pub failed_status : Bool → List String → Left → String
failed_status recovering inspected left =
    if not (is_nil inspected) || not (is_nil left.paths) || recovering
    then "uncommitted"
    else "blocked"

-- The request and the result of a task whose commit failed.
abbrev as_failed : String → String → String → Task → Task
as_failed status said error task =
    let result =
      put_text
        (put_text (put_text task.result "status" status) "summary" (
          strip (
            "Task 완료 직전 version_controller 커밋 단계에 실패했습니다. "
            <> (if is_empty said then error else said))))
        "error" (if is_empty error then said else error) in
    record task {
      request = put (put_text task.request "status" status) "result" (dict result);
      result = result;
    }

unfoldable pub failed_task : Task → Bool → List String → Left → Fields → Result Task
unfolding put get text strip with_artifacts
failed_task task recovering inspected left answer =
    tracked
      (artifacts_of task
        ++ (texts left.paths
            ∷ get task.request "version_control_paths"
            ∷ get task.request "task_commit_paths"
            ∷ []))
      (λ artifacts.
        as_failed (failed_status recovering inspected left) (stripped_text answer "summary")
          left.error (with_artifacts task artifacts))

unfoldable pub finished_task : Task → String → List String → Left → Result Task
unfolding put get with_artifacts
finished_task task summary inspected left =
    let status = finished_status left in
    let changed = record task {
      request = put_text task.request "status" status;
      result = with_summary summary (put_text task.result "status" status);
    } in
    tracked
      (artifacts_of changed
        ++ (texts left.paths
            ∷ get task.request "version_control_paths"
            ∷ get task.request "task_commit_paths"
            ∷ texts inspected
            ∷ []))
      (λ artifacts. with_artifacts changed artifacts)

-- After the version controller's answer.
unfoldable pub committed_task : Task → String → Bool → List String → Fields → Result Task
unfolding with_commit tag get
committed_task task summary recovering inspected answer = answered answer >>= λ left.
    let noted = record task {
      request = with_commit left task.request;
      result = with_commit left task.result;
    } in
    let failing = failed_task noted recovering inspected left answer in
    let finishing = finished_task noted summary inspected left in
    if has_failed left answer then failing else finishing

abbrev pub was_uncommitted : Task → Bool
was_uncommitted task =
    status_of task.request == "uncommitted" || status_of task.result == "uncommitted"

abbrev pub summary_of : Task → String
summary_of task = strip (
    text (
      or_value (get task.request "task_commit_summary") (
        or_value (get task.result "task_commit_summary") (
          or_value (get task.result "summary")
            (or_value (get task.todo "title") (get task.request "scope"))))))

abbrev pub summarized : Task → Task
summarized task = record task {
  request = put_text task.request "task_commit_summary" (summary_of task);
  result = put_text task.result "task_commit_summary" (summary_of task);
}

unfoldable pub enforce_task_commit_for_completed_todo : Task → Fields → Fields → Result Task
unfolding tag text strip get put
enforce_task_commit_for_completed_todo task inspection answer =
    let recovering = was_uncommitted task in
    let summary = summary_of task in
    let asked = summarized task in
    let unchanged = unchanged_task asked summary in
    let found = cleaned (get inspection "changed_paths") >>= λ inspected.
    let pending = pending_task asked inspected >>= λ waiting.
    committed_task waiting summary recovering inspected answer in
    let direct = committed_task asked summary recovering inspected answer in
    if is_text (get inspection "status") "no_changes"
    then unchanged
    else if is_text (get inspection "status") "pending_changes" || recovering
    then pending
    else direct in
    if member (status_of task.result) ("completed" ∷ "uncommitted" ∷ []) then found else ok task

-- `d.setdefault(key, value)`
abbrev set_default : String → Value → Fields → Fields
set_default key value d = if has_key d key then d else put d key value

-- `[str(item) for item in (value or []) if str(item).strip()]`
abbrev unblank : Value → Result (List String)
unblank value = iterate (or_value value (list nil)) >>= λ items.
    ok (keep (λ s. not (is_empty (strip s))) (map to_str items))

-- The result of a request that has none.
abbrev lost_result : Fields → Fields → List String → Fields
lost_result request todo artifacts =
    let first_of = λ (a b : Value). str (text (or_value a b)) in
    field "request_id" (first_of (get request "request_id") (get todo "request_id")) (
      field "role" (first_of (get request "current_role") (str "orchestrator")) (
        field "status" (str "uncommitted") (
          field "summary"
            (first_of (get request "task_commit_summary")
              (or_value (get todo "summary") (get todo "title")))
            (field "insights" (list nil) (
              field "proposals" (dict end) (
                field "artifacts" (texts artifacts) (
                  field "next_role" (str "")
                    (field "error" (str (text (get request "version_control_error"))) end))))))))

abbrev completed_result : Fields → Fields → List String → Fields → Fields
completed_result request todo artifacts result =
    let whole = set_default "next_role" (str "") (
      set_default "artifacts" (texts artifacts) (
        set_default "proposals" (dict end) (
          set_default "insights" (list nil) (
            set_default "role"
              (str (text (or_value (get request "current_role") (str "orchestrator"))))
              (set_default "request_id"
                (str (text (or_value (get request "request_id") (get todo "request_id"))))
                result))))) in
    if member (status_of whole) ("completed" ∷ "uncommitted" ∷ [])
    then whole
    else put_text whole "status" "uncommitted"

unfoldable pub resume_uncommitted_sprint_todo : Fields → Fields → Fields → Fields → Result Task
unfolding iterate text strip tag get put enforce_task_commit_for_completed_todo
resume_uncommitted_sprint_todo todo request inspection answer =
    dict_or_empty (get request "result") >>= λ stored.
    unblank (or_value (get request "artifacts") (get todo "artifacts")) >>= λ artifacts.
    enforce_task_commit_for_completed_todo
      (record {
        todo = todo;
        request = request;
        result =
            completed_result request todo artifacts
              (if is_end stored then lost_result request todo artifacts else stored);
      })
      inspection answer
