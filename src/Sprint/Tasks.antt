-- ===== src/Sprint/Tasks.antt =====
-- workflows/sprints/lifecycle.py: a task whose changes are inspected before its commit, by the first
-- half of `enforce_task_commit_for_completed_todo`.
use sprint_runtime.Prelude.{String, Bool, false, not, ◌==◌, List, [], ◌∷◌, ◌++◌, map, if◌then◌else◌}
use sprint_runtime.Prelude.Text.{is_empty, strip}
use sprint_runtime.Prelude.Lists.{keep, is_nil}
use sprint_runtime.Python.{Value, str, list, dict, nil, Fields, get, put}
use sprint_runtime.Python.Convert.{Result, ok, ◌>>=◌, text}
use sprint_runtime.Python.Sequences.{or_value, iterate}
use sprint_runtime.Backlog.{put_text}
use sprint_runtime.Sprint.{stripped_text}
use sprint_runtime.Sprint.Todos.{texts, cleaned, distinct_from}

-- The strings in each of the sequences, one after another.
strings_in : List Value → Result (List String)
unfolding iterate text strip
strings_in [] = ok []
strings_in (value ∷ sequences) = iterate (or_value value (list nil)) >>= λ items.
    strings_in sequences >>= λ rest.
    ok (keep (λ s. not (is_empty s)) (map (λ v. strip (text v)) items) ++ rest)

-- `collect_artifact_candidates`
unfoldable pub collect_artifact_candidates : List Value → Result (List String)
unfolding strings_in distinct_from
collect_artifact_candidates sequences =
    strings_in sequences >>= λ found. ok (distinct_from [] found)

-- What a commit left: its status, hash, message and error, and the paths.
pub record Left : Type 0 where
  pub status : String
  pub sha : String
  pub message : String
  pub error : String
  pub paths : List String

-- The nine fields that say so in a request and in a result.
unfoldable pub with_commit : Left → Fields → Fields
unfolding put
with_commit left d =
    put_text
      (put
        (put_text
          (put_text
            (put_text
              (put_text
                (put
                  (put_text (put_text d "version_control_status" left.status) "version_control_sha"
                    left.sha)
                  "version_control_paths" (texts left.paths))
                "version_control_message" left.message)
              "version_control_error" left.error)
            "task_commit_status" left.status)
          "task_commit_sha" left.sha)
        "task_commit_paths" (texts left.paths))
      "task_commit_message" left.message

abbrev no_changes : Left
no_changes = record { status = "no_changes"; sha = ""; message = ""; error = ""; paths = [] }

abbrev requested : List String → Left
requested paths = record { status = "requested"; sha = ""; message = ""; error = ""; paths = paths }

-- A todo with its request and the result of its execution.
pub record Task : Type 0 where
  pub todo : Fields
  pub request : Fields
  pub result : Fields

-- What is made of the artifacts in the sequences.
unfoldable pub tracked : List Value → (List String → Task) → Result Task
unfolding collect_artifact_candidates
tracked sequences made = collect_artifact_candidates sequences >>= λ artifacts. ok (made artifacts)

-- Both get the artifacts, and the request the result.
unfoldable pub with_artifacts : Task → List String → Task
unfolding put
with_artifacts task artifacts =
    let result = put task.result "artifacts" (texts artifacts) in
    record task {
      result = result;
      request = put (put task.request "artifacts" (texts artifacts)) "result" (dict result);
    }

abbrev pub artifacts_of : Task → List Value
artifacts_of task =
    get task.request "artifacts" ∷ get task.result "artifacts" ∷ get task.todo "artifacts" ∷ []

-- `value == "..."`
abbrev pub is_text : Value → String → Bool
is_text (str s) t = s == t
is_text _ t = false

abbrev pub with_summary : String → Fields → Fields
with_summary summary result =
    put_text
      (put_text result "summary"
        (if is_empty summary then stripped_text result "summary" else summary))
      "error" ""

-- The working tree has no changes.
unfoldable pub unchanged_task : Task → String → Result Task
unfolding with_commit put with_artifacts
unchanged_task task summary =
    let request = with_commit no_changes (put_text task.request "status" "completed") in
    let result =
      with_commit no_changes (with_summary summary (put_text task.result "status" "completed")) in
    let changed : Task = record { todo = task.todo; request = request; result = result } in
    tracked
      (artifacts_of changed
        ++ (get result "version_control_paths" ∷ get result "task_commit_paths" ∷ []))
      (λ artifacts. with_artifacts changed artifacts)

abbrev requested_todo : Fields → List String → Fields
requested_todo todo paths =
    put_text
      (put_text
        (put (put_text (put_text todo "status" "uncommitted") "version_control_status" "requested")
          "version_control_paths" (texts paths))
        "version_control_message" "")
      "version_control_error" ""

abbrev requested_task : Task → List String → Task
requested_task task paths = record {
  todo = requested_todo task.todo paths;
  request = with_commit (requested paths) (
      put_text
        (put_text (put_text task.request "status" "uncommitted") "current_role" "orchestrator")
        "next_role" "");
  result = with_commit (requested paths) (put_text task.result "status" "uncommitted");
}

-- There are changes, which the version controller is asked to commit.
unfoldable pub pending_task : Task → List String → Result Task
unfolding with_commit put get with_artifacts cleaned
pending_task task inspected =
    cleaned (
      or_value (get task.request "version_control_paths") (
        or_value (get task.request "task_commit_paths") (
          or_value (get task.result "version_control_paths")
            (get task.result "task_commit_paths"))))
    >>= λ known.
        let paths = if is_nil inspected then known else inspected in
        let waiting = requested_task task paths in
        tracked
          (get waiting.request "artifacts"
            ∷ get waiting.result "artifacts"
            ∷ get task.todo "artifacts"
            ∷ texts inspected
            ∷ texts paths
            ∷ [])
          (λ artifacts. with_artifacts waiting artifacts)
