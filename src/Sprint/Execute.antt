-- ===== src/Sprint/Execute.antt =====
-- workflows/sprints/lifecycle.py: `execute_sprint_todo`. The records of the request before and after
-- the chain of roles, and the result of the chain with its commit, are given; a request record has
-- its identifier. Of the sprint's dictionary it reads the identifier only.
use sprint_runtime.Prelude.{
  String, Bool, true, false, not, ◌||◌, ◌==◌, Option, none, some, List, [], ◌∷◌, map, if◌then◌else◌,
}
use sprint_runtime.Prelude.Text.{is_empty, strip, lower, has, join}
use sprint_runtime.Prelude.Lists.{any, keep, member}
use sprint_runtime.Python.{pos, Value, str, list, dict, nil, Fields, end, field, get, put}
use sprint_runtime.Python.Convert.{Result, ok, raise, type_error, ◌>>=◌, truthy, text, int_or, tag}
use sprint_runtime.Python.Sequences.{or_value, iterate, is_end}
use sprint_runtime.Contract.Artifacts.{is_planner_owned_surface_artifact_hint}
use sprint_runtime.Workflow.{implementation, validation, WorkflowState}
use sprint_runtime.Workflow.Request.{request_workflow_state}
use sprint_runtime.Backlog.{clear_backlog_blockers, put_text, recovery_step}
use sprint_runtime.Backlog.Merge.{build_backlog_item, build_backlog_fingerprint}
use sprint_runtime.Sprint.{
  SprintState, status_of, stripped_text, bypasses_gate, sprint_todo_dependencies_satisfied,
  successful,
}
use sprint_runtime.Sprint.Todos.{cleaned, texts, distinct_from}

-- `collect_artifact_candidates` of one sequence.
abbrev collected : Value → Result (List String)
collected value = iterate (or_value value (list nil)) >>= λ items.
    ok (distinct_from [] (keep (λ s. not (is_empty s)) (map (λ v. strip (text v)) items)))

abbrev is_late : Option WorkflowState → Bool
is_late none = false
is_late (some s) = elim (s.phase) [ implementation ↦ true | validation ↦ true | _ ↦ false ]

unfoldable pub normalize_sprint_todo_artifacts : Value → Option WorkflowState → Result (List String)
unfolding iterate text strip distinct_from is_planner_owned_surface_artifact_hint
normalize_sprint_todo_artifacts value workflow = collected value >>= λ candidates. ok (
    if is_late workflow
    then keep (λ a. not (is_planner_owned_surface_artifact_hint a)) candidates
    else candidates)

-- `classify_backlog_kind`, of texts.
unfoldable pub classify_backlog_kind : String → String → String → String
unfolding join lower has
classify_backlog_kind intent scope summary =
    let combined = lower (join " " (intent ∷ scope ∷ summary ∷ [])) in
    let mentions = λ (words : List String). any (λ word. has word combined) words in
    if mentions ("bug" ∷ "error" ∷ "fix" ∷ "회귀" ∷ "실패" ∷ "오류" ∷ [])
    then "bug"
    else if mentions ("feature" ∷ "new feature" ∷ "기능 추가" ∷ "신규 기능" ∷ [])
    then "feature"
    else if mentions ("chore" ∷ "cleanup" ∷ "정리" ∷ "문서" ∷ "docs" ∷ [])
    then "chore"
    else "enhancement"

-- What stands outside of the sprint while a todo is executed.
pub record Work : Type 0 where
  -- The request that the todo names, or the empty dictionary.
  pub request : Fields
  -- The identifier of the request that is made if there is none.
  pub created_id : Value
  -- The request after the chain of roles.
  pub later : Fields
  pub result : Fields
  pub started_at : String
  pub ended_at : String
  -- The digest of fingerprints and the identifier of a backlog item that is carried over.
  pub digest : String → String
  pub carry_over_id : String

-- The todo and its backlog item afterwards, and the item that is carried over.
pub record Executed : Type 0 where
  pub todo : Fields
  pub item : Fields
  pub carried : Option Fields

abbrev pub recovers : Fields → Work → Bool
recovers todo work = status_of work.request == "uncommitted" || status_of todo == "uncommitted"

abbrev pub is_over : Fields → Bool
is_over request =
    member (status_of request) ("completed" ∷ "committed" ∷ "failed" ∷ "blocked" ∷ "cancelled" ∷ [])

-- The todo when its request runs.
unfoldable pub started : Fields → Work → Fields
unfolding text get put
started todo work =
    let running =
      if recovers todo work
      then todo
      else put_text (put_text todo "status" "running") "started_at"
          (text (or_value (get todo "started_at") (str work.started_at))) in
    if is_end work.request
    then put running "request_id" work.created_id
    else if is_over work.request
    then running
    else put running "request_id" (get work.request "request_id")

-- The todo with what the result says, but for its status.
unfoldable pub reported : Fields → Work → Result Fields
unfolding text strip get put normalize_sprint_todo_artifacts request_workflow_state cleaned
reported todo work =
    let said = λ (key : String). str (stripped_text work.result key) in
    request_workflow_state work.later >>= λ workflow.
    normalize_sprint_todo_artifacts (get work.result "artifacts") workflow >>= λ artifacts.
    cleaned (get work.result "version_control_paths") >>= λ paths. ok (
      put_text
        (put
          (put
            (put
              (put
                (put_text (put (put todo "artifacts" (texts artifacts)) "summary" (said "summary"))
                  "updated_at" work.ended_at)
                "version_control_status" (said "version_control_status"))
              "version_control_paths" (texts paths))
            "version_control_message" (said "version_control_message"))
          "version_control_error" (said "version_control_error"))
        "ended_at" work.ended_at)

abbrev pub freed_item : Fields → Work → Fields
freed_item item work =
    put_text
      (put_text (put_text (put_text item "status" "blocked") "selected_in_sprint_id" "")
        "completed_in_sprint_id" "")
      "blocked_reason"
      (strip (text (or_value (get work.result "summary") (get work.result "error"))))

unfoldable pub done_item : Fields → String → Fields
unfolding put clear_backlog_blockers
done_item item sprint_id =
    put_text (clear_backlog_blockers (put_text item "status" "done")) "completed_in_sprint_id"
      sprint_id

unfoldable pub uncommitted_item : Fields → Work → Fields
unfolding text strip get put
uncommitted_item item work =
    put
      (put_text (put_text (freed_item item work) "blocked_by_role" "version_controller")
        "recommended_next_step" recovery_step)
      "required_inputs" (list nil)

-- `dict(value or {})`; a list of pairs, which `dict` takes as well, does not occur.
abbrev pub dict_or_empty : Value → Result Fields
dict_or_empty (dict d) = ok d
dict_or_empty v = if truthy v then raise type_error else ok end

unfoldable pub blocked_item : Fields → Work → Result Fields
unfolding text strip get put cleaned
blocked_item item work = dict_or_empty (get work.result "proposals") >>= λ proposals.
    cleaned (get proposals "required_inputs") >>= λ inputs. ok (
      put
        (put_text
          (put_text (freed_item item work) "blocked_by_role"
            (strip (text (or_value (get work.result "role") (get work.later "current_role")))))
          "recommended_next_step" (stripped_text proposals "recommended_next_step"))
        "required_inputs" (texts inputs))

-- `str(d.get(key) or "")`
abbrev field_text : Fields → String → String
field_text d key = text (get d key)

unfoldable pub carry_over : SprintState → Fields → Fields → Work → Result Fields
unfolding text get put int_or cleaned classify_backlog_kind build_backlog_item
    build_backlog_fingerprint
carry_over s todo item work = cleaned (get todo "acceptance_criteria") >>= λ criteria.
    int_or (get todo "priority_rank") (pos 0) >>= λ rank.
    let kind =
      classify_backlog_kind "" (field_text todo "title") (field_text work.result "summary") in
    let made =
      build_backlog_item
        (record {
          title = field_text todo "title";
          summary = text (
              or_value (get work.result "summary")
                (or_value (get work.result "error") (str "carry-over")));
          kind = kind;
          source = "carry_over";
          scope = field_text work.later "scope";
          acceptance_criteria = criteria;
          origin =
              field "sprint_id" (or_value (get s.state "sprint_id") (str ""))
                (field "todo_id" (or_value (get todo "todo_id") (str "")) end);
          backlog_id = "";
          milestone_title = field_text todo "milestone_title";
          priority_rank = rank;
          planned_in_sprint_id = "";
          added_during_active_sprint = false;
        })
        work.carry_over_id work.ended_at in
    ok (
      put_text (put_text made "carry_over_of" (field_text item "backlog_id")) "fingerprint" (
        build_backlog_fingerprint work.digest (field_text made "title") (field_text made "scope")
          (field_text made "kind")))

-- The status that the todo takes, with what it does to the backlog.
unfoldable pub settled : SprintState → Fields → Fields → Work → Result Executed
unfolding text tag strip get put done_item uncommitted_item blocked_item carry_over
settled s todo item work =
    let status = status_of work.result in
    let id = field_text item "backlog_id" in
    let failing = carry_over s todo item work >>= λ made. ok (record {
      todo = put (put_text todo "status" "failed") "carry_over_backlog_id" (get made "backlog_id");
      item = put_text item "status" "carried_over";
      carried = some made;
    }) in
    let blocking = blocked_item item work >>= λ changed. ok (record {
      todo = put_text (put_text todo "status" "blocked") "carry_over_backlog_id" id;
      item = changed;
      carried = none;
    }) in
    if successful status
    then ok (record {
      todo = put_text todo "status" status;
      item = done_item item (field_text s.state "sprint_id");
      carried = none;
    })
    else if status == "uncommitted"
    then ok (record {
      todo = put_text (put_text todo "status" "uncommitted") "carry_over_backlog_id" id;
      item = uncommitted_item item work;
      carried = none;
    })
    else if status == "blocked"
    then blocking
    else failing

-- None, where the todo waits for others.
unfoldable pub execute_sprint_todo : SprintState → Fields → Fields → Work → Result (Option Executed)
unfolding bypasses_gate sprint_todo_dependencies_satisfied started reported settled
execute_sprint_todo s todo item work =
    let ran = reported (started todo work) work >>= λ told.
    settled s told item work >>= λ executed. ok (some executed) in
    if bypasses_gate todo || sprint_todo_dependencies_satisfied todo s.todos then ran else ok none
