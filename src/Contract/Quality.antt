-- ===== src/Contract/Quality.antt =====
-- QA's reports: when they send the planner back, when the runtime settles a difference by itself,
-- when evidence is missing, and the results that say so. `role` and the texts of a transition are
-- in the normal form that their readers give them.
use sprint_runtime.Prelude.{
  String, ◌==◌, Bool, true, false, not, ◌&&◌, ◌||◌, Option, some, List, [], ◌∷◌, ◌++◌,
  if◌then◌else◌,
}
use sprint_runtime.Prelude.Text.{is_empty, strip, lower, join, has, normalized}
use sprint_runtime.Prelude.Lists.{any, member}
use sprint_runtime.Python.{get, put, fields_of}
use sprint_runtime.Python.Convert.{tag}
use sprint_runtime.Workflow.{
  Step, planner_finalize, qa_validation, Category, scope, Outcome, no_outcome, reopen, block,
  WorkflowState, Transition,
}
use sprint_runtime.Contract.{RoleResult, stripped}
use sprint_runtime.Contract.Documents.{transition_value}

abbrev is_qa_validation : Step → Bool
is_qa_validation qa_validation = true
is_qa_validation _ = false

abbrev is_reopen : Outcome → Bool
is_reopen reopen = true
is_reopen _ = false

abbrev is_finalize : Option Step → Bool
is_finalize (some planner_finalize) = true
is_finalize _ = false

abbrev is_scope : Category → Bool
is_scope scope = true
is_scope _ = false

-- `outcome in {"", "reopen", "block"}`
abbrev is_unfinished : Outcome → Bool
is_unfinished no_outcome = true
is_unfinished reopen = true
is_unfinished block = true
is_unfinished _ = false

abbrev is_failed_status : String → Bool
is_failed_status status = status == "blocked" || status == "failed"

-- The texts of a report and its transition, joined and in lower case.
unfoldable pub combined_text : RoleResult → Transition → String
unfolding strip lower join
combined_text result t = lower (
    join " " (
      result.summary
      ∷ result.error
      ∷ t.reason
      ∷ (stripped result.insights ++ stripped t.unresolved_items)))

unfoldable pub mentions : List String → String → Bool
unfolding has
mentions tokens text = any (λ token. has token text) tokens

abbrev pub spec_tokens : List String
spec_tokens =
    "spec.md" ∷ "spec " ∷ "spec/" ∷ "acceptance criteria" ∷ "acceptance criterion" ∷ "acceptance 기준"
    ∷ "수용기준" ∷ []

abbrev pub sync_tokens : List String
sync_tokens =
    "current_sprint" ∷ "todo_backlog" ∷ "iteration_log" ∷ "planner-owned" ∷ "planning doc"
    ∷ "planning 문서" ∷ "sync" ∷ "동기화" ∷ []

abbrev evidence_tokens : List String
evidence_tokens =
    "missing evidence" ∷ "evidence missing" ∷ "not_checked" ∷ "not checked" ∷ "live test missing"
    ∷ "live-test missing" ∷ "test not run" ∷ "tests not run" ∷ "테스트를 실행하지" ∷ "검증 근거 부족" ∷ "근거가 부족"
    ∷ []

-- QA reports from its own step.
abbrev pub at_qa : WorkflowState → String → Bool
at_qa s role = is_qa_validation s.step && role == "qa"

unfoldable pub qa_result_requires_planner_reopen :
    WorkflowState → String → RoleResult → Transition → Bool
unfolding combined_text has normalized mentions
qa_result_requires_planner_reopen s role result t =
    at_qa s role
    && (is_reopen t.outcome
        || is_failed_status (normalized result.status)
        || not (is_empty (strip result.error)))
    && not (is_finalize t.target_step)
    && not (is_scope t.reopen_category)
    && mentions spec_tokens (combined_text result t)

unfoldable pub qa_result_is_runtime_sync_anomaly :
    WorkflowState → String → RoleResult → Transition → Bool
qa_result_is_runtime_sync_anomaly s role result t =
    at_qa s role
    && mentions sync_tokens (combined_text result t)
    && not (qa_result_requires_planner_reopen s role result t)

-- `proposals["qa_validation"]["decision"]`
abbrev qa_decision : RoleResult → String
qa_decision result = tag (get (fields_of (get result.proposals "qa_validation")) "decision")

unfoldable pub qa_result_requires_evidence_recovery :
    WorkflowState → String → RoleResult → Transition → Bool
unfolding tag get
qa_result_requires_evidence_recovery s role result t =
    at_qa s role
    && not (qa_result_requires_planner_reopen s role result t)
    && mentions evidence_tokens (combined_text result t)
    && (is_unfinished t.outcome
        || is_failed_status (normalized result.status)
        || qa_decision result == "blocked"
        || qa_decision result == "fail")

abbrev pub sync_summary : String
sync_summary =
    "QA 검증은 구현/테스트 기준으로 통과했고 planner-owned 상태 문서 drift는 runtime이 canonical request/todo state로 다시 동기화합니다."

unfoldable pub qa_runtime_sync_result : RoleResult → RoleResult
unfolding put
qa_runtime_sync_result result = record result {
  proposals =
      put result.proposals "workflow_transition"
        (transition_value "complete" "" "" "" sync_summary []);
  status = "completed";
  summary = sync_summary;
  error = "";
}

-- `for required in (...): if required not in items: items.append(required)`
abbrev with_required : List String → List String → List String
with_required items [] = items
with_required items (r ∷ required) =
    with_required (if member r items then items else items ++ r ∷ []) required

abbrev reason_or : Transition → String → String
reason_or t default = if is_empty (strip t.reason) then default else strip t.reason

unfoldable pub qa_planner_reopen_result : RoleResult → Transition → RoleResult
unfolding put strip normalized
qa_planner_reopen_result result t = record result {
  proposals = put result.proposals "workflow_transition" (
      transition_value "reopen" "planning" "planner_finalize" "scope"
        (reason_or t "QA가 spec/todo planning contract mismatch를 확인해 planner 재정렬이 필요합니다.")
        (with_required (stripped t.unresolved_items) (
          "spec.md 기준 요구사항/공통 정책을 다시 정렬할 것"
          ∷ "todo_backlog.md와 iteration_log.md에 QA 검증 실패 원인을 planner 관점으로 반영할 것" ∷ [])));
  status = if is_failed_status (normalized result.status) then result.status else "completed";
}

unfoldable pub qa_evidence_recovery_result : RoleResult → Transition → RoleResult
unfolding put strip
qa_evidence_recovery_result result t = record result {
  proposals = put result.proposals "workflow_transition" (
      transition_value "reopen" "implementation" "developer_revision" "verification"
        (reason_or t
          "QA가 original requirement evidence/live-test gap을 확인해 verification recovery가 필요합니다.")
        (with_required (stripped t.unresolved_items) (
          "missing evidence/live-test gap을 developer 또는 QA recovery evidence로 닫을 것"
          ∷ "수행하지 못한 테스트나 확인하지 못한 artifact는 실행 또는 직접 관찰 후 다시 QA에 제출할 것" ∷ [])));
  status = "completed";
  error = "";
}
