-- ===== src/Contract/Enforce.antt =====
-- `enforce_workflow_role_report_contract`, the removal of planning documents from implementation
-- reports, and `coerce_nonterminal_workflow_role_result`.
use sprint_runtime.Prelude.{
  String, ◌==◌, ◌<>◌, Bool, true, false, not, ◌&&◌, ◌||◌, Option, none, some, List, [], ◌∷◌, ◌++◌,
  map, or_else, if◌then◌else◌,
}
use sprint_runtime.Prelude.Text.{is_empty, strip, join, normalized}
use sprint_runtime.Prelude.Lists.{keep, member, is_nil, take}
use sprint_runtime.Workflow.{Phase, implementation, WorkflowState, Transition}
use sprint_runtime.Workflow.Requested.{requests_explicit_continuation}
use sprint_runtime.Workflow.Decisions.{Decision, routed}
use sprint_runtime.Contract.{RoleResult, stripped}
use sprint_runtime.Contract.Artifacts.{is_planner_owned_surface_artifact_hint}
use sprint_runtime.Contract.Documents.{DocContract, no_documents, planner_contract_reopen_result}
use sprint_runtime.Contract.Quality.{
  qa_runtime_sync_result, qa_planner_reopen_result, qa_evidence_recovery_result,
}

abbrev is_implementation : Phase → Bool
is_implementation implementation = true
is_implementation _ = false

-- The artifacts that stay in an implementation report.
unfoldable pub implementation_artifacts : List String → List String
implementation_artifacts artifacts = map strip (
    keep (λ a. not (is_empty (strip a)) && not (is_planner_owned_surface_artifact_hint a))
      artifacts)

abbrev pub planner_owned : List String → List String
planner_owned artifacts = map strip (keep is_planner_owned_surface_artifact_hint artifacts)

abbrev runtime_note : List String → String
runtime_note owned =
    "runtime이 implementation artifact에서 planner-owned 문서를 제외했습니다: " <> join ", " (take 3 owned)

abbrev with_note : List String → String → List String
with_note insights note = if member note insights then insights else insights ++ note ∷ []

unfoldable pub sanitize_implementation_result :
    Option WorkflowState → String → RoleResult → RoleResult
sanitize_implementation_result none role result = result
sanitize_implementation_result (some s) role result =
    let owned = planner_owned result.artifacts in
    if (role == "architect" || role == "developer")
      && is_implementation s.phase
      && not (is_nil owned)
    then record result {
      artifacts = implementation_artifacts result.artifacts;
      insights = with_note (stripped result.insights) (runtime_note owned);
    }
    else result

-- The flags that the callers compute for QA's reports, and the planner's document contract.
pub record Checks : Type 0 where
  pub documents : Option DocContract
  pub requires_planner_reopen : Bool
  pub requires_evidence_recovery : Bool
  pub runtime_sync_anomaly : Bool

abbrev pub meets_contract : DocContract → Bool
meets_contract c =
    not (is_nil c.planner_owned) && is_nil c.missing_required && is_nil c.missing_files

abbrev enforce_planner : RoleResult → DocContract → RoleResult
enforce_planner result c =
    if meets_contract c then result else planner_contract_reopen_result result c

-- `role` is the normalized role.
abbrev enforce_by_role : WorkflowState → String → RoleResult → Checks → Transition → RoleResult
enforce_by_role s role result checks t =
    if role == "planner"
    then enforce_planner result (or_else checks.documents no_documents)
    else if role == "qa" && checks.runtime_sync_anomaly
    then qa_runtime_sync_result result
    else if role == "qa" && checks.requires_planner_reopen
    then qa_planner_reopen_result result t
    else if role == "qa" && checks.requires_evidence_recovery
    then qa_evidence_recovery_result result t
    else sanitize_implementation_result (some s) role result

unfoldable pub enforce_workflow_role_report_contract :
    Option WorkflowState → String → RoleResult → Checks → Transition → RoleResult
enforce_workflow_role_report_contract none role result checks t = result
enforce_workflow_role_report_contract (some s) role result checks t =
    if normalized result.contract_status == "invalid"
    then result
    else enforce_by_role s (normalized role) result checks t

abbrev continues : Option Decision → Bool
continues (some (routed _)) = true
continues _ = false

-- A report that failed or has an error, and asks to go on where the workflow can, counts as done.
unfoldable pub coerce_nonterminal_workflow_role_result :
    RoleResult → Transition → Option Decision → RoleResult
unfolding strip normalized
coerce_nonterminal_workflow_role_result result t decision =
    let status = normalized result.status in
    let error_text = strip result.error in
    if (status == "failed" || status == "blocked" || not (is_empty error_text))
      && requests_explicit_continuation t
      && continues decision
    then record result {
      summary =
          if is_empty (strip result.summary) && not (is_empty error_text)
          then error_text
          else result.summary;
      status = "completed";
      error = "";
    }
    else result
