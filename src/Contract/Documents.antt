-- ===== src/Contract/Documents.antt =====
-- The planner's document contract: what has to be reported, what is missing, and the result that
-- sends the planner back.
use sprint_runtime.Prelude.{
  String, ◌==◌, ◌<>◌, Bool, not, ◌&&◌, List, [], ◌∷◌, ◌++◌, map, if◌then◌else◌, true, false,
}
use sprint_runtime.Prelude.Text.{is_empty, strip, has}
use sprint_runtime.Prelude.Lists.{keep, member, is_nil}
use sprint_runtime.Python.{Value, str, false_value, list, dict, end, field, put, of_list}
use sprint_runtime.Workflow.{Phase, planning, WorkflowState}
use sprint_runtime.Contract.{RoleResult}
use sprint_runtime.Contract.Artifacts.{
  normalize_artifact_hint, path_name, is_planning_surface_artifact_hint,
  is_planner_owned_surface_artifact_hint,
}

-- WORKFLOW_QA_REOPEN_REQUIRED_DOC_NAMES
abbrev qa_reopen_required_doc_names : List String
qa_reopen_required_doc_names =
    "spec.md" ∷ "todo_backlog.md" ∷ "iteration_log.md" ∷ "current_sprint.md" ∷ []

-- `append_required`
unfoldable pub append_required : List String → String → List String
unfolding normalize_artifact_hint
append_required required hint =
    let normalized_hint = normalize_artifact_hint hint in
    if not (is_empty normalized_hint) && not (member normalized_hint required)
    then required ++ normalized_hint ∷ []
    else required

unfoldable pub append_all : List String → List String → List String
unfolding append_required
append_all required [] = required
append_all required (hint ∷ hints) = append_all (append_required required hint) hints

-- `next((a for a in artifacts if PurePosixPath(a).name == name), "")`
first_named : String → List String → String
first_named name [] = ""
first_named name (a ∷ artifacts) = if path_name a == name then a else first_named name artifacts

unfoldable pub surface_hints : List String → List String
unfolding is_planning_surface_artifact_hint normalize_artifact_hint
surface_hints items = map normalize_artifact_hint (keep is_planning_surface_artifact_hint items)

-- The source role of a state is already in normal form.
unfoldable pub required_workflow_planner_doc_hints :
    String → List String → List String → List String
unfolding append_all first_named path_name surface_hints
required_workflow_planner_doc_hints reopen_source_role request_artifacts sprint_artifact_hints =
    if reopen_source_role == "qa"
    then append_all
        (append_all [] (
          map (λ name. first_named name (surface_hints request_artifacts))
            qa_reopen_required_doc_names))
        sprint_artifact_hints
    else []

-- The three lists of `workflow_planner_doc_contract_violation`.
pub record DocContract : Type 0 where
  pub planner_owned : List String
  pub missing_required : List String
  pub missing_files : List String

abbrev pub no_documents : DocContract
no_documents = record { planner_owned = []; missing_required = []; missing_files = [] }

abbrev pub is_planning : Phase → Bool
is_planning planning = true
is_planning _ = false

-- `exists` is the file system's answer for a path.
unfoldable pub workflow_planner_doc_contract_violation :
    (String → Bool) → WorkflowState → String → List String → List String → DocContract
unfolding surface_hints is_planner_owned_surface_artifact_hint
workflow_planner_doc_contract_violation exists s role result_artifacts required_hints =
    let owned = keep is_planner_owned_surface_artifact_hint (surface_hints result_artifacts) in
    if is_planning s.phase && role == "planner"
    then record {
      planner_owned = owned;
      missing_required = keep (λ a. not (member a owned)) required_hints;
      missing_files = keep (λ a. not (exists a)) owned;
    }
    else no_documents

-- A value of `proposals["workflow_transition"]`.
abbrev pub transition_value : String → String → String → String → String → List String → Value
transition_value outcome phase step category reason unresolved = dict (
    field "outcome" (str outcome) (
      field "target_phase" (str phase) (
        field "target_step" (str step) (
          field "reopen_category" (str category) (
            field "reason" (str reason) (
              field "unresolved_items" (list (of_list unresolved))
                (field "finalize_phase" false_value end)))))))

unresolved_documents : DocContract → List String
unresolved_documents c =
    (if is_nil c.planner_owned
      then "planner는 planning 완료 전에 spec/current_sprint/todo_backlog 등 planner-owned 문서 경로를 artifacts에 남길 것"
        ∷ []
      else [])
    ++ (map (λ a. "QA reopen으로 요구된 planning 문서 누락: " <> a) c.missing_required
        ++ map (λ a. "artifact로 보고한 planner 문서가 실제 파일로 확인되지 않음: " <> a) c.missing_files)

abbrev pub contract_reason : String
contract_reason = "planner는 관련 spec/todo/current_sprint 문서를 실제로 갱신한 근거 없이 planning 완료를 보고할 수 없습니다."

abbrev contract_error : String
contract_error = "planner 문서 갱신 근거가 부족합니다."

unfoldable pub planner_contract_reopen_result : RoleResult → DocContract → RoleResult
unfolding unresolved_documents put strip has
planner_contract_reopen_result result contract =
    let existing_error = strip result.error in
    record result {
      proposals = put result.proposals "workflow_transition" (
          transition_value "reopen" "planning" "planner_finalize" "scope" contract_reason
            (unresolved_documents contract));
      status = "blocked";
      summary =
          "planner 문서 계약이 닫히지 않았습니다. spec/todo/current_sprint 문서를 실제로 갱신하고 artifact로 남긴 뒤 다시 planner finalize를 수행해야 합니다.";
      error =
          if not (is_empty existing_error) && not (has contract_error existing_error)
          then existing_error <> "; " <> contract_error
          else if is_empty existing_error
          then contract_error
          else existing_error;
    }
