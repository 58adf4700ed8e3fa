-- ===== src/Tests/Contracts.antt =====
-- Reports under the contract.
use sprint_runtime.Prelude.Text.{strip}
use sprint_runtime.Contract.Artifacts.{is_owned_path}
use sprint_runtime.Prelude.Text.{normalized}
use sprint_runtime.Workflow.{planning}
use sprint_runtime.Prelude.Lists.{is_nil}
use sprint_runtime.Contract.Documents.{
  workflow_planner_doc_contract_violation, required_workflow_planner_doc_hints,
}
use sprint_runtime.Contract.Required.{contract_of, required_in, met_contract-documents}
use sprint_runtime.Prelude.{Bool, List, ◌∷◌, ◌≡◌, refl, inl, String, true, false, none, some, []}
use sprint_runtime.Prelude.Lists.{all}
use sprint_runtime.Python.{end}
use sprint_runtime.Workflow.{continue, reopen, scope, default_workflow_state}
use sprint_runtime.Workflow.Decisions.{
  workflow_complete_decision, workflow_reopen_decision, workflow_route_to_planner_finalize_decision,
}
use sprint_runtime.Workflow.Derive.{derive_workflow_routing_decision, text_or}
use sprint_runtime.Contract.{RoleResult}
use sprint_runtime.Contract.Quality.{qa_result_requires_planner_reopen, mentions}
use sprint_runtime.Contract.Enforce.{
  Checks, enforce_workflow_role_report_contract, sanitize_implementation_result,
}
use sprint_runtime.Contract.Routing.{asked, unmet_contract-finalizes}
use sprint_runtime.Contract.Verdicts.{
  qa_checks, qa_decision, qa_decision_by_checks, sync_word-completes,
}
use sprint_runtime.Contract.Sanitize.{not_owned, sanitize_removes}
use sprint_runtime.Tests.{review_state, qa_state, asks, WorkflowState}

abbrev report : String → String → RoleResult
report status summary = record {
  status = status;
  summary = summary;
  error = "";
  insights = [];
  artifacts = [];
  proposals = end;
  contract_status = "";
}

abbrev no_checks : Checks
no_checks = record {
  documents = none;
  requires_planner_reopen = false;
  requires_evidence_recovery = false;
  runtime_sync_anomaly = false;
}

unmet_contract-finalizes_example :
    derive_workflow_routing_decision
      (some default_workflow_state)
      (asked (
        enforce_workflow_role_report_contract
          (some default_workflow_state)
          "planner"
          (report "completed" "")
          no_checks
          (asks continue)))
      "planner"
      ""
      false
    ≡ some (
        workflow_route_to_planner_finalize_decision
          (some default_workflow_state)
          (text_or "" "planner가 planning 문서/contract를 다시 정리합니다.")
          scope)
unfolding normalized
unmet_contract-finalizes_example =
    unmet_contract-finalizes default_workflow_state (report "completed" "") no_checks
      (asks continue) "" false (inl refl) refl refl

qa_decision_by_checks_example :
    qa_decision qa_state
      (report "failed" "")
      (record no_checks { requires_planner_reopen = true })
      (asks reopen)
      ""
      false
    ≡ some (workflow_reopen_decision (some qa_state) "qa" scope "")
unfolding normalized
qa_decision_by_checks_example =
    qa_decision_by_checks qa_state (report "failed" "") (asks reopen) "" false refl refl
      (record no_checks { requires_planner_reopen = true })

abbrev spec_report : RoleResult
spec_report = report "failed" "spec mismatch"

-- A failing test of asynchronous code: its text holds the word `sync`.
abbrev async_report : RoleResult
async_report = report "failed" "async test crashed"

sync_word-completes_example :
    qa_decision qa_state async_report
      (qa_checks qa_state async_report (asks reopen))
      (asks reopen)
      ""
      false
    ≡ some (workflow_complete_decision (some qa_state) (text_or "" "QA 검증을 마쳐 closeout으로 진행합니다."))
unfolding qa_result_requires_planner_reopen mentions normalized
sync_word-completes_example =
    sync_word-completes qa_state async_report (asks reopen) "" false refl refl refl refl

abbrev mixed_report : RoleResult
mixed_report = record (report "completed" "") {
  artifacts = "src/app.py" ∷ "shared_workspace/current_sprint.md" ∷ [];
}

sanitize_removes_example :
    (all not_owned
        (sanitize_implementation_result (some review_state) "architect" mixed_report).artifacts
      ≡ true)
    × (sanitize_implementation_result
          (some review_state)
          "architect"
          (sanitize_implementation_result (some review_state) "architect" mixed_report)
        ≡ sanitize_implementation_result (some review_state) "architect" mixed_report)
sanitize_removes_example = sanitize_removes review_state "architect" mixed_report refl refl

abbrev reopened_state : WorkflowState
reopened_state = record default_workflow_state { reopen_source_role = "qa" }

abbrev planner_name : String
planner_name = "planner"

abbrev on_disk : String → Bool
on_disk path = true

abbrev document : List String
document = "shared_workspace/current_sprint.md" ∷ []

met_contract-documents_example :
    let owned =
      (contract_of on_disk reopened_state planner_name document [] document).planner_owned in
    (reopened_state.phase ≡ planning)
    × (planner_name ≡ "planner")
    × (is_nil owned ≡ false)
    × (all on_disk owned ≡ true)
    × (all (required_in owned) document ≡ true)
unfolding workflow_planner_doc_contract_violation required_workflow_planner_doc_hints strip
    is_owned_path
met_contract-documents_example =
    met_contract-documents on_disk reopened_state planner_name document [] document refl refl
