-- ===== src/Contract/Routing.antt =====
-- Where a report goes after the contract: the enforced result, read again as a transition and
-- routed from the state of the request.
use sprint_runtime.Prelude.{refl, or_else, ◌==◌, ap, ◌≡◌, ◌⊎◌, String, Bool, false, some, arith}
use sprint_runtime.Python.{Value, Fields, dict, put}
use sprint_runtime.Python.Laws.{get-put_self}
use sprint_runtime.Workflow.{
  planner_draft, planner_finalize, scope, verification, reopen, complete, WorkflowState, Transition,
}
use sprint_runtime.Prelude.Text.{normalized}
use sprint_runtime.Contract.Quality.{
  qa_runtime_sync_result, qa_planner_reopen_result, qa_evidence_recovery_result,
}
use sprint_runtime.Workflow.Requested.{workflow_transition, transition_of}
use sprint_runtime.Workflow.Decisions.{workflow_route_to_planner_finalize_decision}
use sprint_runtime.Workflow.Derive.{derive_workflow_routing_decision, text_or}
use sprint_runtime.Contract.{RoleResult}
use sprint_runtime.Contract.Enforce.{Checks, enforce_workflow_role_report_contract, meets_contract}
use sprint_runtime.Contract.Documents.{no_documents, planner_contract_reopen_result, DocContract}

-- The transition that a report asks for.
abbrev pub asked : RoleResult → Transition
asked result = workflow_transition (dict result.proposals)

workflow_transition-put :
    (proposals : Fields) (v : Value)
    → workflow_transition (dict (put proposals "workflow_transition" v)) ≡ transition_of v
unfolding workflow_transition
workflow_transition-put proposals v =
    ap transition_of (get-put_self proposals "workflow_transition" v)

planner_contract-asked :
    (result : RoleResult) (c : DocContract)
    → let t = asked (planner_contract_reopen_result result c) in
      (t.outcome ≡ reopen) × (t.target_step ≡ some planner_finalize) × (t.reopen_category ≡ scope)
unfolding planner_contract_reopen_result transition_of
planner_contract-asked result c = rw workflow_transition-put (refl, refl, refl)

pub qa_runtime_sync-asked :
    (result : RoleResult) → (asked (qa_runtime_sync_result result)).outcome ≡ complete
unfolding qa_runtime_sync_result transition_of
qa_runtime_sync-asked result = rw workflow_transition-put refl

pub qa_planner_reopen-asked :
    (result : RoleResult) (u : Transition)
    → let t = asked (qa_planner_reopen_result result u) in
      (t.outcome ≡ reopen) × (t.reopen_category ≡ scope)
unfolding qa_planner_reopen_result transition_of
qa_planner_reopen-asked result u = rw workflow_transition-put (refl, refl)

pub qa_evidence_recovery-asked :
    (result : RoleResult) (u : Transition)
    → let t = asked (qa_evidence_recovery_result result u) in
      (t.outcome ≡ reopen) × (t.reopen_category ≡ verification)
unfolding qa_evidence_recovery_result transition_of
qa_evidence_recovery-asked result u = rw workflow_transition-put (refl, refl)

finalize_of_scope :
    (s : WorkflowState) (t : Transition) (reason : String) (close : Bool)
    → (s.step ≡ planner_draft) ⊎ (s.step ≡ planner_finalize)
    → (t.outcome ≡ reopen) × (t.target_step ≡ some planner_finalize) × (t.reopen_category ≡ scope)
    → derive_workflow_routing_decision (some s) t "planner" reason close
      ≡ some (
          workflow_route_to_planner_finalize_decision
            (some s)
            (text_or reason "planner가 planning 문서/contract를 다시 정리합니다.")
            scope)
unfolding derive_workflow_routing_decision
finalize_of_scope s t reason close step h = ground arith

-- A planner's report from a planner's step that does not meet the document contract leads back to
-- the planner's finalization, with the category `scope`, whatever transition it asked for; unless
-- the payload itself was invalid.
pub unmet_contract-finalizes :
    (s : WorkflowState) (result : RoleResult) (checks : Checks) (t : Transition) (reason : String)
    (close : Bool)
    → (s.step ≡ planner_draft) ⊎ (s.step ≡ planner_finalize)
    → (normalized result.contract_status == "invalid") ≡ false
    → meets_contract (or_else checks.documents no_documents) ≡ false
    → derive_workflow_routing_decision
        (some s)
        (asked (enforce_workflow_role_report_contract (some s) "planner" result checks t))
        "planner"
        reason
        close
      ≡ some (
          workflow_route_to_planner_finalize_decision
            (some s)
            (text_or reason "planner가 planning 문서/contract를 다시 정리합니다.")
            scope)
unfolding enforce_workflow_role_report_contract normalized
unmet_contract-finalizes s result checks t reason close step valid unmet =
    rw (valid, unmet)
      (finalize_of_scope s _ reason close step
        (planner_contract-asked result (or_else checks.documents no_documents)))
