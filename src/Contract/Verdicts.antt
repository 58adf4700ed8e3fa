-- ===== src/Contract/Verdicts.antt =====
-- Where QA's reports go after the contract.
use sprint_runtime.Prelude.{
  refl, ◌∙◌, ◌==◌, ◌≡◌, String, Bool, true, false, Option, none, some, arith, Bool-cases, inl, inr,
  if◌then◌else◌,
}
use sprint_runtime.Prelude.Text.{normalized}
use sprint_runtime.Workflow.{
  qa_validation, Category, scope, verification, reopen, complete, WorkflowState, Transition,
}
use sprint_runtime.Workflow.Decisions.{
  Decision, workflow_reopen_decision, workflow_complete_decision,
}
use sprint_runtime.Workflow.Derive.{derive_workflow_routing_decision, text_or}
use sprint_runtime.Contract.{RoleResult}
use sprint_runtime.Contract.Quality.{
  qa_result_requires_planner_reopen, qa_result_is_runtime_sync_anomaly,
  qa_result_requires_evidence_recovery, mentions, sync_tokens, combined_text,
}
use sprint_runtime.Contract.Enforce.{
  Checks, enforce_workflow_role_report_contract, sanitize_implementation_result,
}
use sprint_runtime.Contract.Routing.{
  asked, qa_runtime_sync-asked, qa_planner_reopen-asked, qa_evidence_recovery-asked,
}

-- The checks that `_enforce_workflow_role_report_contract` of the team service makes for a report
-- of QA.
abbrev pub qa_checks : WorkflowState → RoleResult → Transition → Checks
qa_checks s result t = record {
  documents = none;
  requires_planner_reopen = qa_result_requires_planner_reopen s "qa" result t;
  requires_evidence_recovery = qa_result_requires_evidence_recovery s "qa" result t;
  runtime_sync_anomaly = qa_result_is_runtime_sync_anomaly s "qa" result t;
}

-- The report after the contract, and the decision on it.
abbrev pub qa_decision :
    WorkflowState → RoleResult → Checks → Transition → String → Bool → Option Decision
qa_decision s result checks t reason close =
    derive_workflow_routing_decision (some s)
      (asked (enforce_workflow_role_report_contract (some s) "qa" result checks t)) "qa" reason
      close

qa_reopens :
    (s : WorkflowState) (t : Transition) (reason : String) (close : Bool) (c : Category)
    → s.step ≡ qa_validation
    → t.outcome ≡ reopen
    → t.reopen_category ≡ c
    → derive_workflow_routing_decision (some s) t "qa" reason close
      ≡ some (workflow_reopen_decision (some s) "qa" c reason)
unfolding derive_workflow_routing_decision
qa_reopens s t reason close c e o k = ground arith

qa_completes :
    (s : WorkflowState) (t : Transition) (reason : String) (close : Bool)
    → s.step ≡ qa_validation
    → t.outcome ≡ complete
    → derive_workflow_routing_decision (some s) t "qa" reason close
      ≡ some (workflow_complete_decision (some s) (text_or reason "QA 검증을 마쳐 closeout으로 진행합니다."))
unfolding derive_workflow_routing_decision
qa_completes s t reason close e o = ground arith

module _ (s : WorkflowState) (result : RoleResult) (t : Transition) (reason : String) (close : Bool)
    (at_qa : s.step ≡ qa_validation)
    (valid : (normalized result.contract_status == "invalid") ≡ false) where
  -- A valid report of QA at its step, by the checks made on it: a runtime sync anomaly completes
  -- the request; else a needed planner reopen goes to the reopen for `scope`; else a needed
  -- evidence recovery to the reopen for `verification`; else its own transition is routed.
  pub qa_decision_by_checks :
      (checks : Checks)
      → qa_decision s result checks t reason close ≡ (
          if checks.runtime_sync_anomaly
          then some
              (workflow_complete_decision (some s) (text_or reason "QA 검증을 마쳐 closeout으로 진행합니다."))
          else if checks.requires_planner_reopen
          then some (workflow_reopen_decision (some s) "qa" scope reason)
          else if checks.requires_evidence_recovery
          then some (workflow_reopen_decision (some s) "qa" verification reason)
          else derive_workflow_routing_decision (some s) (asked result) "qa" reason close)
  unfolding enforce_workflow_role_report_contract sanitize_implementation_result normalized
  qa_decision_by_checks checks = rw valid (elim (Bool-cases checks.runtime_sync_anomaly) [
    | inl sync ↦ rw sync (qa_completes s _ reason close at_qa (qa_runtime_sync-asked result))
    | inr no_sync ↦ rw no_sync (elim (Bool-cases checks.requires_planner_reopen) [
      | inl back ↦
          let (o, c) = qa_planner_reopen-asked result t in
          rw back (qa_reopens s _ reason close scope at_qa o c)
      | inr no_back ↦ rw no_back (elim (Bool-cases checks.requires_evidence_recovery) [
        | inl gap ↦
            let (o, c) = qa_evidence_recovery-asked result t in
            rw gap (qa_reopens s _ reason close verification at_qa o c)
        | inr no_gap ↦ rw no_gap refl
      ])
    ])
  ])

-- QA's checks exclude one another where a planner reopen is needed: it is neither a runtime sync
-- anomaly nor an evidence recovery.
planner_reopen-excludes :
    (s : WorkflowState) (result : RoleResult) (t : Transition)
    → qa_result_requires_planner_reopen s "qa" result t ≡ true
    → (qa_result_is_runtime_sync_anomaly s "qa" result t ≡ false)
      × (qa_result_requires_evidence_recovery s "qa" result t ≡ false)
unfolding qa_result_is_runtime_sync_anomaly qa_result_requires_evidence_recovery
planner_reopen-excludes s result t h = ground arith

sync_word :
    (s : WorkflowState) (result : RoleResult) (t : Transition)
    → s.step ≡ qa_validation
    → qa_result_requires_planner_reopen s "qa" result t ≡ false
    → mentions sync_tokens (combined_text result t) ≡ true
    → qa_result_is_runtime_sync_anomaly s "qa" result t ≡ true
unfolding qa_result_is_runtime_sync_anomaly
sync_word s result t at_qa no_back word = ground arith

-- A valid report of QA at its step that needs no planner reopen, and whose texts hold one of the
-- sync words anywhere, completes the request, whatever its status, its error and its transition.
pub sync_word-completes :
    (s : WorkflowState) (result : RoleResult) (t : Transition) (reason : String) (close : Bool)
    → s.step ≡ qa_validation
    → (normalized result.contract_status == "invalid") ≡ false
    → qa_result_requires_planner_reopen s "qa" result t ≡ false
    → mentions sync_tokens (combined_text result t) ≡ true
    → qa_decision s result (qa_checks s result t) t reason close
      ≡ some (workflow_complete_decision (some s) (text_or reason "QA 검증을 마쳐 closeout으로 진행합니다."))
sync_word-completes s result t reason close at_qa valid no_back word =
    qa_decision_by_checks s result t reason close at_qa valid (qa_checks s result t)
    ∙ rw (sync_word s result t at_qa no_back word) refl
