-- ===== src/Tests.antt =====
-- Concrete states, reports and runs on which the theorems are applied.
mod Goals
mod Backlog
mod Sprints
mod Recoveries
mod Results
mod Runs
mod Contracts
mod Selections
use sprint_runtime.Prelude.{String, none, [], false}
use sprint_runtime.Workflow.{
  architect_review, qa_validation, implementation, validation, active, architect, qa, unset,
  Outcome, complete, Transition, WorkflowState, default_workflow_state,
}

abbrev pub review_state : WorkflowState
review_state = record default_workflow_state {
  phase = implementation;
  step = architect_review;
  phase_owner = architect;
  phase_status = active;
  review_cycle_count = 1;
}

abbrev pub qa_state : WorkflowState
qa_state = record review_state { phase = validation; step = qa_validation; phase_owner = qa }

abbrev pub asks : Outcome → Transition
asks outcome = record {
  outcome = outcome;
  target_phase = none;
  target_step = none;
  reopen_category = unset;
  reason = "";
  unresolved_items = [];
  finalize_phase = false;
}
