-- ===== src/Workflow/Routes.antt =====
-- The state updates of the engine, `workflow_route_to_..._state` and their neighbours. A state is
-- `none` where the source is given an empty dictionary. A category of the model is always a member
-- of WORKFLOW_REOPEN_CATEGORIES, the empty one included, so it is always written.
use sprint_runtime.Prelude.{ℕ, zero, suc, ◌+◌, String, Bool, Option, or_else, leb}
use sprint_runtime.Workflow.{
  planning, implementation, validation, closeout_phase, Step, research_initial, planner_draft,
  planner_advisory, planner_finalize, architect_guidance, architect_review, qa_validation, closeout,
  active, finalizing, blocked, completed, Role, research, planner, architect, developer, qa,
  version_controller, Category, WorkflowState, research_first_workflow_state,
  planning_advisory_step_for_role, or_default,
}

-- `max(1, int(limit or DEFAULT_WORKFLOW_REVIEW_CYCLE_LIMIT))`
abbrev pub cycle_limit : ℕ → ℕ
cycle_limit zero = 20
cycle_limit (suc n) = suc n

unfoldable pub workflow_review_cycle_limit_reached : Option WorkflowState → Bool
workflow_review_cycle_limit_reached s =
    leb (cycle_limit (or_default s).review_cycle_limit) (or_default s).review_cycle_count

unfoldable pub workflow_terminal_block_state : Option WorkflowState → Category → WorkflowState
workflow_terminal_block_state s category = record (or_default s) {
  phase_status = blocked;
  reopen_category = category;
}

unfoldable pub workflow_route_to_research_initial_state : Option WorkflowState → WorkflowState
workflow_route_to_research_initial_state s = record (or_else s research_first_workflow_state) {
  phase = planning;
  step = research_initial;
  phase_owner = research;
  phase_status = active;
}

unfoldable pub workflow_route_to_planner_draft_state :
    Option WorkflowState → Category → WorkflowState
workflow_route_to_planner_draft_state s category = record (or_default s) {
  phase = planning;
  step = planner_draft;
  phase_owner = planner;
  phase_status = active;
  reopen_category = category;
}

unfoldable pub workflow_route_to_planner_finalize_state :
    Option WorkflowState → Category → WorkflowState
workflow_route_to_planner_finalize_state s category = record (or_default s) {
  phase = planning;
  step = planner_finalize;
  phase_owner = planner;
  phase_status = finalizing;
  reopen_category = category;
}

unfoldable pub workflow_route_to_planning_advisory_state :
    Option WorkflowState → Role → Category → WorkflowState
workflow_route_to_planning_advisory_state s role category = record (or_default s) {
  phase = planning;
  step = or_else (planning_advisory_step_for_role role) planner_advisory;
  phase_owner = role;
  phase_status = active;
  planning_pass_count = (or_default s).planning_pass_count + 1;
  reopen_category = category;
}

unfoldable pub workflow_route_to_architect_guidance_state :
    Option WorkflowState → Category → WorkflowState
workflow_route_to_architect_guidance_state s category = record (or_default s) {
  phase = implementation;
  step = architect_guidance;
  phase_owner = architect;
  phase_status = active;
  reopen_category = category;
}

unfoldable pub workflow_route_to_developer_build_state :
    Option WorkflowState → Step → Category → WorkflowState
workflow_route_to_developer_build_state s step category = record (or_default s) {
  phase = implementation;
  step = step;
  phase_owner = developer;
  phase_status = active;
  reopen_category = category;
}

unfoldable pub workflow_route_to_architect_review_state :
    Option WorkflowState → Category → WorkflowState
workflow_route_to_architect_review_state s category = record (or_default s) {
  phase = implementation;
  step = architect_review;
  phase_owner = architect;
  phase_status = active;
  review_cycle_count = (or_default s).review_cycle_count + 1;
  reopen_category = category;
}

unfoldable pub workflow_route_to_qa_state : Option WorkflowState → WorkflowState
workflow_route_to_qa_state s = record (or_default s) {
  phase = validation;
  step = qa_validation;
  phase_owner = qa;
  phase_status = active;
}

unfoldable pub workflow_complete_state : Option WorkflowState → WorkflowState
workflow_complete_state s = record (or_default s) {
  phase = closeout_phase;
  step = closeout;
  phase_owner = version_controller;
  phase_status = completed;
}

unfoldable pub workflow_mark_reopen_state : Option WorkflowState → String → Category → WorkflowState
workflow_mark_reopen_state s current_role category = record (or_default s) {
  reopen_source_role = current_role;
  reopen_category = category;
}
