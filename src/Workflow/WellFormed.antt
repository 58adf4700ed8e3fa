-- ===== src/Workflow/WellFormed.antt =====
-- What holds of every workflow state that the engine makes: the step decides the phase and the
-- owner, and the advisory passes stay within their limit.
use sprint_runtime.Prelude.{◌≡◌, ◌≢◌, ◌≤◌, arith}
use sprint_runtime.Workflow.{
  Phase, planning, implementation, validation, closeout_phase, Step, research_initial,
  planner_advisory, designer_advisory, architect_advisory, architect_guidance, developer_build,
  architect_review, developer_revision, qa_validation, closeout, Role, research, planner, designer,
  architect, developer, qa, version_controller, WorkflowState, default_workflow_state,
  research_first_workflow_state,
}

abbrev pub phase_of : Step → Phase
phase_of architect_guidance = implementation
phase_of developer_build = implementation
phase_of architect_review = implementation
phase_of developer_revision = implementation
phase_of qa_validation = validation
phase_of closeout = closeout_phase
phase_of _ = planning

abbrev pub owner_of : Step → Role
owner_of research_initial = research
owner_of designer_advisory = designer
owner_of architect_advisory = architect
owner_of architect_guidance = architect
owner_of architect_review = architect
owner_of developer_build = developer
owner_of developer_revision = developer
owner_of qa_validation = qa
owner_of closeout = version_controller
owner_of _ = planner

pub record IsWellFormed (s : WorkflowState) : Type 0 where
  pub in_phase : s.phase ≡ phase_of s.step
  pub owned : s.phase_owner ≡ owner_of s.step
  pub named : s.step ≢ planner_advisory
  pub passes : s.planning_pass_count ≤ s.planning_pass_limit
  pub pass_room : 1 ≤ s.planning_pass_limit
  pub cycle_room : 1 ≤ s.review_cycle_limit

pub default-IsWellFormed : IsWellFormed default_workflow_state
default-IsWellFormed = ground arith

pub research_first-IsWellFormed : IsWellFormed research_first_workflow_state
research_first-IsWellFormed = ground arith
