-- ===== src/Workflow.antt =====
-- workflows/orchestration/engine.py: the workflow state of a request. The members of the source's
-- sets of names (WORKFLOW_PHASES, WORKFLOW_STEPS, ...) are data types; `Workflow.Names` spells them.
pub mod Names
pub mod Normalize
pub mod Requested
pub mod Legacy
pub mod Events
pub mod Request
pub mod Routes
pub mod Decisions
pub mod Derive
pub mod WellFormed
pub mod Inferred
pub mod Runs
pub mod RoundTrip
use sprint_runtime.Prelude.{ℕ, String, Bool, true, false, Option, none, some, List}
use sprint_runtime.Python.{ℤ, pos}

pub data Phase : Type 0 where
  planning implementation validation closeout_phase : Phase

pub data Step : Type 0 where
  research_initial planner_draft planner_advisory designer_advisory architect_advisory : Step
  planner_finalize architect_guidance developer_build architect_review developer_revision : Step
  qa_validation closeout : Step

pub data PhaseStatus : Type 0 where
  active finalizing blocked completed : PhaseStatus

-- TEAM_ROLES of shared/models.py, and the version controller, who owns the closeout.
pub data Role : Type 0 where
  orchestrator research planner designer architect developer qa version_controller : Role

-- WORKFLOW_REOPEN_CATEGORIES; `unset` is the empty text.
pub data Category : Type 0 where
  unset scope ux architecture implementation_category verification : Category

-- The outcomes that `workflow_transition` lets through; `no_outcome` is the empty text.
pub data Outcome : Type 0 where
  no_outcome continue advance reopen block complete : Outcome

pub record WorkflowState : Type 0 where
  pub contract_version : ℤ
  pub phase : Phase
  pub step : Step
  pub phase_owner : Role
  pub phase_status : PhaseStatus
  pub planning_pass_count : ℕ
  pub planning_pass_limit : ℕ
  pub planning_final_owner : Role
  pub reopen_source_role : String
  pub reopen_category : Category
  pub review_cycle_count : ℕ
  pub review_cycle_limit : ℕ

abbrev pub default_workflow_state : WorkflowState
default_workflow_state = record {
  contract_version = pos 1;
  phase = planning;
  step = planner_draft;
  phase_owner = planner;
  phase_status = active;
  planning_pass_count = 0;
  planning_pass_limit = 2;
  planning_final_owner = planner;
  reopen_source_role = "";
  reopen_category = unset;
  review_cycle_count = 0;
  review_cycle_limit = 20;
}

abbrev pub research_first_workflow_state : WorkflowState
research_first_workflow_state = record default_workflow_state {
  step = research_initial;
  phase_owner = research;
}

-- What `workflow_transition` returns. An empty `target_phase` or `target_step` is `none`.
pub record Transition : Type 0 where
  pub outcome : Outcome
  pub target_phase : Option Phase
  pub target_step : Option Step
  pub reopen_category : Category
  pub reason : String
  pub unresolved_items : List String
  pub finalize_phase : Bool

-- PLANNING_ADVISORY_ROLE_TO_STEP, and its inverse.
abbrev pub planning_advisory_step_for_role : Role → Option Step
planning_advisory_step_for_role designer = some designer_advisory
planning_advisory_step_for_role architect = some architect_advisory
planning_advisory_step_for_role _ = none

abbrev pub is_advisory_role : Role → Bool
is_advisory_role designer = true
is_advisory_role architect = true
is_advisory_role _ = false

-- `owner` is none where the source passes no `phase_owner`.
abbrev pub planning_advisory_role_for_step : Step → Option Role → Option Role
planning_advisory_role_for_step planner_advisory none = none
planning_advisory_role_for_step planner_advisory (some designer) = some designer
planning_advisory_role_for_step planner_advisory (some architect) = some architect
planning_advisory_role_for_step planner_advisory (some _) = none
planning_advisory_role_for_step designer_advisory _ = some designer
planning_advisory_role_for_step architect_advisory _ = some architect
planning_advisory_role_for_step _ _ = none

abbrev pub or_default : Option WorkflowState → WorkflowState
or_default none = default_workflow_state
or_default (some s) = s
