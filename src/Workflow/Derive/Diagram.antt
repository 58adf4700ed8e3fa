-- ===== src/Workflow/Derive/Diagram.antt =====
-- The diagram of the workflow: the steps to which a report can move it, and what a decision keeps.
use sprint_runtime.Prelude.{ℕ, ◌+◌, ◌≡◌, String, ◌==◌, Bool, true, false, if◌then◌else◌}
use sprint_runtime.Workflow.{
  Step, research_initial, planner_draft, planner_advisory, designer_advisory, architect_advisory,
  planner_finalize, architect_guidance, developer_build, architect_review, developer_revision,
  qa_validation, closeout, blocked, completed, WorkflowState,
}
use sprint_runtime.Workflow.WellFormed.{IsWellFormed}
use sprint_runtime.Workflow.Decisions.{Decision, routed, terminal_block, completion}

-- An edge of the diagram, when a report comes from the owner of the step.
abbrev pub edge : Step → Step → Bool
edge research_initial planner_draft = true
edge planner_draft planner_finalize = true
edge planner_draft designer_advisory = true
edge planner_draft architect_advisory = true
edge planner_draft architect_guidance = true
edge planner_draft closeout = true
edge planner_finalize planner_finalize = true
edge planner_finalize designer_advisory = true
edge planner_finalize architect_advisory = true
edge planner_finalize architect_guidance = true
edge planner_finalize closeout = true
edge planner_advisory planner_finalize = true
edge designer_advisory planner_finalize = true
edge architect_advisory planner_finalize = true
edge architect_guidance developer_build = true
edge architect_guidance architect_guidance = true
edge architect_guidance designer_advisory = true
edge architect_guidance planner_finalize = true
edge developer_build architect_review = true
edge developer_build developer_build = true
edge developer_build architect_guidance = true
edge developer_build designer_advisory = true
edge developer_build planner_finalize = true
edge architect_review qa_validation = true
edge architect_review developer_revision = true
edge architect_review architect_guidance = true
edge architect_review designer_advisory = true
edge architect_review planner_finalize = true
edge developer_revision qa_validation = true
edge developer_revision architect_review = true
edge developer_revision developer_revision = true
edge developer_revision architect_guidance = true
edge developer_revision designer_advisory = true
edge developer_revision planner_finalize = true
edge qa_validation closeout = true
edge qa_validation architect_review = true
edge qa_validation developer_revision = true
edge qa_validation designer_advisory = true
edge qa_validation planner_finalize = true
edge _ _ = false

abbrev pub is_qa_step : Step → Bool
is_qa_step qa_validation = true
is_qa_step _ = false

abbrev pub is_advisory_step : Step → Bool
is_advisory_step designer_advisory = true
is_advisory_step architect_advisory = true
is_advisory_step _ = false

abbrev pub is_closeout : Step → Bool
is_closeout closeout = true
is_closeout _ = false

abbrev pub is_review : Step → Bool
is_review architect_review = true
is_review _ = false

-- A report is in the name of QA exactly at QA's own step.
abbrev pub Honest : Step → String → Type 0
Honest step role = (role == "qa") ≡ is_qa_step step

abbrev pub state_of : Decision → WorkflowState
state_of (routed r) = r.workflow_state
state_of (terminal_block s _) = s
state_of (completion s _) = s

abbrev pub is_block : Decision → Bool
is_block (terminal_block _ _) = true
is_block _ = false

-- Where a decision leads from `step`: a block stays there.
abbrev Leads : Step → Decision → Type 0
Leads step (routed r) =
    (edge step r.workflow_state.step ≡ true) × (is_closeout r.workflow_state.step ≡ false)
Leads step (terminal_block s _) = s.step ≡ step
Leads step (completion s _) = (edge step closeout ≡ true) × (s.step ≡ closeout)

-- Who acts on it: the owner of the new step, or nobody.
abbrev Acts : Decision → Type 0
Acts (routed r) = (r.next_role ≡ r.workflow_state.phase_owner) × (r.preferred_role ≡ r.next_role)
Acts (terminal_block s _) = s.phase_status ≡ blocked
Acts (completion s _) = s.phase_status ≡ completed

abbrev pub one_if : Bool → ℕ
one_if b = if b then 1 else 0

abbrev pub advisory_visit : Decision → ℕ
advisory_visit (routed r) = one_if (is_advisory_step r.workflow_state.step)
advisory_visit _ = 0

abbrev pub review_visit : Decision → ℕ
review_visit (routed r) = one_if (is_review r.workflow_state.step)
review_visit _ = 0

-- What every decision on a report at `s` guarantees.
pub record Follows (s : WorkflowState) (d : Decision) : Type 0 where
  pub well_formed : IsWellFormed (state_of d)
  pub leads : Leads s.step d
  pub acts : Acts d
  pub pass_count : (state_of d).planning_pass_count ≡ s.planning_pass_count + advisory_visit d
  pub pass_limit : (state_of d).planning_pass_limit ≡ s.planning_pass_limit
  pub cycle_count : (state_of d).review_cycle_count ≡ s.review_cycle_count + review_visit d
  pub cycle_limit : (state_of d).review_cycle_limit ≡ s.review_cycle_limit
  pub final_owner : (state_of d).planning_final_owner ≡ s.planning_final_owner
