-- ===== src/Workflow/Derive/Routed.antt =====
-- Each kind of decision, made where the diagram has its edge, follows the diagram.
use sprint_runtime.Prelude.{◌≡◌, String, Bool, true, false, none, some, arith}
use sprint_runtime.Workflow.{
  Step, planner_draft, designer_advisory, planner_finalize, architect_guidance, developer_build,
  architect_review, developer_revision, qa_validation, closeout, Role, Category, WorkflowState,
  planning_advisory_role_for_step,
}
use sprint_runtime.Workflow.WellFormed.{IsWellFormed}
use sprint_runtime.Workflow.Decisions.{
  workflow_terminal_block_decision, workflow_route_to_planner_draft_decision,
  workflow_route_to_planner_finalize_decision, workflow_route_to_planning_advisory_decision,
  workflow_route_to_architect_guidance_decision, workflow_route_to_developer_build_decision,
  workflow_route_to_architect_review_decision, workflow_route_to_qa_decision,
  workflow_complete_decision, workflow_reopen_decision, workflow_review_cycle_limit_block_decision,
}
use sprint_runtime.Workflow.Derive.Diagram.{edge, Honest, Follows}

-- The steps at which a report may reopen the work.
abbrev pub reopens : Step → Bool
reopens architect_guidance = true
reopens developer_build = true
reopens architect_review = true
reopens developer_revision = true
reopens qa_validation = true
reopens _ = false

module _ (s : WorkflowState) (w : IsWellFormed s) where
  pub draft-Follows :
      (reason : String) (c : Category)
      → edge s.step planner_draft ≡ true
      → Follows s (workflow_route_to_planner_draft_decision (some s) reason c)
  unfolding workflow_route_to_planner_draft_decision
  draft-Follows reason c h = ground arith

  pub finalize-Follows :
      (reason : String) (c : Category)
      → edge s.step planner_finalize ≡ true
      → Follows s (workflow_route_to_planner_finalize_decision (some s) reason c)
  unfolding workflow_route_to_planner_finalize_decision
  finalize-Follows reason c h = ground arith

  pub block-Follows :
      (summary : String) (c : Category)
      → Follows s (workflow_terminal_block_decision (some s) summary c)
  unfolding workflow_terminal_block_decision
  block-Follows summary c = ground arith

  pub limit_block-Follows :
      (reason : String) (c : Category)
      → Follows s (workflow_review_cycle_limit_block_decision (some s) reason c)
  unfolding workflow_review_cycle_limit_block_decision
  limit_block-Follows reason c = ground arith

  pub guidance-Follows :
      (reason : String) (c : Category)
      → edge s.step architect_guidance ≡ true
      → Follows s (workflow_route_to_architect_guidance_decision (some s) reason c)
  unfolding workflow_route_to_architect_guidance_decision
  guidance-Follows reason c h = ground arith

  pub build-Follows :
      (reason : String) (c : Category)
      → edge s.step developer_build ≡ true
      → Follows s (workflow_route_to_developer_build_decision (some s) reason developer_build c)
  unfolding workflow_route_to_developer_build_decision
  build-Follows reason c h = ground arith

  pub revise-Follows :
      (reason : String) (c : Category)
      → edge s.step developer_revision ≡ true
      → Follows s (workflow_route_to_developer_build_decision (some s) reason developer_revision c)
  unfolding workflow_route_to_developer_build_decision
  revise-Follows reason c h = ground arith

  pub review-Follows :
      (reason : String) (c : Category)
      → edge s.step architect_review ≡ true
      → Follows s (workflow_route_to_architect_review_decision (some s) reason c)
  unfolding workflow_route_to_architect_review_decision
  review-Follows reason c h = ground arith

  pub qa-Follows :
      (reason : String)
      → edge s.step qa_validation ≡ true
      → Follows s (workflow_route_to_qa_decision (some s) reason)
  unfolding workflow_route_to_qa_decision
  qa-Follows reason h = ground arith

  pub complete-Follows :
      (summary : String)
      → edge s.step closeout ≡ true
      → Follows s (workflow_complete_decision (some s) summary)
  unfolding workflow_complete_decision
  complete-Follows summary h = ground arith

  -- The target step names an advisory role only where it is that role's own step.
  pub advisory-Follows :
      (reason : String) (c : Category) (step : Step) {role : Role}
      → planning_advisory_role_for_step step none ≡ some role
      → edge s.step step ≡ true
      → edge s.step planner_finalize ≡ true
      → Follows s (workflow_route_to_planning_advisory_decision (some s) role reason c)
  unfolding workflow_route_to_planning_advisory_decision
  advisory-Follows reason c designer_advisory e h f = ground arith
  advisory-Follows reason c _ e h f = ground arith

  pub reopen-Follows :
      (step : Step) (role reason : String) (c : Category)
      → s.step ≡ step
      → reopens step ≡ true
      → Honest step role
      → Follows s (workflow_reopen_decision (some s) role c reason)
  unfolding workflow_reopen_decision
  reopen-Follows architect_guidance role reason c e h k = ground arith
  reopen-Follows developer_build role reason c e h k = ground arith
  reopen-Follows architect_review role reason c e h k = ground arith
  reopen-Follows developer_revision role reason c e h k = ground arith
  reopen-Follows qa_validation role reason c e h k = ground arith
  reopen-Follows _ role reason c e h k = cc
