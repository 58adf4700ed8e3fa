-- ===== src/Workflow/Derive.antt =====
-- `derive_workflow_routing_decision`: the decision on a role's report, step by step of the workflow;
-- and `workflow_should_close_in_planning` beside it. `none` is the source's None.
pub mod Diagram
pub mod Routed
pub mod Planned
pub mod Follows
use sprint_runtime.Prelude.{
  String, ◌==◌, Bool, true, false, not, ◌&&◌, ◌||◌, Option, none, some, leb, if◌then◌else◌,
}
use sprint_runtime.Prelude.Text.{is_empty}
use sprint_runtime.Workflow.{
  Step, research_initial, planner_draft, planner_advisory, designer_advisory, architect_advisory,
  planner_finalize, architect_guidance, developer_build, architect_review, developer_revision,
  qa_validation, closeout, Role, Category, unset, scope, implementation_category, Outcome,
  no_outcome, continue, advance, reopen, block, WorkflowState, Transition,
  planning_advisory_role_for_step,
}
use sprint_runtime.Workflow.Requested.{requests_explicit_continuation, requests_validation_handoff}
use sprint_runtime.Workflow.Routes.{workflow_review_cycle_limit_reached}
use sprint_runtime.Workflow.Decisions.{
  Decision, workflow_terminal_block_decision, workflow_route_to_planner_draft_decision,
  workflow_route_to_planner_finalize_decision, workflow_route_to_planning_advisory_decision,
  workflow_route_to_architect_guidance_decision, workflow_route_to_developer_build_decision,
  workflow_route_to_architect_review_decision, workflow_route_to_qa_decision,
  workflow_complete_decision, workflow_reopen_decision, workflow_review_cycle_limit_block_decision,
}

-- `text or default`
abbrev pub text_or : String → String → String
text_or s default = if is_empty s then default else s

abbrev pub is_reopen : Outcome → Bool
is_reopen reopen = true
is_reopen _ = false

abbrev pub is_finalize_step : Option Step → Bool
is_finalize_step (some planner_finalize) = true
is_finalize_step _ = false

abbrev pub is_review_step : Option Step → Bool
is_review_step (some architect_review) = true
is_review_step _ = false

abbrev pub is_scope : Category → Bool
is_scope scope = true
is_scope _ = false

-- `category in {"", "implementation"}`
abbrev pub is_developer_category : Category → Bool
is_developer_category unset = true
is_developer_category implementation_category = true
is_developer_category _ = false

-- `outcome in {"advance", "continue", "reopen", ""}`
abbrev pub opens_advisory : Outcome → Bool
opens_advisory advance = true
opens_advisory continue = true
opens_advisory reopen = true
opens_advisory no_outcome = true
opens_advisory _ = false

-- `category or "implementation"`
abbrev pub category_or : Category → Category
category_or unset = implementation_category
category_or c = c

-- The advisory role that a target step names, asked without an owner.
abbrev pub advisory_target : Option Step → Option Role
advisory_target none = none
advisory_target (some step) = planning_advisory_role_for_step step none

module _ (s : WorkflowState) (t : Transition) (current_role reason : String) where
  from_research : Decision
  from_research =
      workflow_route_to_planner_draft_decision (some s)
        (text_or reason "research prepass 결과를 planner가 planning에 반영합니다.") t.reopen_category

  -- The last part of the planner's steps, when no advisory pass is asked for.
  leave_planning : Bool → Decision
  leave_planning should_close =
      if should_close
      then workflow_complete_decision (some s)
          (text_or reason "planner가 문서/계획 surface를 planning 단계에서 마무리했습니다.")
      else workflow_route_to_architect_guidance_decision (some s)
          (text_or reason "planning이 정리되어 implementation guidance를 시작합니다.") t.reopen_category

  open_advisory : Role → Decision
  open_advisory role =
      if leb s.planning_pass_limit s.planning_pass_count
      then workflow_terminal_block_decision (some s)
          "planning advisory pass 한도에 도달해 planner가 더 이상 specialist pass를 열 수 없습니다."
          t.reopen_category
      else workflow_route_to_planning_advisory_decision (some s) role reason t.reopen_category

  after_reopen_test : Bool → Option Role → Decision
  after_reopen_test should_close none = leave_planning should_close
  after_reopen_test should_close (some role) =
      if opens_advisory t.outcome then open_advisory role else leave_planning should_close

  pub from_planner : Bool → Decision
  from_planner should_close =
      if not (current_role == "planner")
      then workflow_route_to_planner_finalize_decision (some s)
          "planning owner인 planner가 최종 정리를 이어갑니다." unset
      else if is_reopen t.outcome && (is_finalize_step t.target_step || is_scope t.reopen_category)
      then workflow_route_to_planner_finalize_decision (some s)
          (text_or reason "planner가 planning 문서/contract를 다시 정리합니다.") t.reopen_category
      else after_reopen_test should_close (advisory_target t.target_step)

  from_advisory : Decision
  from_advisory =
      workflow_route_to_planner_finalize_decision (some s)
        (text_or reason "specialist advisory를 planner가 반영합니다.") t.reopen_category

  -- `workflow_reopen_decision` for `current_role or owner`
  reopened_by : String → Decision
  reopened_by owner =
      workflow_reopen_decision (some s) (text_or current_role owner) t.reopen_category reason

  from_guidance : Decision
  from_guidance =
      if is_reopen t.outcome
      then reopened_by "architect"
      else workflow_route_to_developer_build_decision (some s)
          (text_or reason "architect guidance를 바탕으로 developer 구현을 시작합니다.") developer_build
          t.reopen_category

  from_build : Decision
  from_build =
      if is_reopen t.outcome
      then reopened_by "developer"
      else workflow_route_to_architect_review_decision (some s)
          (text_or reason "developer 구현 결과를 architect가 리뷰합니다.") t.reopen_category

  to_revision : Decision
  to_revision =
      workflow_route_to_developer_build_decision (some s)
        (text_or reason "architect review 결과를 developer가 반영합니다.") developer_revision
        t.reopen_category

  -- The review did not pass.
  review_without_handoff : Decision
  review_without_handoff =
      if workflow_review_cycle_limit_reached (some s) && requests_explicit_continuation t
      then workflow_review_cycle_limit_block_decision (some s) reason
          (category_or t.reopen_category)
      else if is_reopen t.outcome
      then (if is_developer_category t.reopen_category
          then to_revision
          else reopened_by "architect")
      else to_revision

  from_review : Decision
  from_review =
      if requests_validation_handoff t
      then workflow_route_to_qa_decision (some s)
          (text_or reason "architect review를 통과해 QA 검증으로 넘깁니다.")
      else review_without_handoff

  from_revision : Decision
  from_revision =
      if is_reopen t.outcome
      then reopened_by "developer"
      else if is_review_step t.target_step
      then workflow_route_to_architect_review_decision (some s)
          (text_or reason "developer revision 결과를 architect가 다시 리뷰합니다.") t.reopen_category
      else workflow_route_to_qa_decision (some s)
          (text_or reason "developer revision이 끝나 QA 검증으로 넘깁니다.")

  from_qa : Decision
  from_qa =
      if is_reopen t.outcome
      then reopened_by "qa"
      else workflow_complete_decision (some s) (text_or reason "QA 검증을 마쳐 closeout으로 진행합니다.")

  derive_step : Step → Bool → Option Decision
  derive_step research_initial should_close = some from_research
  derive_step planner_draft should_close = some (from_planner should_close)
  derive_step planner_finalize should_close = some (from_planner should_close)
  derive_step planner_advisory should_close = some from_advisory
  derive_step designer_advisory should_close = some from_advisory
  derive_step architect_advisory should_close = some from_advisory
  derive_step architect_guidance should_close = some from_guidance
  derive_step developer_build should_close = some from_build
  derive_step architect_review should_close = some from_review
  derive_step developer_revision should_close = some from_revision
  derive_step qa_validation should_close = some from_qa
  derive_step closeout should_close = none

abbrev pub is_block : Outcome → Bool
is_block block = true
is_block _ = false

unfoldable pub derive_workflow_routing_decision :
    Option WorkflowState → Transition → String → String → Bool → Option Decision
unfolding derive_step from_research from_planner leave_planning open_advisory after_reopen_test
    from_advisory reopened_by from_guidance from_build to_revision review_without_handoff
    from_review from_revision from_qa workflow_terminal_block_decision
    workflow_route_to_planner_draft_decision workflow_route_to_planner_finalize_decision
    workflow_route_to_planning_advisory_decision workflow_route_to_architect_guidance_decision
    workflow_route_to_developer_build_decision workflow_route_to_architect_review_decision
    workflow_route_to_qa_decision workflow_complete_decision workflow_reopen_decision
    workflow_review_cycle_limit_reached workflow_review_cycle_limit_block_decision
derive_workflow_routing_decision s t current_role reason should_close =
    if is_block t.outcome
    then some (workflow_terminal_block_decision s reason t.reopen_category)
    else elim s [
      | none ↦ none
      | some state ↦ derive_step state t current_role reason state.step should_close
    ]
