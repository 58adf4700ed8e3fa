-- ===== src/Workflow/Decisions.antt =====
-- The decisions of the engine: who acts next, in which state, and the record of why.
use sprint_runtime.Prelude.{
  ℕ, String, ◌==◌, ◌<>◌, Bool, true, false, not, ◌||◌, Option, some, List, [], ◌∷◌, map, leb,
  if◌then◌else◌,
}
use sprint_runtime.Prelude.Text.{is_empty, strip, join}
use sprint_runtime.Prelude.Lists.{keep}
use sprint_runtime.Python.Render.{decimal}
use sprint_runtime.Workflow.{
  Step, developer_build, developer_revision, architect_review, Role, research, planner, designer,
  architect, developer, qa, Category, unset, scope, ux, architecture, implementation_category,
  verification, WorkflowState, or_default,
}
use sprint_runtime.Workflow.Names.{step_text, role_text}
use sprint_runtime.Workflow.Routes.{
  cycle_limit, workflow_terminal_block_state, workflow_route_to_research_initial_state,
  workflow_route_to_planner_draft_state, workflow_route_to_planner_finalize_state,
  workflow_route_to_planning_advisory_state, workflow_route_to_architect_guidance_state,
  workflow_route_to_developer_build_state, workflow_route_to_architect_review_state,
  workflow_route_to_qa_state, workflow_complete_state, workflow_mark_reopen_state,
}

-- The dictionary of `workflow_route_decision`.
pub record Route : Type 0 where
  pub next_role : Role
  pub workflow_state : WorkflowState
  pub route_reason : String
  pub preferred_role : Role
  pub matched_signals : List String

-- A route; `terminal_status` "blocked" with its summary; or a completion with its summary.
pub data Decision : Type 0 where
  routed : Route → Decision
  terminal_block : WorkflowState → String → Decision
  completion : WorkflowState → String → Decision

unfoldable pub workflow_route_decision : Role → WorkflowState → String → List String → Decision
unfolding strip
workflow_route_decision role s reason signals = routed (record {
  next_role = role;
  workflow_state = s;
  route_reason = strip reason;
  preferred_role = role;
  matched_signals = keep (λ t. not (is_empty t)) (map strip signals);
})

unfoldable pub workflow_terminal_block_decision :
    Option WorkflowState → String → Category → Decision
unfolding workflow_terminal_block_state
workflow_terminal_block_decision s summary category =
    terminal_block (workflow_terminal_block_state s category) summary

unfoldable pub workflow_route_to_research_initial_decision :
    Option WorkflowState → String → Decision
unfolding workflow_route_decision workflow_route_to_research_initial_state
workflow_route_to_research_initial_decision s reason =
    workflow_route_decision research (workflow_route_to_research_initial_state s) reason
      ("workflow:research_initial" ∷ [])

unfoldable pub workflow_route_to_planner_draft_decision :
    Option WorkflowState → String → Category → Decision
unfolding workflow_route_decision workflow_route_to_planner_draft_state
workflow_route_to_planner_draft_decision s reason category =
    workflow_route_decision planner (workflow_route_to_planner_draft_state s category) reason
      ("workflow:planner_draft" ∷ [])

unfoldable pub workflow_route_to_planner_finalize_decision :
    Option WorkflowState → String → Category → Decision
unfolding workflow_route_decision workflow_route_to_planner_finalize_state
workflow_route_to_planner_finalize_decision s reason category =
    workflow_route_decision planner (workflow_route_to_planner_finalize_state s category) reason
      ("workflow:planner_finalize" ∷ [])

unfoldable pub workflow_route_to_planning_advisory_decision :
    Option WorkflowState → Role → String → Category → Decision
unfolding workflow_route_to_planner_finalize_decision workflow_route_to_planning_advisory_state
workflow_route_to_planning_advisory_decision s role reason category =
    let updated = or_default s in
    if leb updated.planning_pass_limit updated.planning_pass_count
    then workflow_route_to_planner_finalize_decision (some updated)
        "planning advisory pass 한도에 도달해 planner finalization으로 되돌립니다." category
    else workflow_route_decision role
        (workflow_route_to_planning_advisory_state (some updated) role category) reason
        (("workflow:planning_advisory:" <> role_text role) ∷ [])

unfoldable pub workflow_route_to_architect_guidance_decision :
    Option WorkflowState → String → Category → Decision
unfolding workflow_route_decision workflow_route_to_architect_guidance_state
workflow_route_to_architect_guidance_decision s reason category =
    workflow_route_decision architect (workflow_route_to_architect_guidance_state s category) reason
      ("workflow:architect_guidance" ∷ [])

unfoldable pub workflow_route_to_developer_build_decision :
    Option WorkflowState → String → Step → Category → Decision
unfolding workflow_route_decision workflow_route_to_developer_build_state
workflow_route_to_developer_build_decision s reason step category =
    workflow_route_decision developer (workflow_route_to_developer_build_state s step category)
      reason (("workflow:" <> step_text step) ∷ [])

unfoldable pub workflow_route_to_architect_review_decision :
    Option WorkflowState → String → Category → Decision
unfolding workflow_route_decision workflow_route_to_architect_review_state
workflow_route_to_architect_review_decision s reason category =
    workflow_route_decision architect (workflow_route_to_architect_review_state s category) reason
      ("workflow:architect_review" ∷ [])

unfoldable pub workflow_route_to_qa_decision : Option WorkflowState → String → Decision
unfolding workflow_route_decision workflow_route_to_qa_state
workflow_route_to_qa_decision s reason =
    workflow_route_decision qa (workflow_route_to_qa_state s) reason ("workflow:qa_validation" ∷ [])

unfoldable pub workflow_complete_decision : Option WorkflowState → String → Decision
unfolding workflow_complete_state
workflow_complete_decision s summary = completion (workflow_complete_state s) summary

abbrev is_revised_step : Step → Bool
is_revised_step architect_review = true
is_revised_step developer_revision = true
is_revised_step _ = false

-- The step to which an implementation or verification reopen returns.
reopened_step : String → Step → Step
reopened_step current_role step =
    if current_role == "qa" || is_revised_step step then developer_revision else developer_build

-- The branches of `workflow_reopen_decision` on the marked state.
reopen_by : Category → String → WorkflowState → String → Decision
unfolding workflow_route_to_planner_finalize_decision workflow_route_to_planning_advisory_decision
    workflow_route_to_architect_review_decision workflow_route_to_architect_guidance_decision
    workflow_route_to_developer_build_decision reopened_step
reopen_by scope current_role s reason =
    workflow_route_to_planner_finalize_decision (some s) reason scope
reopen_by ux current_role s reason =
    workflow_route_to_planning_advisory_decision (some s) designer reason ux
reopen_by architecture current_role s reason =
    if current_role == "qa"
    then workflow_route_to_architect_review_decision (some s) reason architecture
    else workflow_route_to_architect_guidance_decision (some s) reason architecture
reopen_by implementation_category current_role s reason =
    workflow_route_to_developer_build_decision (some s) reason (reopened_step current_role s.step)
      implementation_category
reopen_by verification current_role s reason =
    workflow_route_to_developer_build_decision (some s) reason (reopened_step current_role s.step)
      verification
reopen_by unset current_role s reason =
    workflow_route_to_planner_finalize_decision (some s) reason unset

unfoldable pub workflow_reopen_decision :
    Option WorkflowState → String → Category → String → Decision
unfolding reopen_by workflow_mark_reopen_state
workflow_reopen_decision s current_role category reason =
    reopen_by category current_role (workflow_mark_reopen_state s current_role category) reason

-- `limit_summary` of `workflow_review_cycle_limit_block_decision`
limit_summary : ℕ → ℕ → String
limit_summary count limit =
    "architect review가 "
    <> decimal count
    <> "회 연속 미통과하여 review cycle limit "
    <> decimal limit
    <> "에 도달했습니다."

unfoldable pub workflow_review_cycle_limit_block_decision :
    Option WorkflowState → String → Category → Decision
unfolding workflow_terminal_block_decision limit_summary strip join decimal
workflow_review_cycle_limit_block_decision s reason category =
    let summary =
      limit_summary (or_default s).review_cycle_count
        (cycle_limit (or_default s).review_cycle_limit) in
    let combined =
      strip (join " " (keep (λ t. not (is_empty (strip t))) (summary ∷ strip reason ∷ []))) in
    workflow_terminal_block_decision s (if is_empty combined then summary else combined) category
