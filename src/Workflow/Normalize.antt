-- ===== src/Workflow/Normalize.antt =====
-- `normalize_workflow_state`: the state that a stored dictionary stands for. An `int(...)` that
-- raises leaves the function by its exception.
use sprint_runtime.Prelude.{String, or_else, if◌then◌else◌}
use sprint_runtime.Prelude.Text.{normalized}
use sprint_runtime.Python.{pos, Value, Fields, dict, get}
use sprint_runtime.Python.Convert.{
  Result, ok, ◌>>=◌, truthy, text, tag, int_or, at_least_zero, at_least_one,
}
use sprint_runtime.Workflow.{
  Step, planner_advisory, Role, WorkflowState, default_workflow_state,
  planning_advisory_step_for_role,
}
use sprint_runtime.Workflow.Names.{
  to_phase, phase_text, to_step, step_text, to_status, status_text, to_team_role, to_owner,
  role_text, to_category,
}

-- `str(raw.get(key) or default).strip().lower()`
unfoldable pub name_or : Fields → String → String → String
unfolding text normalized
name_or raw key default = let v = get raw key in normalized (if truthy v then text v else default)

-- A `planner_advisory` whose owner is an advisory role is that role's own step.
abbrev pub settle_step : Step → Role → Step
settle_step planner_advisory owner =
    or_else (planning_advisory_step_for_role owner) planner_advisory
settle_step step _ = step

unfoldable pub normalize_fields : Fields → Result WorkflowState
normalize_fields raw = do
  contract_version ← int_or (get raw "contract_version") (pos 1)
  let state = default_workflow_state
  let phase = or_else (to_phase (name_or raw "phase" (phase_text state.phase))) state.phase
  let step = or_else (to_step (name_or raw "step" (step_text state.step))) state.step
  let owner =
      or_else (to_owner (name_or raw "phase_owner" (role_text state.phase_owner))) state.phase_owner
  let status =
      or_else (to_status (name_or raw "phase_status" (status_text state.phase_status)))
        state.phase_status
  let final_owner =
      or_else
        (to_team_role (name_or raw "planning_final_owner" (role_text state.planning_final_owner)))
        state.planning_final_owner
  let category = or_else (to_category (tag (get raw "reopen_category"))) state.reopen_category
  pass_count ← int_or (get raw "planning_pass_count") (pos state.planning_pass_count)
  pass_limit ← int_or (get raw "planning_pass_limit") (pos state.planning_pass_limit)
  cycle_count ← int_or (get raw "review_cycle_count") (pos state.review_cycle_count)
  cycle_limit ← int_or (get raw "review_cycle_limit") (pos state.review_cycle_limit)
  ok (record {
    contract_version = contract_version;
    phase = phase;
    step = settle_step step owner;
    phase_owner = owner;
    phase_status = status;
    planning_pass_count = at_least_zero pass_count;
    planning_pass_limit = at_least_one pass_limit;
    planning_final_owner = final_owner;
    reopen_source_role = tag (get raw "reopen_source_role");
    reopen_category = category;
    review_cycle_count = at_least_zero cycle_count;
    review_cycle_limit = at_least_one cycle_limit;
  })

unfoldable pub normalize_workflow_state : Value → Result WorkflowState
unfolding normalize_fields name_or tag int_or get to_phase to_step to_status to_owner to_category
normalize_workflow_state (dict raw) = normalize_fields raw
normalize_workflow_state _ = ok default_workflow_state
