-- ===== src/Workflow/Legacy.antt =====
-- `infer_legacy_internal_workflow_state`: the state of an internal request that was stored without
-- one, from the role that holds it and the reports among its events. `none` is the empty dictionary.
use sprint_runtime.Prelude.{
  ℕ, zero, suc, ◌+◌, min, ◌==◌, ◌||◌, Option, none, some, List, [], ◌∷◌, ltb, eqb, or_else,
  if◌then◌else◌,
}
use sprint_runtime.Python.{Value, list, Fields, get, fields_of, to_list}
use sprint_runtime.Python.Convert.{truthy, tag}
use sprint_runtime.Workflow.{
  research_initial, planner_draft, planner_advisory, planner_finalize, active, finalizing, Role,
  research, planner, designer, architect, WorkflowState, default_workflow_state,
  planning_advisory_step_for_role,
}
use sprint_runtime.Workflow.Names.{to_team_role}

-- How many events are reports of an advisory role, of the developer and of QA.
pub record Reports : Type 0 where
  pub advisory : ℕ
  pub developer : ℕ
  pub qa : ℕ

abbrev pub no_reports : Reports
no_reports = record { advisory = 0; developer = 0; qa = 0 }

unfoldable pub count_report : Value → Reports → Reports
unfolding get tag
count_report event counts =
    let raw = fields_of event in
    let actor = tag (get raw "actor") in
    if tag (get raw "event_type") == "role_report"
    then (if actor == "designer" || actor == "architect"
        then record counts { advisory = counts.advisory + 1 }
        else if actor == "developer"
        then record counts { developer = counts.developer + 1 }
        else if actor == "qa"
        then record counts { qa = counts.qa + 1 }
        else counts)
    else counts

unfoldable pub count_reports : List Value → Reports → Reports
unfolding count_report
count_reports [] counts = counts
count_reports (event ∷ events) counts = count_reports events (count_report event counts)

-- `request.get("current_role") or request.get("next_role") or request.get("owner_role") or ""`
abbrev pub first_truthy : Value → Value → Value → Value
first_truthy a b c = if truthy a then a else if truthy b then b else c

abbrev pub event_list : Value → List Value
event_list (list items) = to_list items
event_list _ = []

-- The state for a planning role, from the number of advisory reports.
unfoldable pub inferred_state : Role → ℕ → Option WorkflowState
inferred_state research advisory = some (record default_workflow_state {
  planning_pass_count = min advisory default_workflow_state.planning_pass_limit;
  step = research_initial;
  phase_owner = research;
  phase_status = active;
})
inferred_state planner zero = some (record default_workflow_state {
  step = planner_draft;
  phase_owner = planner;
  phase_status = active;
})
inferred_state planner (suc n) = some (record default_workflow_state {
  planning_pass_count = min (suc n) default_workflow_state.planning_pass_limit;
  step = planner_finalize;
  phase_owner = planner;
  phase_status = finalizing;
})
inferred_state designer advisory =
    let passes = min advisory default_workflow_state.planning_pass_limit in
    some (record default_workflow_state {
      planning_pass_count = if eqb passes 0 then 1 else passes;
      step = or_else (planning_advisory_step_for_role designer) planner_advisory;
      phase_owner = designer;
      phase_status = active;
    })
inferred_state architect advisory =
    let passes = min advisory default_workflow_state.planning_pass_limit in
    some (record default_workflow_state {
      planning_pass_count = if eqb passes 0 then 1 else passes;
      step = or_else (planning_advisory_step_for_role architect) planner_advisory;
      phase_owner = architect;
      phase_status = active;
    })
inferred_state _ _ = none

-- The state for a role, which has to be known, when neither QA nor the developer has reported.
unfoldable pub inferred_from : Option Role → Reports → Option WorkflowState
unfolding inferred_state
inferred_from none counts = none
inferred_from (some role) counts =
    if ltb 0 counts.qa || ltb 0 counts.developer then none else inferred_state role counts.advisory

-- The role that holds the request.
abbrev pub holder : Fields → Option Role
holder request = to_team_role (
    tag (
      first_truthy (get request "current_role") (get request "next_role")
        (get request "owner_role")))

abbrev pub reports_of : Fields → Reports
reports_of request = count_reports (event_list (get request "events")) no_reports

unfoldable pub infer_legacy_internal_workflow_state : Fields → Option WorkflowState
unfolding count_reports inferred_from get tag to_team_role
infer_legacy_internal_workflow_state request = inferred_from (holder request) (reports_of request)
