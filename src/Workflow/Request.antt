-- ===== src/Workflow/Request.antt =====
-- How a workflow state is kept in a request: `set_request_workflow_state` of the engine, and
-- `_request_workflow_state` of workflows/orchestration/team_service.py with the tests that it makes.
use sprint_runtime.Prelude.{
  String, ◌==◌, Bool, not, ◌&&◌, Option, none, some, or_else, if◌then◌else◌,
}
use sprint_runtime.Prelude.Text.{is_empty, strip}
use sprint_runtime.Python.{pos, num, str, dict, Fields, end, field, get, put, fields_of, Value}
use sprint_runtime.Python.Convert.{Result, ok, ◌>>=◌, text, tag}
use sprint_runtime.Workflow.{WorkflowState, default_workflow_state}
use sprint_runtime.Workflow.Names.{phase_text, step_text, status_text, role_text, category_text}
use sprint_runtime.Workflow.Normalize.{normalize_workflow_state}
use sprint_runtime.Workflow.Legacy.{infer_legacy_internal_workflow_state}

-- The dictionary of a state, its keys in the order of `default_workflow_state`.
unfoldable pub state_fields : WorkflowState → Fields
state_fields s = field "contract_version" (num s.contract_version) (
    field "phase" (str (phase_text s.phase)) (
      field "step" (str (step_text s.step)) (
        field "phase_owner" (str (role_text s.phase_owner)) (
          field "phase_status" (str (status_text s.phase_status)) (
            field "planning_pass_count" (num (pos s.planning_pass_count)) (
              field "planning_pass_limit" (num (pos s.planning_pass_limit)) (
                field "planning_final_owner" (str (role_text s.planning_final_owner)) (
                  field "reopen_source_role" (str s.reopen_source_role) (
                    field "reopen_category" (str (category_text s.reopen_category)) (
                      field "review_cycle_count" (num (pos s.review_cycle_count))
                        (field "review_cycle_limit" (num (pos s.review_cycle_limit)) end)))))))))))

unfoldable pub set_request_workflow_state : Fields → Option WorkflowState → Fields
set_request_workflow_state request state = put request "params" (
    dict (
      put (fields_of (get request "params")) "workflow"
        (dict (state_fields (or_else state default_workflow_state)))))

-- `_request_kind` of workflows/state/request_store.py
abbrev request_kind : Fields → String
request_kind request = strip (text (get (fields_of (get request "params")) "_teams_kind"))

unfoldable pub is_internal_sprint_request : Fields → Bool
unfolding get text strip
is_internal_sprint_request request = request_kind request == "sprint_internal"

unfoldable pub is_sprint_planning_request : Fields → Bool
unfolding get text tag strip
is_sprint_planning_request request =
    request_kind request == "sprint_internal"
    && tag (get request "intent") == "plan"
    && not (is_empty (strip (text (get (fields_of (get request "params")) "sprint_phase"))))

-- `_request_workflow_state` from the value of params["workflow"]; `none` is the empty dictionary.
unfoldable pub read_workflow : Fields → Value → Result (Option WorkflowState)
read_workflow request (dict raw) = normalize_workflow_state (dict raw) >>= λ s. ok (some s)
read_workflow request _ =
    if is_sprint_planning_request request
    then ok none
    else if is_internal_sprint_request request
    then ok (infer_legacy_internal_workflow_state request)
    else ok none

unfoldable pub request_workflow_state : Fields → Result (Option WorkflowState)
request_workflow_state request =
    read_workflow request (get (fields_of (get request "params")) "workflow")
