-- ===== src/Workflow/Requested.antt =====
-- `workflow_transition`: the transition that a role's report asks for, and the two tests on it.
use sprint_runtime.Prelude.{
  Bool, true, false, not, ◌||◌, Option, none, some, List, [], or_else, if◌then◌else◌,
}
use sprint_runtime.Prelude.Text.{is_empty, strip}
use sprint_runtime.Python.{Value, list, dict, get, fields_of, to_list}
use sprint_runtime.Python.Convert.{truthy, text, tag}
use sprint_runtime.Python.Sequences.{clean_items}
use sprint_runtime.Workflow.{
  Step, planner_advisory, planner_finalize, qa_validation, Role, planner, qa, Phase, validation,
  unset, Outcome, no_outcome, continue, advance, reopen, complete, Transition,
  planning_advisory_step_for_role, is_advisory_role,
}
use sprint_runtime.Workflow.Names.{to_phase, to_step, to_owner, to_category, to_outcome}

abbrev no_transition : Transition
no_transition = record {
  outcome = no_outcome;
  target_phase = none;
  target_step = none;
  reopen_category = unset;
  reason = "";
  unresolved_items = [];
  finalize_phase = false;
}

abbrev item_list : Value → List Value
item_list (list items) = to_list items
item_list _ = []

-- The step that the older `requested_role` stands for. `named` says that `target_step` is not
-- empty; a name that is no step stays as it is, and is dropped afterwards.
legacy_target : Bool → Option Step → Option Role → Option Step
legacy_target named (some planner_advisory) (some role) =
    if is_advisory_role role then planning_advisory_step_for_role role else some planner_advisory
legacy_target named (some step) _ = some step
legacy_target true none _ = none
legacy_target false none none = none
legacy_target false none (some planner) = some planner_finalize
legacy_target false none (some qa) = some qa_validation
legacy_target false none (some role) = planning_advisory_step_for_role role

-- The transition in the value of `proposals["workflow_transition"]`.
unfoldable pub transition_of : Value → Transition
unfolding legacy_target clean_items tag text strip get to_phase to_step to_owner to_category
    to_outcome
transition_of (dict raw) = record {
  outcome = to_outcome (tag (get raw "outcome"));
  target_phase = to_phase (tag (get raw "target_phase"));
  target_step =
      legacy_target (not (is_empty (tag (get raw "target_step"))))
        (to_step (tag (get raw "target_step"))) (to_owner (tag (get raw "requested_role")));
  reopen_category = or_else (to_category (tag (get raw "reopen_category"))) unset;
  reason = strip (text (get raw "reason"));
  unresolved_items = clean_items (item_list (get raw "unresolved_items"));
  finalize_phase = truthy (get raw "finalize_phase");
}
transition_of _ = no_transition

unfoldable pub workflow_transition : Value → Transition
workflow_transition proposals = transition_of (get (fields_of proposals) "workflow_transition")

-- `workflow_transition_requests_explicit_continuation`; every category of a transition is a member
-- of WORKFLOW_REOPEN_CATEGORIES.
abbrev pub requests_explicit_continuation : Transition → Bool
requests_explicit_continuation t = elim t.outcome [
  | continue ↦ true
  | advance ↦ true
  | reopen ↦ true
  | _ ↦ false
]

abbrev is_complete : Outcome → Bool
is_complete complete = true
is_complete _ = false

abbrev is_qa_step : Option Step → Bool
is_qa_step (some qa_validation) = true
is_qa_step _ = false

abbrev is_validation : Option Phase → Bool
is_validation (some validation) = true
is_validation _ = false

-- `workflow_transition_requests_validation_handoff`
abbrev pub requests_validation_handoff : Transition → Bool
requests_validation_handoff t =
    is_qa_step t.target_step || is_complete t.outcome || is_validation t.target_phase
