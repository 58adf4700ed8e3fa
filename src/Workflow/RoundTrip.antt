-- ===== src/Workflow/RoundTrip.antt =====
-- A state that is stored with a request is the state that is read back.
use sprint_runtime.Prelude.{ap, ◌∙◌, ℕ, zero, suc, ◌≡◌, ◌≢◌, ◌≤◌, refl, String, some, arith, ℕ}
use sprint_runtime.Prelude.Text.{normalized}
use sprint_runtime.Python.Laws.{get-put_self}
use sprint_runtime.Python.{negsuc, ℤ, Fields, dict, get, pos, str, num, fields_of}
use sprint_runtime.Python.Convert.{ok, tag, int_or, at_least_one}
use sprint_runtime.Workflow.{
  planning, research_initial, orchestrator, active, unset, planner_advisory, version_controller,
  WorkflowState, Step, Role, Phase, PhaseStatus, Category,
}
use sprint_runtime.Workflow.Names.{
  phase_text, to_phase, step_text, to_step, status_text, to_status, role_text, to_team_role,
  to_owner, category_text, to_category,
}
use sprint_runtime.Workflow.Normalize.{
  normalize_workflow_state, name_or, normalize_fields, settle_step,
}
use sprint_runtime.Workflow.Request.{
  state_fields, set_request_workflow_state, request_workflow_state, read_workflow,
}

-- What a stored state has: limits above 0, a contract version that is not 0, a step of its own
-- name, a planner or another team role as the final owner, and a source role in normal form.
pub record IsStorable (s : WorkflowState) : Type 0 where
  pub versioned : s.contract_version ≢ pos 0
  pub named : s.step ≢ planner_advisory
  pub pass_room : 1 ≤ s.planning_pass_limit
  pub cycle_room : 1 ≤ s.review_cycle_limit
  pub team_owner : s.planning_final_owner ≢ version_controller
  pub source_normal : normalized s.reopen_source_role ≡ s.reopen_source_role

to_phase-name_or :
    (raw : Fields) (key default : String) (p : Phase)
    → get raw key ≡ str (phase_text p)
    → to_phase (name_or raw key default) ≡ some p
unfolding name_or to_phase
to_phase-name_or raw key default planning e = rw e
to_phase-name_or raw key default _ e = rw e

to_step-name_or :
    (raw : Fields) (key default : String) (k : Step)
    → get raw key ≡ str (step_text k)
    → to_step (name_or raw key default) ≡ some k
unfolding name_or to_step
to_step-name_or raw key default research_initial e = rw e
to_step-name_or raw key default _ e = rw e

to_owner-name_or :
    (raw : Fields) (key default : String) (r : Role)
    → get raw key ≡ str (role_text r)
    → to_owner (name_or raw key default) ≡ some r
unfolding name_or to_owner
to_owner-name_or raw key default orchestrator e = rw e
to_owner-name_or raw key default _ e = rw e

to_team_role-name_or :
    (raw : Fields) (key default : String) (r : Role)
    → r ≢ version_controller
    → get raw key ≡ str (role_text r)
    → to_team_role (name_or raw key default) ≡ some r
unfolding name_or to_team_role
to_team_role-name_or raw key default version_controller n e = absurd (n refl)
to_team_role-name_or raw key default _ n e = rw e

to_status-name_or :
    (raw : Fields) (key default : String) (p : PhaseStatus)
    → get raw key ≡ str (status_text p)
    → to_status (name_or raw key default) ≡ some p
unfolding name_or to_status
to_status-name_or raw key default active e = rw e
to_status-name_or raw key default _ e = rw e

to_category-tag : (c : Category) → to_category (tag (str (category_text c))) ≡ some c
unfolding tag to_category
to_category-tag unset = refl
to_category-tag _ = refl

tag-str : (s : String) → tag (str s) ≡ normalized s
unfolding tag
tag-str String.[] = refl
tag-str (String.◌∷◌ c s) = refl

int_or-zero : (n : ℕ) → int_or (num (pos n)) (pos 0) ≡ ok (pos n)
unfolding int_or
int_or-zero zero = refl
int_or-zero (suc n) = refl

int_or_nonzero : (n d : ℤ) → n ≢ pos 0 → int_or (num n) d ≡ ok n
unfolding int_or
int_or_nonzero (pos zero) d h = absurd (h refl)
int_or_nonzero (pos (suc n)) d h = refl
int_or_nonzero (negsuc n) d h = refl

settle_step_named : (k : Step) (r : Role) → k ≢ planner_advisory → settle_step k r ≡ k
settle_step_named planner_advisory r h = absurd (h refl)
settle_step_named _ r h = refl

at_least_one_pos : (n : ℕ) → 1 ≤ n → at_least_one (pos n) ≡ n
at_least_one_pos zero h = absurd (omega arith)
at_least_one_pos (suc n) h = refl

pos-ne-zero : (n : ℕ) → 1 ≤ n → pos n ≢ pos 0
pos-ne-zero n h e = ground arith

normalize_fields-state_fields :
    (s : WorkflowState) → IsStorable s → normalize_fields (state_fields s) ≡ ok s
unfolding normalize_fields state_fields get
normalize_fields-state_fields s h = rw (
  int_or_nonzero s.contract_version (pos 1) h.versioned,
  int_or-zero s.planning_pass_count,
  int_or_nonzero (pos s.planning_pass_limit) (pos 2) (pos-ne-zero _ h.pass_room),
  int_or-zero s.review_cycle_count,
  int_or_nonzero (pos s.review_cycle_limit) (pos 20) (pos-ne-zero _ h.cycle_room),
  to_phase-name_or (state_fields s) "phase" "planning" s.phase refl,
  to_step-name_or (state_fields s) "step" "planner_draft" s.step refl,
  to_owner-name_or (state_fields s) "phase_owner" "planner" s.phase_owner refl,
  to_status-name_or (state_fields s) "phase_status" "active" s.phase_status refl,
  to_team_role-name_or (state_fields s) "planning_final_owner" "planner" s.planning_final_owner
      h.team_owner refl,
  to_category-tag s.reopen_category,
  tag-str s.reopen_source_role,
  h.source_normal,
  settle_step_named s.step s.phase_owner h.named,
  at_least_one_pos s.planning_pass_limit h.pass_room,
  at_least_one_pos s.review_cycle_limit h.cycle_room,
)

normalize_workflow_state-state_fields :
    (s : WorkflowState) → IsStorable s → normalize_workflow_state (dict (state_fields s)) ≡ ok s
unfolding normalize_workflow_state
normalize_workflow_state-state_fields s h = normalize_fields-state_fields s h

-- The state that `_request_workflow_state` reads from a request, after `_set_request_workflow_state`
-- stored a storable state in it, is that state, whatever the request held before.
pub request_workflow_state-set :
    (request : Fields) (s : WorkflowState)
    → IsStorable s
    → request_workflow_state (set_request_workflow_state request (some s)) ≡ ok (some s)
unfolding request_workflow_state read_workflow set_request_workflow_state
request_workflow_state-set request s h =
    let stored = set_request_workflow_state request (some s) in
    ap (λ v. read_workflow stored (get (fields_of v) "workflow")) (get-put_self request "params" _)
    ∙ ap (read_workflow stored) (get-put_self (fields_of (get request "params")) "workflow" _)
    ∙ rw (normalize_workflow_state-state_fields s h)
