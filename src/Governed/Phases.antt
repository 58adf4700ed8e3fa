-- ===== src/Governed/Phases.antt =====
-- The class of a request and the phase that its routing belongs to.
use sprint_runtime.Prelude.{
  String, ◌==◌, Bool, false, ◌&&◌, ◌||◌, Option, some, List, [], ◌∷◌, eqb, if◌then◌else◌,
}
use sprint_runtime.Prelude.Text.{is_empty, strip}
use sprint_runtime.Prelude.Lists.{member}
use sprint_runtime.Python.{ℤ, pos, negsuc}
use sprint_runtime.Python.Integers.{ltb_ℤ}
use sprint_runtime.Governed.{
  AgentUtilizationPolicy, get_agent_capability, and_then, execution_agent_roles, team_roles,
}
use sprint_runtime.Governed.Scores.{request_indicates_execution, role_hint_score}

-- Of a role that is stripped already.
abbrev phase_name : String → String
phase_name role =
    if role == "designer"
    then "design"
    else if role == "architect"
    then "architecture"
    else if role == "developer"
    then "implementation"
    else if role == "qa"
    then "validation"
    else "planning"

unfoldable pub routing_phase_for_role : String → String
unfolding strip
routing_phase_for_role role = phase_name (strip role)

abbrev opened : Bool → String
opened executes = if executes then "execution_opened" else "planning_only"

-- `intent` is the normalized intent of the request.
unfoldable pub classify_request_state :
    String → AgentUtilizationPolicy → String → String → String → String → Bool → Option String
unfolding request_indicates_execution
classify_request_state intent policy current_role preferred_role selection_source text
      is_internal_sprint_request =
    let executes = request_indicates_execution policy intent text in
    if selection_source == "planning_resume"
    then some "blocked_resume"
    else if current_role == "planner"
    then (if member preferred_role execution_agent_roles
        then some "execution_opened"
        else and_then executes (λ b. some (opened b)))
    else if current_role == "research"
    then some "planning_only"
    else if current_role == "designer" || current_role == "architect"
    then some "implementation_ready"
    else if current_role == "developer"
    then some "qa_pending"
    else if current_role == "qa"
    then some "closeout_ready"
    else if is_internal_sprint_request
    then some "execution_opened"
    else some "planning_only"

-- The role with the best hint so far.
record Hint : Type 0 where
  role : String
  score : ℤ
  priority : ℤ

no_hint : Hint
no_hint = record { role = ""; score = negsuc 0; priority = negsuc 0 }

eqb_ℤ : ℤ → ℤ → Bool
eqb_ℤ (pos a) (pos b) = eqb a b
eqb_ℤ (negsuc a) (negsuc b) = eqb a b
eqb_ℤ _ _ = false

better : Hint → Hint → Hint
unfolding eqb_ℤ
better new best =
    if ltb_ℤ best.score new.score || eqb_ℤ new.score best.score && ltb_ℤ best.priority new.priority
    then new
    else best

hinted : AgentUtilizationPolicy → String → String → List String → Hint → Option Hint
unfolding role_hint_score get_agent_capability better
hinted policy intent text [] best = some best
hinted policy intent text (role ∷ roles) best = and_then (get_agent_capability role policy) (λ c.
    hinted policy intent text roles (
      better
        (record {
          role = role;
          score = pos (role_hint_score c intent text);
          priority = c.routing_priority;
        })
        best))

abbrev hint_role : Hint → String
hint_role hint = if is_empty hint.role then "planner" else hint.role

unfoldable pub derive_routing_phase :
    AgentUtilizationPolicy → String → String → String → String → String → String → Option String
unfolding hinted no_hint routing_phase_for_role
derive_routing_phase policy current_role preferred_role selection_source request_state_class intent
      text =
    let hint = hinted policy intent text execution_agent_roles no_hint in
    if selection_source == "planning_resume"
    then some "resume"
    else if selection_source == "user_intake" || selection_source == "blocked_backlog_review"
    then some "planning"
    else if request_state_class == "blocked_resume"
    then some "resume"
    else if request_state_class == "closeout_ready"
    then some "closeout"
    else if member preferred_role team_roles
    then some (routing_phase_for_role preferred_role)
    else if current_role == "research"
    then some "planning"
    else if current_role == "planner"
    then (if request_state_class == "planning_only"
        then some "planning"
        else and_then hint (λ h. some (routing_phase_for_role (hint_role h))))
    else if member current_role execution_agent_roles
    then some (routing_phase_for_role current_role)
    else some "planning"
