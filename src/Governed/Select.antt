-- ===== src/Governed/Select.antt =====
-- `build_governed_routing_selection`.
use sprint_runtime.Prelude.{
  String, ◌==◌, ◌<>◌, Bool, not, ◌&&◌, ◌||◌, Option, none, some, List, [], ◌∷◌, map, if◌then◌else◌,
}
use sprint_runtime.Prelude.Text.{is_empty, strip, normalized}
use sprint_runtime.Prelude.Lists.{is_nil, keep, member}
use sprint_runtime.Python.{ℤ, pos}
use sprint_runtime.Python.Integers.{is_zero}
use sprint_runtime.Governed.{
  AgentCapability, AgentUtilizationPolicy, get_agent_capability, and_then, execution_agent_roles,
  team_roles,
}
use sprint_runtime.Governed.Terms.{normalize_routing_reference_text}
use sprint_runtime.Governed.Scores.{Breakdown}
use sprint_runtime.Governed.Phases.{classify_request_state, derive_routing_phase}
use sprint_runtime.Governed.Candidates.{
  Candidate, Summary, Pool, Query, candidates, ranked, candidate_summary,
}

-- `score_breakdown` is none where the source has the empty dictionary.
pub record Selection : Type 0 where
  pub selected_role : String
  pub preferred_role : String
  pub matched_signals : List String
  pub matched_strongest_domains : List String
  pub matched_preferred_skills : List String
  pub matched_behavior_traits : List String
  pub score_total : ℤ
  pub score_breakdown : Option Breakdown
  pub candidate_summary : List Summary
  pub override_reason : String
  pub policy_source : String
  pub routing_phase : String
  pub request_state_class : String

-- The arguments; `intent` is that of the request, `routing_text` is not normalized yet.
pub record Call : Type 0 where
  pub intent : String
  pub policy : AgentUtilizationPolicy
  pub current_role : String
  pub preferred_role : String
  pub selection_source : String
  pub routing_text : String
  pub is_internal_sprint_request : Bool
  pub planner_reentry_has_explicit_signal : Bool

abbrev pub executing : Call → Bool
executing call = member call.current_role execution_agent_roles

-- A selection without a role.
abbrev pub unselected : Query → Selection
unselected q = record {
  selected_role = "";
  preferred_role = q.preferred_role;
  matched_signals = [];
  matched_strongest_domains = [];
  matched_preferred_skills = [];
  matched_behavior_traits = [];
  score_total = pos 0;
  score_breakdown = none;
  candidate_summary = [];
  override_reason = "";
  policy_source = q.policy.policy_source;
  routing_phase = q.routing_phase;
  request_state_class = q.request_state_class;
}

abbrev override : Query → String → String → String
override q role by =
    if not (is_empty q.preferred_role) && not (q.preferred_role == role)
    then "Preferred " <> q.preferred_role <> ", but " <> by <> " policy selected " <> role <> "."
    else ""

-- The selection that the policy makes for a source by itself.
abbrev by_policy : Query → String → String → String → Selection
by_policy q role signal by = record (unselected q) {
  selected_role = role;
  matched_signals = signal ∷ [];
  override_reason = override q role by;
}

abbrev pub is_public_role : String → Bool
is_public_role role = member role team_roles && not (role == "orchestrator")

abbrev initial_role : Query → String
initial_role q =
    if is_public_role q.preferred_role
    then q.preferred_role
    else q.policy.sprint_initial_default_role

-- A class of request from which an execution role hands over outside a sprint.
abbrev pub hands_over : String → Bool
hands_over c = member c (
    "planning_only" ∷ "implementation_ready" ∷ "qa_pending" ∷ "closeout_ready" ∷ "blocked_resume"
    ∷ [])

abbrev pub next_roles : Call → Query → AgentCapability → List String
next_roles call q c =
    if not call.is_internal_sprint_request && not (hands_over q.request_state_class)
    then []
    else keep is_public_role c.allowed_next_roles

-- The roles that are considered. Where there are none the selection has no role.
unfoldable pub candidate_roles : Call → Query → Option (List String)
unfolding get_agent_capability
candidate_roles call q =
    if call.current_role == "research"
    then some ("planner" ∷ [])
    else if call.current_role == "planner"
    then some (
        if is_empty q.preferred_role && not (q.request_state_class == "execution_opened")
        then []
        else execution_agent_roles)
    else if executing call
    then and_then (get_agent_capability call.current_role q.policy)
        (λ c. some (next_roles call q c))
    else some []

-- The reasons to drop the best candidate.
abbrev pub dropped : Call → Query → Candidate → Bool
dropped call q best =
    let no_evidence = is_zero best.details.evidence_score in
    call.current_role == "planner" && is_empty q.preferred_role && no_evidence
    || executing call && not call.is_internal_sprint_request && no_evidence
    || q.policy.planner_reentry_requires_explicit_signal
      && executing call
      && best.role == "planner"
      && is_empty q.preferred_role
      && not call.planner_reentry_has_explicit_signal
    || call.current_role == "qa" && no_evidence

abbrev kept : List String → List String
kept items = keep (λ s. not (is_empty s)) (map strip items)

abbrev signals_of : Query → Candidate → List String
signals_of q best =
    let signals = kept best.details.matched_signals in
    if is_nil signals && best.role == q.preferred_role then "preferred_role" ∷ [] else signals

abbrev selection_of : Query → Pool → Candidate → Selection
selection_of q pool best = record (unselected q) {
  selected_role = best.role;
  matched_signals = signals_of q best;
  matched_strongest_domains = kept best.details.matched_strongest_domains;
  matched_preferred_skills = kept best.details.matched_preferred_skills;
  matched_behavior_traits = kept best.details.matched_behavior_traits;
  score_total = best.details.score_total;
  score_breakdown = some best.details.score_breakdown;
  candidate_summary = candidate_summary pool;
}

unfoldable pub choose : Call → Query → Pool → List Candidate → Selection
unfolding strip
choose call q pool [] = record (unselected q) { candidate_summary = candidate_summary pool }
choose call q pool (best ∷ others) =
    if dropped call q best
    then record (unselected q) { candidate_summary = candidate_summary pool }
    else selection_of q pool best

abbrev pick : Call → Query → Pool → Selection
pick call q pool = choose call q pool (ranked pool)

-- With no candidate role there is no candidate summary either.
unfoldable pub select_candidate : Call → Query → Option Selection
unfolding candidate_roles candidates choose
select_candidate call q =
    and_then (candidate_roles call q)
      (λ roles. and_then (candidates q roles) (λ pool. some (pick call q pool)))

unfoldable pub select : Call → Query → Option Selection
unfolding select_candidate
select call q =
    let chosen = select_candidate call q in
    if call.selection_source == "user_intake"
    then some (by_policy q q.policy.user_intake_role "policy:user_intake" "user_intake")
    else if call.selection_source == "blocked_backlog_review"
    then some (
        by_policy q q.policy.backlog_review_role "policy:blocked_backlog_review"
          "blocked_backlog_review")
    else if call.selection_source == "planning_resume"
    then some (by_policy q q.policy.planning_resume_role "policy:planning_resume" "planning_resume")
    else if call.selection_source == "sprint_initial"
    then some (by_policy q (initial_role q) "policy:sprint_initial_owner" "sprint initial owner")
    else chosen

abbrev pub class_of : Call → Option String
class_of call =
    classify_request_state (normalized call.intent) call.policy call.current_role
      (strip call.preferred_role) call.selection_source
      (normalize_routing_reference_text call.routing_text) call.is_internal_sprint_request

abbrev pub routing_phase_of : Call → String → Option String
routing_phase_of call state_class =
    derive_routing_phase call.policy call.current_role (strip call.preferred_role)
      call.selection_source state_class (normalized call.intent)
      (normalize_routing_reference_text call.routing_text)

abbrev pub query_with : Call → String → String → Query
query_with call state_class phase = record {
  policy = call.policy;
  intent = normalized call.intent;
  text = normalize_routing_reference_text call.routing_text;
  routing_phase = phase;
  request_state_class = state_class;
  preferred_role = strip call.preferred_role;
}

-- The query of a call: its texts in normal form, the class of the request, and the phase.
unfoldable pub query_of : Call → Option Query
unfolding strip normalized normalize_routing_reference_text classify_request_state
    derive_routing_phase
query_of call = and_then (class_of call) (λ state_class.
    and_then (routing_phase_of call state_class)
      (λ phase. some (query_with call state_class phase)))

unfoldable pub build_governed_routing_selection : Call → Option Selection
unfolding query_of select
build_governed_routing_selection call = and_then (query_of call) (λ q. select call q)
