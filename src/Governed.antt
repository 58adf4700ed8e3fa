-- ===== src/Governed.antt =====
-- workflows/orchestration/engine.py and workflows/roles/__init__.py: the selection of a role under
-- the utilization policy. A loaded policy is a value of the model; a role that the policy does not
-- describe makes the lookup raise KeyError, here `none`.
pub mod Terms
pub mod Scores
pub mod Phases
pub mod Candidates
pub mod Select
pub mod Ranking
pub mod Chosen
pub mod Handover
use sprint_runtime.Prelude.{
  String, ◌==◌, ◌<>◌, Bool, Option, none, some, List, [], ◌∷◌, if◌then◌else◌,
}
use sprint_runtime.Prelude.Text.{is_empty, join, strip}
use sprint_runtime.Prelude.Lists.{take}
use sprint_runtime.Python.{ℤ}

pub record AgentCapability : Type 0 where
  pub summary : String
  pub strongest_for : List String
  pub preferred_skills : List String
  pub routing_signals : List String
  pub strongest_domain_signals : List String
  pub preferred_skill_signals : List String
  pub behavior_traits : List String
  pub behavior_signals : List String
  pub should_not_handle : List String
  pub allowed_next_roles : List String
  pub owned_intents : List String
  pub phase_fit : List String
  pub request_state_fit : List String
  pub routing_priority : ℤ

pub record RoutingWeights : Type 0 where
  pub owned_intent : ℤ
  pub routing_signal : ℤ
  pub strongest_domain_signal : ℤ
  pub preferred_skill_signal : ℤ
  pub behavior_signal : ℤ
  pub phase_fit : ℤ
  pub request_state_fit : ℤ

-- `capabilities` holds the public and the internal ones under their names; the internal names are
-- no team roles.
pub record AgentUtilizationPolicy : Type 0 where
  pub policy_source : String
  pub weights : RoutingWeights
  pub capabilities : List (String × AgentCapability)
  pub user_intake_role : String
  pub backlog_review_role : String
  pub planning_resume_role : String
  pub sprint_initial_default_role : String
  pub planner_reentry_requires_explicit_signal : Bool

abbrev or_text : String → String → String
or_text s d = if is_empty s then d else s

abbrev pub expected_behavior : AgentCapability → String
expected_behavior c =
    let strengths = or_text (join ", " (take 2 c.strongest_for)) c.summary in
    let traits = join ", " (take 3 c.behavior_traits) in
    if is_empty traits
    then strengths <> " 중심으로 진행한다."
    else strengths <> " 중심으로 진행하고, " <> traits <> " 태도를 유지한다."

abbrev lookup : String → List (String × AgentCapability) → Option AgentCapability
lookup name [] = none
lookup name ((k, c) ∷ rest) = if k == name then some c else lookup name rest

unfoldable pub get_agent_capability : String → AgentUtilizationPolicy → Option AgentCapability
unfolding strip
get_agent_capability name policy = lookup (strip name) policy.capabilities

-- The rest of a computation that stops at a KeyError.
abbrev pub and_then {ℓ κ} : {A : Type ℓ} {B : Type κ} → Option A → (A → Option B) → Option B
and_then none go = none
and_then (some a) go = go a

abbrev pub team_roles : List String
team_roles =
    "orchestrator" ∷ "research" ∷ "planner" ∷ "designer" ∷ "architect" ∷ "developer" ∷ "qa" ∷ []

abbrev pub execution_agent_roles : List String
execution_agent_roles = "designer" ∷ "architect" ∷ "developer" ∷ "qa" ∷ []
