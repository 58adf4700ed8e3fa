-- ===== src/Governed/Scores.antt =====
-- The scores of a role for a request.
use sprint_runtime.Prelude.{
  ℕ, ◌+◌, ◌*◌, String, Bool, true, false, Option, some, List, [], ◌∷◌, ltb, if◌then◌else◌,
}
use sprint_runtime.Prelude.Text.{join}
use sprint_runtime.Prelude.Lists.{length, member, take}
use sprint_runtime.Python.{ℤ, pos}
use sprint_runtime.Python.Integers.{◌+ℤ◌, times}
use sprint_runtime.Governed.{
  AgentCapability, AgentUtilizationPolicy, get_agent_capability, and_then, expected_behavior,
  execution_agent_roles,
}
use sprint_runtime.Governed.Terms.{
  owns_intent, routing_signal_matches, strongest_domain_matches, preferred_skill_matches,
  behavior_trait_matches,
}

unfoldable pub execution_evidence_score : AgentCapability → String → String → ℕ
unfolding routing_signal_matches strongest_domain_matches preferred_skill_matches
execution_evidence_score c intent text =
    (if owns_intent c intent then 5 else 0)
    + length (routing_signal_matches c intent text)
    + length (strongest_domain_matches c text) * 2
    + length (preferred_skill_matches c text)

unfoldable pub role_hint_score : AgentCapability → String → String → ℕ
unfolding routing_signal_matches strongest_domain_matches preferred_skill_matches
    behavior_trait_matches
role_hint_score c intent text =
    (if owns_intent c intent then 5 else 0)
    + length (routing_signal_matches c intent text)
    + length (strongest_domain_matches c text) * 2
    + length (preferred_skill_matches c text)
    + length (behavior_trait_matches c text)

abbrev execution_intents : List String
execution_intents = "design" ∷ "architect" ∷ "implement" ∷ "execute" ∷ "qa" ∷ []

-- `any(execution_evidence_score(role, ...) > 0 for role in roles)`: no role is looked up after the
-- first that has evidence.
any_evidence : AgentUtilizationPolicy → String → String → List String → Option Bool
unfolding execution_evidence_score get_agent_capability
any_evidence policy intent text [] = some false
any_evidence policy intent text (role ∷ roles) =
    let rest = any_evidence policy intent text roles in
    and_then (get_agent_capability role policy)
      (λ c. if ltb 0 (execution_evidence_score c intent text) then some true else rest)

unfoldable pub request_indicates_execution : AgentUtilizationPolicy → String → String → Option Bool
unfolding any_evidence
request_indicates_execution policy intent text =
    if member intent execution_intents
    then some true
    else any_evidence policy intent text execution_agent_roles

pub record Breakdown : Type 0 where
  pub owned_intent : ℤ
  pub routing_signals : ℤ
  pub strongest_domains : ℤ
  pub preferred_skills : ℤ
  pub behavior_traits : ℤ
  pub phase_fit : ℤ
  pub request_state_fit : ℤ

-- The dictionary of `score_candidate_role`.
pub record ScoreDetails : Type 0 where
  pub role : String
  pub score_total : ℤ
  pub evidence_score : ℤ
  pub score_breakdown : Breakdown
  pub matched_signals : List String
  pub matched_strongest_domains : List String
  pub matched_preferred_skills : List String
  pub matched_behavior_traits : List String
  pub selected_for_strength : String
  pub suggested_skills : List String
  pub expected_behavior : String
  pub role_summary : String

abbrev pub evidence_of : Breakdown → ℤ
evidence_of b =
    b.owned_intent +ℤ b.routing_signals +ℤ b.strongest_domains +ℤ b.preferred_skills
    +ℤ b.behavior_traits

abbrev pub total_of : Breakdown → ℤ
total_of b = evidence_of b +ℤ b.phase_fit +ℤ b.request_state_fit

abbrev breakdown :
    AgentCapability → AgentUtilizationPolicy → String → String → String → String → Breakdown
breakdown c policy intent text routing_phase request_state_class =
    let w = policy.weights in
    record {
      owned_intent = if owns_intent c intent then w.owned_intent else pos 0;
      routing_signals = times (length (routing_signal_matches c intent text)) w.routing_signal;
      strongest_domains =
          times (length (strongest_domain_matches c text)) w.strongest_domain_signal;
      preferred_skills = times (length (preferred_skill_matches c text)) w.preferred_skill_signal;
      behavior_traits = times (length (behavior_trait_matches c text)) w.behavior_signal;
      phase_fit = if member routing_phase c.phase_fit then w.phase_fit else pos 0;
      request_state_fit =
          if member request_state_class c.request_state_fit then w.request_state_fit else pos 0;
    }

-- `c` is the capability of `role`.
unfoldable pub score_candidate_role :
    String
    → AgentCapability
    → AgentUtilizationPolicy
    → String
    → String
    → String
    → String
    → ScoreDetails
unfolding routing_signal_matches strongest_domain_matches preferred_skill_matches
    behavior_trait_matches times ◌+ℤ◌ join
score_candidate_role role c policy intent text routing_phase request_state_class =
    let b = breakdown c policy intent text routing_phase request_state_class in
    record {
      role = role;
      score_total = total_of b;
      evidence_score = evidence_of b;
      score_breakdown = b;
      matched_signals = routing_signal_matches c intent text;
      matched_strongest_domains = strongest_domain_matches c text;
      matched_preferred_skills = preferred_skill_matches c text;
      matched_behavior_traits = behavior_trait_matches c text;
      selected_for_strength = join ", " (take 2 c.strongest_for);
      suggested_skills = c.preferred_skills;
      expected_behavior = expected_behavior c;
      role_summary = c.summary;
    }
