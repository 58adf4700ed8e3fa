-- ===== src/Governed/Candidates.antt =====
-- The candidates of a selection: those that the boundary excludes, and the scored ones in the order
-- of `sort(reverse=True)` on the tuples of score, priority, bonus and role. Two candidates of one
-- role, whose details Python could not compare, do not occur: a policy lists no role twice.
use sprint_runtime.Prelude.{
  ℕ, String, ◌==◌, Bool, Option, some, List, [], ◌∷◌, map, ◌++◌, if◌then◌else◌, ltb,
}
use sprint_runtime.Prelude.Lists.{is_nil}
use sprint_runtime.Prelude.Order.{lex, text_ltb}
use sprint_runtime.Prelude.Sorting.{sort_by}
use sprint_runtime.Python.{ℤ}
use sprint_runtime.Python.Integers.{ltb_ℤ}
use sprint_runtime.Governed.{
  AgentUtilizationPolicy, get_agent_capability, and_then, AgentCapability,
}
use sprint_runtime.Governed.Terms.{should_not_handle_matches}
use sprint_runtime.Governed.Scores.{ScoreDetails, Breakdown, score_candidate_role}

pub record Candidate : Type 0 where
  pub score : ℤ
  pub priority : ℤ
  pub bonus : ℕ
  pub role : String
  pub details : ScoreDetails

-- An entry of `candidate_summary`.
pub data Summary : Type 0 where
  scored : String → ℤ → Breakdown → List String → List String → List String → List String → Summary
  excluded : String → List String → Summary

pub record Pool : Type 0 where
  pub scored_candidates : List Candidate
  pub excluded_candidates : List Summary

-- What the selection of a role depends on.
pub record Query : Type 0 where
  pub policy : AgentUtilizationPolicy
  pub intent : String
  pub text : String
  pub routing_phase : String
  pub request_state_class : String
  pub preferred_role : String

abbrev candidate_of : Query → String → ScoreDetails → ℤ → Candidate
candidate_of q role details priority = record {
  score = details.score_total;
  priority = priority;
  bonus = if role == q.preferred_role then 1 else 0;
  role = role;
  details = details;
}

abbrev add_excluded : String → List String → Pool → Pool
add_excluded role matches pool = record pool {
  excluded_candidates = excluded role matches ∷ pool.excluded_candidates;
}

abbrev add_scored : Candidate → Pool → Pool
add_scored candidate pool = record pool { scored_candidates = candidate ∷ pool.scored_candidates }

-- The body of the loop for a role with its capability, put before the later candidates.
unfoldable pub add_candidate : Query → String → AgentCapability → Pool → Pool
unfolding should_not_handle_matches score_candidate_role
add_candidate q role c pool =
    let disallowed = should_not_handle_matches c q.text in
    if is_nil disallowed
    then add_scored
        (candidate_of q role
          (score_candidate_role role c q.policy q.intent q.text q.routing_phase
            q.request_state_class)
          c.routing_priority)
        pool
    else add_excluded role disallowed pool

-- The loop over the candidate roles.
unfoldable pub candidates : Query → List String → Option Pool
unfolding get_agent_capability add_candidate
candidates q [] = some (record { scored_candidates = []; excluded_candidates = [] })
candidates q (role ∷ roles) =
    let rest = candidates q roles in
    and_then (get_agent_capability role q.policy)
      (λ c. and_then rest (λ pool. some (add_candidate q role c pool)))

abbrev pub outranks : Candidate → Candidate → Bool
outranks =
    lex (λ a b. ltb_ℤ b.score a.score)
      (lex (λ a b. ltb_ℤ b.priority a.priority)
        (lex (λ a b. ltb b.bonus a.bonus) (λ a b. text_ltb b.role a.role)))

abbrev pub ranked : Pool → List Candidate
ranked pool = sort_by outranks pool.scored_candidates

abbrev summary_of : Candidate → Summary
summary_of c =
    scored c.role c.details.score_total c.details.score_breakdown c.details.matched_signals
      c.details.matched_strongest_domains c.details.matched_preferred_skills
      c.details.matched_behavior_traits

abbrev pub candidate_summary : Pool → List Summary
candidate_summary pool = map summary_of (ranked pool) ++ pool.excluded_candidates
