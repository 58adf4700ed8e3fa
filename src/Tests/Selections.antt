-- ===== src/Tests/Selections.antt =====
-- Selections under a small policy.
use sprint_runtime.Prelude.Sorting.{sort_by}
use sprint_runtime.Prelude.{◌≡◌, refl, String, true, some, List, [], ◌∷◌}
use sprint_runtime.Prelude.Text.{strip}
use sprint_runtime.Prelude.Lists.{member}
use sprint_runtime.Python.{pos}
use sprint_runtime.Governed.{AgentCapability, AgentUtilizationPolicy, get_agent_capability}
use sprint_runtime.Governed.Select.{
  Call, Selection, build_governed_routing_selection, query_of, is_public_role,
}
use sprint_runtime.Governed.Candidates.{Query}
use sprint_runtime.Governed.Chosen.{Chosen, selection-Chosen}
use sprint_runtime.Governed.Handover.{handed_over-allowed, planner_reentry-signalled}

abbrev capability : List String → List String → List String → AgentCapability
capability signals boundary next_roles = record {
  summary = "a role";
  strongest_for = [];
  preferred_skills = [];
  routing_signals = signals;
  strongest_domain_signals = [];
  preferred_skill_signals = [];
  behavior_traits = [];
  behavior_signals = [];
  should_not_handle = boundary;
  allowed_next_roles = next_roles;
  owned_intents = [];
  phase_fit = [];
  request_state_fit = [];
  routing_priority = pos 0;
}

abbrev qa_capability : AgentCapability
qa_capability = capability ("regression" ∷ []) ("code edits" ∷ []) []

abbrev small_policy : AgentUtilizationPolicy
small_policy = record {
  policy_source = "test";
  weights = record {
    owned_intent = pos 60;
    routing_signal = pos 10;
    strongest_domain_signal = pos 12;
    preferred_skill_signal = pos 8;
    behavior_signal = pos 6;
    phase_fit = pos 20;
    request_state_fit = pos 12;
  };
  capabilities =
      ("developer", capability ("code" ∷ []) [] ("qa" ∷ "planner" ∷ []))
      ∷ ("qa", qa_capability)
      ∷ ("planner", capability ("plan" ∷ []) [] [])
      ∷ [];
  user_intake_role = "planner";
  backlog_review_role = "planner";
  planning_resume_role = "planner";
  sprint_initial_default_role = "research";
  planner_reentry_requires_explicit_signal = true;
}

abbrev handover : String → Call
handover routing_text = record {
  intent = "execute";
  policy = small_policy;
  current_role = "developer";
  preferred_role = "";
  selection_source = "role_report";
  routing_text = routing_text;
  is_internal_sprint_request = true;
  planner_reentry_has_explicit_signal = true;
}

to_qa :
    (sel : Selection) × (build_governed_routing_selection (handover "Regression tests") ≡ some sel)
unfolding build_governed_routing_selection
to_qa = (_, refl)

to_planner :
    (sel : Selection) × (build_governed_routing_selection (handover "plan the scope") ≡ some sel)
unfolding build_governed_routing_selection
to_planner = (_, refl)

selection-Chosen_example :
    (q : Query) × (query_of (handover "Regression tests") ≡ some q)
    × Chosen (handover "Regression tests") q to_qa.0.selected_role
unfolding to_qa sort_by
selection-Chosen_example = selection-Chosen (handover "Regression tests") to_qa.1 refl refl

handed_over-allowed_example :
    (c : AgentCapability) × (get_agent_capability "developer" small_policy ≡ some c)
    × (is_public_role to_qa.0.selected_role ≡ true)
    × (member to_qa.0.selected_role c.allowed_next_roles ≡ true)
unfolding to_qa sort_by
handed_over-allowed_example =
    handed_over-allowed (handover "Regression tests") to_qa.1 refl refl refl

planner_reentry-signalled_example :
    (handover "plan the scope").planner_reentry_has_explicit_signal ≡ true
unfolding to_planner strip sort_by
planner_reentry-signalled_example =
    planner_reentry-signalled (handover "plan the scope") to_planner.1 refl refl refl refl refl

to_qa-role : to_qa.0.selected_role ≡ "qa"
unfolding to_qa sort_by
to_qa-role = refl

to_planner-role : to_planner.0.selected_role ≡ "planner"
unfolding to_planner sort_by
to_planner-role = refl
