-- ===== src/Workflow/Runs/Silent.antt =====
-- Reviews that name no outcome: `derive_workflow_routing_decision` consults the limit on reviews
-- for a named outcome only.
use sprint_runtime.Workflow.{Step, architect_review, no_outcome, unset, WorkflowState}
use sprint_runtime.Workflow.Runs.{
  Report, Reach, here, next, decide, derive_workflow_routing_decision,
}
use sprint_runtime.Workflow.Runs.Reviews.{silent_review-revises, review_visits}
use sprint_runtime.Workflow.Derive.{derive_workflow_routing_decision}
use sprint_runtime.Workflow.Decisions.{
  workflow_route_to_developer_build_decision, terminal_block, completion, Decision, Route, routed,
  Decision,
}
use sprint_runtime.Workflow.{developer_revision}
use sprint_runtime.Workflow.Names.{role_text}
use sprint_runtime.Workflow.WellFormed.{owner_of}
use sprint_runtime.Prelude.{
  Option, Bool, true, String, if◌then◌else◌, ℕ, zero, suc, ◌≡◌, refl, false, some, none, List, [],
  ◌∷◌, arith, Bool, String, Option,
}

-- A report with no outcome; `back` asks for the architect's review by its target.
silent_report : Bool → String → Report
silent_report back role = record {
  transition = record {
    outcome = no_outcome;
    target_phase = none;
    target_step = if back then some architect_review else none;
    reopen_category = unset;
    reason = "";
    unresolved_items = [];
    finalize_phase = false;
  };
  role = role;
  reason = "";
  close = false;
}

-- Every report comes from the owner of its step and names no outcome.
abbrev pub Silent :
    {start : WorkflowState} {left : List Step} {s : WorkflowState} → Reach start left s → Type 0
Silent here = Unit
Silent (next {s = s} run report route honest e) =
    (report.transition.outcome ≡ no_outcome)
    × (report.role ≡ role_text (owner_of s.step))
    × Silent run

-- A silent run from `start` that is at the architect's review again, after `n` reviews on the way.
abbrev pub Reviewed : WorkflowState → ℕ → Type 0
Reviewed start n =
    (left : List Step) × (s : WorkflowState) × (run : Reach start left s) × Silent run
    × (s.step ≡ architect_review)
    × (review_visits left ≡ n)

abbrev RoutesTo : Step → Option Decision → Type 0
RoutesTo step (some (routed r)) = r.workflow_state.step ≡ step
RoutesTo step _ = ⊥

route_of :
    (step : Step) (d : Option Decision)
    → RoutesTo step d
    → (route : Route) × (d ≡ some (routed route)) × (route.workflow_state.step ≡ step)
route_of step (some (routed r)) h = (r, refl, h)
route_of step none h = absurd h
route_of step (some (terminal_block _ _)) h = absurd h
route_of step (some (completion _ _)) h = absurd h

silent_review :
    (s : WorkflowState)
    → s.step ≡ architect_review
    → RoutesTo developer_revision (decide s (silent_report false "architect"))
unfolding workflow_route_to_developer_build_decision silent_report
silent_review s e = rw (silent_review-revises s (silent_report false "architect") e refl refl) refl

silent_revision :
    (s : WorkflowState)
    → s.step ≡ developer_revision
    → RoutesTo architect_review (decide s (silent_report true "developer"))
unfolding derive_workflow_routing_decision silent_report
silent_revision s e = rw e refl

review_again : (start : WorkflowState) (n : ℕ) → Reviewed start n → Reviewed start (suc n)
unfolding silent_report
review_again start n (left, s, run, silent, at_review, visits) =
    let (revise, e, at_revision) = route_of _ _ (silent_review s at_review) in
    let (review, e', at_next) = route_of _ _ (silent_revision revise.workflow_state at_revision) in
    (
      revise.workflow_state.step ∷ s.step ∷ left,
      review.workflow_state,
      next (next run (silent_report false "architect") revise (rw at_review refl) e)
          (silent_report true "developer") review (rw at_revision refl) e',
      (refl, rw at_revision refl, (refl, rw at_review refl, silent)),
      at_next,
      rw (at_review, at_revision) (omega (arith, visits)),
    )

-- From every state at the architect's review, whatever its limit and its count, there is for every
-- number a run that is at the review again after that many reviews, each report of which comes from
-- the owner of its step and names no outcome.
pub silent_reviews_unbounded :
    (start : WorkflowState) (n : ℕ) → start.step ≡ architect_review → Reviewed start n
silent_reviews_unbounded start zero e = ([], start, here, tt, e, refl)
silent_reviews_unbounded start (suc n) e = review_again start n (silent_reviews_unbounded start n e)
