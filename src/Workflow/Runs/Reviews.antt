-- ===== src/Workflow/Runs/Reviews.antt =====
-- The limit on architect reviews: where it holds a run, and where it does not.
use sprint_runtime.Prelude.{
  inl, inr, ℕ, ◌+◌, ◌≤◌, ◌<◌, ◌≡◌, refl, true, false, some, List, [], ◌∷◌, arith, not, Bool-cases,
}
use sprint_runtime.Workflow.{Step, architect_review, developer_revision, no_outcome, WorkflowState}
use sprint_runtime.Workflow.WellFormed.{IsWellFormed}
use sprint_runtime.Workflow.Requested.{requests_explicit_continuation, requests_validation_handoff}
use sprint_runtime.Workflow.Routes.{cycle_limit}
use sprint_runtime.Workflow.Decisions.{
  workflow_review_cycle_limit_block_decision, workflow_route_to_developer_build_decision, Route,
  routed,
}
use sprint_runtime.Workflow.Derive.{derive_workflow_routing_decision, category_or, text_or}
use sprint_runtime.Workflow.Derive.Diagram.{is_review, one_if}
use sprint_runtime.Workflow.Runs.{
  Report, decide, Reach, here, next, next-Follows, Reach-IsWellFormed,
}

-- A review that is not passed on to QA, asks to go on, and has reached the limit, is blocked.
pub review_limit-blocks :
    (s : WorkflowState) (report : Report)
    → s.step ≡ architect_review
    → requests_validation_handoff report.transition ≡ false
    → requests_explicit_continuation report.transition ≡ true
    → cycle_limit s.review_cycle_limit ≤ s.review_cycle_count
    → decide s report
      ≡ some (
          workflow_review_cycle_limit_block_decision
            (some s)
            report.reason
            (category_or report.transition.reopen_category))
unfolding derive_workflow_routing_decision
review_limit-blocks s report e h x l = ground arith

-- A review with no outcome, and no request for QA, goes back to the developer whatever the count.
pub silent_review-revises :
    (s : WorkflowState) (report : Report)
    → s.step ≡ architect_review
    → report.transition.outcome ≡ no_outcome
    → requests_validation_handoff report.transition ≡ false
    → decide s report
      ≡ some (
          workflow_route_to_developer_build_decision
            (some s)
            (text_or report.reason "architect review 결과를 developer가 반영합니다.")
            developer_revision
            report.transition.reopen_category)
unfolding derive_workflow_routing_decision
silent_review-revises s report e o h = ground arith

-- Every report from the architect's review asks to go on by name, and none hands over to QA.
abbrev pub Strict :
    {start : WorkflowState} {left : List Step} {s : WorkflowState} → Reach start left s → Type 0
Strict here = Unit
Strict (next {s = s} run report route honest e) =
    (is_review s.step ≡ true
      → (requests_validation_handoff report.transition ≡ false)
        × (requests_explicit_continuation report.transition ≡ true))
    × Strict run

abbrev WithinLimit : WorkflowState → Type 0
WithinLimit s = s.review_cycle_count + one_if (not (is_review s.step)) ≤ s.review_cycle_limit

-- The limit is not reached at a review that a strict report routes on.
routed-below :
    (s : WorkflowState) (report : Report) {route : Route}
    → decide s report ≡ some (routed route)
    → (is_review s.step ≡ true
        → (requests_validation_handoff report.transition ≡ false)
          × (requests_explicit_continuation report.transition ≡ true))
    → 1 ≤ s.review_cycle_limit
    → WithinLimit s
    → s.review_cycle_count < s.review_cycle_limit
unfolding workflow_review_cycle_limit_block_decision
routed-below s report e strict room h = elim (Bool-cases (is_review s.step)) [
  | inl r ↦
      let (no_handoff, explicit) = strict r in
      ground (arith, review_limit-blocks s report (ground arith) no_handoff explicit)
  | inr n ↦ ground arith
]

WithinLimit-Reach :
    {start : WorkflowState} {left : List Step} {s : WorkflowState}
    → IsWellFormed start
    → WithinLimit start
    → (run : Reach start left s) → Strict run
    → WithinLimit s
WithinLimit-Reach w h here strict = h
WithinLimit-Reach w h (next {s = s} run report route honest e) (now, before) =
    let f = next-Follows w run report honest e in
    ground (
      arith,
      routed-below s report e now (Reach-IsWellFormed w run).cycle_room
          (WithinLimit-Reach w h run before),
      f.cycle_count,
      f.cycle_limit,
    )

abbrev pub review_visits : List Step → ℕ
review_visits [] = 0
review_visits (x ∷ left) = one_if (is_review x) + review_visits left

review_cycle_count-Reach :
    {start : WorkflowState} {left : List Step} {s : WorkflowState}
    → IsWellFormed start
    → Reach start left s
    → (start.review_cycle_count + review_visits (s.step ∷ left)
        ≡ s.review_cycle_count + one_if (is_review start.step))
      × (s.review_cycle_limit ≡ start.review_cycle_limit)
review_cycle_count-Reach w here = (omega arith, refl)
review_cycle_count-Reach w (next run report route honest e) =
    let f = next-Follows w run report honest e in
    let before = review_cycle_count-Reach w run in
    (omega (arith, before, f.cycle_count), omega (arith, before, f.cycle_limit))

-- A run from a well-formed state below its review limit, in which every report from the architect's
-- review names an outcome that goes on and hands nothing over to QA, visits the review at most as
-- often as the limit leaves room for.
pub review_visits_bounded :
    {start : WorkflowState} {left : List Step} {s : WorkflowState}
    → IsWellFormed start
    → start.review_cycle_count + one_if (not (is_review start.step)) ≤ start.review_cycle_limit
    → (run : Reach start left s) → Strict run
    → start.review_cycle_count + review_visits (s.step ∷ left)
      ≤ start.review_cycle_limit + one_if (is_review start.step)
review_visits_bounded w h run strict =
    omega (arith, review_cycle_count-Reach w run, WithinLimit-Reach w h run strict)
