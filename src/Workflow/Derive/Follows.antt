-- ===== src/Workflow/Derive/Follows.antt =====
-- Every decision that `derive_workflow_routing_decision` makes follows the diagram.
use mathlib.Core.Path.{subst}
use mathlib.Core.Option.{some-injective, none-ne-some}
use sprint_runtime.Prelude.{
  sym, ◌∙◌, inl, inr, Bool-cases, if_both, ◌≡◌, refl, String, Bool, true, false, ◌&&◌, some, arith,
}
use sprint_runtime.Workflow.{
  Step, research_initial, planner_draft, planner_finalize, architect_guidance, developer_build,
  architect_review, developer_revision, qa_validation, closeout, WorkflowState, Transition,
}
use sprint_runtime.Workflow.Requested.{requests_explicit_continuation, requests_validation_handoff}
use sprint_runtime.Workflow.Routes.{workflow_review_cycle_limit_reached}
use sprint_runtime.Workflow.WellFormed.{IsWellFormed}
use sprint_runtime.Workflow.Decisions.{Decision, workflow_terminal_block_decision}
use sprint_runtime.Prelude.Text.{is_empty}
use sprint_runtime.Workflow.Derive.{
  is_block, from_research, from_planner, from_advisory, from_guidance, reopened_by, from_build,
  from_review, to_revision, from_revision, from_qa, derive_step, derive_workflow_routing_decision,
  is_reopen, review_without_handoff, is_developer_category, is_review_step,
}
use sprint_runtime.Workflow.Derive.Diagram.{Honest, Follows, is_closeout}
use sprint_runtime.Workflow.Derive.Routed.{
  reopens, draft-Follows, finalize-Follows, block-Follows, limit_block-Follows, build-Follows,
  revise-Follows, review-Follows, qa-Follows, complete-Follows, reopen-Follows,
}
use sprint_runtime.Workflow.Derive.Planned.{from_planner-Follows}

module _ (s : WorkflowState) (w : IsWellFormed s) (t : Transition) (current reason : String) where
  -- `current_role or owner` is still in the name of QA exactly at QA's step.
  reopened-Follows :
      (step : Step) (owner : String)
      → s.step ≡ step
      → reopens step ≡ true
      → Honest step current
      → Honest step owner
      → Follows s (reopened_by s t current reason owner)
  unfolding reopened_by
  reopened-Follows step owner e h k j =
      reopen-Follows s w step _ _ _ e h (if_both (Honest step) (is_empty current) j k)

  to_revision-Follows : s.step ≡ architect_review → Follows s (to_revision s t current reason)
  unfolding to_revision
  to_revision-Follows e = revise-Follows s w _ _ (ground arith)

  below_limit-Follows :
      s.step ≡ architect_review
      → Honest architect_review current
      → Follows s (review_without_handoff s t current reason)
  unfolding review_without_handoff
  below_limit-Follows e h =
      elim (Bool-cases
        (workflow_review_cycle_limit_reached (some s) && requests_explicit_continuation t)) [
          | inl stop ↦ rw stop (limit_block-Follows s w _ _)
          | inr on ↦ rw on (
              if_both (Follows s) (is_reopen t.outcome)
                (if_both (Follows s) (is_developer_category t.reopen_category)
                  (to_revision-Follows e)
                  (reopened-Follows architect_review "architect" e refl h refl))
                (to_revision-Follows e))
        ]

  from_review-Follows :
      s.step ≡ architect_review
      → Honest architect_review current
      → Follows s (from_review s t current reason)
  unfolding from_review to_revision
  from_review-Follows e h = elim (Bool-cases (requests_validation_handoff t)) [
    | inl pass ↦ rw pass (qa-Follows s w _ (ground arith))
    | inr not_yet ↦ rw not_yet (below_limit-Follows e h)
  ]

  from_revision-Follows :
      s.step ≡ developer_revision
      → Honest developer_revision current
      → Follows s (from_revision s t current reason)
  unfolding from_revision
  from_revision-Follows e h =
      if_both (Follows s) (is_reopen t.outcome)
        (reopened-Follows developer_revision "developer" e refl h refl)
        (if_both (Follows s) (is_review_step t.target_step) (review-Follows s w _ _ (ground arith))
          (qa-Follows s w _ (ground arith)))

  step_decision : Step → Bool → Decision
  step_decision research_initial close = from_research s t current reason
  step_decision planner_draft close = from_planner s t current reason close
  step_decision planner_finalize close = from_planner s t current reason close
  step_decision architect_guidance close = from_guidance s t current reason
  step_decision developer_build close = from_build s t current reason
  step_decision architect_review close = from_review s t current reason
  step_decision developer_revision close = from_revision s t current reason
  step_decision qa_validation close = from_qa s t current reason
  step_decision _ close = from_advisory s t current reason

  step_decision-Follows :
      (step : Step) (close : Bool)
      → s.step ≡ step
      → is_closeout step ≡ false
      → Honest step current
      → Follows s (step_decision step close)
  unfolding step_decision from_research from_advisory from_guidance from_build from_qa
  step_decision-Follows research_initial close e n h = draft-Follows s w _ _ (ground arith)
  step_decision-Follows planner_draft close e n h =
      from_planner-Follows s w t current reason close (inl e)
  step_decision-Follows planner_finalize close e n h =
      from_planner-Follows s w t current reason close (inr e)
  step_decision-Follows architect_guidance close e n h =
      if_both (Follows s) (is_reopen t.outcome)
        (reopened-Follows architect_guidance "architect" e refl h refl)
        (build-Follows s w _ _ (ground arith))
  step_decision-Follows developer_build close e n h =
      if_both (Follows s) (is_reopen t.outcome)
        (reopened-Follows developer_build "developer" e refl h refl)
        (review-Follows s w _ _ (ground arith))
  step_decision-Follows architect_review close e n h = from_review-Follows e h
  step_decision-Follows developer_revision close e n h = from_revision-Follows e h
  step_decision-Follows qa_validation close e n h =
      if_both (Follows s) (is_reopen t.outcome) (reopened-Follows qa_validation "qa" e refl h refl)
        (complete-Follows s w _ (ground arith))
  step_decision-Follows closeout close e n h = cc
  step_decision-Follows _ close e n h = finalize-Follows s w _ _ (ground arith)

  derive_step-eq-decision :
      (step : Step) (close : Bool)
      → is_closeout step ≡ false
      → derive_step s t current reason step close ≡ some (step_decision step close)
  unfolding derive_step step_decision
  derive_step-eq-decision research_initial close n = refl
  derive_step-eq-decision closeout close n = cc
  derive_step-eq-decision _ close n = refl

-- A report on a well-formed state before the closeout, which is in the name of QA exactly at QA's
-- own step, gets a decision, and the decision follows the diagram: it takes an edge or, where it
-- blocks the request, stays at its step, names the owner of the new step, and changes the counters
-- only at the advisory and review steps.
pub derive-Follows :
    (s : WorkflowState) (t : Transition) (current reason : String) (close : Bool)
    → IsWellFormed s
    → is_closeout s.step ≡ false
    → Honest s.step current
    → (d : Decision) × (derive_workflow_routing_decision (some s) t current reason close ≡ some d)
      × Follows s d
unfolding derive_workflow_routing_decision
derive-Follows s t current reason close w n h = elim (Bool-cases (is_block t.outcome)) [
  | inl e ↦ (
    workflow_terminal_block_decision (some s) reason t.reopen_category,
    rw e refl,
    block-Follows s w _ _,
  )
  | inr e ↦ (
    step_decision s w t current reason s.step close,
    rw e (derive_step-eq-decision s w t current reason s.step close n),
    step_decision-Follows s w t current reason s.step close refl n h,
  )
]

-- At the closeout only a block is decided.
closeout-Follows :
    (s : WorkflowState) (t : Transition) (current reason : String) (close : Bool) {d : Decision}
    → IsWellFormed s
    → s.step ≡ closeout
    → derive_workflow_routing_decision (some s) t current reason close ≡ some d
    → Follows s d
unfolding derive_workflow_routing_decision
closeout-Follows s t current reason close w c e = elim (Bool-cases (is_block t.outcome)) [
  | inl b ↦
      subst (Follows s) (some-injective _ _ (rw b at e))
        (block-Follows s w reason t.reopen_category)
  | inr b ↦ absurd (none-ne-some _ (rw (b, c, derive_step) at e))
]

-- Every decision, at the closeout too, follows the diagram.
pub decided-Follows :
    (s : WorkflowState) (t : Transition) (current reason : String) (close : Bool) {d : Decision}
    → IsWellFormed s
    → Honest s.step current
    → derive_workflow_routing_decision (some s) t current reason close ≡ some d
    → Follows s d
decided-Follows s t current reason close w h e = elim (Bool-cases (is_closeout s.step)) [
  | inl c ↦ closeout-Follows s t current reason close w (ground arith) e
  | inr n ↦
      let (d', p, f) = derive-Follows s t current reason close w n h in
      subst (Follows s) (some-injective _ _ (sym p ∙ e)) f
]
