-- ===== src/Workflow/Derive/Planned.antt =====
-- Every decision on a report from a step of the planner follows the diagram.
use sprint_runtime.Prelude.{
  inl, inr, ◌⊎◌, Bool-cases, if_both, ◌==◌, ◌≡◌, refl, String, Bool, true, not, ◌&&◌, ◌||◌, Option,
  none, some, arith,
}
use sprint_runtime.Workflow.{
  Step, planner_draft, designer_advisory, architect_advisory, planner_finalize, architect_guidance,
  closeout, WorkflowState, Transition,
}
use sprint_runtime.Workflow.WellFormed.{IsWellFormed}
use sprint_runtime.Workflow.Derive.{
  open_advisory, leave_planning, after_reopen_test, advisory_target, from_planner, is_reopen,
  is_finalize_step, is_scope,
}
use sprint_runtime.Workflow.Derive.Diagram.{edge, Follows}
use sprint_runtime.Workflow.Derive.Routed.{
  finalize-Follows, block-Follows, guidance-Follows, complete-Follows, advisory-Follows,
}

module _ (s : WorkflowState) (w : IsWellFormed s) (t : Transition) (current reason : String) where
  leave-Follows :
      (close : Bool)
      → edge s.step closeout ≡ true
      → edge s.step architect_guidance ≡ true
      → Follows s (leave_planning s t current reason close)
  unfolding leave_planning
  leave-Follows close h k =
      if_both (Follows s) close (complete-Follows s w _ h) (guidance-Follows s w _ _ k)

  advisory_target-Follows :
      (close : Bool) (step : Step)
      → (s.step ≡ planner_draft) ⊎ (s.step ≡ planner_finalize)
      → Follows s (after_reopen_test s t current reason close (advisory_target (some step)))
  unfolding after_reopen_test open_advisory
  advisory_target-Follows close designer_advisory h =
      if_both (Follows s) _
        (if_both (Follows s) _ (block-Follows s w _ _)
          (advisory-Follows s w _ _ designer_advisory refl (ground arith) (ground arith)))
        (leave-Follows close (ground arith) (ground arith))
  advisory_target-Follows close architect_advisory h =
      if_both (Follows s) _
        (if_both (Follows s) _ (block-Follows s w _ _)
          (advisory-Follows s w _ _ architect_advisory refl (ground arith) (ground arith)))
        (leave-Follows close (ground arith) (ground arith))
  advisory_target-Follows close _ h = leave-Follows close (ground arith) (ground arith)

  after_test-Follows :
      (close : Bool) (target : Option Step)
      → (s.step ≡ planner_draft) ⊎ (s.step ≡ planner_finalize)
      → Follows s (after_reopen_test s t current reason close (advisory_target target))
  unfolding after_reopen_test
  after_test-Follows close none h = leave-Follows close (ground arith) (ground arith)
  after_test-Follows close (some step) h = advisory_target-Follows close step h

  pub from_planner-Follows :
      (close : Bool)
      → (s.step ≡ planner_draft) ⊎ (s.step ≡ planner_finalize)
      → Follows s (from_planner s t current reason close)
  unfolding from_planner
  from_planner-Follows close h =
      let to_finalize : edge s.step planner_finalize ≡ true = ground arith in
      elim (Bool-cases (not (current == "planner"))) [
        | inl other ↦ rw other (finalize-Follows s w _ _ to_finalize)
        | inr same ↦
            rw same
              (elim (Bool-cases (
                is_reopen t.outcome
                && (is_finalize_step t.target_step || is_scope t.reopen_category))) [
                  | inl again ↦ rw again (finalize-Follows s w _ _ to_finalize)
                  | inr on ↦ rw on (after_test-Follows close t.target_step h)
                ])
      ]
