-- ===== src/Workflow/Runs/Progress.antt =====
-- A request whose reports all ask to go on is closed after a bounded number of reports.
use mathlib.Core.Path.{subst}
use sprint_runtime.Prelude.{
  ℕ, zero, suc, ◌≤◌, ◌<◌, ◌≡◌, refl, String, false, Option, none, some, [], arith,
}
use sprint_runtime.Workflow.{
  Step, research_initial, planner_draft, planner_advisory, designer_advisory, architect_advisory,
  planner_finalize, architect_guidance, developer_build, architect_review, developer_revision,
  qa_validation, closeout, unset, complete, WorkflowState,
}
use sprint_runtime.Workflow.Names.{role_text}
use sprint_runtime.Workflow.WellFormed.{IsWellFormed, owner_of}
use sprint_runtime.Workflow.Decisions.{Decision, routed, terminal_block, completion}
use sprint_runtime.Workflow.Derive.{derive_workflow_routing_decision}
use sprint_runtime.Workflow.Derive.Diagram.{is_closeout, Follows, Honest}
use sprint_runtime.Workflow.Derive.Follows.{derive-Follows}
use sprint_runtime.Workflow.Runs.{Report, decide}

-- The report of the owner of `step` that the step is complete.
abbrev pub done_report : (Step → String) → Step → Report
done_report say step = record {
  transition = record {
    outcome = complete;
    target_phase = none;
    target_step = none;
    reopen_category = unset;
    reason = say step;
    unresolved_items = [];
    finalize_phase = false;
  };
  role = role_text (owner_of step);
  reason = say step;
  close = false;
}

abbrev continue_with :
    Option Decision → (WorkflowState → Option WorkflowState) → Option WorkflowState
continue_with none go = none
continue_with (some (routed r)) go = go r.workflow_state
continue_with (some (terminal_block _ _)) go = none
continue_with (some (completion s _)) go = some s

-- The state at the completion, if as many reports as the fuel are enough.
pub drive : (Step → String) → ℕ → WorkflowState → Option WorkflowState
drive say zero s = none
drive say (suc fuel) s = continue_with (decide s (done_report say s.step)) (λ t. drive say fuel t)

-- How many reports are left at most.
abbrev pub reports_left : Step → ℕ
reports_left research_initial = 6
reports_left planner_draft = 5
reports_left planner_finalize = 5
reports_left planner_advisory = 6
reports_left designer_advisory = 6
reports_left architect_advisory = 6
reports_left architect_guidance = 4
reports_left developer_build = 3
reports_left architect_review = 2
reports_left developer_revision = 2
reports_left qa_validation = 1
reports_left closeout = 0

abbrev Progress : Step → Option Decision → Type 0
Progress step none = ⊥
Progress step (some (routed r)) = reports_left r.workflow_state.step < reports_left step
Progress step (some (terminal_block _ _)) = ⊥
Progress step (some (completion s _)) = s.step ≡ closeout

decide-Progress :
    (say : Step → String) (s : WorkflowState) (step : Step)
    → s.step ≡ step
    → is_closeout step ≡ false
    → Progress step (decide s (done_report say step))
unfolding derive_workflow_routing_decision
decide-Progress say s research_initial e n = ground arith
decide-Progress say s _ e n = ground arith

abbrev Completes : (Step → String) → ℕ → WorkflowState → Type 0
Completes say fuel s = (t : WorkflowState) × (drive say fuel s ≡ some t) × (t.step ≡ closeout)

drive_after :
    (say : Step → String) (fuel : ℕ) (s : WorkflowState)
    → ((t : WorkflowState)
        → IsWellFormed t
        → is_closeout t.step ≡ false
        → reports_left t.step ≤ fuel
        → Completes say fuel t)
    → reports_left s.step ≤ suc fuel
    → (d : Decision) → decide s (done_report say s.step) ≡ some d
    → Follows s d
    → Progress s.step (some d)
    → Completes say (suc fuel) s
unfolding drive
drive_after say fuel s ih room (routed r) e f p =
    let (t, q, c) = ih r.workflow_state f.well_formed f.leads.1 (omega arith) in (t, rw e q, c)
drive_after say fuel s ih room (terminal_block t _) e f p = absurd p
drive_after say fuel s ih room (completion t _) e f p = (t, rw e refl, p)

Honest-owner : (step : Step) → Honest step (role_text (owner_of step))
Honest-owner research_initial = refl
Honest-owner _ = refl

reports_left_pos : (step : Step) → is_closeout step ≡ false → 1 ≤ reports_left step
reports_left_pos step n = ground arith

-- From every well-formed state before the closeout, if the owner of each step reports it complete
-- and does not ask to close in planning, the request is completed, within any number of reports
-- that is at least what the step has left, which is 6 at most.
pub drive_completes :
    (say : Step → String) (fuel : ℕ) (s : WorkflowState)
    → IsWellFormed s
    → is_closeout s.step ≡ false
    → reports_left s.step ≤ fuel
    → (t : WorkflowState) × (drive say fuel s ≡ some t) × (t.step ≡ closeout)
drive_completes say zero s w n room = absurd (omega (arith, reports_left_pos s.step n))
drive_completes say (suc fuel) s w n room =
    let report = done_report say s.step in
    let (d, e, f) =
      derive-Follows s report.transition report.role report.reason false w n
        (Honest-owner s.step) in
    drive_after say fuel s (drive_completes say fuel) room d e f
      (subst (Progress s.step) e (decide-Progress say s s.step refl n))
