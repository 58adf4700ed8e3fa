-- ===== src/Workflow/Runs/Gates.antt =====
-- The gates of the workflow: what a request has gone through before it reaches a step.
use sprint_runtime.Prelude.{
  inl, inr, ◌≡◌, ◌⊎◌, Bool, true, false, ◌||◌, some, List, [], ◌∷◌, arith, String, eq_iff,
}
use sprint_runtime.Workflow.{
  Step, research_initial, planner_draft, planner_finalize, architect_guidance, developer_build,
  architect_review, developer_revision, qa_validation, WorkflowState, research_first_workflow_state,
}
use sprint_runtime.Workflow.WellFormed.{IsWellFormed, research_first-IsWellFormed}
use sprint_runtime.Workflow.Decisions.{completion}
use sprint_runtime.Workflow.Derive.{derive_workflow_routing_decision}
use sprint_runtime.Workflow.Derive.Diagram.{is_review, edge, is_closeout}
use sprint_runtime.Workflow.Runs.{
  Report, decide, Reach, here, next, next-Follows, derive_workflow_routing_decision,
}

abbrev pub is_guidance : Step → Bool
is_guidance architect_guidance = true
is_guidance _ = false

abbrev pub is_build : Step → Bool
is_build developer_build = true
is_build _ = false

abbrev pub is_planning_step : Step → Bool
is_planning_step planner_draft = true
is_planning_step planner_finalize = true
is_planning_step _ = false

abbrev pub passed : (Step → Bool) → List Step → Bool
passed p [] = false
passed p (x ∷ left) = p x || passed p left

-- What lies behind each step.
abbrev pub Behind : Step → List Step → Type 0
Behind architect_guidance left = passed is_planning_step left ≡ true
Behind developer_build left =
    (passed is_planning_step left ≡ true) × (passed is_guidance left ≡ true)
Behind architect_review left =
    (passed is_planning_step left ≡ true)
    × (passed is_guidance left ≡ true)
    × (passed is_build left ≡ true)
Behind developer_revision left =
    (passed is_planning_step left ≡ true)
    × (passed is_guidance left ≡ true)
    × (passed is_build left ≡ true)
    × (passed is_review left ≡ true)
Behind qa_validation left =
    (passed is_planning_step left ≡ true)
    × (passed is_guidance left ≡ true)
    × (passed is_build left ≡ true)
    × (passed is_review left ≡ true)
Behind _ left = Unit {0}

Behind-edge :
    (a b : Step) (left : List Step)
    → edge a b ≡ true
    → is_closeout b ≡ false
    → Behind a left
    → Behind b (a ∷ left)
Behind-edge research_initial b left e n h = ground arith
Behind-edge _ b left e n h = ground arith

-- In every run from a planning step each step has its gates behind it.
pub Reach-Behind :
    {start : WorkflowState} {left : List Step} {s : WorkflowState}
    → IsWellFormed start
    → Behind start.step []
    → Reach start left s
    → Behind s.step left
Reach-Behind w b here = b
Reach-Behind w b (next {left = left} {s = s} run report route honest e) =
    let leads = (next-Follows w run report honest e).leads in
    Behind-edge s.step route.workflow_state.step left leads.0 leads.1 (Reach-Behind w b run)

completion-source :
    (s : WorkflowState) (report : Report) {t : WorkflowState} {summary : String}
    → decide s report ≡ some (completion t summary)
    → (is_planning_step s.step ≡ true) × (report.close ≡ true) × (report.role ≡ "planner")
      ⊎ (s.step ≡ qa_validation)
unfolding derive_workflow_routing_decision
completion-source s report e = ground (arith, eq_iff report.role "planner")

-- In every run from research whose reports are in the name of QA exactly at QA's own step, a
-- completion is decided only by the planner, whose report closes the request in planning, or at
-- QA's validation, and then the request has been through a planner's step, the architect's
-- guidance, the developer's build and the architect's review.
pub completion_gates :
    {left : List Step} {s : WorkflowState}
    → Reach research_first_workflow_state left s
    → (report : Report) {t : WorkflowState} {summary : String}
    → decide s report ≡ some (completion t summary)
    → (is_planning_step s.step ≡ true) × (report.close ≡ true) × (report.role ≡ "planner")
      ⊎ (s.step ≡ qa_validation)
        × (passed is_planning_step left ≡ true)
        × (passed is_guidance left ≡ true)
        × (passed is_build left ≡ true)
        × (passed is_review left ≡ true)
completion_gates {left} {s} run report e = elim (completion-source s report e) [
  | inl p ↦ inl p
  | inr q ↦
      let (planned, guided, built, reviewed) =
        rw q at (Reach-Behind research_first-IsWellFormed tt run) in
      inr (q, planned, guided, built, reviewed)
]
