-- ===== src/Workflow/Runs.antt =====
-- Sequences of reports: each routed decision is stored with the request, and the role that it names
-- reports next.
pub mod Gates
pub mod Passes
pub mod Reviews
pub mod Silent
pub mod Progress
use sprint_runtime.Prelude.{
  ◌≡◌, ◌≢◌, String, Bool, true, false, not, Option, none, some, List, [], ◌∷◌,
}
use sprint_runtime.Workflow.{Step, closeout, WorkflowState, Transition}
use sprint_runtime.Workflow.WellFormed.{IsWellFormed}
use sprint_runtime.Workflow.Decisions.{Decision, Route, routed}
use sprint_runtime.Workflow.Derive.{derive_workflow_routing_decision}
use sprint_runtime.Workflow.Derive.Diagram.{Honest, Follows, edge}
use sprint_runtime.Workflow.Derive.Follows.{derive-Follows, decided-Follows}

-- What a role's report gives to the decision.
pub record Report : Type 0 where
  pub transition : Transition
  pub role : String
  pub reason : String
  pub close : Bool

abbrev pub decide : WorkflowState → Report → Option Decision
decide s r = derive_workflow_routing_decision (some s) r.transition r.role r.reason r.close

-- The states that reports lead to from `start`, with the steps that were left on the way, the last
-- one first.
pub data Reach (start : WorkflowState) : List Step → WorkflowState → Type 0 where
  here : Reach start [] start
  next :
      {left : List Step} {s : WorkflowState}
      → Reach start left s
      → (report : Report) (route : Route) → Honest s.step report.role
      → decide s report ≡ some (routed route)
      → Reach start (s.step ∷ left) route.workflow_state

-- The state that a run leads to is well-formed if the run starts from a well-formed state.
pub Reach-IsWellFormed :
    {start : WorkflowState} {left : List Step} {s : WorkflowState}
    → IsWellFormed start
    → Reach start left s
    → IsWellFormed s
Reach-IsWellFormed w here = w
Reach-IsWellFormed w (next {s = s} run report route honest e) =
    (decided-Follows s report.transition report.role report.reason report.close
      (Reach-IsWellFormed w run) honest e).well_formed

pub next-Follows :
    {start : WorkflowState} {left : List Step} {s : WorkflowState}
    → IsWellFormed start
    → Reach start left s
    → (report : Report) {d : Decision} → Honest s.step report.role
    → decide s report ≡ some d
    → Follows s d
next-Follows {s} w run report honest e =
    decided-Follows s report.transition report.role report.reason report.close
      (Reach-IsWellFormed w run) honest e
