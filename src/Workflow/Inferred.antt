-- ===== src/Workflow/Inferred.antt =====
-- workflows/orchestration/engine.py: the state that is inferred for an old request is well-formed.
use mathlib.Core.Path.{subst}
use sprint_runtime.Prelude.{ℕ, zero, suc, ◌≡◌, arith, Option, none, some, ltb, ◌||◌, if_both}
use sprint_runtime.Python.{Fields}
use sprint_runtime.Workflow.{Role, research, planner, designer, architect, WorkflowState}
use sprint_runtime.Workflow.WellFormed.{IsWellFormed}
use sprint_runtime.Workflow.Legacy.{
  holder, reports_of, Reports, inferred_state, inferred_from, infer_legacy_internal_workflow_state,
}

abbrev Sound : Option WorkflowState → Type 0
Sound none = Unit
Sound (some s) = IsWellFormed s

inferred_state-Sound : (role : Role) (advisory : ℕ) → Sound (inferred_state role advisory)
unfolding inferred_state
inferred_state-Sound research n = ground arith
inferred_state-Sound planner zero = ground arith
inferred_state-Sound planner (suc n) = ground arith
inferred_state-Sound designer n = ground arith
inferred_state-Sound architect n = ground arith
inferred_state-Sound _ n = tt

inferred_from-Sound : (role : Option Role) (counts : Reports) → Sound (inferred_from role counts)
unfolding inferred_from
inferred_from-Sound none counts = tt
inferred_from-Sound (some role) counts =
    if_both Sound (ltb 0 counts.qa || ltb 0 counts.developer) tt
      (inferred_state-Sound role counts.advisory)

-- A workflow state that is inferred for a request without one is well-formed: its owner and phase
-- are those of its step, and its passes are within the limit.
pub infer_legacy-IsWellFormed :
    (request : Fields) {s : WorkflowState}
    → infer_legacy_internal_workflow_state request ≡ some s
    → IsWellFormed s
unfolding infer_legacy_internal_workflow_state
infer_legacy-IsWellFormed request e =
    subst Sound e (inferred_from-Sound (holder request) (reports_of request))
