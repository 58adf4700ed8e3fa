-- ===== src/Workflow/Runs/Passes.antt =====
-- The specialist passes of a run stay within the limit of the state that it starts from.
use sprint_runtime.Prelude.{ℕ, ◌+◌, ◌≤◌, ◌≡◌, refl, List, [], ◌∷◌, arith}
use sprint_runtime.Workflow.{Step, WorkflowState}
use sprint_runtime.Workflow.WellFormed.{IsWellFormed}
use sprint_runtime.Workflow.Derive.Diagram.{is_advisory_step, one_if}
use sprint_runtime.Workflow.Runs.{Reach, here, next, next-Follows, Reach-IsWellFormed}

abbrev pub advisory_visits : List Step → ℕ
advisory_visits [] = 0
advisory_visits (x ∷ left) = one_if (is_advisory_step x) + advisory_visits left

planning_pass_count-Reach :
    {start : WorkflowState} {left : List Step} {s : WorkflowState}
    → IsWellFormed start
    → Reach start left s
    → start.planning_pass_count + advisory_visits (s.step ∷ left)
      ≡ s.planning_pass_count + one_if (is_advisory_step start.step)
planning_pass_count-Reach w here = omega arith
planning_pass_count-Reach w (next run report route honest e) =
    omega (arith, planning_pass_count-Reach w run, (next-Follows w run report honest e).pass_count)

planning_pass_limit-Reach :
    {start : WorkflowState} {left : List Step} {s : WorkflowState}
    → IsWellFormed start
    → Reach start left s
    → s.planning_pass_limit ≡ start.planning_pass_limit
planning_pass_limit-Reach w here = refl
planning_pass_limit-Reach w (next run report route honest e) =
    omega (arith, planning_pass_limit-Reach w run, (next-Follows w run report honest e).pass_limit)

-- In a run from a well-formed state, whatever transitions its reports ask for, the steps of the
-- designer's and architect's advisory passes that it visits, the current one included and an
-- advisory start left out, are at most the pass limit less the passes that were counted at the
-- start.
pub advisory_visits_bounded :
    {start : WorkflowState} {left : List Step} {s : WorkflowState}
    → IsWellFormed start
    → Reach start left s
    → start.planning_pass_count + advisory_visits (s.step ∷ left)
      ≤ start.planning_pass_limit + one_if (is_advisory_step start.step)
advisory_visits_bounded w run = omega (
  arith,
  planning_pass_count-Reach w run,
  planning_pass_limit-Reach w run,
  (Reach-IsWellFormed w run).passes,
)
