-- ===== src/Tests/Runs.antt =====
-- Runs of reports, from research to QA and around the architect's review.
use sprint_runtime.Prelude.Text.{normalized}
use sprint_runtime.Prelude.{◌⊎◌}
use sprint_runtime.Python.{end}
use sprint_runtime.Python.Convert.{ok}
use sprint_runtime.Python.{Fields, field, str, null}
use sprint_runtime.Workflow.Inferred.{infer_legacy-IsWellFormed}
use sprint_runtime.Workflow.Legacy.{infer_legacy_internal_workflow_state}
use sprint_runtime.Workflow.Events.{append_request_event, append_request_event-infers}
use sprint_runtime.Workflow.{developer_revision}
use sprint_runtime.Workflow.Names.{step_text}
use sprint_runtime.Workflow.Request.{request_workflow_state, set_request_workflow_state}
use sprint_runtime.Workflow.RoundTrip.{IsStorable, request_workflow_state-set}
use sprint_runtime.Workflow.Decisions.{Decision, completion}
use sprint_runtime.Workflow.Derive.Diagram.{Follows, is_review, is_advisory_step, one_if}
use sprint_runtime.Workflow.Derive.Follows.{derive-Follows}
use sprint_runtime.Workflow.Runs.{Reach-IsWellFormed}
use sprint_runtime.Workflow.Runs.Gates.{
  is_planning_step, is_guidance, is_build, passed, completion_gates,
}
use sprint_runtime.Workflow.Runs.Passes.{advisory_visits, advisory_visits_bounded}
use sprint_runtime.Workflow.Runs.Reviews.{Strict, review_visits, review_visits_bounded}
use sprint_runtime.Workflow.Runs.Silent.{Reviewed, silent_reviews_unbounded}
use sprint_runtime.Workflow.Runs.Progress.{drive, drive_completes}
use sprint_runtime.Prelude.{◌+◌, ◌≤◌, ◌≡◌, refl, String, true, false, some, List, [], ◌∷◌, arith}
use sprint_runtime.Workflow.{
  Step, research_initial, planner_draft, architect_guidance, developer_build, architect_review,
  qa_validation, closeout, unset, Outcome, complete, reopen, continue, WorkflowState,
  research_first_workflow_state,
}
use sprint_runtime.Workflow.WellFormed.{IsWellFormed, research_first-IsWellFormed}
use sprint_runtime.Workflow.Routes.{workflow_route_to_planner_draft_state}
use sprint_runtime.Workflow.Derive.{derive_workflow_routing_decision}
use sprint_runtime.Workflow.Runs.{Report, Reach, here, next, decide, Reach-IsWellFormed}
use sprint_runtime.Tests.{review_state, asks}

review_state-IsWellFormed : IsWellFormed review_state
review_state-IsWellFormed = ground arith

abbrev says : Outcome → String → Report
says outcome role = record { transition = asks outcome; role = role; reason = ""; close = false }

abbrev after_research : WorkflowState
after_research = workflow_route_to_planner_draft_state (some research_first_workflow_state) unset

abbrev steps_to_qa : List Step
steps_to_qa =
    architect_review ∷ developer_build ∷ architect_guidance ∷ planner_draft ∷ research_initial ∷ []

-- From research to QA.
to_qa :
    (s : WorkflowState) × (Reach research_first_workflow_state steps_to_qa s)
    × (s.step ≡ qa_validation)
unfolding derive_workflow_routing_decision
to_qa = (
  _,
  next
      (next
        (next
          (next (next here (says complete "research") _ refl refl) (says complete "planner") _ refl
            refl)
          (says complete "architect") _ refl refl)
        (says complete "developer") _ refl refl)
      (says complete "architect") _ refl refl,
  refl,
)

abbrev at_qa : WorkflowState
at_qa = to_qa.0

abbrev run_to_qa : Reach research_first_workflow_state steps_to_qa at_qa
run_to_qa = to_qa.1

-- QA passes, and the request is complete.
qa_passes :
    (t : WorkflowState) × (summary : String) × (decide at_qa (says complete "qa")
      ≡ some (completion t summary))
unfolding derive_workflow_routing_decision to_qa
qa_passes = (_, _, refl)

completion_gates_example :
    (is_planning_step at_qa.step ≡ true) × (false ≡ true) × ((says complete "qa").role ≡ "planner")
    ⊎ (at_qa.step ≡ qa_validation)
      × (passed is_planning_step steps_to_qa ≡ true)
      × (passed is_guidance steps_to_qa ≡ true)
      × (passed is_build steps_to_qa ≡ true)
      × (passed is_review steps_to_qa ≡ true)
completion_gates_example = completion_gates run_to_qa (says complete "qa") qa_passes.2

Reach-IsWellFormed_example : IsWellFormed at_qa
Reach-IsWellFormed_example = Reach-IsWellFormed research_first-IsWellFormed run_to_qa

advisory_visits_bounded_example :
    research_first_workflow_state.planning_pass_count + advisory_visits (at_qa.step ∷ steps_to_qa)
    ≤ research_first_workflow_state.planning_pass_limit
      + one_if (is_advisory_step research_first_workflow_state.step)
advisory_visits_bounded_example = advisory_visits_bounded research_first-IsWellFormed run_to_qa

derive-Follows_example :
    (d : Decision) × (derive_workflow_routing_decision
        (some review_state)
        (asks reopen)
        "architect"
        ""
        false
      ≡ some d)
    × Follows review_state d
derive-Follows_example =
    derive-Follows review_state (asks reopen) "architect" "" false review_state-IsWellFormed refl
      refl

-- The review goes on to a revision, by a strict report.
abbrev Revised : WorkflowState → Type 0
Revised s =
    (run : Reach review_state (architect_review ∷ []) s) × Strict run
    × (s.step ≡ developer_revision)

strict_review : (s : WorkflowState) × Revised s
unfolding derive_workflow_routing_decision
strict_review =
    (_, (next here (says continue "architect") _ refl refl, (λ _. (refl, refl), tt), refl))

review_visits_bounded_example :
    review_state.review_cycle_count + review_visits (strict_review.0.step ∷ architect_review ∷ [])
    ≤ review_state.review_cycle_limit + one_if (is_review review_state.step)
review_visits_bounded_example =
    review_visits_bounded review_state-IsWellFormed (omega arith) strict_review.1.0
      strict_review.1.1

silent_reviews_unbounded_example : Reviewed review_state 1000
silent_reviews_unbounded_example = silent_reviews_unbounded review_state 1000 refl

drive_completes_example :
    (t : WorkflowState) × (drive step_text 6 research_first_workflow_state ≡ some t)
    × (t.step ≡ closeout)
drive_completes_example =
    drive_completes step_text 6 research_first_workflow_state research_first-IsWellFormed refl
      (omega arith)

review_state-IsStorable : IsStorable review_state
unfolding normalized
review_state-IsStorable = ground arith

request_workflow_state-set_example :
    request_workflow_state (set_request_workflow_state end (some review_state))
    ≡ ok (some review_state)
request_workflow_state-set_example =
    request_workflow_state-set end review_state review_state-IsStorable

-- A request that a designer holds, and a report of the architect appended to it.
abbrev held : Fields
held = field "current_role" (str "designer") end

appended :
    (r : Fields) × (append_request_event held "role_report" "architect" "done" null "t1" "t2"
      ≡ ok r)
unfolding append_request_event
appended = (_, refl)

append_request_event-infers_example :
    infer_legacy_internal_workflow_state appended.0 ≡ infer_legacy_internal_workflow_state held
append_request_event-infers_example =
    append_request_event-infers held "role_report" "architect" "done" null "t1" "t2" appended.1

inferred : (s : WorkflowState) × (infer_legacy_internal_workflow_state held ≡ some s)
unfolding infer_legacy_internal_workflow_state
inferred = (_, refl)

infer_legacy-IsWellFormed_example : IsWellFormed inferred.0
infer_legacy-IsWellFormed_example = infer_legacy-IsWellFormed held inferred.1
