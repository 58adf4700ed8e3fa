-- ===== src/Tests/Results.antt =====
-- Payloads of roles that have no issues.
use sprint_runtime.Prelude.{◌≡◌, refl, [], true}
use sprint_runtime.Python.{
  str, list, dict, nil, cons, false_value, Fields, end, field, get, fields_of, put,
}
use sprint_runtime.Prelude.Text.{normalized, lower}
use sprint_runtime.Python.Render.{to_str}
use sprint_runtime.RoleResult.{
  validate_role_result_contract, role_of, request_has_workflow, request_workflow_step,
  transition_issues,
}
use sprint_runtime.RoleResult.Accepted.{
  IsTransition, IsMatrix, accepted-IsTransition, accepted-IsMatrix,
}
use sprint_runtime.RoleResult.Dropped.{text_items-dropped}
use sprint_runtime.Workflow.Requested.{transition_of}

abbrev transition : Fields
transition = field "outcome" (str "complete") (
    field "target_phase" (str "") (
      field "target_step" (str "") (
        field "reopen_category" (str "") (
          field "reason" (str "All checks pass")
            (field "unresolved_items" (list nil) (field "finalize_phase" false_value end))))))

abbrev evidence : Fields
evidence = field "criterion" (str "The list is sorted") (
    field "source" (str "todo")
      (field "evidence" (str "test_sort passes") (field "result" (str "pass") end)))

abbrev validation : Fields
validation = field "methodology" (str "evidence_matrix") (
    field "decision" (str "pass") (
      field "evidence_matrix" (list (cons (dict evidence) nil)) (
        field "passed_checks" (list nil) (
          field "findings" (list nil)
            (field "residual_risks" (list nil) (field "not_checked" (list nil) end))))))

abbrev proposals : Fields
proposals =
    field "workflow_transition" (dict transition) (field "qa_validation" (dict validation) end)

abbrev payload : Fields
payload =
    field "status" (str "completed")
      (field "summary" (str "Sorted") (field "proposals" (dict proposals) end))

abbrev request : Fields
request =
    field "params" (dict (field "workflow" (dict (field "step" (str "qa_validation") end)) end)) end

no_issues : validate_role_result_contract (dict payload) request "qa" ≡ []
unfolding validate_role_result_contract lower get normalized to_str
no_issues = refl

at_qa :
    (request_has_workflow request ≡ true)
    × (role_of payload "qa" ≡ "qa")
    × (request_workflow_step request ≡ "qa_validation")
unfolding role_of request_has_workflow request_workflow_step get normalized to_str lower
at_qa = (refl, refl, refl)

accepted-IsTransition_example :
    IsTransition (get (fields_of (get payload "proposals")) "workflow_transition")
accepted-IsTransition_example =
    accepted-IsTransition payload request "qa" no_issues at_qa.0 (rw at_qa.1 refl)

accepted-IsMatrix_example :
    IsMatrix (
      get (fields_of (get (fields_of (get payload "proposals")) "qa_validation")) "evidence_matrix")
accepted-IsMatrix_example = accepted-IsMatrix payload request "qa" no_issues at_qa.0 at_qa.1 at_qa.2

text_items-dropped_example :
    (transition_issues (dict (put transition "unresolved_items" (str "fix the typo")))
      ≡ transition_issues (dict (put transition "unresolved_items" (list nil))))
    × ((transition_of
          (dict (put transition "unresolved_items" (str "fix the typo")))).unresolved_items
        ≡ [])
text_items-dropped_example = text_items-dropped transition "fix the typo"
