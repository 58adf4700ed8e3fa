-- ===== src/RoleResult.antt =====
-- runtime/role_result_contract.py: the issues of a role's payload, which decide whether the payload
-- is sent back to the role.
pub mod Accepted
pub mod Dropped
use sprint_runtime.Prelude.{
  String, Bool, true, false, not, ◌&&◌, ◌||◌, ◌==◌, ◌<>◌, List, [], ◌∷◌, ◌++◌, zero, suc,
  if◌then◌else◌,
}
use sprint_runtime.Prelude.Text.{is_empty, strip, lower, join}
use sprint_runtime.Prelude.Lists.{keep, any, member, is_nil}
use sprint_runtime.Python.{
  Value, null, true_value, false_value, num, pos, str, list, dict, Items, nil, cons, Fields, get,
  fields_of, to_list,
}
use sprint_runtime.Python.Convert.{text, tag}
use sprint_runtime.Python.Sequences.{has_key, is_end, or_value, clean_items}

-- The issues whose tests hold, in their order.
unfoldable pub reported : List (Bool × String) → List String
reported [] = []
reported ((found, issue) ∷ checks) =
    let rest = reported checks in if found then issue ∷ rest else rest

-- PROMPT_PLACEHOLDER_SUMMARIES
abbrev placeholder_summaries : List String
placeholder_summaries =
    "short korean summary" ∷ "이 세션에서 직접 확인한 실제 한국어 요약" ∷ "실제 실행 근거를 반영한 구체적 한국어 요약"
    ∷ "<실제 실행 근거를 반영한 한국어 요약 작성>" ∷ []

unfoldable pub is_prompt_placeholder_summary : Value → Bool
unfolding tag
is_prompt_placeholder_summary value = member (tag value) placeholder_summaries

unfoldable pub is_prompt_placeholder_workflow_reason : Value → Bool
unfolding tag
is_prompt_placeholder_workflow_reason value =
    member (tag value) ("구체적인 workflow 전환 사유" ∷ "<실제 workflow 전환 사유를 작성>" ∷ [])

-- WORKFLOW_TRANSITION_REQUIRED_KEYS
abbrev pub transition_keys : List String
transition_keys =
    "outcome" ∷ "target_phase" ∷ "target_step" ∷ "reopen_category" ∷ "reason" ∷ "unresolved_items"
    ∷ "finalize_phase" ∷ []

-- WORKFLOW_TRANSITION_ALLOWED_OUTCOMES
abbrev pub allowed_outcomes : List String
allowed_outcomes = "continue" ∷ "advance" ∷ "reopen" ∷ "block" ∷ "complete" ∷ []

-- WORKFLOW_TRANSITION_REQUIRED_ROLES
abbrev pub transition_roles : List String
transition_roles = "planner" ∷ "designer" ∷ "architect" ∷ "developer" ∷ "qa" ∷ []

-- QA_VALIDATION_REQUIRED_KEYS
abbrev pub qa_keys : List String
qa_keys =
    "methodology" ∷ "decision" ∷ "evidence_matrix" ∷ "passed_checks" ∷ "findings" ∷ "residual_risks"
    ∷ "not_checked" ∷ []

-- QA_EVIDENCE_MATRIX_REQUIRED_KEYS
abbrev pub evidence_keys : List String
evidence_keys = "criterion" ∷ "source" ∷ "evidence" ∷ "result" ∷ []

-- QA_VALIDATION_ALLOWED_RESULTS
abbrev pub evidence_results : List String
evidence_results = "pass" ∷ "fail" ∷ "not_checked" ∷ []

-- `_normalize_string_list`
unfoldable pub normalize_string_list : Value → List String
unfolding clean_items strip
normalize_string_list (list items) = clean_items (to_list items)
normalize_string_list (str s) = if is_empty (strip s) then [] else strip s ∷ []
normalize_string_list _ = []

abbrev pub request_workflow : Fields → Fields
request_workflow request = fields_of (get (fields_of (get request "params")) "workflow")

-- `_request_has_workflow`
unfoldable pub request_has_workflow : Fields → Bool
unfolding get
request_has_workflow request = not (is_end (request_workflow request))

-- `_request_workflow_step`
unfoldable pub request_workflow_step : Fields → String
unfolding get tag
request_workflow_step request = tag (get (request_workflow request) "step")

abbrev pub is_list : Value → Bool
is_list (list items) = true
is_list _ = false

-- `[key for key in keys if key not in d]`
abbrev pub missing : List String → Fields → List String
missing keys d = keep (λ key. not (has_key d key)) keys

abbrev pub missing_entries : Fields → List String
missing_entries entry = keep (λ key. is_empty (strip (text (get entry key)))) evidence_keys

abbrev pub evidence_checks : Fields → List (Bool × String)
evidence_checks entry =
    (
      not (is_nil (missing_entries entry)),
      "qa_validation_evidence_missing_keys:" <> join "," (missing_entries entry),
    )
    ∷ (
      not (is_empty (tag (get entry "result")))
          && not (member (tag (get entry "result")) evidence_results),
      "invalid_qa_validation_evidence_result:" <> tag (get entry "result"),
    )
    ∷ []

-- What one item of the evidence matrix is reported for.
unfoldable pub evidence_issues : Value → List String
unfolding reported text tag strip join get
evidence_issues (dict entry) = reported (evidence_checks entry)
evidence_issues _ = "qa_validation_evidence_missing_keys:criterion,source,evidence,result" ∷ []

unfoldable pub matrix_items_issues : Items → List String
unfolding evidence_issues
matrix_items_issues nil = []
matrix_items_issues (cons item items) = evidence_issues item ++ matrix_items_issues items

unfoldable pub matrix_issues : Value → List String
unfolding matrix_items_issues
matrix_issues (list (cons item items)) = matrix_items_issues (cons item items)
matrix_issues _ = "empty_qa_validation_evidence_matrix" ∷ []

abbrev pub list_field_check : Fields → String → Bool × String
list_field_check qa key =
    (has_key qa key && not (is_list (get qa key)), "invalid_qa_validation_list_field:" <> key)

abbrev pub qa_checks : Fields → List (Bool × String)
qa_checks qa =
    (
      not (is_nil (missing qa_keys qa)),
      "qa_validation_missing_keys:" <> join "," (missing qa_keys qa),
    )
    ∷ (not (tag (get qa "methodology") == "evidence_matrix"), "invalid_qa_validation_methodology")
    ∷ (
      not (member (tag (get qa "decision")) ("pass" ∷ "fail" ∷ "blocked" ∷ [])),
      "invalid_qa_validation_decision:" <> tag (get qa "decision"),
    )
    ∷ []

unfoldable pub qa_issues : Value → List String
unfolding reported matrix_issues
qa_issues (dict qa) =
    reported (qa_checks qa)
    ++ matrix_issues (get qa "evidence_matrix")
    ++ reported (
        list_field_check qa "passed_checks"
        ∷ list_field_check qa "findings"
        ∷ list_field_check qa "residual_risks"
        ∷ list_field_check qa "not_checked"
        ∷ [])
qa_issues _ = "missing_qa_validation" ∷ []

-- `_validate_qa_validation_contract`, on the value of `proposals`.
unfoldable pub validate_qa_validation_contract : Value → List String
unfolding get qa_issues
validate_qa_validation_contract proposals = qa_issues (get (fields_of proposals) "qa_validation")

-- A list, a text or None.
abbrev pub is_item_value : Value → Bool
is_item_value null = true
is_item_value (str s) = true
is_item_value (list items) = true
is_item_value _ = false

-- `value in (None, True, False)`; 0 and 1 are equal to False and True.
abbrev pub is_flag_value : Value → Bool
is_flag_value null = true
is_flag_value true_value = true
is_flag_value false_value = true
is_flag_value (num (pos zero)) = true
is_flag_value (num (pos (suc zero))) = true
is_flag_value _ = false

abbrev pub transition_checks : Fields → List (Bool × String)
transition_checks t =
    (
      not (is_nil (missing transition_keys t)),
      "workflow_transition_missing_keys:" <> join "," (missing transition_keys t),
    )
    ∷ (
      is_prompt_placeholder_workflow_reason (get t "reason"),
      "copied_workflow_transition_placeholder",
    )
    ∷ (
      not (is_empty (tag (get t "outcome")))
          && not (member (tag (get t "outcome")) allowed_outcomes),
      "invalid_workflow_transition_outcome:" <> tag (get t "outcome"),
    )
    ∷ (
      not (is_item_value (get t "unresolved_items")),
      "invalid_workflow_transition_unresolved_items",
    )
    ∷ (not (is_flag_value (get t "finalize_phase")), "invalid_workflow_transition_finalize_phase")
    ∷ []

-- What `proposals["workflow_transition"]` is reported for.
unfoldable pub transition_issues : Value → List String
unfolding reported get tag join is_prompt_placeholder_workflow_reason
transition_issues (dict t) = reported (transition_checks t)
transition_issues _ = "missing_workflow_transition" ∷ []

-- What a role of the workflow is reported for.
unfoldable pub workflow_issues : Value → String → String → List String
unfolding transition_issues validate_qa_validation_contract get
workflow_issues proposals role step =
    transition_issues (get (fields_of proposals) "workflow_transition")
    ++ (if role == "qa" && step == "qa_validation"
        then validate_qa_validation_contract proposals
        else [])

-- `str(role or payload.get("role") or "").strip().lower()`
unfoldable pub role_of : Fields → String → String
unfolding tag get
role_of payload role = tag (or_value (str role) (get payload "role"))

abbrev pub payload_issues : Fields → List String
payload_issues payload = reported (
    (tag (get payload "status") == "completed|blocked|failed", "copied_prompt_status_enum_literal")
    ∷ (is_prompt_placeholder_summary (get payload "summary"), "copied_placeholder_summary")
    ∷ (
      any (λ item. lower item == "private role insight for journal.md")
          (normalize_string_list (get payload "insights")),
      "copied_placeholder_insight",
    )
    ∷ [])

-- An empty request is no request.
unfoldable pub validate_role_result_contract : Value → Fields → String → List String
unfolding reported get tag lower is_prompt_placeholder_summary normalize_string_list
    request_has_workflow request_workflow_step role_of workflow_issues
validate_role_result_contract (dict payload) request role =
    payload_issues payload
    ++ (if not (is_end request)
          && request_has_workflow request
          && member (role_of payload role) transition_roles
        then workflow_issues (get payload "proposals") (role_of payload role)
            (request_workflow_step request)
        else [])
validate_role_result_contract _ request role = "payload_not_dict" ∷ []

unfoldable pub is_invalid_contract_payload : Fields → Bool
unfolding tag get
is_invalid_contract_payload payload = tag (get payload "contract_status") == "invalid"
