-- ===== src/RoleResult/Accepted.antt =====
-- runtime/role_result_contract.py: what a payload without issues has, for the engine that reads it.
use sprint_runtime.Prelude.{
  ◌≡◌, refl, arith, String, Bool, true, false, not, ◌&&◌, ◌==◌, List, [], ◌∷◌, ◌++◌, Bool-cases,
  ◌⊎◌, inl, inr, if◌then◌else◌,
}
use sprint_runtime.Prelude.Text.{is_empty}
use sprint_runtime.Prelude.Lists.{member, is_nil}
use sprint_runtime.Python.{Value, list, dict, Items, nil, cons, Fields, end, field, get, fields_of}
use sprint_runtime.Python.Convert.{tag}
use sprint_runtime.Python.Sequences.{is_end}
use sprint_runtime.Workflow.{Outcome, no_outcome}
use sprint_runtime.Workflow.Names.{to_outcome}
use sprint_runtime.Workflow.Requested.{transition_of}
use sprint_runtime.RoleResult.{
  reported, transition_checks, evidence_checks, qa_checks, transition_keys, allowed_outcomes,
  transition_roles, evidence_results, missing, missing_entries, request_has_workflow,
  request_workflow_step, role_of, payload_issues, evidence_issues, matrix_items_issues,
  matrix_issues, qa_issues, validate_qa_validation_contract, is_item_value, is_flag_value,
  transition_issues, workflow_issues, validate_role_result_contract,
}

append-nil : {A : Type 0} (xs ys : List A) → xs ++ ys ≡ [] → (xs ≡ []) × (ys ≡ [])
append-nil [] ys h = (refl, h)
append-nil (x ∷ xs) ys h = absurd (ground arith)

abbrev NoneFound : List (Bool × String) → Type 0
NoneFound [] = Unit
NoneFound ((found, issue) ∷ checks) = (found ≡ false) × NoneFound checks

reported-nil : (checks : List (Bool × String)) → reported checks ≡ [] → NoneFound checks
unfolding reported
reported-nil [] h = tt
reported-nil ((true, issue) ∷ checks) h = absurd (ground arith)
reported-nil ((false, issue) ∷ checks) h = (refl, reported-nil checks h)

not-false : (b : Bool) → not b ≡ false → b ≡ true
not-false b h = ground arith

-- A word is blank or among the allowed ones.
blank_or_member :
    (s : String) (allowed : List String)
    → not (is_empty s) && not (member s allowed) ≡ false
    → (is_empty s ≡ true) ⊎ (member s allowed ≡ true)
blank_or_member s allowed h = elim (Bool-cases (is_empty s)) [
  | inl blank ↦ inl blank
  | inr given ↦ inr (ground (arith, given, h))
]

abbrev pub is_named : Outcome → Bool
is_named no_outcome = false
is_named _ = true

named_outcome : (s : String) → member s allowed_outcomes ≡ true → is_named (to_outcome s) ≡ true
unfolding to_outcome
named_outcome s h = ground (arith, h)

-- A dictionary with all keys of a transition, whose outcome is blank or one that the engine knows.
abbrev pub IsTransition : Value → Type 0
IsTransition (dict t) =
    (is_nil (missing transition_keys t) ≡ true)
    × ((is_empty (tag (get t "outcome")) ≡ true)
        ⊎ (is_named (transition_of (dict t)).outcome ≡ true))
    × (is_item_value (get t "unresolved_items") ≡ true)
    × (is_flag_value (get t "finalize_phase") ≡ true)
IsTransition _ = ⊥

transition_issues-nil : (v : Value) → transition_issues v ≡ [] → IsTransition v
unfolding transition_issues transition_of
transition_issues-nil (dict t) h =
    let (keys, (reason, (outcome, (items, (flag, _))))) = reported-nil (transition_checks t) h in
    (
      not-false _ keys,
      elim (blank_or_member (tag (get t "outcome")) allowed_outcomes outcome) [
        | inl blank ↦ inl blank
        | inr known ↦ inr (named_outcome (tag (get t "outcome")) known)
      ],
      not-false _ items,
      not-false _ flag,
    )
transition_issues-nil _ h = absurd (ground arith)

-- An entry with its four texts, whose result is an allowed one.
abbrev pub IsEvidence : Value → Type 0
IsEvidence (dict entry) =
    (is_nil (missing_entries entry) ≡ true)
    × ((is_empty (tag (get entry "result")) ≡ true)
        ⊎ (member (tag (get entry "result")) evidence_results ≡ true))
IsEvidence _ = ⊥

abbrev pub AreEvidence : Items → Type 0
AreEvidence nil = Unit
AreEvidence (cons item items) = IsEvidence item × AreEvidence items

-- A list of evidence that is not empty.
abbrev pub IsMatrix : Value → Type 0
IsMatrix (list (cons item items)) = AreEvidence (cons item items)
IsMatrix _ = ⊥

evidence_issues-nil : (v : Value) → evidence_issues v ≡ [] → IsEvidence v
unfolding evidence_issues
evidence_issues-nil (dict entry) h =
    let (keys, (result, _)) = reported-nil (evidence_checks entry) h in
    (not-false _ keys, blank_or_member (tag (get entry "result")) evidence_results result)
evidence_issues-nil _ h = absurd (ground arith)

matrix_items_issues-nil : (items : Items) → matrix_items_issues items ≡ [] → AreEvidence items
unfolding matrix_items_issues
matrix_items_issues-nil nil h = tt
matrix_items_issues-nil (cons item items) h =
    let both = append-nil _ _ h in
    (evidence_issues-nil item both.0, matrix_items_issues-nil items both.1)

matrix_issues-nil : (v : Value) → matrix_issues v ≡ [] → IsMatrix v
unfolding matrix_issues
matrix_issues-nil (list (cons item items)) h = matrix_items_issues-nil (cons item items) h
matrix_issues-nil (list nil) h = absurd (ground arith)
matrix_issues-nil _ h = absurd (ground arith)

qa_issues-nil : (v : Value) → qa_issues v ≡ [] → IsMatrix (get (fields_of v) "evidence_matrix")
unfolding qa_issues
qa_issues-nil (dict qa) h =
    matrix_issues-nil (get qa "evidence_matrix")
      (append-nil (reported (qa_checks qa)) _
        (append-nil (reported (qa_checks qa) ++ matrix_issues (get qa "evidence_matrix")) _ h).0).1
qa_issues-nil _ h = absurd (ground arith)

has_workflow-full :
    (request : Fields) → request_has_workflow request ≡ true → is_end request ≡ false
unfolding request_has_workflow get
has_workflow-full end h = absurd (ground arith)
has_workflow-full (field k v rest) h = refl

if_yes : (b : Bool) (xs : List String) → b ≡ true → (if b then xs else []) ≡ [] → xs ≡ []
if_yes true xs e h = h
if_yes false xs e h = absurd (ground arith)

workflow_issues-nil :
    (payload request : Fields) (role : String)
    → validate_role_result_contract (dict payload) request role ≡ []
    → request_has_workflow request ≡ true
    → member (role_of payload role) transition_roles ≡ true
    → workflow_issues
        (get payload "proposals")
        (role_of payload role)
        (request_workflow_step request)
      ≡ []
unfolding validate_role_result_contract
workflow_issues-nil payload request role h workflow worker =
    if_yes _ _ (ground (arith, has_workflow-full request workflow, workflow, worker))
      (append-nil (payload_issues payload) _ h).1

-- A payload without issues, of a workflow role on a request with a workflow, has a transition with
-- all the keys, its outcome is blank or one that the engine knows, and its items and flag are of
-- their types.
pub accepted-IsTransition :
    (payload request : Fields) (role : String)
    → validate_role_result_contract (dict payload) request role ≡ []
    → request_has_workflow request ≡ true
    → member (role_of payload role) transition_roles ≡ true
    → IsTransition (get (fields_of (get payload "proposals")) "workflow_transition")
unfolding workflow_issues
accepted-IsTransition payload request role h workflow worker =
    transition_issues-nil _
      (append-nil _ _ (workflow_issues-nil payload request role h workflow worker)).0

-- A payload of QA without issues, on a request at QA's step, has evidence: at least one entry, and
-- each entry has its four texts and an allowed result.
pub accepted-IsMatrix :
    (payload request : Fields) (role : String)
    → validate_role_result_contract (dict payload) request role ≡ []
    → request_has_workflow request ≡ true
    → role_of payload role ≡ "qa"
    → request_workflow_step request ≡ "qa_validation"
    → IsMatrix (
        get
          (fields_of (get (fields_of (get payload "proposals")) "qa_validation"))
          "evidence_matrix")
unfolding workflow_issues validate_qa_validation_contract
accepted-IsMatrix payload request role h workflow qa step =
    qa_issues-nil (get (fields_of (get payload "proposals")) "qa_validation") (
      if_yes (role_of payload role == "qa" && request_workflow_step request == "qa_validation") _
        (rw (qa, step) refl)
        (append-nil
          (transition_issues (get (fields_of (get payload "proposals")) "workflow_transition")) _
          (workflow_issues-nil payload request role h workflow (rw qa refl))).1)
