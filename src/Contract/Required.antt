-- ===== src/Contract/Required.antt =====
-- What a met document contract gives: the documents are there, and the required ones are among them.
use sprint_runtime.Workflow.{planning, Phase}
use sprint_runtime.Contract.Documents.{DocContract, is_planning, surface_hints}
use sprint_runtime.Prelude.{
  ◌&&◌, eq_iff, ◌≡◌, refl, arith, String, Bool, true, false, List, [], ◌∷◌, ◌++◌, not, ◌||◌,
  Bool-cases, inl, inr, ◌==◌, eq_refl,
}
use sprint_runtime.Prelude.Text.{is_empty}
use sprint_runtime.Prelude.Lists.{all, is_nil, keep, member}
use sprint_runtime.Workflow.{WorkflowState}
use sprint_runtime.Contract.Artifacts.{
  normalize_artifact_hint, is_planner_owned_surface_artifact_hint,
}
use sprint_runtime.Contract.Documents.{
  append_required, append_all, required_workflow_planner_doc_hints,
  workflow_planner_doc_contract_violation,
}
use sprint_runtime.Contract.Enforce.{meets_contract}

all_of_keep_nil :
    (p : String → Bool) (xs : List String)
    → is_nil (keep (λ x. not (p x)) xs) ≡ true
    → all p xs ≡ true
all_of_keep_nil p [] h = refl
all_of_keep_nil p (x ∷ xs) h = ground (arith, all_of_keep_nil p xs)

-- What is required stays required.
member-append : (a b : String) (xs : List String) → member a (xs ++ b ∷ []) ≡ member a xs || a == b
member-append a b [] = ground arith
member-append a b (x ∷ xs) = ground (arith, member-append a b xs)

-- A hint that names anything is among the required ones.
abbrev pub required_in : List String → String → Bool
required_in required hint =
    is_empty (normalize_artifact_hint hint) || member (normalize_artifact_hint hint) required

append_required-keeps :
    (required : List String) (hint a : String)
    → member a required ≡ true
    → member a (append_required required hint) ≡ true
unfolding append_required
append_required-keeps required hint a h =
    ground (arith, member-append a (normalize_artifact_hint hint) required)

append_required-adds :
    (required : List String) (hint : String)
    → required_in (append_required required hint) hint ≡ true
unfolding append_required
append_required-adds required hint =
    let a = normalize_artifact_hint hint in ground (arith, member-append a a required, eq_refl a)

append_all-keeps :
    (required hints : List String) (a : String)
    → member a required ≡ true
    → member a (append_all required hints) ≡ true
unfolding append_all
append_all-keeps required [] a h = h
append_all-keeps required (hint ∷ hints) a h =
    append_all-keeps (append_required required hint) hints a
      (append_required-keeps required hint a h)

append_all-adds :
    (required hints : List String) → all (required_in (append_all required hints)) hints ≡ true
unfolding append_all
append_all-adds required [] = refl
append_all-adds required (hint ∷ hints) = ground (
  arith,
  append_required-adds required hint,
  append_all-keeps (append_required required hint) hints (normalize_artifact_hint hint),
  append_all-adds (append_required required hint) hints,
)

all-member :
    (p : String → Bool) (a : String) (xs : List String)
    → all p xs ≡ true
    → member a xs ≡ true
    → p a ≡ true
all-member p a [] h m = absurd (ground (arith, m))
all-member p a (x ∷ xs) h m = elim (Bool-cases (a == x)) [
  | inl e ↦ rw ((eq_iff a x).0 e) (ground (arith, h))
  | inr n ↦ all-member p a xs (ground (arith, h)) (ground (arith, m, n))
]

required_in-all :
    (required owned hints : List String)
    → all (λ a. member a owned) required ≡ true
    → all (required_in required) hints ≡ true
    → all (required_in owned) hints ≡ true
required_in-all required owned [] h k = refl
required_in-all required owned (hint ∷ hints) h k = ground (
  arith,
  all-member (λ a. member a owned) (normalize_artifact_hint hint) required h,
  required_in-all required owned hints h,
)

planning_of : (phase : Phase) → is_planning phase ≡ true → phase ≡ planning
planning_of phase h = ground arith

-- A met contract, for any required documents.
met_contract :
    (exists : String → Bool) (s : WorkflowState) (role : String) (artifacts required : List String)
    → let c = workflow_planner_doc_contract_violation exists s role artifacts required in
      meets_contract c ≡ true
      → (s.phase ≡ planning)
        × (role ≡ "planner")
        × (is_nil c.planner_owned ≡ false)
        × (all exists c.planner_owned ≡ true)
        × (all (λ a. member a c.planner_owned) required ≡ true)
unfolding workflow_planner_doc_contract_violation
met_contract exists s role artifacts required met =
    elim (Bool-cases (is_planning s.phase && role == "planner")) [
      | inl at_work ↦
          let owned = keep is_planner_owned_surface_artifact_hint (surface_hints artifacts) in
          let h = rw at_work at met in
          rw at_work (
            planning_of s.phase (ground (arith, at_work)),
            (eq_iff role "planner").0 (ground (arith, at_work)),
            ground (arith, h),
            all_of_keep_nil exists owned (ground (arith, h)),
            all_of_keep_nil (λ a. member a owned) required (ground (arith, h)),
          )
      | inr off ↦ absurd (ground (arith, rw off at met))
    ]

-- The contract as the callers check it, for a report's artifacts.
abbrev pub contract_of :
    (String → Bool) → WorkflowState → String → List String → List String → List String → DocContract
contract_of exists s role result_artifacts request_artifacts sprint_hints =
    workflow_planner_doc_contract_violation exists s role result_artifacts
      (required_workflow_planner_doc_hints s.reopen_source_role request_artifacts sprint_hints)

-- After a reopen by QA, a report that meets the document contract is a planner's report in the
-- planning phase; it lists at least one document of the planner, each of them exists, and each of
-- the sprint's hints that is not empty is one of them in its normal form.
pub met_contract-documents :
    (exists : String → Bool) (s : WorkflowState) (role : String)
    (result_artifacts request_artifacts sprint_hints : List String)
    → s.reopen_source_role ≡ "qa"
    → meets_contract (contract_of exists s role result_artifacts request_artifacts sprint_hints)
      ≡ true
    → let owned =
        (contract_of exists s role result_artifacts request_artifacts sprint_hints).planner_owned in
      (s.phase ≡ planning)
      × (role ≡ "planner")
      × (is_nil owned ≡ false)
      × (all exists owned ≡ true)
      × (all (required_in owned) sprint_hints ≡ true)
unfolding required_workflow_planner_doc_hints
met_contract-documents exists s role result_artifacts request_artifacts sprint_hints by_qa met =
    let required =
      required_workflow_planner_doc_hints s.reopen_source_role request_artifacts sprint_hints in
    let (phase, planner, some_owned, there, in_owned) =
      met_contract exists s role result_artifacts required met in
    (
      phase,
      planner,
      some_owned,
      there,
      required_in-all required _ sprint_hints in_owned (rw by_qa (append_all-adds _ sprint_hints)),
    )
