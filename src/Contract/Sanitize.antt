-- ===== src/Contract/Sanitize.antt =====
-- An implementation report keeps no planning document.
use sprint_runtime.Prelude.{
  ap, ◌≡◌, refl, ◌==◌, String, Bool, true, not, ◌||◌, some, List, [], ◌∷◌, arith, Bool-cases, inl,
  inr,
}
use sprint_runtime.Prelude.Text.{strip, lower}
use sprint_runtime.Prelude.Strip.{strip-strip}
use sprint_runtime.Prelude.Lists.{all, is_nil}
use sprint_runtime.Workflow.{implementation, WorkflowState}
use sprint_runtime.Contract.{RoleResult}
use sprint_runtime.Contract.Artifacts.{
  is_planner_owned_surface_artifact_hint, normalize_artifact_hint, is_owned_path,
}
use sprint_runtime.Contract.Enforce.{
  implementation_artifacts, planner_owned, sanitize_implementation_result,
}

abbrev pub not_owned : String → Bool
not_owned a = not (is_planner_owned_surface_artifact_hint a)

hint-strip : (a : String) → normalize_artifact_hint (strip a) ≡ normalize_artifact_hint a
unfolding normalize_artifact_hint
hint-strip a = rw strip-strip refl

owned-strip :
    (a : String)
    → is_planner_owned_surface_artifact_hint (strip a) ≡ is_planner_owned_surface_artifact_hint a
unfolding is_planner_owned_surface_artifact_hint
owned-strip a = ap (λ h. is_owned_path (lower h)) (hint-strip a)

all-implementation_artifacts :
    (artifacts : List String) → all not_owned (implementation_artifacts artifacts) ≡ true
unfolding implementation_artifacts
all-implementation_artifacts [] = refl
all-implementation_artifacts (a ∷ artifacts) =
    ground (arith, owned-strip a, all-implementation_artifacts artifacts)

all_of_planner_owned_nil :
    (artifacts : List String)
    → is_nil (planner_owned artifacts) ≡ true
    → all not_owned artifacts ≡ true
all_of_planner_owned_nil [] h = refl
all_of_planner_owned_nil (a ∷ artifacts) h = ground (arith, all_of_planner_owned_nil artifacts)

nil_of_all :
    (artifacts : List String)
    → all not_owned artifacts ≡ true
    → is_nil (planner_owned artifacts) ≡ true
nil_of_all [] h = refl
nil_of_all (a ∷ artifacts) h = ground (arith, nil_of_all artifacts)

-- In the implementation phase, a report of the architect or the developer has no planner-owned
-- document among its artifacts once it is sanitized, and sanitizing it again changes nothing.
pub sanitize_removes :
    (s : WorkflowState) (role : String) (result : RoleResult)
    → s.phase ≡ implementation
    → (role == "architect" || role == "developer") ≡ true
    → (all not_owned (sanitize_implementation_result (some s) role result).artifacts ≡ true)
      × (sanitize_implementation_result
            (some s)
            role
            (sanitize_implementation_result (some s) role result)
          ≡ sanitize_implementation_result (some s) role result)
unfolding sanitize_implementation_result
sanitize_removes s role result p r = elim (Bool-cases (is_nil (planner_owned result.artifacts))) [
  | inl clean ↦ rw (p, r, clean) (all_of_planner_owned_nil result.artifacts clean, rw clean refl)
  | inr owned ↦
      let kept = all-implementation_artifacts result.artifacts in
      rw (p, r, owned) (kept, rw (nil_of_all _ kept) refl)
]
