-- ===== src/Sprint/Recover/Decided.antt =====
-- workflows/sprints/lifecycle.py: what `merge_recovered_sprint_todo` decides.
use sprint_runtime.Prelude.{
  ◌≡◌, refl, String, Bool, true, false, ◌==◌, [], ◌∷◌, ◌∙◌, ap, arith, if◌then◌else◌, if_both,
}
use sprint_runtime.Python.{Value, Fields, get, put}
use sprint_runtime.Python.Laws.{OkIs, OkIs-bind, OkIs-map, get-put_self, get-put_other}
use sprint_runtime.Sprint.Recover.{
  filled, overwritten, for_each, taken_over, is_further, added_to, joined, advanced, status_or,
  version_control_fields,
}
use sprint_runtime.Sprint.Recover.Levels.{has_advanced, is_further-level}
use sprint_runtime.Sprint.Recover.Kept.{
  Same, avoids, written, filled-Leaves, overwritten-Leaves, for_each-Same, taken_over-Besides,
  joined-Besides, Besides,
}

-- The todo with the status that it has where the recovered one is not newer.
abbrev with_further : Fields → Fields → Fields
with_further recovered d =
    if is_further recovered d then put d "status" (status_or recovered d) else d

advanced-Same :
    (recovered d : Fields) (f : String)
    → avoids f written ≡ true
    → Same f (with_further recovered d) (advanced recovered d)
unfolding advanced
advanced-Same recovered d f h =
    if_together (is_further recovered d) _ _ _ _
      (for_each-Same (overwritten recovered) (overwritten-Leaves recovered) f _
        ("summary" ∷ "started_at" ∷ "ended_at" ∷ []) (ground arith))
      refl
  where
    if_together :
        (b : Bool) (d d' e e' : Fields)
        → Same f d e
        → Same f d' e'
        → Same f (if b then d else d') (if b then e else e')
    if_together true d d' e e' p q = p
    if_together false d d' e e' p q = q

added_to-Besides :
    (recovered d : Fields)
    → OkIs (Besides written (with_further recovered d)) (added_to recovered d)
unfolding added_to
added_to-Besides recovered d =
    let told = advanced recovered d in
    OkIs-bind (Besides ("artifacts" ∷ []) told) _ (joined recovered told "artifacts") _
      (joined-Besides recovered told "artifacts")
      (λ noted n.
        let filled_in = for_each (filled recovered) noted version_control_fields in
        OkIs-map (Besides ("version_control_paths" ∷ []) filled_in) _
          (joined recovered filled_in "version_control_paths")
          (joined-Besides recovered filled_in "version_control_paths")
          (λ e same f h.
            same f (ground arith)
            ∙ for_each-Same (filled recovered) (filled-Leaves recovered) f noted
                version_control_fields (ground arith)
            ∙ n f (ground arith)
            ∙ advanced-Same recovered d f h))

-- The status of a todo, for whether the recovered one is newer.
abbrev pub decided : Bool → Fields → Fields → Value
decided newer recovered d =
    if newer
    then status_or recovered d
    else if has_advanced recovered d
    then status_or recovered d
    else get d "status"

-- The identifiers are kept.
abbrev pub SameIds : Fields → Fields → Type 0
SameIds d e = Same "todo_id" d e × Same "backlog_id" d e

abbrev pub Decided : Bool → Fields → Fields → Fields → Type 0
Decided newer recovered d e = (get e "status" ≡ decided newer recovered d) × SameIds d e

-- The last step.
pub taken_or_added-Decided :
    (newer : Bool) (recovered d : Fields)
    → OkIs
        (Decided newer recovered d)
        (if newer then taken_over recovered d else added_to recovered d)
taken_or_added-Decided true recovered d =
    OkIs-map (Besides written (put d "status" (status_or recovered d))) _ (taken_over recovered d)
      (taken_over-Besides recovered d)
      (λ e b. (
        b "status" refl ∙ get-put_self d "status" _,
        (
          b "todo_id" refl ∙ get-put_other d "status" "todo_id" _ refl,
          b "backlog_id" refl ∙ get-put_other d "status" "backlog_id" _ refl,
        ),
      ))
taken_or_added-Decided false recovered d =
    OkIs-map (Besides written (with_further recovered d)) _ (added_to recovered d)
      (added_to-Besides recovered d)
      (λ e b. (
        b "status" refl ∙ status_of_further,
        (
          b "todo_id" refl ∙ further_same "todo_id" refl,
          b "backlog_id" refl ∙ further_same "backlog_id" refl,
        ),
      ))
  where
    further_same : (f : String) → ("status" == f) ≡ false → Same f d (with_further recovered d)
    further_same f h =
        if_both (Same f d) (is_further recovered d) (get-put_other d "status" f _ h) refl

    status_of_further : get (with_further recovered d) "status" ≡ decided false recovered d
    status_of_further =
        further_cases (is_further recovered d)
        ∙ ap (λ b. if b then status_or recovered d else get d "status")
            (is_further-level recovered d)
      where
        further_cases :
            (b : Bool)
            → get (if b then put d "status" (status_or recovered d) else d) "status"
              ≡ (if b then status_or recovered d else get d "status")
        further_cases true = get-put_self d "status" _
        further_cases false = refl
