-- ===== src/Sprint/Recover/Kept.antt =====
-- workflows/sprints/lifecycle.py: the fields of a todo that `merge_recovered_sprint_todo` leaves, and
-- the status that it decides on.
use sprint_runtime.Prelude.{
  ◌≡◌, refl, String, Bool, true, false, not, ◌&&◌, ◌==◌, List, [], ◌∷◌, ◌∙◌, arith, if_both,
}
use sprint_runtime.Python.{Value, Fields, get, put}
use sprint_runtime.Python.Convert.{int_or}
use sprint_runtime.Python.Laws.{OkIs, OkIs-bind, OkIs-any, get-put_other}
use sprint_runtime.Python.{pos}
use sprint_runtime.Python.Integers.{is_zero}
use sprint_runtime.Prelude.Lists.{is_nil}
use sprint_runtime.Sprint.Tasks.{collect_artifact_candidates}
use sprint_runtime.Sprint.Recover.{
  filled, overwritten, for_each, ranked, listed, with_criteria, taken_over, joined, status_or,
  version_control_fields,
}

-- None of the keys is the field.
abbrev pub avoids : String → List String → Bool
avoids f [] = true
avoids f (key ∷ keys) = not (key == f) && avoids f keys

abbrev pub Same : String → Fields → Fields → Type 0
Same f d e = get e f ≡ get d f

abbrev pub Leaves : (Fields → String → Fields) → Type 0
Leaves step = (d : Fields) (key f : String) → (key == f) ≡ false → Same f d (step d key)

pub filled-Leaves : (recovered : Fields) → Leaves (filled recovered)
unfolding filled
filled-Leaves recovered d key f h = if_both (Same f d) _ (get-put_other d key f _ h) refl

pub overwritten-Leaves : (recovered : Fields) → Leaves (overwritten recovered)
unfolding overwritten
overwritten-Leaves recovered d key f h = if_both (Same f d) _ (get-put_other d key f _ h) refl

pub for_each-Same :
    (step : Fields → String → Fields) (leaves : Leaves step) (f : String) (d : Fields)
    (keys : List String)
    → avoids f keys ≡ true
    → Same f d (for_each step d keys)
unfolding for_each
for_each-Same step leaves f d [] h = refl
for_each-Same step leaves f d (key ∷ keys) h =
    for_each-Same step leaves f (step d key) keys (ground arith) ∙ leaves d key f (ground arith)

-- All fields but those of the keys are the same.
abbrev pub Besides : List String → Fields → Fields → Type 0
Besides keys d e = (f : String) → avoids f keys ≡ true → Same f d e

put-Besides : (d : Fields) (key : String) (v : Value) → Besides (key ∷ []) d (put d key v)
put-Besides d key v f h = get-put_other d key f v (ground arith)

pub ranked-Besides :
    (recovered d : Fields) → OkIs (Besides ("priority_rank" ∷ []) d) (ranked recovered d)
unfolding ranked
ranked-Besides recovered d =
    OkIs-bind {0, 0, 0, 0} (λ a. Unit) _ (int_or (get d "priority_rank") (pos 0)) _
      (OkIs-any (int_or (get d "priority_rank") (pos 0)))
      (λ mine _.
        if_both (OkIs (Besides ("priority_rank" ∷ []) d)) (is_zero mine)
          (OkIs-bind {0, 0, 0, 0} (λ a. Unit) _ (int_or (get recovered "priority_rank") (pos 0)) _
            (OkIs-any (int_or (get recovered "priority_rank") (pos 0)))
            (λ theirs _.
              if_both (Besides ("priority_rank" ∷ []) d) (is_zero theirs) (λ f h. refl)
                (put-Besides d "priority_rank" _)))
          (λ f h. refl))

pub with_criteria-Besides :
    (recovered d : Fields)
    → OkIs (Besides ("acceptance_criteria" ∷ []) d) (with_criteria recovered d)
unfolding with_criteria
with_criteria-Besides recovered d =
    OkIs-bind {0, 0, 0, 0} (λ a. Unit) _ (listed d "acceptance_criteria") _
      (OkIs-any (listed d "acceptance_criteria"))
      (λ mine _.
        if_both (OkIs (Besides ("acceptance_criteria" ∷ []) d)) (is_nil mine)
          (OkIs-bind {0, 0, 0, 0} (λ a. Unit) _ (listed recovered "acceptance_criteria") _
            (OkIs-any (listed recovered "acceptance_criteria"))
            (λ theirs _.
              if_both (Besides ("acceptance_criteria" ∷ []) d) (is_nil theirs) (λ f h. refl)
                (put-Besides d "acceptance_criteria" _)))
          (λ f h. refl))

pub joined-Besides :
    (recovered d : Fields) (key : String) → OkIs (Besides (key ∷ []) d) (joined recovered d key)
unfolding joined
joined-Besides recovered d key =
    let sequences = get d key ∷ get recovered key ∷ [] in
    OkIs-bind {0, 0, 0, 0} (λ a. Unit) _ (collect_artifact_candidates sequences) _
      (OkIs-any (collect_artifact_candidates sequences)) (λ found _. put-Besides d key _)

-- What the decision may write, besides the status.
abbrev pub written : List String
written =
    "artifacts" ∷ "version_control_paths" ∷ "summary" ∷ "started_at" ∷ "ended_at" ∷ "updated_at"
    ∷ version_control_fields

pub taken_over-Besides :
    (recovered d : Fields)
    → OkIs (Besides written (put d "status" (status_or recovered d))) (taken_over recovered d)
unfolding taken_over
taken_over-Besides recovered d =
    let base = put d "status" (status_or recovered d) in
    OkIs-bind {0, 0, 0, 0} (λ a. Unit) _ (listed recovered "artifacts") _
      (OkIs-any (listed recovered "artifacts"))
      (λ artifacts _.
        OkIs-bind {0, 0, 0, 0} (λ a. Unit) _ (listed recovered "version_control_paths") _
          (OkIs-any (listed recovered "version_control_paths"))
          (λ paths _ f h.
            let told =
              for_each-Same (overwritten recovered) (overwritten-Leaves recovered) f base
                ("summary" ∷ "started_at" ∷ "ended_at" ∷ "updated_at" ∷ []) (ground arith) in
            let noted =
              for_each-Same (overwritten recovered) (overwritten-Leaves recovered) f _
                version_control_fields (ground arith)
              ∙ get-put_other _ "artifacts" f _ (ground arith)
              ∙ told in
            if_both (Same f base) (is_nil paths) noted
              (get-put_other _ "version_control_paths" f _ (ground arith) ∙ noted)))
