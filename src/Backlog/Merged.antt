-- ===== src/Backlog/Merged.antt =====
-- workflows/state/backlog_store.py: the fields of a stored item that a merge leaves as they are.
use sprint_runtime.Prelude.{
  ◌≡◌, refl, sym, ap, ◌∙◌, arith, String, Bool, true, false, not, ◌&&◌, ◌||◌, ◌==◌, List, [], ◌∷◌,
  ◌++◌, Bool-cases, inl, inr, if◌then◌else◌, if_both, eq_iff,
}
use sprint_runtime.Prelude.Lists.{member, is_nil}
use sprint_runtime.Python.{Value, true_value, list, dict, nil, Fields, get, put, fields_of}
use sprint_runtime.Python.Laws.{get-put_other, OkIs, OkIs-bind}
use sprint_runtime.Python.Convert.{Result, ok, raise, ◌>>=◌, truthy, tag}
use sprint_runtime.Python.Sequences.{or_value, values, iterate, has_key}
use sprint_runtime.Backlog.Placed.{clear-other}
use sprint_runtime.Backlog.Merge.{Candidate}
use sprint_runtime.Backlog.Into.{
  always_fields, merged_fields, taken_over, listed, if_missing, with_criteria, with_inputs,
  unblocked, flagged, with_origin, merged_origin, finish, merge_item,
}

-- The fields that a merge may write for other reasons than that they are given.
abbrev written_fields : List String
written_fields =
    "acceptance_criteria" ∷ "required_inputs" ∷ "blocked_reason" ∷ "blocked_by_role"
    ∷ "recommended_next_step" ∷ "added_during_active_sprint" ∷ "origin" ∷ []

-- The field is as it was.
abbrev pub IsKept : String → Fields → Fields → Type 0
IsKept key existing merged = get merged key ≡ get existing key

-- Whether what is given for the field may be taken over.
abbrev may_take : String → List String → Candidate → Bool
may_take key names candidate =
    member key names && (member key always_fields || member key candidate.explicit)

taken_over-IsKept :
    (key : String) (existing : Fields) (names : List String) (candidate : Candidate)
    (merged : Fields)
    → may_take key names candidate ≡ false
    → IsKept key existing merged
    → IsKept key existing (taken_over names candidate merged)
unfolding taken_over
taken_over-IsKept key existing [] candidate merged a h = h
taken_over-IsKept key existing (name ∷ names) candidate merged a h =
    taken_over-IsKept key existing names candidate _ (ground (arith, a))
      (elim (Bool-cases (key == name)) [
        | inl same ↦ rw (← (eq_iff key name).0 same) (
            if_false (member key always_fields || member key candidate.explicit) _ merged
              (ground (arith, a, same)) h)
        | inr other ↦
            if_both (IsKept key existing)
              (member name always_fields || member name candidate.explicit)
              (get-put_other merged name key (get candidate.item name)
                  (ground (arith, eq_iff name key, eq_iff key name, other))
                ∙ h)
              h
      ])
  where
    if_false :
        (b : Bool) (x y : Fields)
        → b ≡ false
        → IsKept key existing y
        → IsKept key existing (if b then x else y)
    if_false b x y e p = rw e p

put-IsKept :
    (key : String) (existing merged : Fields) (name : String) (v : Value)
    → (name == key) ≡ false
    → IsKept key existing merged
    → IsKept key existing (put merged name v)
put-IsKept key existing merged name v other h = get-put_other merged name key v other ∙ h

-- A name of a list is not one that is not in it.
other-name :
    (key name : String) (names : List String)
    → member key names ≡ false
    → member name names ≡ true
    → (name == key) ≡ false
other-name key name names h k = elim (Bool-cases (name == key)) [
  | inl same ↦
      absurd (ground (arith, h, sym (ap (λ n. member n names) ((eq_iff name key).0 same)) ∙ k))
  | inr other ↦ other
]

listed-IsKept :
    (key : String) (existing : Fields) (name : String) (candidate : Candidate) (merged : Fields)
    → (name == key) ≡ false
    → IsKept key existing merged
    → OkIs (IsKept key existing) (listed name candidate merged)
listed-IsKept key existing name candidate merged other h =
    by_items (iterate (or_value (get candidate.item name) (list nil)))
  where
    by_items :
        (r : Result (List Value))
        → OkIs (IsKept key existing) (r >>= λ items. ok (put merged name (list (values items))))
    by_items (ok items) = put-IsKept key existing merged name _ other h
    by_items (raise e) = tt

if_missing-IsKept :
    (key : String) (existing : Fields) (name : String) (candidate : Candidate) (merged : Fields)
    → (name == key) ≡ false
    → IsKept key existing merged
    → OkIs (IsKept key existing) (if_missing name candidate merged)
if_missing-IsKept key existing name candidate merged other h =
    by_items (iterate (or_value (get candidate.item name) (list nil)))
      (iterate (or_value (get merged name) (list nil)))
  where
    by_items :
        (r s : Result (List Value))
        → OkIs (IsKept key existing) (
            r >>= λ given. s >>= λ stored. ok (
              if not (is_nil given) && is_nil stored
              then put merged name (list (values given))
              else merged))
    by_items (raise e) s = tt
    by_items (ok given) (raise e) = tt
    by_items (ok given) (ok stored) =
        if_both (IsKept key existing) (not (is_nil given) && is_nil stored)
          (put-IsKept key existing merged name _ other h) h

unblocked-IsKept :
    (key : String) (existing merged : Fields)
    → member key written_fields ≡ false
    → IsKept key existing merged
    → IsKept key existing (unblocked merged)
unblocked-IsKept key existing merged w h =
    if_both (IsKept key existing)
      (member (tag (get merged "status")) ("pending" ∷ "selected" ∷ "done" ∷ []))
      (clear-other merged key (other-name key "blocked_reason" written_fields w refl)
          (other-name key "blocked_by_role" written_fields w refl)
          (other-name key "required_inputs" written_fields w refl)
          (other-name key "recommended_next_step" written_fields w refl)
        ∙ h)
      h

with_origin-IsKept :
    (key : String) (existing origin merged : Fields) (stored : Value)
    → ("origin" == key) ≡ false
    → IsKept key existing merged
    → OkIs (IsKept key existing) (with_origin origin merged stored)
with_origin-IsKept key existing origin merged (dict stored) other h =
    put-IsKept key existing merged "origin" _ other h
with_origin-IsKept key existing origin merged _ other h = tt

finish-IsKept :
    (key : String) (existing : Fields) (candidate : Candidate) (merged : Fields)
    → member key written_fields ≡ false
    → IsKept key existing merged
    → OkIs (IsKept key existing) (finish candidate merged)
unfolding merged_origin
finish-IsKept key existing candidate merged w h =
    let cleared = unblocked-IsKept key existing merged w h in
    with_origin-IsKept key existing (fields_of (get candidate.item "origin"))
      (flagged candidate (unblocked merged)) _ (other-name key "origin" written_fields w refl)
      (if_both (IsKept key existing) (truthy (get candidate.item "added_during_active_sprint"))
        (put-IsKept key existing (unblocked merged) "added_during_active_sprint" true_value
          (other-name key "added_during_active_sprint" written_fields w refl) cleared)
        cleared)

merge_item-unwritten :
    (existing : Fields) (candidate : Candidate) (key : String)
    → may_take key merged_fields candidate ≡ false
    → member key written_fields ≡ false
    → OkIs (IsKept key existing) (merge_item existing candidate)
unfolding merge_item with_criteria with_inputs
merge_item-unwritten existing candidate key a w =
    OkIs-bind (IsKept key existing) (IsKept key existing)
      (with_criteria candidate merged >>= with_inputs candidate) (finish candidate)
      (OkIs-bind (IsKept key existing) (IsKept key existing) (with_criteria candidate merged)
        (with_inputs candidate) criteria inputs)
      (λ d h. finish-IsKept key existing candidate d w h)
  where
    merged : Fields
    merged = taken_over merged_fields candidate existing

    kept : IsKept key existing merged
    kept = taken_over-IsKept key existing merged_fields candidate existing a refl

    criteria : OkIs (IsKept key existing) (with_criteria candidate merged)
    criteria =
        if_both (OkIs (IsKept key existing))
          (member "acceptance_criteria" candidate.explicit
            && has_key candidate.item "acceptance_criteria")
          (listed-IsKept key existing "acceptance_criteria" candidate merged
            (other-name key "acceptance_criteria" written_fields w refl) kept)
          (if_missing-IsKept key existing "acceptance_criteria" candidate merged
            (other-name key "acceptance_criteria" written_fields w refl) kept)

    inputs :
        (d : Fields) → IsKept key existing d → OkIs (IsKept key existing) (with_inputs candidate d)
    inputs d h =
        if_both (OkIs (IsKept key existing)) (member "required_inputs" candidate.explicit)
          (listed-IsKept key existing "required_inputs" candidate d
            (other-name key "required_inputs" written_fields w refl) h)
          h

-- What a merge may write though the planner did not give it.
abbrev pub replaced_fields : List String
replaced_fields =
    "title" ∷ "scope" ∷ "kind" ∷ "fingerprint" ∷ "acceptance_criteria" ∷ "required_inputs"
    ∷ "blocked_reason" ∷ "blocked_by_role" ∷ "recommended_next_step" ∷ "added_during_active_sprint"
    ∷ "origin" ∷ []

OkIs-both :
    (P Q : Fields → Type 0) (r : Result Fields) → OkIs P r → OkIs Q r → OkIs (λ d. P d × Q d) r
OkIs-both P Q (ok d) p q = (p, q)
OkIs-both P Q (raise e) p q = tt

either_false : (a b : Bool) → (a || b) ≡ false → (a ≡ false) × (b ≡ false)
either_false a b h = (ground (arith, h), ground (arith, h))

member-append :
    (a : String) (xs ys : List String) → member a (xs ++ ys) ≡ (member a xs || member a ys)
member-append a [] ys = refl
member-append a (x ∷ xs) ys = ground (arith, member-append a xs ys)

replaced-parts :
    (key : String)
    → member key replaced_fields ≡ false
    → (member key always_fields ≡ false) × (member key written_fields ≡ false)
replaced-parts key h =
    either_false (member key always_fields) (member key written_fields)
      (sym (member-append key always_fields written_fields) ∙ h)

not_taken : (a b c : Bool) → b ≡ false → c ≡ false → (a && (b || c)) ≡ false
not_taken a b c h k = ground (arith, h, k)

-- A merge that raises no exception leaves each field of the stored item as it was that the planner did
-- not give, but for the title, scope, kind, fingerprint, acceptance criteria, required inputs, the
-- three fields on what blocks it, the mark of an active sprint and the origin. It leaves the item's
-- identifier as it was, whatever the planner gave.
pub merge_item-IsKept :
    (existing : Fields) (candidate : Candidate) (key : String)
    → member key replaced_fields ≡ false
    → member key candidate.explicit ≡ false
    → OkIs
        (λ merged. IsKept key existing merged × IsKept "backlog_id" existing merged)
        (merge_item existing candidate)
merge_item-IsKept existing candidate key r e =
    OkIs-both (IsKept key existing) (IsKept "backlog_id" existing) (merge_item existing candidate)
      (merge_item-unwritten existing candidate key
        (not_taken (member key merged_fields) (member key always_fields)
          (member key candidate.explicit) (replaced-parts key r).0 e)
        (replaced-parts key r).1)
      (merge_item-unwritten existing candidate "backlog_id" refl refl)
