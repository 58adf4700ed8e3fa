-- ===== src/Backlog/Into.antt =====
-- workflows/state/backlog_store.py: the merge of a candidate into a stored item, `_merge_item`.
use sprint_runtime.Prelude.{String, not, ◌&&◌, ◌||◌, List, [], ◌∷◌, if◌then◌else◌}
use sprint_runtime.Prelude.Lists.{member, is_nil}
use sprint_runtime.Python.{
  Value, true_value, list, dict, nil, Fields, end, field, get, put, fields_of,
}
use sprint_runtime.Python.Convert.{Result, ok, raise, ◌>>=◌, attribute_error, truthy, tag}
use sprint_runtime.Python.Sequences.{or_value, values, iterate, has_key}
use sprint_runtime.Backlog.{clear_backlog_blockers}
use sprint_runtime.Backlog.Merge.{Candidate}

-- `always_fields`
abbrev pub always_fields : List String
always_fields = "title" ∷ "scope" ∷ "kind" ∷ "fingerprint" ∷ []

abbrev pub merged_fields : List String
merged_fields =
    "title" ∷ "summary" ∷ "kind" ∷ "source" ∷ "scope" ∷ "milestone_title" ∷ "priority_rank"
    ∷ "planned_in_sprint_id" ∷ "status" ∷ "selected_in_sprint_id" ∷ "completed_in_sprint_id"
    ∷ "carry_over_of" ∷ "blocked_reason" ∷ "blocked_by_role" ∷ "recommended_next_step"
    ∷ "fingerprint" ∷ []

unfoldable pub taken_over : List String → Candidate → Fields → Fields
unfolding get put
taken_over [] candidate merged = merged
taken_over (name ∷ names) candidate merged = taken_over names candidate (
    if member name always_fields || member name candidate.explicit
    then put merged name (get candidate.item name)
    else merged)

-- `item[key] = list(candidate.get(key) or [])`
abbrev pub listed : String → Candidate → Fields → Result Fields
listed key candidate merged = iterate (or_value (get candidate.item key) (list nil)) >>= λ items.
    ok (put merged key (list (values items)))

abbrev pub if_missing : String → Candidate → Fields → Result Fields
if_missing key candidate merged =
    iterate (or_value (get candidate.item key) (list nil)) >>= λ given.
    iterate (or_value (get merged key) (list nil)) >>= λ stored.
    ok
      (if not (is_nil given) && is_nil stored then put merged key (list (values given)) else merged)

unfoldable pub with_criteria : Candidate → Fields → Result Fields
unfolding iterate get put
with_criteria candidate merged =
    if member "acceptance_criteria" candidate.explicit
      && has_key candidate.item "acceptance_criteria"
    then listed "acceptance_criteria" candidate merged
    else if_missing "acceptance_criteria" candidate merged

unfoldable pub with_inputs : Candidate → Fields → Result Fields
unfolding iterate get put
with_inputs candidate merged =
    if member "required_inputs" candidate.explicit
    then listed "required_inputs" candidate merged
    else ok merged

abbrev pub unblocked : Fields → Fields
unblocked merged =
    if member (tag (get merged "status")) ("pending" ∷ "selected" ∷ "done" ∷ [])
    then clear_backlog_blockers merged
    else merged

abbrev pub flagged : Candidate → Fields → Fields
flagged candidate merged =
    if truthy (get candidate.item "added_during_active_sprint")
    then put merged "added_during_active_sprint" true_value
    else merged

-- `d.update(e)`
unfoldable pub updated : Fields → Fields → Fields
unfolding put
updated d end = d
updated d (field k v rest) = updated (put d k v) rest

abbrev pub with_origin : Fields → Fields → Value → Result Fields
with_origin origin merged (dict stored) = ok (put merged "origin" (dict (updated stored origin)))
with_origin origin merged _ = raise attribute_error

-- `merged.setdefault("origin", {})`, and its update.
unfoldable pub merged_origin : Candidate → Fields → Result Fields
unfolding updated get put
merged_origin candidate merged =
    with_origin (fields_of (get candidate.item "origin")) merged
      (if has_key merged "origin" then get merged "origin" else dict end)

abbrev pub finish : Candidate → Fields → Result Fields
finish candidate merged = merged_origin candidate (flagged candidate (unblocked merged))

unfoldable pub merge_item : Fields → Candidate → Result Fields
unfolding taken_over with_criteria with_inputs clear_backlog_blockers merged_origin tag get put
merge_item existing candidate =
    with_criteria candidate (taken_over merged_fields candidate existing)
    >>= with_inputs candidate
    >>= finish candidate
