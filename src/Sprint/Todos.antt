-- ===== src/Sprint/Todos.antt =====
-- workflows/sprints/lifecycle.py: the todo that is made of a backlog item. Of the letters beyond
-- ASCII, the Hangul syllables count as parts of a word where a pattern asks for its end.
use Prim.Native.Char.{Char, code}
use sprint_runtime.Prelude.{
  String, ◌<>◌, Bool, true, false, ◌&&◌, ◌||◌, Option, none, some, List, [], ◌∷◌, ◌++◌, leb, eqb,
  if◌then◌else◌,
}
use sprint_runtime.Prelude.Text.{is_empty, strip, lower_char}
use sprint_runtime.Prelude.Lists.{member}
use sprint_runtime.Python.{
  pos, Value, num, str, list, nil, Fields, end, field, get, of_list, fields_of, to_list,
}
use sprint_runtime.Python.Convert.{Result, ok, ◌>>=◌, truthy, text, int_or}
use sprint_runtime.Python.Sequences.{or_value, iterate, clean_items}
use sprint_runtime.Backlog.Merge.{flag}

unfoldable pub normalize_trace_list : Value → List String
unfolding clean_items strip
normalize_trace_list (list items) = clean_items (to_list items)
normalize_trace_list (str s) = if is_empty (strip s) then [] else strip s ∷ []
normalize_trace_list _ = []

abbrev is_digit : Char → Bool
is_digit c = leb 48 (code c) && leb (code c) 57

-- `\w`
is_word : Char → Bool
is_word c =
    is_digit c
    || leb 65 (code c) && leb (code c) 90
    || leb 97 (code c) && leb (code c) 122
    || eqb (code c) 95
    || leb 44032 (code c) && leb (code c) 55203

abbrev begins_with_word : String → Bool
begins_with_word String.[] = false
begins_with_word (String.◌∷◌ c s) = is_word c

-- What stands behind the prefix, which is in lower case, in any case of the text.
behind_prefix : String → String → Option String
behind_prefix String.[] s = some s
behind_prefix (String.◌∷◌ p prefix) String.[] = none
behind_prefix (String.◌∷◌ p prefix) (String.◌∷◌ c s) =
    if eqb (code (lower_char c)) (code p) then behind_prefix prefix s else none

-- Three digits, and what stands behind them.
abbrev three_digits : String → Option (String × String)
three_digits (String.◌∷◌ a (String.◌∷◌ b (String.◌∷◌ c s))) =
    if is_digit a && is_digit b && is_digit c
    then some (String.◌∷◌ a (String.◌∷◌ b (String.◌∷◌ c "")), s)
    else none
three_digits _ = none

abbrev plan_action_at : String → Option (String × String)
plan_action_at s = elim (behind_prefix "plan-act-" s) [
  | none ↦ none
  | some rest ↦ elim (three_digits rest) [
    | none ↦ none
    | some (digits, behind) ↦
        if begins_with_word behind then none else some ("PLAN-ACT-" <> digits, behind)
  ]
]

-- The matches of PLAN_ACTION_ID_PATTERN in upper case; the flag tells that a word goes on.
plan_actions_in : Bool → String → List String
unfolding behind_prefix is_word lower_char
plan_actions_in within String.[] = []
plan_actions_in within (String.◌∷◌ c s) =
    let rest = plan_actions_in (is_word c) s in
    elim (if within then none else plan_action_at (String.◌∷◌ c s)) [
      | none ↦ rest
      | some (id, _) ↦ id ∷ rest
    ]

-- The texts that are not among the earlier ones.
unfoldable pub distinct_from : List String → List String → List String
distinct_from seen [] = []
distinct_from seen (s ∷ rest) = elim (member s seen) [
  | true ↦ distinct_from seen rest
  | false ↦ s ∷ distinct_from (s ∷ seen) rest
]

flat : (String → List String) → List String → List String
flat f [] = []
flat f (s ∷ rest) = f s ++ flat f rest

-- `normalize_plan_action_refs`, for the texts of `normalize_trace_list`. A whole text that matches
-- the pattern is a match in it, so that the second way to read the texts finds no more.
unfoldable pub normalize_plan_action_refs : List String → List String
unfolding plan_actions_in distinct_from flat
normalize_plan_action_refs values = distinct_from [] (flat (plan_actions_in false) values)

unfoldable pub plan_action_refs_for_item : Fields → List String
unfolding normalize_trace_list normalize_plan_action_refs get
plan_action_refs_for_item item =
    let origin = fields_of (get item "origin") in
    normalize_plan_action_refs (
      normalize_trace_list (get item "plan_action_refs")
      ++ (normalize_trace_list (get item "implementation_plan_action_refs")
          ++ (normalize_trace_list (get origin "plan_action_refs")
              ++ normalize_trace_list (get origin "implementation_plan_action_refs"))))

-- The requirements that an item names itself, or its origin.
unfoldable pub requirement_refs_of : Fields → Value → Value
unfolding get
requirement_refs_of item otherwise =
    let origin = fields_of (get item "origin") in
    or_value (get item "requirement_refs") (
      or_value (get item "original_requirement_refs") (
        or_value (get origin "requirement_refs")
          (or_value (get origin "original_requirement_refs") otherwise)))

abbrev pub field_stripped : Fields → String → String
field_stripped d key = strip (text (get d key))

abbrev pub texts : List String → Value
texts strings = list (of_list strings)

-- `[str(item).strip() for item in (value or []) if str(item).strip()]`
unfoldable pub cleaned : Value → Result (List String)
unfolding iterate clean_items
cleaned value = iterate (or_value value (list nil)) >>= λ items. ok (clean_items items)

unfoldable pub build_todo_item : Fields → String → String → Result Fields
unfolding normalize_trace_list plan_action_refs_for_item requirement_refs_of text strip get int_or
    cleaned
build_todo_item item owner_role new_id =
    let refs = texts (normalize_trace_list (requirement_refs_of item (list nil))) in
    let supports = or_value (get item "supports_requirement_refs") (
      or_value (get item "supporting_requirement_refs")
        (or_value (get (fields_of (get item "origin")) "supports_requirement_refs") (list nil))) in
    int_or (get item "priority_rank") (pos 0) >>= λ rank.
    cleaned (get item "acceptance_criteria") >>= λ criteria. ok (
      field "todo_id" (str new_id) (
        field "backlog_id" (str (field_stripped item "backlog_id")) (
          field "title" (str (field_stripped item "title")) (
            field "milestone_title" (str (field_stripped item "milestone_title")) (
              field "priority_rank" (num rank) (
                field "owner_role" (str owner_role) (
                  field "status" (str "queued") (
                    field "acceptance_criteria" (texts criteria) (
                      field "request_id" (str "") (
                        field "artifacts" (list nil) (
                          field "started_at" (str "") (
                            field "ended_at" (str "") (
                              field "summary" (str "") (
                                field "carry_over_backlog_id" (str "") (
                                  field "requirement_refs" refs (
                                    field "original_requirement_refs" refs (
                                      field "supporting_todo"
                                        (flag (truthy (get item "supporting_todo")))
                                        (field "supports_requirement_refs"
                                          (texts (normalize_trace_list supports))
                                          (field "plan_action_refs"
                                            (texts (plan_action_refs_for_item item))
                                            (field "recovery_todo"
                                              (flag (truthy (get item "recovery_todo")))
                                              end))))))))))))))))))))
