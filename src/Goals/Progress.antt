-- ===== src/Goals/Progress.antt =====
-- workflows/state/goal_store.py: the milestones that are sourced for a goal and the outcomes of its
-- sprints. What raises, raises before anything is written.
use sprint_runtime.Prelude.{String, ◌==◌, ◌<>◌, List, [], ◌∷◌, ◌++◌, map, if◌then◌else◌}
use sprint_runtime.Prelude.Text.{is_empty, strip}
use sprint_runtime.Prelude.Lists.{member}
use sprint_runtime.Python.{
  Value, str, list, dict, num, true_value, Items, nil, cons, Fields, end, field, get, put, of_list,
}
use sprint_runtime.Python.Convert.{
  Result, ok, raise, ◌>>=◌, type_error, attribute_error, truthy, text,
}
use sprint_runtime.Python.Sequences.{
  has_key, append_item, or_value, values, dicts, iterate, clean_items,
}
use sprint_runtime.Goals.{GoalStore, Clock, save_goal_at, append_goal_event}

abbrev pub appended : Fields → String → Fields → Value → Result Fields
appended goal key entry (list items) = ok (put goal key (list (append_item items (dict entry))))
appended goal key entry _ = raise attribute_error

-- `goal.setdefault(key, []).append(entry)`
unfoldable pub append_to : Fields → String → Fields → Result Fields
unfolding append_item get put
append_to goal key entry =
    appended goal key entry (if has_key goal key then get goal key else list nil)

abbrev pub linked_with : String → List String → List String
linked_with sprint_id linked = if member sprint_id linked then linked else linked ++ sprint_id ∷ []

-- The lines on `linked_sprint_ids` that both operations have.
unfoldable pub link_sprint : Fields → String → Result Fields
unfolding iterate clean_items get put
link_sprint goal sprint_id =
    iterate (or_value (get goal "linked_sprint_ids") (list nil)) >>= λ items.
    ok (put goal "linked_sprint_ids" (list (of_list (linked_with sprint_id (clean_items items)))))

unfoldable pub milestone_entry :
    String → String → String → List Value → List Value → String → Fields
unfolding strip clean_items
milestone_entry milestone_title summary sprint_id requirements artifacts now =
    field "milestone_title" (str (strip milestone_title)) (
      field "summary" (str (strip summary)) (
        field "sprint_id" (str (strip sprint_id)) (
          field "requirements" (list (of_list (clean_items requirements))) (
            field "artifacts" (list (of_list (clean_items artifacts))) (
              field "sourced_at" (str now) (
                field "status" (str (if is_empty (strip sprint_id) then "sourced" else "started"))
                  end))))))

-- The goal with the milestone in its list and its sprint among the linked ones.
unfoldable pub milestone_noted : Fields → Fields → String → Result Fields
unfolding append_to link_sprint
milestone_noted goal entry sprint_id = append_to goal "sourced_milestones" entry >>= λ noted.
    if is_empty sprint_id then ok noted else link_sprint noted sprint_id

-- The changed goal is saved, and the event is appended.
abbrev pub recorded :
    GoalStore → String → String → String → Fields → String → String → Fields → GoalStore × Fields
recorded store event_type actor summary payload saved_at now goal = (
  append_goal_event (save_goal_at store goal saved_at) (text (get goal "goal_id")) event_type actor
      summary payload now,
  goal,
)

unfoldable pub record_sourced_milestone :
    GoalStore
    → Fields
    → String
    → String
    → String
    → List Value
    → List Value
    → Clock
    → Result (GoalStore × Fields)
unfolding strip milestone_entry milestone_noted save_goal_at append_goal_event text get
record_sourced_milestone store goal milestone_title summary sprint_id requirements artifacts now =
    let entry = milestone_entry milestone_title summary sprint_id requirements artifacts (now 0) in
    if is_empty (strip milestone_title)
    then ok (store, goal)
    else (milestone_noted goal entry (strip sprint_id) >>= λ goal'. ok (
        recorded store "milestone_sourced" "sourcer"
          ("Milestone sourced: " <> strip milestone_title) entry (now 1) (now 2) goal'))

unfoldable pub sprint_of : Fields → String
unfolding text strip get
sprint_of d = strip (text (get d "sprint_id"))

-- `str(a.get(k) or b.get(l) or "").strip()`
abbrev either_text : Fields → String → Fields → String → String
either_text a k b l = strip (text (or_value (get a k) (get b l)))

unfoldable pub sprint_outcome : Fields → Fields → List Value → String → Fields
unfolding text strip get sprint_of clean_items
sprint_outcome sprint closeout commit_shas now = field "sprint_id" (str (sprint_of sprint)) (
    field "milestone_title" (str (strip (text (get sprint "milestone_title")))) (
      field "status" (str (strip (text (get sprint "status")))) (
        field "closeout_status" (str (either_text sprint "closeout_status" closeout "status")) (
          field "summary" (str (either_text closeout "message" sprint "report_summary")) (
            field "report_path" (str (strip (text (get sprint "report_path")))) (
              field "commit_sha"
                (str (either_text sprint "commit_sha" closeout "representative_commit_sha"))
                (field "commit_shas" (list (of_list (clean_items commit_shas))) (
                  field "ended_at" (str (strip (text (get sprint "ended_at"))))
                    (field "recorded_at" (str now) end)))))))))

-- The first outcome of the sprint is replaced; a new one is appended.
unfoldable pub replaced : String → Fields → List Fields → List Fields
unfolding sprint_of
replaced sprint_id outcome [] = outcome ∷ []
replaced sprint_id outcome (existing ∷ outcomes) =
    if sprint_of existing == sprint_id
    then outcome ∷ outcomes
    else existing ∷ replaced sprint_id outcome outcomes

-- `[dict(item) for item in goal.get("sprint_outcomes") or [] if isinstance(item, dict)]`
unfoldable pub outcomes_of : Fields → Result (List Fields)
unfolding iterate get
outcomes_of goal =
    iterate (or_value (get goal "sprint_outcomes") (list nil)) >>= λ items. ok (dicts items)

unfoldable pub closed_milestone : String → Fields → Fields → Fields
unfolding sprint_of get put
closed_milestone sprint_id outcome milestone =
    if sprint_of milestone == sprint_id
    then put (put (put milestone "status" (str "closed")) "closed_at" (get outcome "recorded_at"))
        "closeout_status" (get outcome "closeout_status")
    else milestone

unfoldable pub closed_items : String → Fields → Items → Items
unfolding closed_milestone
closed_items sprint_id outcome nil = nil
closed_items sprint_id outcome (cons (dict milestone) items) =
    cons (dict (closed_milestone sprint_id outcome milestone))
      (closed_items sprint_id outcome items)
closed_items sprint_id outcome (cons item items) = cons item (closed_items sprint_id outcome items)

abbrev pub close_in : String → Fields → Fields → Value → Result Fields
close_in sprint_id outcome goal (list items) =
    ok (put goal "sourced_milestones" (list (closed_items sprint_id outcome items)))
close_in sprint_id outcome goal true_value = raise type_error
close_in sprint_id outcome goal (num n) = if truthy (num n) then raise type_error else ok goal
close_in sprint_id outcome goal _ = ok goal

-- The milestones of the sprint are closed where they stand.
unfoldable pub close_milestones : String → Fields → Fields → Result Fields
unfolding closed_items get put
close_milestones sprint_id outcome goal =
    close_in sprint_id outcome goal (get goal "sourced_milestones")

-- The goal with the outcome in its list, the sprint among the linked ones and its milestones closed.
unfoldable pub outcome_noted : Fields → String → Fields → Result Fields
unfolding outcomes_of replaced link_sprint close_milestones put
outcome_noted goal sprint_id outcome = outcomes_of goal >>= λ outcomes.
    link_sprint
      (put goal "sprint_outcomes" (list (values (map dict (replaced sprint_id outcome outcomes)))))
      sprint_id
    >>= close_milestones sprint_id outcome

abbrev pub with_outcome : GoalStore → Fields → String → Clock → Fields → Result (GoalStore × Fields)
with_outcome store goal sprint_id now outcome = outcome_noted goal sprint_id outcome >>= λ goal'.
    ok (
      recorded store "sprint_outcome_recorded" "orchestrator"
        ("Sprint outcome recorded: " <> sprint_id) outcome (now 1) (now 2) goal')

unfoldable pub record_goal_sprint_outcome :
    GoalStore → Fields → Fields → Fields → Clock → Result (GoalStore × Fields)
unfolding sprint_of iterate sprint_outcome outcome_noted save_goal_at append_goal_event text get
record_goal_sprint_outcome store goal sprint closeout now =
    if is_empty (sprint_of sprint)
    then ok (store, goal)
    else (iterate
          (or_value (or_value (get sprint "commit_shas") (get closeout "commit_shas")) (list nil))
        >>= λ shas.
            with_outcome store goal (sprint_of sprint) now
              (sprint_outcome sprint closeout shas (now 0)))
