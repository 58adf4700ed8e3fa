-- ===== src/Goals/Sourcing.antt =====
-- runtime/internal/goal_sourcing.py: the reading of the sourcer's report; and the methods
-- `_handle_goal_sourcing_result` and `_start_goal_sourced_sprint` of the team service, as far as
-- they touch the goal. The sprint that they start is given by its identifier.
use sprint_runtime.Prelude.{
  ℕ, ◌+◌, String, Bool, true, false, ◌&&◌, ◌==◌, ◌<>◌, List, [], ◌∷◌, ◌++◌, if◌then◌else◌,
}
use sprint_runtime.Prelude.Text.{is_empty, strip, lower}
use sprint_runtime.Prelude.Lists.{member}
use sprint_runtime.Python.{
  Value, true_value, false_value, str, list, dict, nil, Fields, end, field, get, put, of_list,
  to_list,
}
use sprint_runtime.Python.Convert.{Result, ok, raise, ◌>>=◌, truthy, text, tag}
use sprint_runtime.Python.Sequences.{or_value, values, iterate}
use sprint_runtime.Goals.{GoalStore, Clock}
use sprint_runtime.Goals.Lifecycle.{complete_goal, archive_goal_final_report}
use sprint_runtime.Goals.Progress.{record_sourced_milestone}

-- The values that stand behind `seen`, each once, by their lower case.
unfoldable pub distinct : List String → List Value → List String
unfolding text strip lower
distinct seen [] = []
distinct seen (item ∷ items) =
    let value = strip (text item) in
    let rest = distinct seen items in
    let more = distinct (lower value ∷ seen) items in
    if is_empty value then rest else if member (lower value) seen then rest else value ∷ more

-- `_string_list`
unfoldable pub string_list : Value → List String
unfolding distinct
string_list (str s) = distinct [] (str s ∷ [])
string_list (list items) = distinct [] (to_list items)
string_list _ = []

abbrev strings : List String → Value
strings items = list (of_list items)

unfoldable pub append_completion_condition_requirement : List String → String → List String
unfolding strip string_list
append_completion_condition_requirement requirements completion_condition =
    if is_empty (strip completion_condition)
    then requirements
    else string_list
        (strings (requirements ++ ("Completion condition: " <> strip completion_condition) ∷ []))

abbrev bool_value : Bool → Value
bool_value true = true_value
bool_value false = false_value

-- Of ALLOWED_GOAL_SOURCER_STATUSES.
unfoldable pub sourcer_status : Fields → String
unfolding tag text strip get
sourcer_status payload =
    let status =
      if tag (get payload "status") == "active" then "sourced" else tag (get payload "status") in
    if member status ("sourced" ∷ "completed" ∷ "no_action" ∷ "failed" ∷ [])
    then status
    else if is_empty (strip (text (get payload "error")))
    then "no_action"
    else "failed"

unfoldable pub completion_decision : Value → String → Fields
unfolding text strip string_list get put
completion_decision true_value status = field "completed" true_value (field "reason" (str "") end)
completion_decision false_value status = field "completed" false_value (field "reason" (str "") end)
completion_decision (dict d) status =
    let completed = put d "completed" (bool_value (truthy (get d "completed"))) in
    let reasoned = put completed "reason" (str (strip (text (get completed "reason")))) in
    put reasoned "evidence" (strings (string_list (get reasoned "evidence")))
completion_decision _ status =
    field "completed" (bool_value (status == "completed"))
      (field "reason" (str "") (field "evidence" (list nil) end))

abbrev milestone_fields : Value → Fields
milestone_fields (str title) = field "title" (str title) end
milestone_fields (dict d) = d
milestone_fields _ = end

unfoldable pub sourced_milestone : Value → Fields
unfolding text strip string_list append_completion_condition_requirement get
sourced_milestone raw =
    let milestone = milestone_fields raw in
    let title =
      or_value (get milestone "title")
        (or_value (get milestone "milestone_title") (get milestone "name")) in
    let condition =
      or_value (get milestone "completion_condition")
        (or_value (get milestone "completion_criteria") (get milestone "done_when")) in
    let requirements = string_list (
      strings (
        string_list (get milestone "requirements")
        ++ string_list (get milestone "acceptance_criteria"))) in
    let artifacts = string_list (
      strings (
        string_list (get milestone "artifacts")
        ++ string_list (get milestone "doc_refs")
        ++ string_list (get milestone "reference_artifacts"))) in
    field "title" (str (strip (text title))) (
      field "summary"
        (str (strip (text (or_value (get milestone "summary") (get milestone "brief")))))
        (field "requirements"
          (strings (append_completion_condition_requirement requirements (strip (text condition))))
          (field "artifacts" (strings artifacts) end)))

abbrev stripped : Fields → String → Fields
stripped d key = put d key (str (strip (text (get d key))))

-- The report with its texts, its decision and its milestone in their normal form.
unfoldable pub normalize_goal_sourcing_payload : Fields → Fields
unfolding sourcer_status completion_decision sourced_milestone text strip get put
normalize_goal_sourcing_payload payload =
    let a = put payload "status" (str (sourcer_status payload)) in
    let b = stripped (stripped (stripped a "summary") "error") "no_action_reason" in
    let c =
      put b "derived_stop_condition"
        (str (strip (text (or_value (get b "derived_stop_condition") (get b "stop_condition"))))) in
    let decision = completion_decision (get c "completion_decision") (sourcer_status payload) in
    let d = if truthy (get decision "completed") then put c "status" (str "completed") else c in
    let e = put d "completion_decision" (dict decision) in
    let milestone = sourced_milestone (or_value (get e "next_milestone") (get e "milestone")) in
    let f = put e "next_milestone" (dict milestone) in
    if truthy (get milestone "title") && text (get f "status") == "no_action"
    then put f "status" (str "sourced")
    else f

abbrev pub later : ℕ → Clock → Clock
later n now = λ i. now (n + i)

-- The store as it is when the operation returns or raises.
abbrev pub settled : GoalStore → Result (GoalStore × Fields) → GoalStore × Result Fields
settled store (ok (store', goal')) = (store', ok goal')
settled store (raise e) = (store, raise e)

-- `_start_goal_sourced_sprint`, for a milestone with a title.
unfoldable pub start_goal_sourced_sprint :
    GoalStore → Fields → Fields → Fields → String → Clock → Result (GoalStore × Fields)
unfolding text strip get iterate record_sourced_milestone
start_goal_sourced_sprint store goal milestone result sprint_id now =
    iterate (or_value (get milestone "requirements") (list nil)) >>= λ requirements.
    iterate (or_value (get milestone "artifacts") (list nil)) >>= λ artifacts.
    record_sourced_milestone store goal (strip (text (get milestone "title")))
      (strip (text (or_value (get milestone "summary") (get result "summary")))) sprint_id
      requirements artifacts now

unfoldable pub completed_by_sourcer :
    GoalStore → Fields → Fields → Fields → String → String → Clock → Result (GoalStore × Fields)
unfolding text strip get iterate complete_goal archive_goal_final_report
completed_by_sourcer store goal result decision shared_path archive_path now =
    iterate (or_value (get decision "evidence") (list nil)) >>= λ evidence.
    let closed =
      complete_goal store goal
        (field "summary" (str (strip (text (get result "summary")))) (
          field "reason" (str (strip (text (get decision "reason"))))
            (field "evidence" (list (values evidence)) end)))
        "sourcer" now in
    ok (archive_goal_final_report closed.0 closed.1 shared_path archive_path (now 3))
