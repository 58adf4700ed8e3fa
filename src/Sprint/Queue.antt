-- ===== src/Sprint/Queue.antt =====
-- workflows/sprints/lifecycle.py: `sync_manual_sprint_queue`, which takes the backlog items that are
-- planned for the sprint into its todos. The items come in the order in which the store lists them;
-- the items that it saves are the `selected_items` of the result.
use sprint_runtime.Prelude.{
  String, Bool, not, ◌&&◌, ◌||◌, ◌==◌, List, [], ◌∷◌, ◌++◌, map, ltb, if◌then◌else◌,
}
use sprint_runtime.Prelude.Text.{is_empty, strip}
use sprint_runtime.Prelude.Lists.{keep, is_nil, member}
use sprint_runtime.Prelude.Order.{lex, text_ltb}
use sprint_runtime.Prelude.Sorting.{sort_by}
use sprint_runtime.Files.{Files, read_json, write_json}
use sprint_runtime.Python.{
  pos, Value, true_value, num, str, list, dict, nil, Fields, get, put, fields_of,
}
use sprint_runtime.Python.Convert.{Result, ok, ◌>>=◌, truthy, text, int_or, tag}
use sprint_runtime.Python.Sequences.{or_value, is_end, values}
use sprint_runtime.Sprint.{SprintState, status_of, stripped_text, rank, sort_sprint_todos}
use sprint_runtime.Sprint.Todos.{
  normalize_trace_list, normalize_plan_action_refs, plan_action_refs_for_item, requirement_refs_of,
  texts, cleaned, build_todo_item,
}

abbrev is_planned : String → Fields → Bool
is_planned sprint_id item =
    (stripped_text item "planned_in_sprint_id" == sprint_id
      || stripped_text item "selected_in_sprint_id" == sprint_id)
    && member (status_of item) ("pending" ∷ "selected" ∷ [])

-- The order of the items that are taken: by rank, and then by the time.
abbrev item_before : Fields → Fields → Bool
item_before =
    lex (λ a b. ltb (rank a) (rank b))
      (λ a b. text_ltb (text (get a "created_at")) (text (get b "created_at")))

abbrev with_milestone : String → Fields → Fields
with_milestone milestone item =
    if not (is_empty milestone) && not (stripped_text item "milestone_title" == milestone)
    then put item "milestone_title" (str milestone)
    else item

abbrev taken : String → Fields → Fields
taken sprint_id item =
    if status_of item == "pending"
    then put (put item "status" (str "selected")) "selected_in_sprint_id" (str sprint_id)
    else item

-- `selected_items`
unfoldable pub items_of_sprint : String → String → List Fields → List Fields
unfolding sort_by rank text_ltb text tag strip get put
items_of_sprint sprint_id milestone items =
    map (λ item. taken sprint_id (with_milestone milestone item))
      (sort_by item_before (keep (is_planned sprint_id) items))

-- `existing_by_backlog_id`
abbrev by_backlog_id : Files → List Fields → Files
by_backlog_id found [] = found
by_backlog_id found (todo ∷ todos) =
    by_backlog_id
      (if is_empty (stripped_text todo "backlog_id")
        then found
        else write_json found (stripped_text todo "backlog_id") todo)
      todos

-- `found.pop(key, None)`, as to what it leaves.
abbrev without : String → Files → Files
without key [] = []
without key ((k, d) ∷ files) = if k == key then files else (k, d) ∷ without key files

abbrev put_all : List String → Value → Fields → Fields
put_all [] v todo = todo
put_all (key ∷ keys) v todo = put_all keys v (put todo key v)

-- What is read replaces what the todo has, unless there is none.
abbrev put_refs : Fields → List String → List String → Fields
put_refs todo keys refs = if is_nil refs then todo else put_all keys (texts refs) todo

abbrev put_flag : Fields → Fields → String → Fields
put_flag todo item key = if truthy (get item key) then put todo key true_value else todo

-- The todo of an item that is taken again.
unfoldable pub refreshed : String → Fields → Fields → Result Fields
unfolding text strip get put int_or cleaned requirement_refs_of normalize_trace_list
    normalize_plan_action_refs plan_action_refs_for_item
refreshed milestone item todo =
    let either = λ (key : String). or_value (get item key) (get todo key) in
    int_or (either "priority_rank") (pos 0) >>= λ new_rank.
    cleaned (either "acceptance_criteria") >>= λ criteria. ok (
      put_flag
        (put_flag
          (put_refs
            (put_refs
              (put_refs
                (put
                  (put
                    (put (put todo "title" (str (strip (text (either "title"))))) "milestone_title"
                      (str (
                        if is_empty milestone
                        then strip (text (either "milestone_title"))
                        else milestone)))
                    "priority_rank" (num new_rank))
                  "acceptance_criteria" (texts criteria))
                ("requirement_refs" ∷ "original_requirement_refs" ∷ [])
                (normalize_trace_list (
                  requirement_refs_of item (
                    or_value (get todo "requirement_refs")
                      (or_value (get todo "original_requirement_refs") (list nil))))))
              ("supports_requirement_refs" ∷ [])
              (normalize_trace_list (
                or_value (get item "supports_requirement_refs") (
                  or_value (get (fields_of (get item "origin")) "supports_requirement_refs")
                    (or_value (get todo "supports_requirement_refs") (list nil))))))
            ("plan_action_refs" ∷ [])
            (normalize_plan_action_refs
              (plan_action_refs_for_item item ++ plan_action_refs_for_item todo)))
          item "supporting_todo")
        item "recovery_todo")

-- The todos of the items, and the todos that no item is left for. A new todo gets its identifier
-- from `new_id`, for its item.
abbrev todos_of_items :
    String → (Fields → String) → Files → List Fields → Result (List Fields × Files)
todos_of_items milestone new_id found [] = ok ([], found)
todos_of_items milestone new_id found (item ∷ items) =
    let id = stripped_text item "backlog_id" in
    let todo = read_json found id in
    (if is_end todo
      then build_todo_item item "planner" (new_id item)
      else refreshed milestone item todo)
    >>= λ made. todos_of_items milestone new_id (without id found) items >>= λ rest.
        ok (made ∷ rest.0, rest.1)

-- Of the todos without an item, those that were started stay.
abbrev left_over : List String → Files → List Fields
left_over selected [] = []
left_over selected ((id, todo) ∷ found) =
    let rest = left_over selected found in
    if member id selected
      || member (status_of todo)
          ("running" ∷ "completed" ∷ "committed" ∷ "blocked" ∷ "failed" ∷ "uncommitted" ∷ [])
    then todo ∷ rest
    else rest

unfoldable pub sync_manual_sprint_queue :
    SprintState → List Fields → (Fields → String) → Result SprintState
unfolding items_of_sprint read_json write_json build_todo_item refreshed sort_sprint_todos text tag
    strip get put
sync_manual_sprint_queue s backlog new_id =
    let sprint_id = stripped_text s.state "sprint_id" in
    let milestone = stripped_text s.state "milestone_title" in
    let items = items_of_sprint sprint_id milestone backlog in
    let synced = todos_of_items milestone new_id (by_backlog_id [] s.todos) items >>= λ made.
    ok (record {
      state =
          put (put s.state "selected_items" (list (values (map dict items)))) "selected_backlog_ids"
            (list (values (map (λ item. str (text (get item "backlog_id"))) items)));
      todos =
          sort_sprint_todos
            (made.0 ++ left_over (map (λ item. stripped_text item "backlog_id") items) made.1);
    }) in
    if is_empty sprint_id then ok s else synced
