-- ===== src/Backlog.antt =====
-- workflows/state/backlog_store.py: the items of the backlog. An operation that changes an item in
-- place gives the changed item.
pub mod Applied
pub mod Built
pub mod Into
pub mod Merge
pub mod Merged
pub mod Titled
pub mod Order
pub mod Placed
pub mod Selected
pub mod Ahead
use sprint_runtime.Prelude.{
  String, Bool, true, false, not, ◌&&◌, ◌||◌, ◌==◌, Option, none, some, List, [], ◌∷◌, ◌<>◌,
  if◌then◌else◌,
}
use sprint_runtime.Prelude.Text.{is_empty, strip, lower, has}
use sprint_runtime.Prelude.Lists.{any, is_nil, member}
use sprint_runtime.Python.{
  Value, str, num, list, dict, nil, Fields, end, field, get, put, of_list, to_list, pos,
}
use sprint_runtime.Python.Convert.{Result, ok, raise, ◌>>=◌, text, tag, int_or}
use sprint_runtime.Python.Sequences.{or_value, iterate, is_end, clean_items}

-- The status of a backlog item that a todo of a sprint asks for.
pub data Desired : Type 0 where
  unchanged selected done blocked carried_over : Desired

abbrev pub desired_name : Desired → String
desired_name unchanged = ""
desired_name selected = "selected"
desired_name done = "done"
desired_name blocked = "blocked"
desired_name carried_over = "carried_over"

-- No todo is the empty dictionary.
unfoldable pub desired_backlog_status_for_todo : Fields → Desired
unfolding tag get
desired_backlog_status_for_todo todo =
    let status = tag (get todo "status") in
    if member status ("queued" ∷ "running" ∷ [])
    then selected
    else if member status ("completed" ∷ "committed" ∷ [])
    then done
    else if member status ("blocked" ∷ "uncommitted" ∷ [])
    then blocked
    else if status == "failed"
    then carried_over
    else unchanged

abbrev pub is_uncommitted : Fields → Bool
is_uncommitted todo = tag (get todo "status") == "uncommitted"

unfoldable pub clear_backlog_blockers : Fields → Fields
unfolding put
clear_backlog_blockers item =
    put
      (put (put (put item "blocked_reason" (str "")) "blocked_by_role" (str "")) "required_inputs"
        (list nil))
      "recommended_next_step" (str "")

-- `str(item.get(key) or "").strip()`
abbrev pub field_text : Fields → String → String
field_text item key = strip (text (get item key))

-- `_backlog_blocker_snapshot(item)` is the snapshot of an item without blockers.
unfoldable pub has_no_blockers : Fields → Result Bool
unfolding text strip get iterate
has_no_blockers item = iterate (or_value (get item "required_inputs") (list nil)) >>= λ inputs. ok (
    is_empty (field_text item "blocked_reason")
    && is_empty (field_text item "blocked_by_role")
    && is_nil inputs
    && is_empty (field_text item "recommended_next_step"))

-- An item, and whether it was changed.
abbrev pub Change : Type 0
Change = Fields × Bool

-- `if text != value: item[key] = value; changed = True`
unfoldable pub set_text : String → String → Change → Change
unfolding text strip get put
set_text key value (item, changed) =
    if field_text item key == value then (item, changed) else (put item key (str value), true)

-- The blockers are cleared, which is a change if there were any.
unfoldable pub without_blockers : Change → Result Change
unfolding has_no_blockers clear_backlog_blockers
without_blockers (item, changed) =
    has_no_blockers item >>= λ clear. ok (clear_backlog_blockers item, changed || not clear)

abbrev pub recovery_step : String
recovery_step = "version_controller recovery 또는 수동 git 정리가 필요합니다."

-- `if not text: item[key] = value; changed = True`
unfoldable pub fill_text : String → String → Change → Change
unfolding text strip get put
fill_text key value (item, changed) =
    if is_empty (field_text item key) then (put item key (str value), true) else (item, changed)

unfoldable pub set_status : String → Fields → Change
unfolding tag get put
set_status status item =
    if tag (get item "status") == status
    then (item, false)
    else (put item "status" (str status), true)

abbrev pub applied : Desired → Fields → Fields → String → Result Change
applied unchanged item todo sprint_id = ok (item, false)
applied selected item todo sprint_id = without_blockers (
    set_text "completed_in_sprint_id" ""
      (set_text "selected_in_sprint_id" sprint_id (set_status "selected" item)))
applied done item todo sprint_id = without_blockers (
    set_text "completed_in_sprint_id" sprint_id
      (set_text "selected_in_sprint_id" sprint_id (set_status "done" item)))
applied blocked item todo sprint_id =
    let freed =
      set_text "completed_in_sprint_id" ""
        (set_text "selected_in_sprint_id" "" (set_status "blocked" item)) in
    let summary = field_text todo "summary" in
    let reasoned = if is_empty summary then freed else fill_text "blocked_reason" summary freed in
    ok (
      if is_uncommitted todo
      then fill_text "recommended_next_step" recovery_step
          (set_text "blocked_by_role" "version_controller" reasoned)
      else freed)
applied carried_over item todo sprint_id = ok (
    set_text "completed_in_sprint_id" ""
      (set_text "selected_in_sprint_id" "" (set_status "carried_over" item)))

unfoldable pub apply_backlog_state_from_todo : Fields → Fields → String → Result Change
unfolding desired_backlog_status_for_todo set_status set_text without_blockers fill_text tag text
    strip get
apply_backlog_state_from_todo item todo sprint_id =
    applied (desired_backlog_status_for_todo todo) item todo sprint_id

abbrev pub put_text : Fields → String → String → Fields
put_text item key value = put item key (str value)

-- The text of a field that is blank.
abbrev pub default_text : Fields → String → String → Fields
default_text item key value =
    if is_empty (field_text item key) then put item key (str value) else item

abbrev pub in_sprints : Fields → Desired → String → String → Fields
in_sprints item desired selected_id completed_id =
    put_text
      (put_text (put_text item "status" (desired_name desired)) "selected_in_sprint_id" selected_id)
      "completed_in_sprint_id" completed_id

abbrev pub merged_status : Desired → Fields → Fields → String → Fields
merged_status unchanged item todo sprint_id = item
merged_status done item todo sprint_id =
    clear_backlog_blockers (in_sprints item done sprint_id sprint_id)
merged_status selected item todo sprint_id =
    clear_backlog_blockers (in_sprints item selected sprint_id "")
merged_status blocked item todo sprint_id =
    let freed = in_sprints item blocked "" "" in
    if is_uncommitted todo
    then default_text
        (default_text (default_text freed "blocked_reason" (field_text todo "summary"))
          "blocked_by_role" "version_controller")
        "recommended_next_step" recovery_step
    else freed
merged_status carried_over item todo sprint_id = in_sprints item carried_over "" ""

-- The item of a todo that no record of the backlog is known for.
unfoldable pub item_of_todo : String → Fields → Result Fields
unfolding text strip get int_or iterate clean_items
item_of_todo backlog_id todo = int_or (get todo "priority_rank") (pos 0) >>= λ rank.
    iterate (or_value (get todo "acceptance_criteria") (list nil)) >>= λ criteria. ok (
      field "backlog_id" (str (strip backlog_id)) (
        field "title" (str (field_text todo "title")) (
          field "milestone_title" (str (field_text todo "milestone_title")) (
            field "priority_rank" (num rank)
              (field "acceptance_criteria" (list (of_list (clean_items criteria))) end)))))

-- `dict(backlog_item or selected_item or {})`, or the item of the todo where that is empty.
abbrev pub known_item : String → Fields → Fields → Fields → Result Fields
known_item backlog_id backlog_item selected_item todo =
    let known = if is_end backlog_item then selected_item else backlog_item in
    if is_end known && not (is_end todo) then item_of_todo backlog_id todo else ok known

unfoldable pub build_sprint_selected_backlog_item :
    String → Fields → Fields → Fields → String → Result Fields
unfolding item_of_todo desired_backlog_status_for_todo clear_backlog_blockers text strip tag get put
build_sprint_selected_backlog_item backlog_id backlog_item selected_item todo sprint_id =
    known_item backlog_id backlog_item selected_item todo >>= λ item. ok (
      if is_end item
      then item
      else merged_status (desired_backlog_status_for_todo todo) item todo sprint_id)
