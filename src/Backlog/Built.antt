-- ===== src/Backlog/Built.antt =====
-- workflows/state/backlog_store.py: the item that `build_sprint_selected_backlog_item` shows in a
-- sprint, beside the stored item that `apply_backlog_state_from_todo` changes.
use sprint_runtime.Prelude.{◌≡◌, refl, ◌∙◌, ap, String, false, ◌==◌, if_both}
use sprint_runtime.Prelude.Text.{is_empty, strip}
use sprint_runtime.Python.{str, Fields, put}
use sprint_runtime.Python.Laws.{get-put_self, get-put_other, OkIs}
use sprint_runtime.Python.Convert.{text, tag}
use sprint_runtime.Python.Sequences.{is_end}
use sprint_runtime.Backlog.{
  Desired, unchanged, selected, done, blocked, carried_over, desired_name,
  desired_backlog_status_for_todo, clear_backlog_blockers, field_text, default_text, in_sprints,
  merged_status, build_sprint_selected_backlog_item, is_uncommitted, recovery_step,
}
use sprint_runtime.Backlog.Applied.{tag-name, strip-empty}
use sprint_runtime.Backlog.Placed.{
  IsIn, IsIn-Agrees, selected_in, completed_in, text-str, clear-other,
}

in_sprints-IsIn :
    (desired : Desired) (sprint_id : String) (item : Fields)
    → strip (selected_in desired sprint_id) ≡ selected_in desired sprint_id
    → strip (completed_in desired sprint_id) ≡ completed_in desired sprint_id
    → IsIn desired sprint_id
        (in_sprints item desired (selected_in desired sprint_id) (completed_in desired sprint_id))
in_sprints-IsIn desired sprint_id item s c = (
  ap tag (
        get-put_other _ "completed_in_sprint_id" "status" _ refl
        ∙ get-put_other _ "selected_in_sprint_id" "status" _ refl
        ∙ get-put_self item "status" (str (desired_name desired)))
      ∙ tag-name desired,
  ap (λ v. strip (text v))
        (get-put_other _ "completed_in_sprint_id" "selected_in_sprint_id" _ refl
          ∙ get-put_self _ "selected_in_sprint_id" (str (selected_in desired sprint_id)))
      ∙ ap strip (text-str (selected_in desired sprint_id))
      ∙ s,
  ap (λ v. strip (text v))
        (get-put_self _ "completed_in_sprint_id" (str (completed_in desired sprint_id)))
      ∙ ap strip (text-str (completed_in desired sprint_id))
      ∙ c,
)

cleared-IsIn :
    (desired : Desired) (sprint_id : String) (item : Fields)
    → IsIn desired sprint_id item
    → IsIn desired sprint_id (clear_backlog_blockers item)
cleared-IsIn desired sprint_id item h =
    IsIn-Agrees desired sprint_id item (clear_backlog_blockers item)
      (
        clear-other item "status" refl refl refl refl,
        clear-other item "selected_in_sprint_id" refl refl refl refl,
        clear-other item "completed_in_sprint_id" refl refl refl refl,
      )
      h

default_text-IsIn :
    (desired : Desired) (sprint_id key value : String) (item : Fields)
    → (key == "status") ≡ false
    → (key == "selected_in_sprint_id") ≡ false
    → (key == "completed_in_sprint_id") ≡ false
    → IsIn desired sprint_id item
    → IsIn desired sprint_id (default_text item key value)
default_text-IsIn desired sprint_id key value item a b c h =
    if_both (IsIn desired sprint_id) (is_empty (field_text item key))
      (IsIn-Agrees desired sprint_id item (put item key (str value))
        (
          get-put_other item key "status" (str value) a,
          get-put_other item key "selected_in_sprint_id" (str value) b,
          get-put_other item key "completed_in_sprint_id" (str value) c,
        )
        h)
      h

-- As a stored item that takes the status, or unchanged.
abbrev pub IsShown : Desired → String → Fields → Fields → Type 0
IsShown unchanged sprint_id item shown = shown ≡ item
IsShown desired sprint_id item shown = IsIn desired sprint_id shown

merged_status-IsShown :
    (desired : Desired) (item todo : Fields) (sprint_id : String)
    → strip sprint_id ≡ sprint_id
    → IsShown desired sprint_id item (merged_status desired item todo sprint_id)
merged_status-IsShown unchanged item todo sprint_id h = refl
merged_status-IsShown selected item todo sprint_id h =
    cleared-IsIn selected sprint_id _ (in_sprints-IsIn selected sprint_id item h strip-empty)
merged_status-IsShown done item todo sprint_id h =
    cleared-IsIn done sprint_id _ (in_sprints-IsIn done sprint_id item h h)
merged_status-IsShown carried_over item todo sprint_id h =
    in_sprints-IsIn carried_over sprint_id item strip-empty strip-empty
merged_status-IsShown blocked item todo sprint_id h =
    let freed = in_sprints item blocked "" "" in
    let freed_in = in_sprints-IsIn blocked sprint_id item strip-empty strip-empty in
    let reasoned = default_text freed "blocked_reason" (field_text todo "summary") in
    let owned = default_text reasoned "blocked_by_role" "version_controller" in
    if_both (IsIn blocked sprint_id) (is_uncommitted todo)
      (default_text-IsIn blocked sprint_id "recommended_next_step" recovery_step owned refl refl
        refl
        (default_text-IsIn blocked sprint_id "blocked_by_role" "version_controller" reasoned refl
          refl refl
          (default_text-IsIn blocked sprint_id "blocked_reason" (field_text todo "summary") freed
            refl refl refl freed_in)))
      freed_in

-- For a stored item and a sprint's identifier without white space around it: the item that the
-- sprint shows has the status that the todo asks for, with the sprints that go with it, or it is the
-- stored item if the todo asks for none.
pub build-IsShown :
    (backlog_id : String) (item selected_item todo : Fields) (sprint_id : String)
    → strip sprint_id ≡ sprint_id
    → is_end item ≡ false
    → OkIs
        (IsShown (desired_backlog_status_for_todo todo) sprint_id item)
        (build_sprint_selected_backlog_item backlog_id item selected_item todo sprint_id)
unfolding build_sprint_selected_backlog_item
build-IsShown backlog_id item selected_item todo sprint_id h stored = rw stored (
    rw stored (
      rw stored
        (merged_status-IsShown (desired_backlog_status_for_todo todo) item todo sprint_id h)))
