-- ===== src/Backlog/Applied.antt =====
-- workflows/state/backlog_store.py: what `apply_backlog_state_from_todo` makes of an item.
use sprint_runtime.Prelude.{◌≡◌, refl, String, Bool, true, false, ◌==◌, if◌then◌else◌, if_both}
use sprint_runtime.Prelude.Text.{is_empty, strip, normalized}
use sprint_runtime.Python.{str, Fields}
use sprint_runtime.Python.Laws.{OkIs}
use sprint_runtime.Python.Convert.{tag}
use sprint_runtime.Backlog.{
  Desired, unchanged, selected, done, blocked, carried_over, desired_name,
  desired_backlog_status_for_todo, field_text, Change, set_text, fill_text, applied,
  apply_backlog_state_from_todo, recovery_step, is_uncommitted,
}
use sprint_runtime.Backlog.Placed.{
  IsIn, set_text-other, fill_text-other, IsIn-placed, Agrees, IsIn-Agrees, without_blockers-IsIn,
}

fill_text-Agrees :
    (key value : String) (change : Change)
    → (key == "status") ≡ false
    → (key == "selected_in_sprint_id") ≡ false
    → (key == "completed_in_sprint_id") ≡ false
    → Agrees change.0 (fill_text key value change).0
fill_text-Agrees key value change a b c = (
  fill_text-other key "status" value change a,
  fill_text-other key "selected_in_sprint_id" value change b,
  fill_text-other key "completed_in_sprint_id" value change c,
)

-- What is done to an item that is blocked with the todo, behind its status and sprints.
blocked-IsIn :
    (sprint_id summary step : String) (uncommitted : Bool) (freed : Change)
    → IsIn blocked sprint_id freed.0
    → IsIn blocked sprint_id
        (if uncommitted
          then fill_text "recommended_next_step" step (
              set_text "blocked_by_role" "version_controller"
                (if is_empty summary then freed else fill_text "blocked_reason" summary freed))
          else freed).0
blocked-IsIn sprint_id summary step false freed h = h
blocked-IsIn sprint_id summary step true freed h =
    IsIn-Agrees blocked sprint_id (set_text "blocked_by_role" "version_controller" reasoned).0 _
      (fill_text-Agrees "recommended_next_step" step _ refl refl refl)
      (IsIn-Agrees blocked sprint_id reasoned.0 _
        (
          set_text-other "blocked_by_role" "status" "version_controller" reasoned refl,
          set_text-other "blocked_by_role" "selected_in_sprint_id" "version_controller" reasoned
              refl,
          set_text-other "blocked_by_role" "completed_in_sprint_id" "version_controller" reasoned
              refl,
        )
        reasoned-IsIn)
  where
    reasoned : Change
    reasoned = if is_empty summary then freed else fill_text "blocked_reason" summary freed

    reasoned-IsIn : IsIn blocked sprint_id reasoned.0
    reasoned-IsIn =
        if_both (λ (c : Change). IsIn blocked sprint_id c.0) (is_empty summary) h
          (IsIn-Agrees blocked sprint_id freed.0 _
            (fill_text-Agrees "blocked_reason" summary freed refl refl refl) h)

-- An item without a status to take is unchanged; else it has the status with its sprints.
abbrev pub HasTaken : Desired → String → Fields → Change → Type 0
HasTaken unchanged sprint_id item after = after ≡ (item, false)
HasTaken desired sprint_id item after = IsIn desired sprint_id after.0

pub tag-name : (desired : Desired) → tag (str (desired_name desired)) ≡ desired_name desired
unfolding tag normalized
tag-name unchanged = refl
tag-name selected = refl
tag-name done = refl
tag-name blocked = refl
tag-name carried_over = refl

pub strip-empty : strip "" ≡ ""
unfolding strip
strip-empty = refl

applied-HasTaken :
    (desired : Desired) (item todo : Fields) (sprint_id : String)
    → strip sprint_id ≡ sprint_id
    → OkIs (HasTaken desired sprint_id item) (applied desired item todo sprint_id)
applied-HasTaken unchanged item todo sprint_id h = refl
applied-HasTaken selected item todo sprint_id h =
    without_blockers-IsIn selected sprint_id _
      (IsIn-placed selected sprint_id item (tag-name selected) h strip-empty)
applied-HasTaken done item todo sprint_id h =
    without_blockers-IsIn done sprint_id _ (IsIn-placed done sprint_id item (tag-name done) h h)
applied-HasTaken blocked item todo sprint_id h =
    blocked-IsIn sprint_id (field_text todo "summary") recovery_step (is_uncommitted todo) _
      (IsIn-placed blocked sprint_id item (tag-name blocked) strip-empty strip-empty)
applied-HasTaken carried_over item todo sprint_id h =
    IsIn-placed carried_over sprint_id item (tag-name carried_over) strip-empty strip-empty

-- For a sprint's identifier without white space around it: unless it raises an exception, the item
-- takes the status that the todo asks for, with the sprints that go with that status, and it is
-- unchanged if the todo asks for none.
pub apply-HasTaken :
    (item todo : Fields) (sprint_id : String)
    → strip sprint_id ≡ sprint_id
    → OkIs
        (HasTaken (desired_backlog_status_for_todo todo) sprint_id item)
        (apply_backlog_state_from_todo item todo sprint_id)
unfolding apply_backlog_state_from_todo
apply-HasTaken item todo sprint_id h =
    applied-HasTaken (desired_backlog_status_for_todo todo) item todo sprint_id h
