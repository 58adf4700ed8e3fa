-- ===== src/Goals/Noted.antt =====
-- workflows/state/goal_store.py: the changes that leave the status of the goal as it is, and the
-- two ways to get hold of a goal, by the pointer and as a new one.
use sprint_runtime.Prelude.{◌≡◌, refl, sym, ap, ◌∙◌, String, false, ◌||◌, ◌==◌, inl}
use sprint_runtime.Prelude.Text.{is_empty, strip}
use sprint_runtime.Python.{Value, str, Fields, get, put}
use sprint_runtime.Python.Laws.{is_end-put}
use sprint_runtime.Python.Convert.{text}
use sprint_runtime.Goals.{
  status_of, GoalStore, Clock, active_goal_id, is_resumable, save_goal, append_goal_event,
}
use sprint_runtime.Goals.Sound.{IsHeld, status-put, id-put}
use sprint_runtime.Goals.Kept.{Keeps, Keeps-if, save-Keeps, pointer-save}
use sprint_runtime.Goals.Lifecycle.{update_goal_stop_condition}

-- The fields that are written are neither the status nor the identifier.
pub note-Keeps :
    (store store' : GoalStore) (goal : Fields) (a b : String) (v w : Value) {k : String}
    → IsHeld store goal k
    → store'.goals ≡ (save_goal store (put (put goal a v) b w)).goals
    → active_goal_id store' ≡ active_goal_id store
    → (a == "status") ≡ false
    → (a == "goal_id") ≡ false
    → (b == "status") ≡ false
    → (b == "goal_id") ≡ false
    → Keeps store k (store', put (put goal a v) b w)
note-Keeps store store' goal a b v w h files pointer sa ia sb ib =
    save-Keeps store store' goal _ h files (id-put (put goal a v) b w ib ∙ id-put goal a v ia)
      (is_end-put (put goal a v) b w) (λ r. pointer ∙ h.pointer (sym (ap is_resumable same) ∙ r))
      (inl same)
  where
    same : status_of (put (put goal a v) b w) ≡ status_of goal
    same = status-put (put goal a v) b w sb ∙ status-put goal a v sa

pub update_goal_stop_condition-Keeps :
    (store : GoalStore) (goal : Fields) (stop_condition : String) (now : Clock) {k : String}
    → IsHeld store goal k
    → Keeps store k (update_goal_stop_condition store goal stop_condition now)
unfolding update_goal_stop_condition append_goal_event active_goal_id
update_goal_stop_condition-Keeps store goal stop_condition now h =
    Keeps-if
      (is_empty (strip stop_condition)
        || strip stop_condition == strip (text (get goal "stop_condition")))
      h
      (λ e.
        note-Keeps store _ goal "stop_condition" "updated_at" _ _ h refl
          (pointer-save store (
            put (put goal "stop_condition" (str (strip stop_condition))) "updated_at"
              (str (now 0))))
          refl refl refl refl)
