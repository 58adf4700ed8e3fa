-- ===== src/Goals/Commands/Sourced.antt =====
-- workflows/orchestration/team_service.py: what the end of a goal and the sourcer's report keep.
use sprint_runtime.Prelude.{refl, String, not, ◌&&◌, ◌||◌, ◌==◌, List, if_both}
use sprint_runtime.Prelude.Text.{is_empty, strip}
use sprint_runtime.Python.{Value, str, list, dict, nil, Fields, end, field, get}
use sprint_runtime.Python.Convert.{Result, ok, raise, text, tag, truthy, ◌>>=◌}
use sprint_runtime.Python.Sequences.{or_value, values, iterate}
use sprint_runtime.Goals.{
  completed, cancelled, failed, GoalStore, Clock, active_goal_id, append_goal_event,
}
use sprint_runtime.Goals.Sound.{IsHeld, IsSound, IsFinal, goal_status}
use sprint_runtime.Goals.Kept.{Keeps, Keeps-same, close_goal-Keeps}
use sprint_runtime.Goals.Noted.{update_goal_stop_condition-Keeps}
use sprint_runtime.Goals.Loaded.{Held-Sound}
use sprint_runtime.Goals.Recorded.{
  ResultKeeps, record_sourced_milestone-Keeps, archive_goal_final_report-Keeps,
}
use sprint_runtime.Goals.Lifecycle.{
  complete_goal, cancel_goal, fail_goal, archive_goal_final_report,
}
use sprint_runtime.Goals.Sourcing.{
  completed_by_sourcer, start_goal_sourced_sprint, later, settled, normalize_goal_sourcing_payload,
}
use sprint_runtime.Goals.Progress.{record_sourced_milestone}
use sprint_runtime.Goals.Commands.{
  Surroundings, derived_stop_condition, sourced, handle_goal_sourcing_result, Sourcing,
  after_sourcing, fields_of,
}

-- One operation after another on the same goal.
pub Keeps-then :
    (store : GoalStore) (k : String) (after : GoalStore × Fields) (next : GoalStore × Fields)
    → Keeps store k after
    → Keeps after.0 k next
    → Keeps store k next
Keeps-then store k after next (h, f) (h', f') = (h', λ j s e t. f' j s (f j s e t) t)

pub complete_goal-Keeps :
    (store : GoalStore) (goal evidence : Fields) (actor : String) (now : Clock) {k : String}
    → IsHeld store goal k
    → Keeps store k (complete_goal store goal evidence actor now)
unfolding complete_goal
complete_goal-Keeps store goal evidence actor now h =
    close_goal-Keeps completed "completed_at" "completion_evidence" "Goal completed." store goal
      evidence actor now refl (refl, refl) (refl, refl) h

pub cancel_goal-Keeps :
    (store : GoalStore) (goal evidence : Fields) (actor : String) (now : Clock) {k : String}
    → IsHeld store goal k
    → Keeps store k (cancel_goal store goal evidence actor now)
unfolding cancel_goal
cancel_goal-Keeps store goal evidence actor now h =
    close_goal-Keeps cancelled "cancelled_at" "cancellation_evidence" "Goal cancelled." store goal
      evidence actor now refl (refl, refl) (refl, refl) h

fail_goal-Keeps :
    (store : GoalStore) (goal evidence : Fields) (actor : String) (now : Clock) {k : String}
    → IsHeld store goal k
    → Keeps store k (fail_goal store goal evidence actor now)
unfolding fail_goal
fail_goal-Keeps store goal evidence actor now h =
    close_goal-Keeps failed "failed_at" "failure_evidence" "Goal failed." store goal evidence actor
      now refl (refl, refl) (refl, refl) h

completed_by_sourcer-Keeps :
    (store : GoalStore) (goal result decision : Fields) (shared_path archive_path : String)
    (now : Clock) {k : String}
    → IsHeld store goal k
    → ResultKeeps store k
        (completed_by_sourcer store goal result decision shared_path archive_path now)
unfolding completed_by_sourcer
completed_by_sourcer-Keeps store goal result decision shared_path archive_path now {k} h =
    by_evidence (iterate (or_value (get decision "evidence") (list nil)))
  where
    closed : List Value → GoalStore × Fields
    closed evidence =
        complete_goal store goal
          (field "summary" (str (strip (text (get result "summary")))) (
            field "reason" (str (strip (text (get decision "reason"))))
              (field "evidence" (list (values evidence)) end)))
          "sourcer" now

    by_evidence :
        (r : Result (List Value))
        → ResultKeeps store k (
            r >>= λ evidence. ok (
              archive_goal_final_report
                (closed evidence).0
                (closed evidence).1
                shared_path
                archive_path
                (now 3)))
    by_evidence (raise e) = tt
    by_evidence (ok evidence) =
        let after =
          complete_goal-Keeps store goal
            (field "summary" (str (strip (text (get result "summary")))) (
              field "reason" (str (strip (text (get decision "reason"))))
                (field "evidence" (list (values evidence)) end)))
            "sourcer" now h in
        Keeps-then store k (closed evidence) _ after (
          archive_goal_final_report-Keeps (closed evidence).0 (closed evidence).1 shared_path
            archive_path (now 3) after.0)

start_goal_sourced_sprint-Keeps :
    (store : GoalStore) (goal milestone result : Fields) (sprint_id : String) (now : Clock)
    {k : String}
    → IsHeld store goal k
    → ResultKeeps store k (start_goal_sourced_sprint store goal milestone result sprint_id now)
unfolding start_goal_sourced_sprint
start_goal_sourced_sprint-Keeps store goal milestone result sprint_id now {k} h =
    by_lists (iterate (or_value (get milestone "requirements") (list nil)))
      (iterate (or_value (get milestone "artifacts") (list nil)))
  where
    by_lists :
        (r s : Result (List Value))
        → ResultKeeps store k (
            r >>= λ requirements. s >>= λ artifacts.
            record_sourced_milestone store goal
              (strip (text (get milestone "title")))
              (strip (text (or_value (get milestone "summary") (get result "summary"))))
              sprint_id
              requirements
              artifacts
              now)
    by_lists (raise e) s = tt
    by_lists (ok requirements) (raise e) = tt
    by_lists (ok requirements) (ok artifacts) =
        record_sourced_milestone-Keeps store goal (strip (text (get milestone "title")))
          (strip (text (or_value (get milestone "summary") (get result "summary")))) sprint_id
          requirements artifacts now h

logged-Held :
    (store : GoalStore) (goal : Fields) (goal_id event_type actor summary : String)
    (payload : Fields) (now : String) {k : String}
    → IsHeld store goal k
    → IsHeld (append_goal_event store goal_id event_type actor summary payload now) goal k
unfolding append_goal_event goal_status active_goal_id
logged-Held store goal goal_id event_type actor summary payload now h = record {
  named = h.named;
  alone = h.alone;
  name = h.name;
  key = h.key;
  present = h.present;
  pointer = h.pointer;
}

sourced-Keeps :
    (store : GoalStore) (goal result : Fields) (around : Surroundings) (now : Clock) {k : String}
    → IsHeld store goal k
    → ResultKeeps store k (sourced store goal result around now)
unfolding sourced
sourced-Keeps store goal result around now {k} h =
    let decision = fields_of (get result "completion_decision") in
    let milestone = fields_of (get result "next_milestone") in
    if_both (ResultKeeps store k)
      (tag (get result "status") == "completed" || truthy (get decision "completed"))
      (completed_by_sourcer-Keeps store goal result decision around.shared_path around.archive_path
        now h)
      (if_both (ResultKeeps store k) (tag (get result "status") == "failed")
        (fail_goal-Keeps store goal _ "sourcer" now h)
        (if_both (ResultKeeps store k) (not (is_empty (strip (text (get milestone "title")))))
          (start_goal_sourced_sprint-Keeps store goal milestone result around.sprint_id now h)
          (
            logged-Held store goal (text (get goal "goal_id")) "sourcing_no_action" "sourcer"
                (strip (
                  text (
                    or_value (get result "no_action_reason")
                      (or_value (get result "summary") (str "Goal sourcer returned no action.")))))
                (field "result" (dict result) end) (now 0) h,
            λ j s e t. unfold append_goal_event goal_status in e,
          )))

-- The files are sound afterwards, and what was over is as before.
abbrev pub SoundAfter : GoalStore → GoalStore → Type 0
SoundAfter store store' = IsSound store' × IsFinal store store'

pub Keeps-SoundAfter :
    (store : GoalStore) (k : String) (after : GoalStore × Fields)
    → Keeps store k after
    → SoundAfter store after.0
Keeps-SoundAfter store k after (h, f) = (Held-Sound h, f)

pub settled-SoundAfter :
    (store : GoalStore) (k : String) (r : Result (GoalStore × Fields))
    → IsSound store
    → ResultKeeps store k r
    → SoundAfter store (settled store r).0
settled-SoundAfter store k (ok after) sound h = Keeps-SoundAfter store k after h
settled-SoundAfter store k (raise e) sound h = (sound, λ j s e t. e)

pub after_sourcing-SoundAfter :
    (store : GoalStore) (goal : Fields) (sourcing : Sourcing) (around : Surroundings) (now : Clock)
    {k : String}
    → IsHeld store goal k
    → SoundAfter store (after_sourcing store goal sourcing around now).0
unfolding after_sourcing handle_goal_sourcing_result
after_sourcing-SoundAfter store goal (Sourcing.crashed error) around now {k} h =
    Keeps-SoundAfter store k (fail_goal store goal (field "error" (str error) end) "sourcer" now)
      (fail_goal-Keeps store goal (field "error" (str error) end) "sourcer" now h)
after_sourcing-SoundAfter store goal (Sourcing.reported payload) around now {k} h =
    let result = normalize_goal_sourcing_payload payload in
    let noted = derived_stop_condition store goal result now in
    let kept = noted-Keeps result in
    let after =
      settled-SoundAfter noted.0 k (sourced noted.0 noted.1 result around (later 2 now))
        (Held-Sound kept.0) (sourced-Keeps noted.0 noted.1 result around (later 2 now) kept.0) in
    (after.0, λ j s e t. after.1 j s (kept.1 j s e t) t)
  where
    noted-Keeps : (result : Fields) → Keeps store k (derived_stop_condition store goal result now)
    noted-Keeps result =
        if_both (Keeps store k)
          (not (is_empty (strip (text (get result "derived_stop_condition"))))
            && is_empty (strip (text (get goal "stop_condition"))))
          (update_goal_stop_condition-Keeps store goal (text (get result "derived_stop_condition"))
            now h)
          (Keeps-same h)
