-- ===== src/Goals/Lifecycle.antt =====
-- workflows/state/goal_store.py: how a goal is created, paused, resumed and brought to its end.
-- Each operation gives the files and the caller's dictionary as they are afterwards.
use sprint_runtime.Prelude.{String, not, ◌||◌, ◌==◌, if◌then◌else◌}
use sprint_runtime.Prelude.Text.{is_empty, strip}
use sprint_runtime.Python.{Value, str, list, dict, nil, Fields, end, field, get, put}
use sprint_runtime.Python.Convert.{Result, ok, raise, value_error, text}
use sprint_runtime.Python.Sequences.{is_end}
use sprint_runtime.Goals.{
  GoalStatus, active, paused, completed, cancelled, failed, status_name, is_terminal, is_active,
  is_paused, status_of, id_of, GoalStore, Clock, set_active_goal_id, clear_active_goal_id,
  save_goal, save_goal_at, load_current_goal, append_goal_event,
}

abbrev nothing : Value
nothing = str ""

unfoldable pub build_goal_state : String → String → String → String → Fields
unfolding strip
build_goal_state objective stop_condition goal_id now = field "goal_id" (str (strip goal_id)) (
    field "objective" (str (strip objective)) (
      field "stop_condition" (str (strip stop_condition)) (
        field "status" (str "active") (
          field "sourced_milestones" (list nil) (
            field "linked_sprint_ids" (list nil) (
              field "sprint_outcomes" (list nil) (
                field "completion_evidence" (dict end) (
                  field "cancellation_evidence" (dict end) (
                    field "failure_evidence" (dict end) (
                      field "final_report_path" nothing (
                        field "final_report_archive_path" nothing (
                          field "created_at" (str now) (
                            field "updated_at" (str now) (
                              field "paused_at" nothing (
                                field "resumed_at" nothing (
                                  field "completed_at" nothing (
                                    field "cancelled_at" nothing
                                      (field "failed_at" nothing end))))))))))))))))))

-- The new goal is saved, becomes the current one and gets its first event.
unfoldable pub started : GoalStore → Fields → Clock → GoalStore
unfolding save_goal set_active_goal_id append_goal_event text get
started store goal now =
    append_goal_event
      (set_active_goal_id (save_goal store goal) (text (get goal "goal_id")) (now 2))
      (text (get goal "goal_id")) "started" "cli" "Goal started."
      (field "objective" (get goal "objective")
        (field "stop_condition" (get goal "stop_condition") end))
      (now 3)

-- `goal_id` is what `new_goal_id` returns.
unfoldable pub create_goal :
    GoalStore → String → String → String → Clock → GoalStore × Result Fields
unfolding strip load_current_goal build_goal_state started
create_goal store objective stop_condition goal_id now =
    let current = load_current_goal store (now 0) in
    let goal = build_goal_state (strip objective) stop_condition goal_id (now 1) in
    if is_empty (strip objective)
    then (store, raise value_error)
    else if not (is_end current.1)
    then (current.0, raise value_error)
    else (started current.0 goal now, ok goal)

unfoldable pub update_goal_stop_condition : GoalStore → Fields → String → Clock → GoalStore × Fields
unfolding strip text get put save_goal append_goal_event
update_goal_stop_condition store goal stop_condition now =
    let goal' =
      put (put goal "stop_condition" (str (strip stop_condition))) "updated_at" (str (now 0)) in
    if is_empty (strip stop_condition)
      || strip stop_condition == strip (text (get goal "stop_condition"))
    then (store, goal)
    else (
      append_goal_event (save_goal store goal') (text (get goal' "goal_id"))
          "stop_condition_derived" "sourcer" "Goal stop condition derived."
          (field "stop_condition" (str (strip stop_condition)) end) (now 1),
      goal',
    )

-- The new status with the time of the change.
unfoldable pub moved : Fields → GoalStatus → String → String → Fields
unfolding put
moved goal status time_key now =
    put (put (put goal "status" (str (status_name status))) time_key (str now)) "updated_at"
      (str now)

unfoldable pub pause_goal : GoalStore → Fields → String → String → Clock → GoalStore × Fields
unfolding status_of moved save_goal append_goal_event text get
pause_goal store goal actor reason now =
    let goal' = moved goal paused "paused_at" (now 0) in
    if not (is_active (status_of goal)) then (store, goal) else (
      append_goal_event (save_goal store goal') (text (get goal' "goal_id")) "paused" actor
          (if is_empty reason then "Goal paused." else reason) end (now 1),
      goal',
    )

unfoldable pub resume_goal : GoalStore → Fields → String → Clock → GoalStore × Fields
unfolding status_of moved save_goal set_active_goal_id append_goal_event text get
resume_goal store goal actor now =
    let goal' = moved goal active "resumed_at" (now 0) in
    if not (is_paused (status_of goal)) then (store, goal) else (
      append_goal_event
          (set_active_goal_id (save_goal store goal') (text (get goal' "goal_id")) (now 1))
          (text (get goal' "goal_id")) "resumed" actor "Goal resumed." end (now 2),
      goal',
    )

-- The new status with the time of the change and the evidence for it.
unfoldable pub closed : Fields → GoalStatus → String → String → Fields → String → Fields
unfolding put
closed goal status time_key evidence_key evidence now =
    put
      (put (put (put goal "status" (str (status_name status))) time_key (str now)) evidence_key
        (dict evidence))
      "updated_at" (str now)

-- The lines that `complete_goal`, `cancel_goal` and `fail_goal` share: the goal's new status, the
-- names of the fields for its time and its evidence, and the summary of the event.
unfoldable pub close_goal :
    GoalStatus
    → String
    → String
    → String
    → GoalStore
    → Fields
    → Fields
    → String
    → Clock
    → GoalStore × Fields
unfolding status_of closed save_goal clear_active_goal_id append_goal_event text get
close_goal status time_key evidence_key summary store goal evidence actor now =
    let goal' = closed goal status time_key evidence_key evidence (now 0) in
    if is_terminal (status_of goal) then (store, goal) else (
      append_goal_event
          (clear_active_goal_id (save_goal store goal') (text (get goal' "goal_id")) (now 1))
          (text (get goal' "goal_id")) (status_name status) actor summary evidence (now 2),
      goal',
    )

unfoldable pub complete_goal : GoalStore → Fields → Fields → String → Clock → GoalStore × Fields
unfolding close_goal
complete_goal = close_goal completed "completed_at" "completion_evidence" "Goal completed."

unfoldable pub cancel_goal : GoalStore → Fields → Fields → String → Clock → GoalStore × Fields
unfolding close_goal
cancel_goal = close_goal cancelled "cancelled_at" "cancellation_evidence" "Goal cancelled."

unfoldable pub fail_goal : GoalStore → Fields → Fields → String → Clock → GoalStore × Fields
unfolding close_goal
fail_goal = close_goal failed "failed_at" "failure_evidence" "Goal failed."

-- What `archive_goal_final_report` does to the record of a goal, once the report is written under
-- the two paths.
unfoldable pub archive_goal_final_report :
    GoalStore → Fields → String → String → String → GoalStore × Fields
unfolding id_of put save_goal_at
archive_goal_final_report store goal shared_path archive_path now =
    let goal' =
      put (put goal "final_report_path" (str shared_path)) "final_report_archive_path"
        (str archive_path) in
    if is_empty (id_of goal) then (store, goal) else (save_goal_at store goal' now, goal')
