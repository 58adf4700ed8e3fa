-- ===== src/Goals/Commands.antt =====
-- workflows/orchestration/team_service.py: the methods of the team service that change goals, and
-- the runs in which one of them comes after another.
pub mod Runs
pub mod Sourced
pub mod Stale
use sprint_runtime.Prelude.{
  String, Bool, true, false, not, ◌&&◌, ◌||◌, ◌==◌, List, [], ◌∷◌, if◌then◌else◌,
}
use sprint_runtime.Prelude.Text.{is_empty, strip}
use sprint_runtime.Python.{Value, str, dict, Fields, end, field, get, fields_of}
use sprint_runtime.Python.Convert.{Result, ok, raise, truthy, text, tag}
use sprint_runtime.Python.Sequences.{is_end, or_value}
use sprint_runtime.Goals.{
  GoalStore, Clock, load_goal, load_current_goal, load_active_goal, append_goal_event,
}
use sprint_runtime.Goals.Lifecycle.{
  create_goal, update_goal_stop_condition, pause_goal, resume_goal, cancel_goal, fail_goal,
  archive_goal_final_report,
}
use sprint_runtime.Goals.Progress.{sprint_of, record_goal_sprint_outcome}
use sprint_runtime.Goals.Sourcing.{
  normalize_goal_sourcing_payload, start_goal_sourced_sprint, completed_by_sourcer, later, settled,
}

-- What the sprint that a sourced milestone starts, and the report that a completion writes, leave:
-- the identifier of the active sprint and the two paths of the report.
pub record Surroundings : Type 0 where
  pub sprint_id : String
  pub shared_path : String
  pub archive_path : String

-- The stop condition that the sourcer derived, for a goal that has none.
abbrev pub derived_stop_condition : GoalStore → Fields → Fields → Clock → GoalStore × Fields
derived_stop_condition store goal result now =
    if not (is_empty (strip (text (get result "derived_stop_condition"))))
      && is_empty (strip (text (get goal "stop_condition")))
    then update_goal_stop_condition store goal (text (get result "derived_stop_condition")) now
    else (store, goal)

-- What a sourcer's report leads to, once its stop condition is noted.
unfoldable pub sourced :
    GoalStore → Fields → Fields → Surroundings → Clock → Result (GoalStore × Fields)
unfolding tag text strip get completed_by_sourcer fail_goal start_goal_sourced_sprint
    append_goal_event
sourced store goal result around now =
    let decision = fields_of (get result "completion_decision") in
    let milestone = fields_of (get result "next_milestone") in
    let error =
      field "summary" (str (strip (text (get result "summary"))))
        (field "error" (str (strip (text (get result "error")))) end) in
    let reason =
      or_value (get result "no_action_reason")
        (or_value (get result "summary") (str "Goal sourcer returned no action.")) in
    if tag (get result "status") == "completed" || truthy (get decision "completed")
    then completed_by_sourcer store goal result decision around.shared_path around.archive_path now
    else if tag (get result "status") == "failed"
    then ok (fail_goal store goal error "sourcer" now)
    else if not (is_empty (strip (text (get milestone "title"))))
    then start_goal_sourced_sprint store goal milestone result around.sprint_id now
    else ok (
      append_goal_event store (text (get goal "goal_id")) "sourcing_no_action" "sourcer"
          (strip (text reason)) (field "result" (dict result) end) (now 0),
      goal,
    )

unfoldable pub handle_goal_sourcing_result :
    GoalStore → Fields → Fields → Surroundings → Clock → GoalStore × Result Fields
unfolding normalize_goal_sourcing_payload update_goal_stop_condition sourced text strip get
handle_goal_sourcing_result store goal payload around now =
    let result = normalize_goal_sourcing_payload payload in
    let noted = derived_stop_condition store goal result now in
    settled noted.0 (sourced noted.0 noted.1 result around (later 2 now))

-- What the sourcer gives: a report, or the text of the exception that it ends with.
pub data Sourcing : Type 0 where
  reported : Fields → Sourcing
  crashed : String → Sourcing

-- The part of `_poll_goal_sourcing_once` behind the sourcer's run.
unfoldable pub after_sourcing :
    GoalStore → Fields → Sourcing → Surroundings → Clock → GoalStore × Result Fields
unfolding fail_goal handle_goal_sourcing_result
after_sourcing store goal (crashed error) around now =
    let failed = fail_goal store goal (field "error" (str error) end) "sourcer" now in
    (failed.0, ok failed.1)
after_sourcing store goal (reported payload) around now =
    handle_goal_sourcing_result store goal payload around now

pub data Command : Type 0 where
  -- the objective, the stop condition and the identifier that `new_goal_id` returns
  start_goal_lifecycle : String → String → String → Command
  stop_goal_lifecycle : Command
  resume_goal_lifecycle : Command
  -- the identifier of the sprint that is wrapped up
  cancel_goal_lifecycle : String → Surroundings → Command
  poll_goal_sourcing_once : Sourcing → Surroundings → Command
  -- the state of the sprint that ended and the result of its closeout
  record_sprint_outcome : Fields → Fields → Command

abbrev pub on_goal : (GoalStore → Fields → GoalStore) → GoalStore × Fields → GoalStore
on_goal f (store, goal) = if is_end goal then store else f store goal

unfoldable pub cancelled_by_cli :
    GoalStore → Fields → String → Surroundings → Clock → GoalStore × Fields
unfolding cancel_goal archive_goal_final_report
cancelled_by_cli store goal wrapped_sprint_id around now =
    let closed =
      cancel_goal store goal
        (field "reason" (str "cancelled by CLI")
          (field "wrapped_sprint_id" (str wrapped_sprint_id) end))
        "cli" now in
    archive_goal_final_report closed.0 closed.1 around.shared_path around.archive_path (now 3)

-- The files after a command that nothing else interrupts.
unfoldable pub execute : Command → GoalStore → Clock → GoalStore
unfolding create_goal load_current_goal load_active_goal load_goal pause_goal resume_goal
    cancelled_by_cli after_sourcing record_goal_sprint_outcome text strip get
execute (start_goal_lifecycle objective stop_condition goal_id) store now =
    (create_goal store objective stop_condition goal_id now).0
execute stop_goal_lifecycle store now =
    on_goal (λ s goal. (pause_goal s goal "cli" "Goal paused by CLI stop." (later 1 now)).0)
      (load_current_goal store (now 0))
execute resume_goal_lifecycle store now =
    on_goal (λ s goal. (resume_goal s goal "cli" (later 1 now)).0) (load_current_goal store (now 0))
execute (cancel_goal_lifecycle wrapped_sprint_id around) store now =
    on_goal (λ s goal. (cancelled_by_cli s goal wrapped_sprint_id around (later 1 now)).0)
      (load_current_goal store (now 0))
execute (poll_goal_sourcing_once sourcing around) store now =
    on_goal (λ s goal. (after_sourcing s goal sourcing around (later 1 now)).0)
      (load_active_goal store (now 0))
execute (record_sprint_outcome sprint closeout) store now =
    let goal = load_goal store (text (get sprint "goal_id")) in
    if is_empty (strip (text (get sprint "goal_id"))) || is_end goal
    then store
    else (settled store (record_goal_sprint_outcome store goal sprint closeout now)).0
