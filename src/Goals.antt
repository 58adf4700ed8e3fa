-- ===== src/Goals.antt =====
-- workflows/state/goal_store.py: the records of goals, the pointer to the current goal in
-- `goal_scheduler.json`, and the log of events. The functions that the source gives the paths of
-- the files take the files themselves and return them; a reading of the clock is an argument.
pub mod Lifecycle
pub mod Sound
pub mod Closed
pub mod Kept
pub mod Noted
pub mod Loaded
pub mod Progress
pub mod Recorded
pub mod Created
pub mod Sourcing
pub mod Commands
use sprint_runtime.Prelude.{
  ℕ, String, Bool, true, false, not, ◌&&◌, ◌||◌, ◌==◌, List, [], ◌∷◌, ◌++◌, if◌then◌else◌,
}
use sprint_runtime.Prelude.Text.{is_empty, strip, normalized}
use sprint_runtime.Files.{Files, read_json, write_json}
use sprint_runtime.Python.{Value, str, list, dict, nil, Fields, end, field, get, put}
use sprint_runtime.Python.Convert.{truthy, text}
use sprint_runtime.Python.Sequences.{is_end}

pub data GoalStatus : Type 0 where
  active paused completed cancelled failed : GoalStatus

abbrev pub status_name : GoalStatus → String
status_name active = "active"
status_name paused = "paused"
status_name completed = "completed"
status_name cancelled = "cancelled"
status_name failed = "failed"

abbrev known_status : String → GoalStatus
known_status s =
    if s == "paused"
    then paused
    else if s == "completed"
    then completed
    else if s == "cancelled"
    then cancelled
    else if s == "failed"
    then failed
    else active

unfoldable pub normalize_goal_status : String → GoalStatus
unfolding normalized
normalize_goal_status status = known_status (normalized status)

-- RESUMABLE_GOAL_STATUSES
abbrev pub is_resumable : GoalStatus → Bool
is_resumable active = true
is_resumable paused = true
is_resumable _ = false

-- TERMINAL_GOAL_STATUSES
abbrev pub is_terminal : GoalStatus → Bool
is_terminal status = not (is_resumable status)

abbrev pub is_active : GoalStatus → Bool
is_active active = true
is_active _ = false

abbrev pub is_paused : GoalStatus → Bool
is_paused paused = true
is_paused _ = false

-- `normalize_goal_status(str(goal.get("status") or ""))`
unfoldable pub status_of : Fields → GoalStatus
unfolding normalize_goal_status text get
status_of goal = normalize_goal_status (text (get goal "status"))

-- `str(goal.get("goal_id") or "").strip()`
unfoldable pub id_of : Fields → String
unfolding text strip get
id_of goal = strip (text (get goal "goal_id"))

pub record GoalStore : Type 0 where
  pub goals : Files
  pub goal_scheduler : Fields
  -- The events of all goals, each with the identifier of its goal, the oldest first.
  pub goal_events : List (String × Fields)

-- What `utc_now_iso` returns at its first, second, ... call.
abbrev pub Clock : Type 0
Clock = ℕ → String

unfoldable pub save_goal_scheduler : GoalStore → Fields → String → GoalStore
unfolding put
save_goal_scheduler store state now = record store {
  goal_scheduler = put state "updated_at" (str now);
}

unfoldable pub active_goal_id : GoalStore → String
unfolding text strip get
active_goal_id store = strip (text (get store.goal_scheduler "active_goal_id"))

unfoldable pub set_active_goal_id : GoalStore → String → String → GoalStore
unfolding put save_goal_scheduler strip
set_active_goal_id store goal_id now =
    save_goal_scheduler store (put store.goal_scheduler "active_goal_id" (str (strip goal_id))) now

unfoldable pub clear_active_goal_id : GoalStore → String → String → GoalStore
unfolding put save_goal_scheduler strip active_goal_id
clear_active_goal_id store goal_id now =
    if not (is_empty goal_id)
      && not (is_empty (active_goal_id store))
      && not (active_goal_id store == strip goal_id)
    then store
    else save_goal_scheduler store (put store.goal_scheduler "active_goal_id" (str "")) now

unfoldable pub load_goal : GoalStore → String → Fields
unfolding strip read_json
load_goal store goal_id =
    if is_empty (strip goal_id) then end else read_json store.goals (strip goal_id)

-- `save_goal(paths, goal, update_timestamp=False)`
unfoldable pub save_goal : GoalStore → Fields → GoalStore
unfolding id_of write_json
save_goal store goal =
    if is_empty (id_of goal)
    then store
    else record store { goals = write_json store.goals (id_of goal) goal }

-- `save_goal(paths, goal)`: the file gets the time, the caller's dictionary does not.
unfoldable pub save_goal_at : GoalStore → Fields → String → GoalStore
unfolding id_of write_json put
save_goal_at store goal now = if is_empty (id_of goal) then store else record store {
  goals = write_json store.goals (id_of goal) (put goal "updated_at" (str now));
}

-- The goal that the pointer names. A pointer to a goal that is over is cleared.
unfoldable pub load_current_goal : GoalStore → String → GoalStore × Fields
unfolding load_goal active_goal_id status_of clear_active_goal_id text get
load_current_goal store now =
    let goal = load_goal store (active_goal_id store) in
    if is_end goal
    then (store, end)
    else if not (is_resumable (status_of goal))
    then (clear_active_goal_id store (text (get goal "goal_id")) now, end)
    else (store, goal)

unfoldable pub load_active_goal : GoalStore → String → GoalStore × Fields
unfolding load_current_goal status_of
load_active_goal store now =
    let current = load_current_goal store now in
    (current.0, if is_active (status_of current.1) then current.1 else end)

abbrev goal_event : String → String → String → String → Fields → Fields
goal_event event_type actor summary now payload = field "timestamp" (str now) (
    field "type" (str (strip event_type)) (
      field "actor" (str (strip actor)) (
        field "summary" (str (strip summary))
          (if is_end payload then end else field "payload" (dict payload) end))))

unfoldable pub append_goal_event :
    GoalStore → String → String → String → String → Fields → String → GoalStore
unfolding strip
append_goal_event store goal_id event_type actor summary payload now = record store {
  goal_events =
      store.goal_events ++ (strip goal_id, goal_event event_type actor summary now payload) ∷ [];
}
