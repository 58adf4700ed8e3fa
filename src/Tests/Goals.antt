-- ===== src/Tests/Goals.antt =====
-- Commands on goals, from files without any.
use sprint_runtime.Prelude.{◌≡◌, refl, arith, some, [], false}
use sprint_runtime.Prelude.Text.{strip}
use sprint_runtime.Files.{read_json}
use sprint_runtime.Python.{end}
use sprint_runtime.Goals.{cancelled, failed, GoalStore, Clock, active_goal_id, load_active_goal}
use sprint_runtime.Goals.Sound.{IsSound, goal_status}
use sprint_runtime.Goals.Created.{Created, create_goal-Created}
use sprint_runtime.Goals.Lifecycle.{create_goal}
use sprint_runtime.Goals.Commands.{
  Surroundings, crashed, after_sourcing, Command, start_goal_lifecycle, cancel_goal_lifecycle,
  execute,
}
use sprint_runtime.Goals.Commands.Runs.{Run, idle, and_then, run-IsSound, run-IsFinal}
use sprint_runtime.Goals.Commands.Stale.{stale_goal-overwrites}

abbrev no_goals : GoalStore
no_goals = record { goals = []; goal_scheduler = end; goal_events = [] }

abbrev clock : Clock
clock = λ i. "2026-05-01T09:00:00+09:00"

abbrev around : Surroundings
around = record { sprint_id = ""; shared_path = "shared/report.md"; archive_path = "report.md" }

no_goals-IsSound : IsSound no_goals
unfolding goal_status read_json
no_goals-IsSound = record {
  named = λ j h. absurd (ground arith);
  single = λ j s e r. absurd (ground arith);
}

abbrev first : Command
first = start_goal_lifecycle "Ship the feature" "" "goal-1"

abbrev second : Command
second = start_goal_lifecycle "Ship the next one" "" "goal-2"

abbrev with_goal : GoalStore
with_goal = execute first no_goals clock

abbrev without_goal : GoalStore
without_goal = execute (cancel_goal_lifecycle "" around) with_goal clock

one_goal : Run no_goals with_goal
unfolding goal_status strip read_json
one_goal = and_then idle first clock (refl, refl, refl)

over : Run no_goals without_goal
over = and_then one_goal (cancel_goal_lifecycle "" around) clock tt

next_goal : Run without_goal (execute second without_goal clock)
unfolding goal_status execute strip read_json
next_goal = and_then idle second clock (refl, refl, refl)

create_goal-Created_example :
    Created no_goals "goal-1" false (create_goal no_goals "Ship the feature" "" "goal-1" clock)
unfolding goal_status strip read_json
create_goal-Created_example =
    create_goal-Created no_goals "Ship the feature" "" "goal-1" clock no_goals-IsSound
      (refl, refl, refl)

run-IsSound_example : IsSound without_goal
run-IsSound_example = run-IsSound over no_goals-IsSound

run-IsFinal_example : goal_status (execute second without_goal clock) "goal-1" ≡ some cancelled
unfolding goal_status execute strip read_json
run-IsFinal_example =
    run-IsFinal next_goal (run-IsSound over no_goals-IsSound) "goal-1" cancelled refl refl

stale_goal-overwrites_example :
    (goal_status without_goal (active_goal_id with_goal) ≡ some cancelled)
    × (goal_status
          (after_sourcing without_goal
            (load_active_goal with_goal (clock 0)).1
            (crashed "timeout")
            around
            clock).0
          (active_goal_id with_goal)
        ≡ some failed)
unfolding execute load_active_goal
stale_goal-overwrites_example =
    stale_goal-overwrites with_goal clock clock "" "timeout" around around
      (run-IsSound one_goal no_goals-IsSound) refl
