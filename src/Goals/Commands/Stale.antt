-- ===== src/Goals/Commands/Stale.antt =====
-- workflows/orchestration/team_service.py: `_poll_goal_sourcing_once` loads the goal, waits for the
-- sourcer, and writes the goal back as it was loaded; a command of another process may come between.
use sprint_runtime.Prelude.{
  ◌≡◌, refl, ap, ◌∙◌, arith, String, Bool, true, false, some, inl, inr, if◌then◌else◌, eq_refl,
  if_both,
}
use sprint_runtime.Prelude.Text.{is_empty}
use sprint_runtime.Files.{read_json}
use sprint_runtime.Python.{str, Fields, end, field, get}
use sprint_runtime.Python.Convert.{text}
use sprint_runtime.Python.Sequences.{is_end}
use sprint_runtime.Goals.{
  GoalStatus, active, cancelled, failed, status_of, id_of, GoalStore, Clock, active_goal_id,
  save_goal, append_goal_event, is_terminal, is_active, load_active_goal, load_current_goal,
}
use sprint_runtime.Goals.Sound.{
  IsSound, IsHeld, goal_status, status_in, status_in-write, status-put,
}
use sprint_runtime.Goals.Kept.{goals-save_goal, goals-clear}
use sprint_runtime.Goals.Loaded.{Loaded, load_current_goal-Loaded}
use sprint_runtime.Goals.Recorded.{archive_goal_final_report-Keeps}
use sprint_runtime.Goals.Closed.{IsOther, status-closed, id-closed, full-closed}
use sprint_runtime.Goals.Lifecycle.{
  close_goal, cancel_goal, fail_goal, archive_goal_final_report, closed,
}
use sprint_runtime.Goals.Sourcing.{later}
use sprint_runtime.Goals.Commands.{
  Surroundings, crashed, after_sourcing, cancelled_by_cli, cancel_goal_lifecycle, execute, on_goal,
}
use sprint_runtime.Goals.Commands.Sourced.{cancel_goal-Keeps}

-- Whatever the files hold, a goal that was loaded before its end is stored with its new end.
close_goal-writes :
    (status : GoalStatus) (time_key evidence_key summary : String) (store : GoalStore)
    (goal evidence : Fields) (actor : String) (now : Clock) {k : String}
    → IsOther time_key
    → IsOther evidence_key
    → is_terminal (status_of goal) ≡ false
    → id_of goal ≡ k
    → is_empty k ≡ false
    → goal_status
        (close_goal status time_key evidence_key summary store goal evidence actor now).0
        k
      ≡ some status
unfolding close_goal goal_status append_goal_event
close_goal-writes status time_key evidence_key summary store goal evidence actor now {k} t e live
      name key =
    let goal' = closed goal status time_key evidence_key evidence (now 0) in
    rw live (
      ap (λ d. status_in (read_json d k))
        (goals-clear (save_goal store goal') (text (get goal' "goal_id")) (now 1)
          ∙ goals-save_goal store goal'
              (id-closed goal status time_key evidence_key evidence (now 0) t e ∙ name) key)
      ∙ status_in-write store.goals k k goal'
          (full-closed goal status time_key evidence_key evidence (now 0))
      ∙ rw (eq_refl k)
          (ap some (status-closed goal status time_key evidence_key evidence (now 0) t e)))

close_goal-status :
    (status : GoalStatus) (time_key evidence_key summary : String) (store : GoalStore)
    (goal evidence : Fields) (actor : String) (now : Clock)
    → IsOther time_key
    → IsOther evidence_key
    → is_terminal (status_of goal) ≡ false
    → status_of (close_goal status time_key evidence_key summary store goal evidence actor now).1
      ≡ status
unfolding close_goal
close_goal-status status time_key evidence_key summary store goal evidence actor now t e live =
    rw live (status-closed goal status time_key evidence_key evidence (now 0) t e)

archive-status :
    (store : GoalStore) (goal : Fields) (shared_path archive_path now : String)
    → status_of (archive_goal_final_report store goal shared_path archive_path now).1
      ≡ status_of goal
unfolding archive_goal_final_report
archive-status store goal shared_path archive_path now =
    if_both (λ (after : GoalStore × Fields). status_of after.1 ≡ status_of goal)
      (is_empty (id_of goal)) refl
      (status-put _ "final_report_archive_path" _ refl ∙ status-put goal "final_report_path" _ refl)

cancelled_status :
    (store : GoalStore) (goal : Fields) (wrapped : String) (around : Surroundings) (now : Clock)
    {k : String}
    → IsHeld store goal k
    → is_terminal (status_of goal) ≡ false
    → goal_status (cancelled_by_cli store goal wrapped around now).0 k ≡ some cancelled
unfolding cancelled_by_cli
cancelled_status store goal wrapped around now h live =
    let evidence =
      field "reason" (str "cancelled by CLI") (field "wrapped_sprint_id" (str wrapped) end) in
    let shut = cancel_goal store goal evidence "cli" now in
    (archive_goal_final_report-Keeps shut.0 shut.1 around.shared_path around.archive_path (now 3)
      (cancel_goal-Keeps store goal evidence "cli" now h).0).0.present
    ∙ ap some (
        archive-status shut.0 shut.1 around.shared_path around.archive_path (now 3)
        ∙ unfold cancel_goal in
          close_goal-status cancelled "cancelled_at" "cancellation_evidence" "Goal cancelled." store
            goal evidence "cli" now (refl, refl) (refl, refl) live)

open_active : (s : GoalStatus) → is_active s ≡ true → is_terminal s ≡ false
open_active active h = refl
open_active _ h = absurd (ground arith)

-- From sound files with an active goal: the command that cancels it leaves it cancelled, and a
-- sourcer that had the goal before, and that crashes afterwards, leaves it failed.
pub stale_goal-overwrites :
    (store : GoalStore) (now now' : Clock) (wrapped error : String) (around around' : Surroundings)
    → IsSound store
    → is_end (load_active_goal store (now 0)).1 ≡ false
    → (goal_status (execute (cancel_goal_lifecycle wrapped around) store now) (active_goal_id store)
        ≡ some cancelled)
      × (goal_status
            (after_sourcing
              (execute (cancel_goal_lifecycle wrapped around) store now)
              (load_active_goal store (now 0)).1
              (crashed error)
              around'
              now').0
            (active_goal_id store)
          ≡ some failed)
unfolding execute load_active_goal after_sourcing fail_goal
stale_goal-overwrites store now now' wrapped error around around' sound there =
    by_status (is_active (status_of current.1)) refl there
      (load_current_goal-Loaded store (now 0) sound)
  where
    current : GoalStore × Fields
    current = load_current_goal store (now 0)

    Overwrites : Fields → GoalStore → Type 0
    Overwrites goal files =
        (goal_status files (active_goal_id store) ≡ some cancelled)
        × (goal_status (fail_goal files goal (field "error" (str error) end) "sourcer" now').0
              (active_goal_id store)
            ≡ some failed)

    shut : GoalStore
    shut = on_goal (λ s goal. (cancelled_by_cli s goal wrapped around (later 1 now)).0) current

    by_status :
        (b : Bool)
        → is_active (status_of current.1) ≡ b
        → is_end (if b then current.1 else end) ≡ false
        → Loaded store current
        → Overwrites (if b then current.1 else end) shut
    by_status false e h loaded = absurd (ground arith)
    by_status true e h (inl (gone, sound_after, quiet, same)) = absurd (ground (arith, h, gone))
    by_status true e h (inr (full, held, may, same)) =
        let live = open_active (status_of current.1) e in
        rw full (
          cancelled_status current.0 current.1 wrapped around (later 1 now) held live,
          unfold fail_goal in
              close_goal-writes failed "failed_at" "failure_evidence" "Goal failed." _ current.1 _
                "sourcer" now' (refl, refl) (refl, refl) live held.name held.key,
        )
