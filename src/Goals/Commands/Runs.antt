-- ===== src/Goals/Commands/Runs.antt =====
-- workflows/orchestration/team_service.py: runs of the commands on goals, one after another.
use sprint_runtime.Prelude.{
  ◌≡◌, refl, sym, ap, ◌∙◌, String, ◌<>◌, Bool, true, false, ◌||◌, some, List, inl, inr,
  if◌then◌else◌, if_both,
}
use sprint_runtime.Prelude.Text.{is_empty, strip}
use sprint_runtime.Files.{read_json}
use sprint_runtime.Python.{Value, str, list, nil, Fields, end, field, get, put}
use sprint_runtime.Python.Laws.{OkIs, OkIs-bind, is_end-put}
use sprint_runtime.Python.Convert.{Result, ok, raise, ◌>>=◌, text}
use sprint_runtime.Python.Sequences.{is_end, or_value, iterate}
use sprint_runtime.Goals.{
  status_of, id_of, GoalStore, Clock, active_goal_id, save_goal_at, append_goal_event, is_active,
  load_goal, load_current_goal, load_active_goal,
}
use sprint_runtime.Goals.Sound.{
  status_in, status-put, id-put, IsHeld, IsSound, IsFinal, goal_status,
}
use sprint_runtime.Goals.Kept.{pause_goal-Keeps, resume_goal-Keeps}
use sprint_runtime.Goals.Loaded.{Held-Sound, Loaded, load_current_goal-Loaded}
use sprint_runtime.Goals.Recorded.{
  goals-save_at, pointer-save_at, Same, outcome_noted-Same, archive_goal_final_report-Keeps,
}
use sprint_runtime.Goals.Created.{IsUnused, Created, create_goal-Created, restored}
use sprint_runtime.Goals.Lifecycle.{
  cancel_goal, create_goal, pause_goal, resume_goal, archive_goal_final_report,
}
use sprint_runtime.Goals.Sourcing.{later, settled}
use sprint_runtime.Goals.Progress.{
  recorded, sprint_outcome, sprint_of, record_goal_sprint_outcome, outcome_noted, with_outcome,
}
use sprint_runtime.Goals.Commands.{
  after_sourcing, cancelled_by_cli, Command, start_goal_lifecycle, stop_goal_lifecycle,
  resume_goal_lifecycle, cancel_goal_lifecycle, poll_goal_sourcing_once, record_sprint_outcome,
  execute, on_goal,
}
use sprint_runtime.Goals.Commands.Sourced.{
  SoundAfter, Keeps-then, cancel_goal-Keeps, Keeps-SoundAfter, after_sourcing-SoundAfter,
}

-- A new goal gets an identifier under which nothing is stored.
abbrev pub IsFresh : Command → GoalStore → Type 0
IsFresh (start_goal_lifecycle objective stop_condition goal_id) store = IsUnused goal_id store
IsFresh _ store = Unit

-- One command after another, each with the readings of its clock.
pub data Run (store : GoalStore) : GoalStore → Type 0 where
  idle : Run store store
  and_then :
      {s : GoalStore}
      → Run store s
      → (c : Command) (now : Clock) → IsFresh c s
      → Run store (execute c s now)

on_current :
    (store : GoalStore) (f : GoalStore → Fields → GoalStore) (after : GoalStore × Fields)
    → Loaded store after
    → ((goal : Fields)
        → IsHeld after.0 goal (active_goal_id store)
        → SoundAfter after.0 (f after.0 goal))
    → SoundAfter store (on_goal f after)
on_current store f (store', goal) (inl (gone, sound, quiet, same)) h =
    rw gone (sound, λ j s e t. same j ∙ e)
on_current store f (store', goal) (inr (there, held, may, same)) h =
    rw there ((h goal held).0, λ j s e t. (h goal held).1 j s (same j ∙ e) t)

when_made :
    (store : GoalStore) (goal_id : String) (blank : Bool) (after : GoalStore × Result Fields)
    → Created store goal_id blank after
    → SoundAfter store after.0
when_made store goal_id blank (store', ok goal) (given, quiet, held, new, final) =
    (Held-Sound held, final)
when_made store goal_id blank (store', raise e) (why, sound, same) =
    (sound, λ j s e' t. same j ∙ e')

on_active :
    (store : GoalStore) (f : GoalStore → Fields → GoalStore) (b : Bool) (after : GoalStore × Fields)
    → Loaded store after
    → ((goal : Fields)
        → IsHeld after.0 goal (active_goal_id store)
        → SoundAfter after.0 (f after.0 goal))
    → SoundAfter store (on_goal f (after.0, if b then after.1 else end))
on_active store f true after loaded h = on_current store f after loaded h
on_active store f false (store', goal) (inl (gone, sound, quiet, same)) h =
    (sound, λ j s e t. same j ∙ e)
on_active store f false (store', goal) (inr (there, held, may, same)) h =
    (Held-Sound held, λ j s e t. same j ∙ e)

recorded-SoundAfter :
    (store : GoalStore) (goal sprint closeout : Fields) (now : Clock) {k : String}
    → IsSound store
    → id_of goal ≡ k
    → is_empty k ≡ false
    → goal_status store k ≡ some (status_of goal)
    → SoundAfter store (settled store (record_goal_sprint_outcome store goal sprint closeout now)).0
unfolding record_goal_sprint_outcome append_goal_event save_goal_at active_goal_id
recorded-SoundAfter store goal sprint closeout now {k} sound name key present = settle _ (
    if_both Good (is_empty (sprint_of sprint)) (sound, λ j s e t. e)
      (by_shas (
        iterate (
          or_value (or_value (get sprint "commit_shas") (get closeout "commit_shas")) (list nil)))))
  where
    Good : Result (GoalStore × Fields) → Type 0
    Good = OkIs (λ (after : GoalStore × Fields). SoundAfter store after.0)

    settle : (r : Result (GoalStore × Fields)) → Good r → SoundAfter store (settled store r).0
    settle (ok after) h = h
    settle (raise e) h = (sound, λ j s e' t. e')

    by_goal :
        (outcome goal' : Fields)
        → Same goal goal'
        → Good (
            ok (
              recorded store "sprint_outcome_recorded" "orchestrator"
                ("Sprint outcome recorded: " <> sprint_of sprint)
                outcome
                (now 1)
                (now 2)
                goal'))
    by_goal outcome goal' (status, id) =
        let saved = put goal' "updated_at" (str (now 1)) in
        let after =
          restored store _ saved sound (goals-save_at store goal' (now 1) (id ∙ name) key)
            (pointer-save_at store goal' (now 1))
            (id-put goal' "updated_at" (str (now 1)) refl ∙ id ∙ name) key
            (is_end-put goal' "updated_at" (str (now 1)))
            (present ∙ ap some (sym (status-put goal' "updated_at" (str (now 1)) refl ∙ status))) in
        (after.0, λ j s e t. after.1 j ∙ e)

    by_shas :
        (r : Result (List Value))
        → Good (
            r >>= λ shas.
            with_outcome store goal
              (sprint_of sprint)
              now
              (sprint_outcome sprint closeout shas (now 0)))
    by_shas (raise e) = tt
    by_shas (ok shas) =
        let outcome = sprint_outcome sprint closeout shas (now 0) in
        OkIs-bind (Same goal) (λ (after : GoalStore × Fields). SoundAfter store after.0)
          (outcome_noted goal (sprint_of sprint) outcome)
          (λ goal'. ok (
            recorded store "sprint_outcome_recorded" "orchestrator"
              ("Sprint outcome recorded: " <> sprint_of sprint) outcome (now 1) (now 2) goal'))
          (outcome_noted-Same goal (sprint_of sprint) outcome) (by_goal outcome)

load_goal-named :
    (store : GoalStore) (goal_id : String)
    → is_empty (strip goal_id) ≡ false
    → load_goal store goal_id ≡ read_json store.goals (strip goal_id)
unfolding load_goal
load_goal-named store goal_id named = rw named refl

present-file :
    (store : GoalStore) (k : String) (goal : Fields)
    → goal ≡ read_json store.goals k
    → is_end goal ≡ false
    → goal_status store k ≡ some (status_of goal)
unfolding goal_status
present-file store k goal stored there = ap status_in (sym stored) ∙ rw there refl

guarded :
    (b c : Bool) (store store' : GoalStore)
    → IsSound store
    → (b ≡ false → c ≡ false → SoundAfter store store')
    → SoundAfter store (if b || c then store else store')
guarded true c store store' sound h = (sound, λ j s e t. e)
guarded false true store store' sound h = (sound, λ j s e t. e)
guarded false false store store' sound h = h refl refl

pub execute-SoundAfter :
    (c : Command) (store : GoalStore) (now : Clock)
    → IsSound store
    → IsFresh c store
    → SoundAfter store (execute c store now)
unfolding execute cancelled_by_cli load_active_goal
execute-SoundAfter (start_goal_lifecycle objective stop_condition goal_id) store now sound fresh =
    when_made store goal_id (is_empty (strip objective))
      (create_goal store objective stop_condition goal_id now)
      (create_goal-Created store objective stop_condition goal_id now sound fresh)
execute-SoundAfter stop_goal_lifecycle store now sound fresh =
    on_current store
      (λ s goal. (pause_goal s goal "cli" "Goal paused by CLI stop." (later 1 now)).0)
      (load_current_goal store (now 0)) (load_current_goal-Loaded store (now 0) sound)
      (λ goal held.
        Keeps-SoundAfter _ _
          (pause_goal (load_current_goal store (now 0)).0 goal "cli" "Goal paused by CLI stop."
            (later 1 now))
          (pause_goal-Keeps _ goal "cli" "Goal paused by CLI stop." (later 1 now) held))
execute-SoundAfter resume_goal_lifecycle store now sound fresh =
    on_current store (λ s goal. (resume_goal s goal "cli" (later 1 now)).0)
      (load_current_goal store (now 0)) (load_current_goal-Loaded store (now 0) sound)
      (λ goal held.
        Keeps-SoundAfter _ _
          (resume_goal (load_current_goal store (now 0)).0 goal "cli" (later 1 now))
          (resume_goal-Keeps _ goal "cli" (later 1 now) held))
execute-SoundAfter (cancel_goal_lifecycle wrapped around) store now sound fresh =
    on_current store (λ s goal. (cancelled_by_cli s goal wrapped around (later 1 now)).0)
      (load_current_goal store (now 0)) (load_current_goal-Loaded store (now 0) sound)
      (λ goal held.
        let s = (load_current_goal store (now 0)).0 in
        let evidence =
          field "reason" (str "cancelled by CLI") (field "wrapped_sprint_id" (str wrapped) end) in
        let closed = cancel_goal s goal evidence "cli" (later 1 now) in
        let kept = cancel_goal-Keeps s goal evidence "cli" (later 1 now) held in
        Keeps-SoundAfter s _
          (archive_goal_final_report closed.0 closed.1 around.shared_path around.archive_path
            (now 4))
          (Keeps-then s _ closed _ kept (
            archive_goal_final_report-Keeps closed.0 closed.1 around.shared_path around.archive_path
              (now 4) kept.0)))
execute-SoundAfter (poll_goal_sourcing_once sourcing around) store now sound fresh =
    let current = load_current_goal store (now 0) in
    on_active store (λ s goal. (after_sourcing s goal sourcing around (later 1 now)).0)
      (is_active (status_of current.1)) current (load_current_goal-Loaded store (now 0) sound)
      (λ goal held. after_sourcing-SoundAfter current.0 goal sourcing around (later 1 now) held)
execute-SoundAfter (record_sprint_outcome sprint closeout) store now sound fresh =
    let goal_id = text (get sprint "goal_id") in
    guarded (is_empty (strip goal_id)) (is_end (load_goal store goal_id)) store _ sound
      (λ named there.
        let stored = load_goal-named store goal_id named in
        let known = sound.named (strip goal_id) (ap is_end (sym stored) ∙ there) in
        recorded-SoundAfter store (load_goal store goal_id) sprint closeout now sound
          (ap id_of stored ∙ known.0) known.1 (present-file store (strip goal_id) _ stored there))

-- After whatever commands, one after another and with new identifiers for new goals, sound files
-- are sound: each goal is stored under its identifier, and at most one is active or paused, the one
-- that the pointer names.
pub run-IsSound : {store store' : GoalStore} → Run store store' → IsSound store → IsSound store'
run-IsSound idle sound = sound
run-IsSound (and_then run c now fresh) sound =
    (execute-SoundAfter c _ now (run-IsSound run sound) fresh).0

-- Where the files are sound, a goal that is completed, cancelled or failed keeps that status after
-- whatever commands, one after another and with new identifiers for new goals.
pub run-IsFinal :
    {store store' : GoalStore} → Run store store' → IsSound store → IsFinal store store'
run-IsFinal idle sound j s e t = e
run-IsFinal (and_then run c now fresh) sound j s e t =
    (execute-SoundAfter c _ now (run-IsSound run sound) fresh).1 j s (run-IsFinal run sound j s e t)
      t
