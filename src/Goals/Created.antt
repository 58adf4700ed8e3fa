-- ===== src/Goals/Created.antt =====
-- workflows/state/goal_store.py: a new goal, and the outcome that is recorded in a stored one.
use sprint_runtime.Prelude.{
  ◌≡◌, refl, sym, ap, ◌∙◌, arith, String, Bool, true, false, not, ◌==◌, none, some, Bool-cases, ◌⊎◌,
  inl, inr, if◌then◌else◌, eq_iff, eq_refl,
}
use sprint_runtime.Prelude.Text.{is_empty, strip}
use sprint_runtime.Prelude.Strip.{strip-strip}
use sprint_runtime.Files.{read_json, write_json}
use sprint_runtime.Python.{Fields, get}
use sprint_runtime.Python.Convert.{Result, ok, raise, text, value_error}
use sprint_runtime.Python.Sequences.{is_end}
use sprint_runtime.Goals.{
  GoalStatus, active, status_of, id_of, GoalStore, Clock, active_goal_id, is_resumable,
  append_goal_event, load_current_goal, set_active_goal_id, save_goal, save_goal_scheduler,
}
use sprint_runtime.Goals.Sound.{
  IsHeld, IsSound, IsFinal, goal_status, status_in, IsNamed-write, status_in-write,
}
use sprint_runtime.Goals.Kept.{goals-save_goal, pointer-set, text-str}
use sprint_runtime.Goals.Loaded.{IsIdle, IsUnmoved, Held-Sound, Loaded, load_current_goal-Loaded}
use sprint_runtime.Goals.Lifecycle.{build_goal_state, started, create_goal}

-- An identifier as `new_goal_id` returns it, under which nothing is stored.
abbrev pub IsUnused : String → GoalStore → Type 0
IsUnused goal_id store =
    (strip goal_id ≡ goal_id) × (is_empty goal_id ≡ false) × (goal_status store goal_id ≡ none)

id-build :
    (objective stop_condition goal_id now : String)
    → id_of (build_goal_state objective stop_condition goal_id now) ≡ strip goal_id
unfolding build_goal_state id_of get
id-build objective stop_condition goal_id now =
    ap strip (text-str (strip goal_id)) ∙ strip-strip goal_id

status-build :
    (objective stop_condition goal_id now : String)
    → status_of (build_goal_state objective stop_condition goal_id now) ≡ active
unfolding build_goal_state status_of get
status-build objective stop_condition goal_id now = refl

full-build :
    (objective stop_condition goal_id now : String)
    → is_end (build_goal_state objective stop_condition goal_id now) ≡ false
unfolding build_goal_state
full-build objective stop_condition goal_id now = refl

started-status :
    (store : GoalStore) (goal : Fields) (now : Clock) {k : String} (j : String)
    → id_of goal ≡ k
    → is_empty k ≡ false
    → is_end goal ≡ false
    → goal_status (started store goal now) j
      ≡ (if k == j then some (status_of goal) else goal_status store j)
unfolding goal_status started append_goal_event set_active_goal_id save_goal_scheduler
started-status store goal now {k} j name key full =
    ap (λ d. status_in (read_json d j)) (goals-save_goal store goal name key)
    ∙ status_in-write store.goals k j goal full

started-Held :
    (store : GoalStore) (goal : Fields) (now : Clock) {k : String}
    → IsSound store
    → IsIdle store
    → id_of goal ≡ k
    → is_empty k ≡ false
    → is_end goal ≡ false
    → IsHeld (started store goal now) goal k
unfolding started append_goal_event active_goal_id id_of
started-Held store goal now {k} sound idle name key full = record {
  named = rw written (IsNamed-write store.goals k goal sound.named name key);
  alone = λ j s e r. elim (Bool-cases (k == j)) [
    | inl same ↦ (eq_iff k j).0 same
    | inr other ↦ absurd (
        ground (
          arith,
          r,
          idle j s (sym (started-status store goal now j name key full ∙ rw other refl) ∙ e),
        ))
  ];
  name = name;
  key = key;
  present = started-status store goal now k name key full ∙ rw (eq_refl k) refl;
  pointer = λ r. pointer-set (save_goal store goal) (text (get goal "goal_id")) (now 2) ∙ name;
}
  where
    written : (started store goal now).goals ≡ write_json store.goals k goal
    written = unfold set_active_goal_id save_goal_scheduler in goals-save_goal store goal name key

started-Final :
    (store : GoalStore) (goal : Fields) (now : Clock) {k : String}
    → goal_status store k ≡ none
    → id_of goal ≡ k
    → is_empty k ≡ false
    → is_end goal ≡ false
    → IsFinal store (started store goal now)
started-Final store goal now {k} unused name key full j s e t =
    started-status store goal now j name key full ∙ elim (Bool-cases (k == j)) [
      | inl same ↦
          absurd
            (ground (arith, sym e ∙ sym (ap (goal_status store) ((eq_iff k j).0 same)) ∙ unused))
      | inr other ↦ rw other e
    ]

-- A goal was created, with what that takes and gives, or an exception was raised, with its cause.
abbrev pub Created : GoalStore → String → Bool → GoalStore × Result Fields → Type 0
Created store goal_id blank (store', ok goal) =
    (blank ≡ false)
    × IsIdle store
    × IsHeld store' goal goal_id
    × (status_of goal ≡ active)
    × IsFinal store store'
Created store goal_id blank (store', raise e) =
    ((blank ≡ true)
      ⊎ ((j : String) × ((s : GoalStatus) × (goal_status store j ≡ some s)
            × (is_resumable s ≡ true))))
    × IsSound store'
    × IsUnmoved store store'

-- From sound files and with a new identifier, a goal is created exactly if the objective is not blank
-- and no goal can go on; it is active then and the one that the pointer names, and otherwise no
-- status changes.
pub create_goal-Created :
    (store : GoalStore) (objective stop_condition goal_id : String) (now : Clock)
    → IsSound store
    → IsUnused goal_id store
    → Created store goal_id
        (is_empty (strip objective))
        (create_goal store objective stop_condition goal_id now)
unfolding create_goal
create_goal-Created store objective stop_condition goal_id now sound (whole, key, unused) =
    elim (Bool-cases (is_empty (strip objective))) [
      | inl blank ↦ rw blank (inl refl, sound, λ j. refl)
      | inr given ↦ rw given (by_current (load_current_goal-Loaded store (now 0) sound))
    ]
  where
    goal : Fields
    goal = build_goal_state (strip objective) stop_condition goal_id (now 1)

    by_current :
        Loaded store (load_current_goal store (now 0))
        → Created store goal_id false (
            if not (is_end (load_current_goal store (now 0)).1)
            then ((load_current_goal store (now 0)).0, raise value_error)
            else (started (load_current_goal store (now 0)).0 goal now, ok goal))
    by_current (inl (gone, sound', idle, same)) =
        let store' = (load_current_goal store (now 0)).0 in
        let name = id-build (strip objective) stop_condition goal_id (now 1) ∙ whole in
        let full = full-build (strip objective) stop_condition goal_id (now 1) in
        rw gone (
          refl,
          (λ j s e. idle j s (same j ∙ e)),
          started-Held store' goal now sound' idle name key full,
          status-build (strip objective) stop_condition goal_id (now 1),
          (λ j s e t.
              started-Final store' goal now (same goal_id ∙ unused) name key full j s (same j ∙ e)
                t),
        )
    by_current (inr (there, held, may, same)) = rw there (
      inr (active_goal_id store, (_, sym (same (active_goal_id store)) ∙ held.present, may)),
      Held-Sound held,
      same,
    )

-- A stored goal is written back with the status that it had.
pub restored :
    (store store' : GoalStore) (goal : Fields) {k : String}
    → IsSound store
    → store'.goals ≡ write_json store.goals k goal
    → active_goal_id store' ≡ active_goal_id store
    → id_of goal ≡ k
    → is_empty k ≡ false
    → is_end goal ≡ false
    → goal_status store k ≡ some (status_of goal)
    → IsSound store' × IsUnmoved store store'
unfolding goal_status
restored store store' goal {k} sound files pointer name key full present = (
  record {
    named = rw files (IsNamed-write store.goals k goal sound.named name key);
    single = λ j s e r. pointer ∙ sound.single j s (sym (same j) ∙ e) r;
  },
  same,
)
  where
    same : IsUnmoved store store'
    same j =
        ap (λ d. status_in (read_json d j)) files
        ∙ status_in-write store.goals k j goal full
        ∙ elim (Bool-cases (k == j)) [
          | inl e ↦ rw e (sym present ∙ ap (goal_status store) ((eq_iff k j).0 e))
          | inr e ↦ rw e refl
        ]
