-- ===== src/Goals/Loaded.antt =====
-- workflows/state/goal_store.py: what is loaded through the pointer to the current goal.
use sprint_runtime.Prelude.{
  ◌≡◌, refl, sym, ap, ◌∙◌, arith, String, Bool, true, false, Option, none, some, Bool-cases, ◌⊎◌,
  inl, inr,
}
use sprint_runtime.Prelude.Text.{is_empty, strip}
use sprint_runtime.Prelude.Strip.{strip-strip}
use sprint_runtime.Files.{read_json}
use sprint_runtime.Python.{Fields, end, get}
use sprint_runtime.Python.Convert.{text}
use sprint_runtime.Python.Sequences.{is_end}
use sprint_runtime.Goals.{
  GoalStatus, status_of, GoalStore, active_goal_id, is_resumable, load_goal, load_current_goal,
  clear_active_goal_id,
}
use sprint_runtime.Goals.Sound.{IsHeld, IsSound, status_in, goal_status}
use sprint_runtime.Goals.Kept.{goals-clear}

abbrev goes_on : Option GoalStatus → Bool
goes_on none = false
goes_on (some s) = is_resumable s

pub Held-Sound :
    {store : GoalStore} {goal : Fields} {k : String} → IsHeld store goal k → IsSound store
Held-Sound {store} h = record {
  named = h.named;
  single = λ j s e r.
      let same = h.alone j s e r in
      h.pointer (
        ap goes_on (sym h.present)
        ∙ ap (λ i. goes_on (goal_status store i)) same
        ∙ ap goes_on e
        ∙ r)
      ∙ same;
}

-- No goal can go on.
abbrev pub IsIdle : GoalStore → Type 0
IsIdle store = (j : String) (s : GoalStatus) → goal_status store j ≡ some s → is_resumable s ≡ false

idle-Sound :
    (store store' : GoalStore)
    → IsSound store
    → store'.goals ≡ store.goals
    → IsIdle store
    → IsSound store'
unfolding goal_status
idle-Sound store store' h files idle = record {
  named = rw files h.named;
  single = λ j s e r. absurd (
      ground (
        arith,
        idle j s (ap (λ d. goal_status (record store { goals = d }) j) (sym files) ∙ e),
        r,
      ));
}

-- Every goal has the status that it had.
abbrev pub IsUnmoved : GoalStore → GoalStore → Type 0
IsUnmoved store store' = (j : String) → goal_status store' j ≡ goal_status store j

-- What is loaded through the pointer of sound files: nothing, and then no goal can go on, or the
-- goal that can go on.
abbrev pub Loaded : GoalStore → GoalStore × Fields → Type 0
Loaded store after =
    ((is_end after.1 ≡ true) × IsSound after.0 × IsIdle after.0 × IsUnmoved store after.0)
    ⊎ ((is_end after.1 ≡ false)
        × IsHeld after.0 after.1 (active_goal_id store)
        × (is_resumable (status_of after.1) ≡ true)
        × IsUnmoved store after.0)

strip-active : (store : GoalStore) → strip (active_goal_id store) ≡ active_goal_id store
unfolding active_goal_id
strip-active store = strip-strip (text (get store.goal_scheduler "active_goal_id"))

end_of : (d : Fields) → is_end d ≡ true → end ≡ d
end_of end h = refl
end_of (Fields.field k v d) h = absurd (ground arith)

-- What the pointer names is what is loaded.
load_goal-current :
    (store : GoalStore)
    → IsSound store
    → load_goal store (active_goal_id store) ≡ read_json store.goals (active_goal_id store)
unfolding load_goal
load_goal-current store h =
    rw (strip-active store) (elim (Bool-cases (is_empty (active_goal_id store))) [
      | inr e ↦ rw e refl
      | inl e ↦ rw e (elim (Bool-cases (is_end (read_json store.goals (active_goal_id store)))) [
        | inl none_there ↦ end_of _ none_there
        | inr there ↦ absurd (ground (arith, e, (h.named (active_goal_id store) there).1))
      ])
    ])

IsIdle-from :
    (store : GoalStore)
    → IsSound store
    → goes_on (goal_status store (active_goal_id store)) ≡ false
    → IsIdle store
IsIdle-from store h over j s e = elim (Bool-cases (is_resumable s)) [
  | inl r ↦ absurd (
      ground (
        arith,
        sym (ap goes_on e ∙ r) ∙ sym (ap (λ i. goes_on (goal_status store i)) (h.single j s e r)),
        over,
      ))
  | inr stuck ↦ stuck
]

status_kept :
    (store store' : GoalStore)
    → store'.goals ≡ store.goals
    → (j : String) → goal_status store' j ≡ goal_status store j
unfolding goal_status
status_kept store store' files j = ap (λ d. status_in (read_json d j)) files

pub load_current_goal-Loaded :
    (store : GoalStore) (now : String) → IsSound store → Loaded store (load_current_goal store now)
unfolding load_current_goal
load_current_goal-Loaded store now h =
    rw (load_goal-current store h) (elim (Bool-cases (is_end goal)) [
      | inl a ↦ rw a (inl (refl, h, IsIdle-from store h (stored ∙ rw a refl), λ j. refl))
      | inr b ↦ elim (Bool-cases (is_resumable (status_of goal))) [
        | inl r ↦ rw b (rw r (inr (b, held b r, r, λ j. refl)))
        | inr n ↦ rw b (
            rw n (
              let idle = IsIdle-from store h (stored ∙ rw b n) in
              let cleared = goals-clear store (text (get goal "goal_id")) now in
              let same =
                status_kept store (clear_active_goal_id store (text (get goal "goal_id")) now)
                  cleared in
              inl (
                refl,
                idle-Sound store (clear_active_goal_id store (text (get goal "goal_id")) now) h
                    cleared idle,
                (λ j s e. idle j s (sym (same j) ∙ e)),
                same,
              )))
      ]
    ])
  where
    goal : Fields
    goal = read_json store.goals (active_goal_id store)

    stored : goes_on (goal_status store (active_goal_id store)) ≡ goes_on (status_in goal)
    stored = unfold goal_status in refl

    held :
        is_end goal ≡ false
        → is_resumable (status_of goal) ≡ true
        → IsHeld store goal (active_goal_id store)
    held full r = record {
      named = h.named;
      alone = h.single;
      name = (h.named (active_goal_id store) full).0;
      key = (h.named (active_goal_id store) full).1;
      present = unfold goal_status in rw full refl;
      pointer = λ x. refl;
    }
