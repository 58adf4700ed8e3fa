-- ===== src/Goals/Sound.antt =====
-- workflows/state/goal_store.py: what the files of the goals have between two commands, and the
-- operations that keep it.
use mathlib.Core.Path.{subst}
use sprint_runtime.Prelude.{
  ◌≡◌, refl, sym, ap, ◌∙◌, arith, String, true, false, ◌==◌, Option, none, some, Bool-cases, ◌⊎◌,
  inl, inr, if◌then◌else◌, eq_iff, eq_refl,
}
use sprint_runtime.Prelude.Text.{is_empty}
use sprint_runtime.Files.{Files, read_json, write_json, read_json-write_json}
use sprint_runtime.Python.{Value, str, Fields, put}
use sprint_runtime.Python.Laws.{get-put_self, get-put}
use sprint_runtime.Python.Sequences.{is_end}
use sprint_runtime.Goals.{
  GoalStatus, active, paused, completed, cancelled, failed, status_name, is_resumable, is_terminal,
  status_of, id_of, GoalStore, active_goal_id,
}

abbrev pub status_in : Fields → Option GoalStatus
status_in goal = if is_end goal then none else some (status_of goal)

-- The status of the goal that is stored under an identifier.
unfoldable pub goal_status : GoalStore → String → Option GoalStatus
goal_status store goal_id = status_in (read_json store.goals goal_id)

abbrev IsNamedBy : String → Fields → Type 0
IsNamedBy j goal = is_end goal ≡ false → (id_of goal ≡ j) × (is_empty j ≡ false)

-- Each goal is stored under its own identifier.
abbrev pub IsNamed : Files → Type 0
IsNamed files = (j : String) → IsNamedBy j (read_json files j)

-- No goal but the one under `k` can go on.
abbrev pub IsAlone : GoalStore → String → Type 0
IsAlone store k =
    (j : String) (s : GoalStatus) → goal_status store j ≡ some s → is_resumable s ≡ true → k ≡ j

-- At most one goal can go on, the one that the pointer names.
pub record IsSound (store : GoalStore) : Type 0 where
  pub named : IsNamed store.goals
  pub single : IsAlone store (active_goal_id store)

-- `goal` is what is stored under `k`, and it is the one that may go on.
pub record IsHeld (store : GoalStore) (goal : Fields) (k : String) : Type 0 where
  pub named : IsNamed store.goals
  pub alone : IsAlone store k
  pub name : id_of goal ≡ k
  pub key : is_empty k ≡ false
  pub present : goal_status store k ≡ some (status_of goal)
  pub pointer : is_resumable (status_of goal) ≡ true → active_goal_id store ≡ k

-- What was over is over with the same status.
abbrev pub IsFinal : GoalStore → GoalStore → Type 0
IsFinal store store' =
    (j : String) (s : GoalStatus)
    → goal_status store j ≡ some s
    → is_terminal s ≡ true
    → goal_status store' j ≡ some s

pub status-put :
    (goal : Fields) (key : String) (v : Value)
    → (key == "status") ≡ false
    → status_of (put goal key v) ≡ status_of goal
unfolding status_of
status-put goal key v h = rw (get-put goal key "status" v) (rw h refl)

pub status-put_status :
    (goal : Fields) (s : GoalStatus) → status_of (put goal "status" (str (status_name s))) ≡ s
unfolding status_of
status-put_status goal active = rw (get-put_self goal "status" (str "active")) refl
status-put_status goal paused = rw (get-put_self goal "status" (str "paused")) refl
status-put_status goal completed = rw (get-put_self goal "status" (str "completed")) refl
status-put_status goal cancelled = rw (get-put_self goal "status" (str "cancelled")) refl
status-put_status goal failed = rw (get-put_self goal "status" (str "failed")) refl

pub id-put :
    (goal : Fields) (key : String) (v : Value)
    → (key == "goal_id") ≡ false
    → id_of (put goal key v) ≡ id_of goal
unfolding id_of
id-put goal key v h = rw (get-put goal key "goal_id" v) (rw h refl)

pub status_in-write :
    (files : Files) (k j : String) (goal : Fields)
    → is_end goal ≡ false
    → status_in (read_json (write_json files k goal) j)
      ≡ (if k == j then some (status_of goal) else status_in (read_json files j))
status_in-write files k j goal h =
    rw (read_json-write_json files k j goal)
      (elim (Bool-cases (k == j)) [ inl e ↦ rw e (rw h refl) | inr e ↦ rw e refl ])

pub IsNamed-write :
    (files : Files) (k : String) (goal : Fields)
    → IsNamed files
    → id_of goal ≡ k
    → is_empty k ≡ false
    → IsNamed (write_json files k goal)
IsNamed-write files k goal named name key j =
    rw (read_json-write_json files k j goal) (elim (Bool-cases (k == j)) [
      | inl e ↦
          rw e (λ h.
            subst (λ i. (id_of goal ≡ i) × (is_empty i ≡ false)) ((eq_iff k j).0 e) (name, key))
      | inr e ↦ rw e (named j)
    ])

keeps_end :
    (o : Option GoalStatus) (a b s : GoalStatus)
    → o ≡ some a
    → o ≡ some s
    → is_terminal s ≡ true
    → (b ≡ a) ⊎ (is_resumable a ≡ true)
    → some b ≡ some s
keeps_end o a b s e f t (inl same) = cc
keeps_end o a b s e f t (inr r) = absurd (ground arith)

-- A changed goal is written back: it has its old status, or the old one was not the end.
pub write-IsHeld :
    {store store' : GoalStore} {goal goal' : Fields} {k : String}
    → IsHeld store goal k
    → store'.goals ≡ write_json store.goals k goal'
    → id_of goal' ≡ k
    → is_end goal' ≡ false
    → (is_resumable (status_of goal') ≡ true → active_goal_id store' ≡ k)
    → IsHeld store' goal' k
unfolding goal_status
write-IsHeld {store} {store'} {goal} {goal'} {k} h files name full pointer = record {
  named = rw files (IsNamed-write store.goals k goal' h.named name h.key);
  alone = λ j s e r. elim (Bool-cases (k == j)) [
    | inl same ↦ (eq_iff k j).0 same
    | inr other ↦ h.alone j s (sym (status_at j other) ∙ e) r
  ];
  name = name;
  key = h.key;
  present =
      ap (λ d. status_in (read_json d k)) files
      ∙ status_in-write store.goals k k goal' full
      ∙ rw (eq_refl k) refl;
  pointer = pointer;
}
  where
    status_at : (j : String) → (k == j) ≡ false → goal_status store' j ≡ goal_status store j
    status_at j other =
        ap (λ d. status_in (read_json d j)) files
        ∙ status_in-write store.goals k j goal' full
        ∙ rw other refl

pub write-IsFinal :
    (store store' : GoalStore) (goal goal' : Fields) (k : String)
    → goal_status store k ≡ some (status_of goal)
    → store'.goals ≡ write_json store.goals k goal'
    → is_end goal' ≡ false
    → (status_of goal' ≡ status_of goal) ⊎ (is_resumable (status_of goal) ≡ true)
    → IsFinal store store'
unfolding goal_status
write-IsFinal store store' goal goal' k present files full change j s e t =
    ap (λ d. status_in (read_json d j)) files
    ∙ status_in-write store.goals k j goal' full
    ∙ elim (Bool-cases (k == j)) [
      | inl same ↦ rw same (
          keeps_end (status_in (read_json store.goals j)) (status_of goal) (status_of goal') s
            (ap (λ i. status_in (read_json store.goals i)) (sym ((eq_iff k j).0 same)) ∙ present) e
            t change)
      | inr other ↦ rw other e
    ]
