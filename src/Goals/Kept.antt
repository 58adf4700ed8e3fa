-- ===== src/Goals/Kept.antt =====
-- workflows/state/goal_store.py: every operation on the current goal keeps the files sound.
use sprint_runtime.Prelude.{
  ◌≡◌, refl, ap, ◌∙◌, arith, String, Bool, true, false, not, ◌==◌, ◌⊎◌, inr, if◌then◌else◌, if_both,
}
use sprint_runtime.Prelude.Text.{is_empty, strip}
use sprint_runtime.Prelude.Strip.{strip-strip}
use sprint_runtime.Files.{write_json}
use sprint_runtime.Python.{str, Fields, get, put}
use sprint_runtime.Python.Laws.{get-put_self, get-put, is_end-put}
use sprint_runtime.Python.Convert.{text}
use sprint_runtime.Python.Sequences.{is_end}
use sprint_runtime.Goals.{
  GoalStatus, active, paused, status_name, is_resumable, is_terminal, status_of, id_of, GoalStore,
  Clock, active_goal_id, set_active_goal_id, clear_active_goal_id, save_goal, save_goal_scheduler,
  append_goal_event, is_active, is_paused,
}
use sprint_runtime.Goals.Sound.{
  IsHeld, IsFinal, status-put, status-put_status, id-put, write-IsHeld, write-IsFinal,
}
use sprint_runtime.Goals.Closed.{IsOther, status-closed, id-closed, full-closed}
use sprint_runtime.Goals.Lifecycle.{moved, pause_goal, resume_goal, closed, close_goal}

-- The goal under `k` is still the one that may go on, and what was over is as before.
abbrev pub Keeps : GoalStore → String → GoalStore × Fields → Type 0
Keeps store k after = IsHeld after.0 after.1 k × IsFinal store after.0

pub Keeps-same :
    {store : GoalStore} {goal : Fields} {k : String}
    → IsHeld store goal k
    → Keeps store k (store, goal)
Keeps-same h = (h, λ j s e t. e)

pub goals-save_goal :
    (store : GoalStore) (goal : Fields) {k : String}
    → id_of goal ≡ k
    → is_empty k ≡ false
    → (save_goal store goal).goals ≡ write_json store.goals k goal
unfolding save_goal
goals-save_goal store goal name key = rw name (rw key refl)

pub goals-clear :
    (store : GoalStore) (goal_id now : String)
    → (clear_active_goal_id store goal_id now).goals ≡ store.goals
unfolding clear_active_goal_id save_goal_scheduler
goals-clear store goal_id now = if_both (λ (s : GoalStore). s.goals ≡ store.goals) _ refl refl

pub text-str : (s : String) → text (str s) ≡ s
unfolding text
text-str String.[] = refl
text-str (String.◌∷◌ c s) = refl

pub pointer-set :
    (store : GoalStore) (goal_id now : String)
    → active_goal_id (set_active_goal_id store goal_id now) ≡ strip goal_id
unfolding active_goal_id set_active_goal_id save_goal_scheduler
pointer-set store goal_id now =
    ap (λ v. strip (text v))
      (get-put (put store.goal_scheduler "active_goal_id" (str (strip goal_id))) "updated_at"
          "active_goal_id" (str now)
        ∙ get-put_self store.goal_scheduler "active_goal_id" (str (strip goal_id)))
    ∙ ap strip (text-str (strip goal_id))
    ∙ strip-strip goal_id

pub status-moved :
    (goal : Fields) (s : GoalStatus) (time_key now : String)
    → (time_key == "status") ≡ false
    → status_of (moved goal s time_key now) ≡ s
unfolding moved
status-moved goal s time_key now h =
    status-put _ "updated_at" (str now) refl
    ∙ status-put _ time_key (str now) h
    ∙ status-put_status goal s

pub id-moved :
    (goal : Fields) (s : GoalStatus) (time_key now : String)
    → (time_key == "goal_id") ≡ false
    → id_of (moved goal s time_key now) ≡ id_of goal
unfolding moved
id-moved goal s time_key now h =
    id-put _ "updated_at" (str now) refl
    ∙ id-put _ time_key (str now) h
    ∙ id-put goal "status" _ refl

full-moved :
    (goal : Fields) (s : GoalStatus) (time_key now : String)
    → is_end (moved goal s time_key now) ≡ false
unfolding moved
full-moved goal s time_key now =
    is_end-put (put (put goal "status" (str (status_name s))) time_key (str now)) "updated_at"
      (str now)

pub pointer-save :
    (store : GoalStore) (goal : Fields)
    → active_goal_id (save_goal store goal) ≡ active_goal_id store
unfolding save_goal active_goal_id
pointer-save store goal =
    if_both (λ (s : GoalStore). active_goal_id s ≡ active_goal_id store) (is_empty (id_of goal))
      refl refl

-- A changed goal is written back.
pub save-Keeps :
    (store store' : GoalStore) (goal goal' : Fields) {k : String}
    → IsHeld store goal k
    → store'.goals ≡ (save_goal store goal').goals
    → id_of goal' ≡ id_of goal
    → is_end goal' ≡ false
    → (is_resumable (status_of goal') ≡ true → active_goal_id store' ≡ k)
    → (status_of goal' ≡ status_of goal) ⊎ (is_resumable (status_of goal) ≡ true)
    → Keeps store k (store', goal')
save-Keeps store store' goal goal' {k} h files name full pointer change = (
  write-IsHeld h written (name ∙ h.name) full pointer,
  write-IsFinal store store' goal goal' k h.present written full change,
)
  where
    written : store'.goals ≡ write_json store.goals k goal'
    written = files ∙ goals-save_goal store goal' (name ∙ h.name) h.key

pub Keeps-if :
    (b : Bool) {store : GoalStore} {goal : Fields} {k : String} {after : GoalStore × Fields}
    → IsHeld store goal k
    → (b ≡ false → Keeps store k after)
    → Keeps store k (if b then (store, goal) else after)
Keeps-if true h f = Keeps-same h
Keeps-if false h f = f refl

resumable_active : (s : GoalStatus) → not (is_active s) ≡ false → is_resumable s ≡ true
resumable_active active h = refl
resumable_active paused h = refl
resumable_active _ h = absurd (ground arith)

resumable_paused : (s : GoalStatus) → not (is_paused s) ≡ false → is_resumable s ≡ true
resumable_paused active h = refl
resumable_paused paused h = refl
resumable_paused _ h = absurd (ground arith)

pub pause_goal-Keeps :
    (store : GoalStore) (goal : Fields) (actor reason : String) (now : Clock) {k : String}
    → IsHeld store goal k
    → Keeps store k (pause_goal store goal actor reason now)
unfolding pause_goal append_goal_event active_goal_id
pause_goal-Keeps store goal actor reason now h =
    let goal' = moved goal paused "paused_at" (now 0) in
    Keeps-if (not (is_active (status_of goal))) h (λ e.
      let may = resumable_active (status_of goal) e in
      save-Keeps store _ goal goal' h refl (id-moved goal paused "paused_at" (now 0) refl)
        (full-moved goal paused "paused_at" (now 0)) (λ r. pointer-save store goal' ∙ h.pointer may)
        (inr may))

pub resume_goal-Keeps :
    (store : GoalStore) (goal : Fields) (actor : String) (now : Clock) {k : String}
    → IsHeld store goal k
    → Keeps store k (resume_goal store goal actor now)
unfolding resume_goal append_goal_event active_goal_id id_of set_active_goal_id save_goal_scheduler
resume_goal-Keeps store goal actor now h =
    let goal' = moved goal active "resumed_at" (now 0) in
    Keeps-if (not (is_paused (status_of goal))) h (λ e.
      save-Keeps store _ goal goal' h refl (id-moved goal active "resumed_at" (now 0) refl)
        (full-moved goal active "resumed_at" (now 0))
        (λ r.
          pointer-set (save_goal store goal') (text (get goal' "goal_id")) (now 1)
          ∙ id-moved goal active "resumed_at" (now 0) refl
          ∙ h.name)
        (inr (resumable_paused (status_of goal) e)))

resumable_open : (s : GoalStatus) → is_terminal s ≡ false → is_resumable s ≡ true
resumable_open s h = ground arith

-- `status` is one that ends a goal.
pub close_goal-Keeps :
    (status : GoalStatus) (time_key evidence_key summary : String) (store : GoalStore)
    (goal evidence : Fields) (actor : String) (now : Clock) {k : String}
    → is_resumable status ≡ false
    → IsOther time_key
    → IsOther evidence_key
    → IsHeld store goal k
    → Keeps store k (close_goal status time_key evidence_key summary store goal evidence actor now)
unfolding close_goal append_goal_event
close_goal-Keeps status time_key evidence_key summary store goal evidence actor now over t e h =
    let goal' = closed goal status time_key evidence_key evidence (now 0) in
    Keeps-if (is_terminal (status_of goal)) h (λ live.
      save-Keeps store _ goal goal' h
        (goals-clear (save_goal store goal') (text (get goal' "goal_id")) (now 1))
        (id-closed goal status time_key evidence_key evidence (now 0) t e)
        (full-closed goal status time_key evidence_key evidence (now 0))
        (λ r. absurd (
          ground
            (arith, over, r, status-closed goal status time_key evidence_key evidence (now 0) t e)))
        (inr (resumable_open (status_of goal) live)))
