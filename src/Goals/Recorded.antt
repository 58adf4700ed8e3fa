-- ===== src/Goals/Recorded.antt =====
-- workflows/state/goal_store.py: what is recorded of milestones, outcomes and reports leaves the
-- status of a goal and its identifier as they are.
use sprint_runtime.Prelude.{
  ◌≡◌, refl, sym, ap, ◌∙◌, String, ◌<>◌, false, ◌==◌, some, List, inl, if◌then◌else◌, if_both, map,
}
use sprint_runtime.Prelude.Text.{is_empty, strip}
use sprint_runtime.Files.{write_json}
use sprint_runtime.Python.{
  Value, null, true_value, false_value, num, str, list, dict, Fields, get, put, of_list,
}
use sprint_runtime.Python.Laws.{is_end-put, OkIs, OkIs-bind}
use sprint_runtime.Python.Convert.{Result, ok, raise, ◌>>=◌}
use sprint_runtime.Python.Sequences.{values, clean_items, iterate, or_value}
use sprint_runtime.Goals.{
  status_of, id_of, GoalStore, Clock, active_goal_id, is_resumable, save_goal_at, append_goal_event,
  truthy, nil,
}
use sprint_runtime.Goals.Sound.{IsHeld, status-put, id-put}
use sprint_runtime.Goals.Kept.{Keeps, Keeps-same, save-Keeps, goals-save_goal, Keeps-if}
use sprint_runtime.Goals.Lifecycle.{archive_goal_final_report}
use sprint_runtime.Goals.Progress.{
  append_to, appended, link_sprint, linked_with, milestone_entry, milestone_noted, recorded,
  replaced, outcomes_of, outcome_noted, close_in, close_milestones, record_sourced_milestone,
  appended, close_in,
}

-- The two dictionaries are of the same goal, with the same status.
abbrev pub Same : Fields → Fields → Type 0
Same goal goal' = (status_of goal' ≡ status_of goal) × (id_of goal' ≡ id_of goal)

pub put-Same :
    (goal goal' : Fields) (key : String) (v : Value)
    → (key == "status") ≡ false
    → (key == "goal_id") ≡ false
    → Same goal goal'
    → Same goal (put goal' key v)
put-Same goal goal' key v s i (h, k) = (status-put goal' key v s ∙ h, id-put goal' key v i ∙ k)

appended-Same :
    (goal : Fields) (key : String) (entry : Fields) (v : Value)
    → (key == "status") ≡ false
    → (key == "goal_id") ≡ false
    → OkIs (Same goal) (appended goal key entry v)
appended-Same goal key entry (list items) s i = put-Same goal goal key _ s i (refl, refl)
appended-Same goal key entry _ s i = tt

link_sprint-Same :
    (goal goal' : Fields) (sprint_id : String)
    → Same goal goal'
    → OkIs (Same goal) (link_sprint goal' sprint_id)
unfolding link_sprint
link_sprint-Same goal goal' sprint_id h =
    by_items (iterate (or_value (get goal' "linked_sprint_ids") (list nil)))
  where
    by_items :
        (r : Result (List Value))
        → OkIs (Same goal) (
            r >>= λ items. ok (
              put goal' "linked_sprint_ids"
                (list (of_list (linked_with sprint_id (clean_items items))))))
    by_items (ok items) = put-Same goal goal' "linked_sprint_ids" _ refl refl h
    by_items (raise e) = tt

milestone_noted-Same :
    (goal entry : Fields) (sprint_id : String)
    → OkIs (Same goal) (milestone_noted goal entry sprint_id)
unfolding milestone_noted append_to
milestone_noted-Same goal entry sprint_id =
    OkIs-bind (Same goal) (Same goal) (append_to goal "sourced_milestones" entry)
      (λ noted. if is_empty sprint_id then ok noted else link_sprint noted sprint_id)
      (appended-Same goal "sourced_milestones" entry _ refl refl)
      (λ noted same.
        if_both (OkIs (Same goal)) (is_empty sprint_id) same
          (link_sprint-Same goal noted sprint_id same))

close_in-Same :
    (sprint_id : String) (outcome goal goal' : Fields) (v : Value)
    → Same goal goal'
    → OkIs (Same goal) (close_in sprint_id outcome goal' v)
close_in-Same sprint_id outcome goal goal' (list items) h =
    put-Same goal goal' "sourced_milestones" _ refl refl h
close_in-Same sprint_id outcome goal goal' true_value h = tt
close_in-Same sprint_id outcome goal goal' (num n) h =
    if_both (OkIs (Same goal)) (truthy (num n)) tt h
close_in-Same sprint_id outcome goal goal' null h = h
close_in-Same sprint_id outcome goal goal' false_value h = h
close_in-Same sprint_id outcome goal goal' (str s) h = h
close_in-Same sprint_id outcome goal goal' (dict d) h = h

pub goals-save_at :
    (store : GoalStore) (goal : Fields) (now : String) {k : String}
    → id_of goal ≡ k
    → is_empty k ≡ false
    → (save_goal_at store goal now).goals
      ≡ write_json store.goals k (put goal "updated_at" (str now))
unfolding save_goal_at
goals-save_at store goal now name key = rw name (rw key refl)

pub pointer-save_at :
    (store : GoalStore) (goal : Fields) (now : String)
    → active_goal_id (save_goal_at store goal now) ≡ active_goal_id store
unfolding save_goal_at active_goal_id
pointer-save_at store goal now =
    if_both (λ (s : GoalStore). active_goal_id s ≡ active_goal_id store) (is_empty (id_of goal))
      refl refl

-- A goal that may go on is written back with the time of the change in the file alone.
pub save_at-Keeps :
    (store store' : GoalStore) (goal goal' : Fields) (now : String) {k : String}
    → IsHeld store goal k
    → Same goal goal'
    → store'.goals ≡ (save_goal_at store goal' now).goals
    → active_goal_id store' ≡ active_goal_id (save_goal_at store goal' now)
    → Keeps store k (store', goal')
save_at-Keeps store store' goal goal' now {k} h (status, id) files scheduler = (
  record {
    named = kept.0.named;
    alone = kept.0.alone;
    name = id ∙ h.name;
    key = h.key;
    present = kept.0.present ∙ ap some (status-put goal' "updated_at" (str now) refl);
    pointer = λ r. pointer ∙ h.pointer (ap is_resumable (sym status) ∙ r);
  },
  kept.1,
)
  where
    pointer : active_goal_id store' ≡ active_goal_id store
    pointer = scheduler ∙ pointer-save_at store goal' now

    saved : Fields
    saved = put goal' "updated_at" (str now)

    name_kept : id_of goal' ≡ k
    name_kept = id ∙ h.name

    written : store'.goals ≡ write_json store.goals k saved
    written = files ∙ goals-save_at store goal' now name_kept h.key

    kept : Keeps store k (store', saved)
    kept =
        save-Keeps store store' goal saved h
          (written
            ∙ sym (
                goals-save_goal store saved (id-put goal' "updated_at" (str now) refl ∙ name_kept)
                  h.key))
          (id-put goal' "updated_at" (str now) refl ∙ id) (is_end-put goal' "updated_at" (str now))
          (λ r.
            pointer
            ∙ h.pointer
                (ap is_resumable (sym (status-put goal' "updated_at" (str now) refl ∙ status)) ∙ r))
          (inl (status-put goal' "updated_at" (str now) refl ∙ status))

pub outcome_noted-Same :
    (goal : Fields) (sprint_id : String) (outcome : Fields)
    → OkIs (Same goal) (outcome_noted goal sprint_id outcome)
unfolding outcome_noted close_milestones
outcome_noted-Same goal sprint_id outcome = by_outcomes (outcomes_of goal)
  where
    by_outcomes :
        (r : Result (List Fields))
        → OkIs (Same goal) (
            r >>= λ outcomes.
            link_sprint
              (put goal "sprint_outcomes"
                (list (values (map dict (replaced sprint_id outcome outcomes)))))
              sprint_id
            >>= close_milestones sprint_id outcome)
    by_outcomes (raise e) = tt
    by_outcomes (ok outcomes) =
        OkIs-bind (Same goal) (Same goal)
          (link_sprint
            (put goal "sprint_outcomes"
              (list (values (map dict (replaced sprint_id outcome outcomes)))))
            sprint_id)
          (close_milestones sprint_id outcome)
          (link_sprint-Same goal _ sprint_id
            (put-Same goal goal "sprint_outcomes" _ refl refl (refl, refl)))
          (λ linked same. close_in-Same sprint_id outcome goal linked _ same)

abbrev pub ResultKeeps : GoalStore → String → Result (GoalStore × Fields) → Type 0
ResultKeeps store k = OkIs (Keeps store k)

pub record_sourced_milestone-Keeps :
    (store : GoalStore) (goal : Fields) (milestone_title summary sprint_id : String)
    (requirements artifacts : List Value) (now : Clock) {k : String}
    → IsHeld store goal k
    → ResultKeeps store k (
        record_sourced_milestone store goal milestone_title summary sprint_id requirements artifacts
          now)
unfolding record_sourced_milestone append_goal_event active_goal_id
record_sourced_milestone-Keeps store goal milestone_title summary sprint_id requirements artifacts
      now {k} h =
    let entry = milestone_entry milestone_title summary sprint_id requirements artifacts (now 0) in
    if_both (ResultKeeps store k) (is_empty (strip milestone_title)) (Keeps-same h) (
      OkIs-bind (Same goal) (Keeps store k) (milestone_noted goal entry (strip sprint_id))
        (λ goal'. ok (
          recorded store "milestone_sourced" "sourcer"
            ("Milestone sourced: " <> strip milestone_title) entry (now 1) (now 2) goal'))
        (milestone_noted-Same goal entry (strip sprint_id))
        (λ goal' same. save_at-Keeps store _ goal goal' (now 1) h same refl refl))

pub archive_goal_final_report-Keeps :
    (store : GoalStore) (goal : Fields) (shared_path archive_path now : String) {k : String}
    → IsHeld store goal k
    → Keeps store k (archive_goal_final_report store goal shared_path archive_path now)
unfolding archive_goal_final_report active_goal_id
archive_goal_final_report-Keeps store goal shared_path archive_path now h =
    Keeps-if (is_empty (id_of goal)) h (λ e.
      save_at-Keeps store _ goal _ now h
        (put-Same goal _ "final_report_archive_path" _ refl refl
          (put-Same goal goal "final_report_path" _ refl refl (refl, refl)))
        refl refl)
