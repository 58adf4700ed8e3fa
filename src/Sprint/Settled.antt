-- ===== src/Sprint/Settled.antt =====
-- workflows/sprints/lifecycle.py: the statuses that the execution of a todo leaves.
use sprint_runtime.Prelude.{
  ◌≡◌, refl, arith, String, true, false, ◌==◌, Option, none, some, [], ◌∷◌, ◌||◌, inl, inr, sym,
  Bool-cases, if◌then◌else◌, if_cases, eq_iff, ap, ◌∙◌, Bool-cases, sym, if_both,
}
use sprint_runtime.Python.{str, Fields, get, put, Value}
use sprint_runtime.Python.Convert.{text, tag}
use sprint_runtime.Python.Laws.{OkIs, OkIs-bind, OkIs-any, get-put, get-put_self, get-put_other}
use sprint_runtime.Backlog.{
  desired_name, desired_backlog_status_for_todo, put_text, clear_backlog_blockers,
}
use sprint_runtime.Sprint.{
  SprintState, status_of, successful, bypasses_gate, member, is_executable,
  sprint_todo_dependencies_satisfied,
}
use sprint_runtime.Sprint.Todos.{cleaned}
use sprint_runtime.Sprint.Execute.{
  freed_item, dict_or_empty, done_item, uncommitted_item, blocked_item, carry_over, Work, Executed,
  settled, execute_sprint_todo, started, reported, done_item, uncommitted_item, blocked_item,
  carry_over, freed_item, dict_or_empty,
}

-- The status of a todo, for the status of its result.
abbrev pub settled_status : String → String
settled_status status =
    if successful status
    then status
    else if status == "uncommitted"
    then "uncommitted"
    else if status == "blocked"
    then "blocked"
    else "failed"

-- The todo has the status for the result, and the backlog item the status that the todo asks for.
abbrev pub Agrees : String → Executed → Type 0
Agrees status e =
    (status_of e.todo ≡ settled_status status)
    × (status_of e.item ≡ desired_name (desired_backlog_status_for_todo e.todo))

-- What a todo with the status asks for.
abbrev desired_name_of : String → String
desired_name_of status =
    if member status ("queued" ∷ "running" ∷ [])
    then "selected"
    else if successful status
    then "done"
    else if member status ("blocked" ∷ "uncommitted" ∷ [])
    then "blocked"
    else if status == "failed"
    then "carried_over"
    else ""

desired-lem :
    (todo : Fields)
    → desired_name (desired_backlog_status_for_todo todo) ≡ desired_name_of (status_of todo)
unfolding desired_backlog_status_for_todo
desired-lem todo = ground arith

pub status-put :
    (d : Fields) (status : String) → status_of (put_text d "status" status) ≡ tag (str status)
status-put d status = ap tag (get-put_self d "status" (str status))

-- A field is written beside the status.
pub beside :
    (key : String) {status : String} (d : Fields) (v : Value)
    → (key == "status") ≡ false
    → status_of d ≡ status
    → status_of (put d key v) ≡ status
beside key d v h e = ap tag (get-put_other d key "status" v h) ∙ e

-- What a name of a status is for the todo, and for its item.
abbrev IsKnown : String → String → String → Type 0
IsKnown status settled item_status =
    (tag (str settled) ≡ settled)
    × (settled_status status ≡ settled)
    × (desired_name_of settled ≡ item_status)

successful-IsKnown : (s : String) → successful s ≡ true → IsKnown s s "done"
unfolding tag
successful-IsKnown s h = elim (Bool-cases (s == "completed")) [
  | inl e ↦ rw ((eq_iff s "completed").0 e) (refl, refl, refl)
  | inr n ↦
      rw ((eq_iff s "committed").0 (ground (arith, eq_iff s "committed", eq_iff s "completed")))
        (refl, refl, refl)
]

agrees :
    (status settled item_status : String) (todo item : Fields)
    → IsKnown status settled item_status
    → status_of todo ≡ tag (str settled)
    → status_of item ≡ item_status
    → Agrees status (record { todo = todo; item = item; carried = none })
agrees status settled item_status todo item (same, settles, desires) t i =
    (t ∙ same ∙ sym settles, i ∙ sym (desired-lem todo ∙ ap desired_name_of (t ∙ same) ∙ desires))

done_item-status : (item : Fields) (id : String) → status_of (done_item item id) ≡ "done"
unfolding done_item clear_backlog_blockers tag
done_item-status item id = beside "completed_in_sprint_id" _ _ refl (
    beside "recommended_next_step" _ _ refl (
      beside "required_inputs" _ _ refl (
        beside "blocked_by_role" _ _ refl
          (beside "blocked_reason" _ _ refl (status-put item "done")))))

freed_item-status : (item : Fields) (work : Work) → status_of (freed_item item work) ≡ "blocked"
unfolding tag
freed_item-status item work = beside "blocked_reason" _ _ refl (
    beside "completed_in_sprint_id" _ _ refl
      (beside "selected_in_sprint_id" _ _ refl (status-put item "blocked")))

uncommitted_item-status :
    (item : Fields) (work : Work) → status_of (uncommitted_item item work) ≡ "blocked"
unfolding uncommitted_item
uncommitted_item-status item work = simp get-put (unfold tag in refl)

blocked_item-status :
    (item : Fields) (work : Work)
    → OkIs (λ changed. status_of changed ≡ "blocked") (blocked_item item work)
unfolding blocked_item
blocked_item-status item work =
    OkIs-bind {0, 0, 0, 0} (λ a. Unit) _ (dict_or_empty (get work.result "proposals")) _
      (OkIs-any (dict_or_empty (get work.result "proposals")))
      (λ proposals _.
        OkIs-bind {0, 0, 0, 0} (λ a. Unit) _ (cleaned (get proposals "required_inputs")) _
          (OkIs-any (cleaned (get proposals "required_inputs")))
          (λ inputs _. simp get-put (unfold tag in refl)))

literal-IsKnown :
    (status : String)
    → (settled_status status ≡ "uncommitted" → IsKnown status "uncommitted" "blocked")
      × (settled_status status ≡ "blocked" → IsKnown status "blocked" "blocked")
      × (settled_status status ≡ "failed" → IsKnown status "failed" "carried_over")
unfolding tag
literal-IsKnown status = (λ h. (refl, h, refl), λ h. (refl, h, refl), λ h. (refl, h, refl))

settled-Agrees :
    (s : SprintState) (todo item : Fields) (work : Work)
    → OkIs (Agrees (status_of work.result)) (settled s todo item work)
unfolding settled
settled-Agrees s todo item work =
    let status = status_of work.result in
    let result_is = OkIs (Agrees status) in
    let sprint_id = text (get s.state "sprint_id") in
    let id = str (text (get item "backlog_id")) in
    let known = literal-IsKnown status in
    if_cases result_is (successful status)
      (λ good.
        agrees status status "done" _ (done_item item sprint_id) (successful-IsKnown status good)
          (status-put todo status) (done_item-status item sprint_id))
      (λ bad.
        if_cases result_is (status == "uncommitted")
          (λ u.
            agrees status "uncommitted" "blocked" _ (uncommitted_item item work)
              (known.0 (rw (bad, u) refl))
              (beside "carry_over_backlog_id" (put_text todo "status" "uncommitted") id refl
                (status-put todo "uncommitted"))
              (uncommitted_item-status item work))
          (λ n.
            if_cases result_is (status == "blocked")
              (λ b.
                OkIs-bind _ _ (blocked_item item work) _ (blocked_item-status item work)
                  (λ changed c.
                    agrees status "blocked" "blocked" _ changed (known.1 (rw (bad, n, b) refl))
                      (beside "carry_over_backlog_id" (put_text todo "status" "blocked") id refl
                        (status-put todo "blocked"))
                      c))
              (λ f.
                OkIs-bind {0, 0, 0, 0} (λ a. Unit) _ (carry_over s todo item work) _
                  (OkIs-any (carry_over s todo item work))
                  (λ made _.
                    agrees status "failed" "carried_over" _ (put_text item "status" "carried_over")
                      (known.2 (rw (bad, n, f) refl))
                      (beside "carry_over_backlog_id" (put_text todo "status" "failed")
                        (get made "backlog_id") refl (status-put todo "failed"))
                      (status-put item "carried_over")))))

abbrev pub Agreed : String → Option Executed → Type 0
Agreed status none = Unit {0}
Agreed status (some e) = Agrees status e

-- Where the execution of a todo begins and raises no exception, the todo takes the status that the
-- result asks for, which is one of five, and the backlog item takes the status that the todo asks
-- for.
pub execute_sprint_todo-Agrees :
    (s : SprintState) (todo item : Fields) (work : Work)
    → OkIs (Agreed (status_of work.result)) (execute_sprint_todo s todo item work)
unfolding execute_sprint_todo
execute_sprint_todo-Agrees s todo item work =
    let told = reported (started todo work) work in
    if_cases (OkIs (Agreed (status_of work.result)))
      (bypasses_gate todo || sprint_todo_dependencies_satisfied todo s.todos)
      (λ _.
        OkIs-bind {0, 0, 0, 0} (λ a. Unit) _ told _ (OkIs-any told)
          (λ t _.
            OkIs-bind (Agrees (status_of work.result)) _ (settled s t item work) _
              (settled-Agrees s t item work) (λ e agreed. agreed)))
      (λ _. tt)

pub settled_status-closed :
    (status : String)
    → (status == "uncommitted") ≡ false
    → is_executable (settled_status status) ≡ false
unfolding is_executable
settled_status-closed status h = elim (Bool-cases (successful status)) [
  | inl good ↦ elim (Bool-cases (status == "completed")) [
    | inl e ↦ rw ((eq_iff status "completed").0 e) refl
    | inr n ↦
        rw
          ((eq_iff status "committed").0
            (ground (arith, eq_iff status "committed", eq_iff status "completed")))
          refl
  ]
  | inr bad ↦ rw (bad, h) (if_both (λ s. is_executable s ≡ false) (status == "blocked") refl refl)
]
