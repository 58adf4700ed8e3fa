-- ===== src/Sprint/Skipped.antt =====
-- workflows/sprints/lifecycle.py: `continue_sprint` goes through the sorted todos once, and a running
-- todo is sorted before the todo that it waits on.
use sprint_runtime.Prelude.{
  ◌≡◌, refl, arith, ◌<◌, String, true, false, ◌&&◌, some, List, [], ◌∷◌, ap, ◌∙◌, inl, inr,
  Bool-cases, ◌==◌, if_both, eq_iff, Bool-cases,
}
use sprint_runtime.Prelude.Lists.{is_nil, keep}
use sprint_runtime.Prelude.Sorting.{sort_by, is_nil-sort_by}
use sprint_runtime.Python.{Fields, get}
use sprint_runtime.Python.Convert.{ok, text, tag}
use sprint_runtime.Backlog.Order.{unset_rank}
use sprint_runtime.Sprint.{
  status_of, stripped_text, rank, bypasses_gate, is_same, waits_on, can_wait, todo_key,
  successful_todo_status, is_executable, sort_sprint_todos, sprint_todo_dependency_waiting_on,
  sprint_todo_dependencies_satisfied, successful,
}
use sprint_runtime.Sprint.Execute.{Work, Executed, execute_sprint_todo}
use mathlib.Core.Path.{subst}
use sprint_runtime.Python.Laws.{OkIs}
use sprint_runtime.Sprint.Settled.{Agreed, execute_sprint_todo-Agrees, settled_status}
use sprint_runtime.Sprint.Loop.{finalized, is_ready, is_wrap_up_requested, automatic_rounds}

-- A running todo, and a queued one with a smaller rank, in a sprint without restart checkpoints.
pub record AreRanked (running queued : Fields) : Type 0 where
  pub runs : status_of running ≡ "running"
  pub is_queued : status_of queued ≡ "queued"
  pub unmarked : bypasses_gate running ≡ false
  pub unmarked_too : bypasses_gate queued ≡ false
  pub apart : is_same running queued ≡ false
  pub behind : rank queued < rank running
  pub above_one : 1 < rank running
  pub is_set : rank running < unset_rank

sorted-running :
    (running queued : Fields)
    → AreRanked running queued
    → sort_sprint_todos (running ∷ queued ∷ []) ≡ running ∷ queued ∷ []
unfolding sort_sprint_todos sort_by todo_key
sorted-running running queued h = rw (h.unmarked, h.unmarked_too, h.runs, h.is_queued) refl

-- Whether `todo` waits on one of two.
satisfied-two :
    (todo a b : Fields)
    → waits_on todo a ≡ false
    → waits_on todo b ≡ false
    → sprint_todo_dependencies_satisfied todo (a ∷ b ∷ []) ≡ true
unfolding sprint_todo_dependencies_satisfied sprint_todo_dependency_waiting_on
satisfied-two todo a b ha hb =
    rw (ha, hb) (if_both (λ (l : List Fields). is_nil l ≡ true) (can_wait todo) refl refl)

status-successful :
    (todo : Fields)
    → successful_todo_status (text (get todo "status")) ≡ successful (status_of todo)
unfolding successful_todo_status tag
status-successful todo = refl

waits_on-queued :
    (running queued : Fields) → AreRanked running queued → waits_on running queued ≡ true
unfolding waits_on
waits_on-queued running queued h =
    let waiting = status-successful queued ∙ ap successful h.is_queued in
    ground (arith, h.apart, h.behind, waiting)

waits_on-not_self : (todo : Fields) → waits_on todo todo ≡ false
unfolding waits_on
waits_on-not_self todo = ground arith

waits_on-not_behind : (a b : Fields) → rank a < rank b → waits_on a b ≡ false
unfolding waits_on
waits_on-not_behind a b h = ground (arith, h)

waits_on-not_done : (a b : Fields) → successful (status_of b) ≡ true → waits_on a b ≡ false
unfolding waits_on
waits_on-not_done a b h = ground (arith, status-successful b ∙ h)

running-waits :
    (running queued : Fields)
    → AreRanked running queued
    → sprint_todo_dependencies_satisfied running (running ∷ queued ∷ []) ≡ false
unfolding sprint_todo_dependencies_satisfied sprint_todo_dependency_waiting_on
running-waits running queued h =
    let may : can_wait running ≡ true = ground (arith, h.above_one, h.is_set) in
    rw may (
      is_nil-sort_by _ (keep (waits_on running) (running ∷ queued ∷ []))
      ∙ rw (waits_on-not_self running, waits_on-queued running queued h) refl)

queued-ready :
    (running queued : Fields)
    → AreRanked running queued
    → sprint_todo_dependencies_satisfied queued (running ∷ queued ∷ []) ≡ true
queued-ready running queued h =
    satisfied-two queued running queued (waits_on-not_behind queued running h.behind)
      (waits_on-not_self queued)

successful-settled :
    (status settled : String)
    → settled ≡ settled_status status
    → successful status ≡ true
    → (successful settled ≡ true) × ((settled == "uncommitted") ≡ false)
successful-settled status settled e h = elim (Bool-cases (status == "completed")) [
  | inl c ↦ rw (e, (eq_iff status "completed").0 c) (refl, refl)
  | inr n ↦
      rw
        (
          e,
          (eq_iff status "committed").0
              (ground (arith, eq_iff status "completed", eq_iff status "committed")),
        )
        (refl, refl)
]

-- Of a running todo and a queued one with a smaller rank, in a sprint without restart checkpoints
-- that is not asked to wrap up, the sorted list has the running one first; where the queued one is
-- executed with success, the loop of an automatic sprint finalizes with the running todo as it was,
-- although it can be executed then.
pub automatic_rounds-skips :
    (state : Fields) (item : Fields → Fields) (work : Fields → Work) (running queued : Fields)
    (e : Executed)
    → AreRanked running queued
    → stripped_text state "wrap_up_requested_at" ≡ ""
    → execute_sprint_todo
        (record { state = state; todos = running ∷ queued ∷ [] })
        queued
        (item queued)
        (work queued)
      ≡ ok (some e)
    → successful (status_of (work queued).result) ≡ true
    → ((automatic_rounds state item work [] (sort_sprint_todos (running ∷ queued ∷ []))).0
        ≡ finalized (record { state = state; todos = running ∷ e.todo ∷ [] }))
      × (is_ready (running ∷ e.todo ∷ []) running ≡ true)
automatic_rounds-skips state item work running queued e h unasked ran succeeded = by_status (
    successful-settled (status_of (work queued).result) (status_of e.todo)
      (subst (OkIs (Agreed (status_of (work queued).result))) ran (
        execute_sprint_todo-Agrees (record { state = state; todos = running ∷ queued ∷ [] }) queued
          (item queued) (work queued))).0
      succeeded)
  where
    by_status :
        (successful (status_of e.todo) ≡ true) × ((status_of e.todo == "uncommitted") ≡ false)
        → ((automatic_rounds state item work [] (sort_sprint_todos (running ∷ queued ∷ []))).0
            ≡ finalized (record { state = state; todos = running ∷ e.todo ∷ [] }))
          × (is_ready (running ∷ e.todo ∷ []) running ≡ true)
    by_status (done, closed) = (
      rw (sorted-running running queued h) (
          unfold automatic_rounds is_wrap_up_requested in
          rw
            (
              ran,
              running-waits running queued h,
              queued-ready running queued h,
              unasked,
              h.runs,
              h.is_queued,
              closed,
            )
            refl),
      unfold is_ready is_executable in
          ap
            (λ s.
              is_executable s && sprint_todo_dependencies_satisfied running (running ∷ e.todo ∷ []))
            h.runs
          ∙ satisfied-two running running e.todo (waits_on-not_self running)
              (waits_on-not_done running e.todo done),
    )
