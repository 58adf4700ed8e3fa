-- ===== src/Sprint/Stops.antt =====
-- workflows/sprints/lifecycle.py: the loop of a manual sprint stops.
use sprint_runtime.Prelude.{
  ◌≡◌, refl, arith, ℕ, ◌+◌, ◌≤◌, ◌<◌, Bool, true, false, ◌⊎◌, inl, inr, ◌==◌, Option, none, some,
  List, [], ◌∷◌, Bool-cases, ap, ◌∙◌, ◌||◌, is_some, if_cases,
}
use sprint_runtime.Prelude.Lists.{length, keep}
use sprint_runtime.Python.{Fields}
use sprint_runtime.Python.Convert.{Result, ok, raise}
use sprint_runtime.Python.Laws.{OkIs, get-put, OkIs-bind, OkIs-any}
use sprint_runtime.Prelude.Sorting.{Each}
use sprint_runtime.Sprint.InOrder.{first-passes, ready-satisfied}
use sprint_runtime.Sprint.{
  SprintState, status_of, is_executable, sprint_todo_dependencies_satisfied, bypasses_gate,
}
use sprint_runtime.Sprint.Execute.{Executed, execute_sprint_todo, Work, reported, started, settled}
use sprint_runtime.Sprint.Settled.{Agreed, execute_sprint_todo-Agrees, settled_status-closed}
use sprint_runtime.Sprint.Loop.{
  Outcome, finalized, returned, ongoing, raised, Round, Turn, ends, goes_on, is_ready, first,
  replace_first, prepared, turn_at, turn, manual_rounds, is_wrap_up_requested, wrapped_up,
  after_execution, after_turn, chosen, taken_turn,
}

-- The todos that are left to execute.
abbrev pub open_todos : SprintState → ℕ
open_todos s = length (keep (λ todo. is_executable (status_of todo)) s.todos)

-- From the sprint `s`, the round adds nothing to execute, and the execution ends committed or not
-- at all.
pub record IsCalm (force checkpoint : Bool) (s : SprintState) (r : Round) : Type 0 where
  pub prepares : OkIs (λ p. open_todos p ≤ open_todos s) (prepared force checkpoint s r)
  pub leaves : (p : SprintState) → open_todos (r.after p) ≤ open_todos p
  pub settles : (todo : Fields) → (status_of (r.work todo).result == "uncommitted") ≡ false

abbrev pub GoesOnCalmly : (Bool → SprintState → Type 0) → Turn → Type 0
GoesOnCalmly next (ends outcome began) = Unit
GoesOnCalmly next (goes_on s success began) = next success s

-- The rounds are calm, each from the sprint that the rounds before it lead to.
abbrev pub AreCalm : Bool → Bool → SprintState → List Round → Type 0
AreCalm force checkpoint s [] = Unit
AreCalm force checkpoint s (r ∷ rs) =
    IsCalm force checkpoint s r
    × GoesOnCalmly (λ success s'. AreCalm success success s' rs) (turn force checkpoint s r)

replace_first-fewer :
    (ready : Fields → Bool) (new todo : Fields) (todos : List Fields)
    → ((t : Fields) → ready t ≡ true → is_executable (status_of t) ≡ true)
    → first ready todos ≡ some todo
    → is_executable (status_of new) ≡ false
    → length (keep (λ t. is_executable (status_of t)) (replace_first ready new todos)) + 1
      ≤ length (keep (λ t. is_executable (status_of t)) todos)
replace_first-fewer ready new todo [] able h closed = cc
replace_first-fewer ready new todo (t ∷ todos) able h closed = elim (Bool-cases (ready t)) [
  | inl e ↦ rw (e, closed, able t e) (omega arith)
  | inr e ↦
      let rest = replace_first-fewer ready new todo todos able (rw e at h) closed in
      rw e (ground (arith, rest))
]

-- A sprint is finalized on request, or where no todo can be executed.
abbrev pub Rests : SprintState → Type 0
Rests s = (is_wrap_up_requested s ≡ true) ⊎ Each (λ t. is_ready s.todos t ≡ false) s.todos

abbrev pub Stopped : Outcome → Type 0
Stopped (finalized s) = Rests s
Stopped (raised e) = Unit
Stopped (returned s) = ⊥
Stopped (ongoing s) = ⊥

abbrev Shrinks : ℕ → Turn → Type 0
Shrinks n (ends outcome began) = Stopped outcome
Shrinks n (goes_on s success began) = open_todos s < n

none_ready :
    (ready : Fields → Bool) (todos : List Fields)
    → first ready todos ≡ none
    → Each (λ t. ready t ≡ false) todos
none_ready ready [] h = tt
none_ready ready (t ∷ todos) h = elim (Bool-cases (ready t)) [
  | inl e ↦ absurd (cc (rw e at h))
  | inr e ↦ (e, none_ready ready todos (rw e at h))
]

wrapped_up-requested :
    (s : SprintState) → is_wrap_up_requested (wrapped_up s) ≡ is_wrap_up_requested s
unfolding is_wrap_up_requested wrapped_up
wrapped_up-requested s = simp get-put refl

wrapped_up-Rests : (s : SprintState) → Rests s → Rests (wrapped_up s)
wrapped_up-Rests s (inl h) = inl (wrapped_up-requested s ∙ h)
wrapped_up-Rests s (inr h) = inr (unfold wrapped_up in h)

ready-executable :
    (todos : List Fields) (t : Fields)
    → is_ready todos t ≡ true
    → is_executable (status_of t) ≡ true
unfolding is_ready
ready-executable todos t h = ground arith

-- The execution of a todo that waits for none begins.
satisfied-began :
    (s : SprintState) (todo item : Fields) (work : Work)
    → sprint_todo_dependencies_satisfied todo s.todos ≡ true
    → OkIs (λ o. is_some o ≡ true) (execute_sprint_todo s todo item work)
unfolding execute_sprint_todo
satisfied-began s todo item work h =
    let told = reported (started todo work) work in
    if_cases (OkIs (λ o. is_some o ≡ true))
      (bypasses_gate todo || sprint_todo_dependencies_satisfied todo s.todos)
      (λ _.
        OkIs-bind {0, 0, 0, 0} (λ a. Unit) _ told _ (OkIs-any told)
          (λ t _.
            OkIs-bind {0, 0, 0, 0} (λ a. Unit) _ (settled s t item work) _
              (OkIs-any (settled s t item work)) (λ e _. refl)))
      (λ waits. absurd (ground (arith, h, waits)))

turn_at-Shrinks :
    (r : Round) (p : SprintState) (todo : Fields) (n : ℕ)
    → ((p' : SprintState) → open_todos (r.after p') ≤ open_todos p')
    → (status_of (r.work todo).result == "uncommitted") ≡ false
    → open_todos p ≤ n
    → first (is_ready p.todos) p.todos ≡ some todo
    → Shrinks n (turn_at r p todo)
unfolding turn_at
turn_at-Shrinks r p todo n leaves settles less chose =
    by_result (execute_sprint_todo p todo (r.item todo) (r.work todo))
      (execute_sprint_todo-Agrees p todo (r.item todo) (r.work todo))
      (satisfied-began p todo (r.item todo) (r.work todo)
        (ready-satisfied p.todos todo (first-passes (is_ready p.todos) p.todos todo chose)))
  where
    by_result :
        (o : Result (Option Executed))
        → OkIs (Agreed (status_of (r.work todo).result)) o
        → OkIs (λ e. is_some e ≡ true) o
        → Shrinks n (after_execution r p todo o)
    by_result (raise e) agreed some_began = tt
    by_result (ok none) agreed some_began = absurd (ground arith)
    by_result (ok (some e)) agreed some_began =
        let closed =
          ap is_executable agreed.0
          ∙ settled_status-closed (status_of (r.work todo).result) settles in
        let fewer =
          replace_first-fewer (is_ready p.todos) e.todo todo p.todos (ready-executable p.todos)
            chose closed in
        let after = leaves (record p { todos = replace_first (is_ready p.todos) e.todo p.todos }) in
        omega arith

turn-Shrinks :
    (force checkpoint : Bool) (s : SprintState) (r : Round)
    → IsCalm force checkpoint s r
    → Shrinks (open_todos s) (turn force checkpoint s r)
unfolding turn
turn-Shrinks force checkpoint s r calm =
    if_cases (Shrinks (open_todos s)) (is_wrap_up_requested s)
      (λ asked. wrapped_up-Rests s (inl asked))
      (λ _. by_prepared (prepared force checkpoint s r) calm.prepares)
  where
    by_choice :
        (p : SprintState) (o : Option Fields)
        → open_todos p ≤ open_todos s
        → first (is_ready p.todos) p.todos ≡ o
        → Shrinks (open_todos s) (chosen r p o)
    by_choice p none less h = wrapped_up-Rests p (inr (none_ready (is_ready p.todos) p.todos h))
    by_choice p (some todo) less h =
        turn_at-Shrinks r p todo (open_todos s) calm.leaves (calm.settles todo) less h

    by_prepared :
        (o : Result SprintState)
        → OkIs (λ p. open_todos p ≤ open_todos s) o
        → Shrinks (open_todos s) (taken_turn r o)
    by_prepared (raise e) h = tt
    by_prepared (ok p) h = by_choice p (first (is_ready p.todos) p.todos) h refl

-- In calm rounds, more than the todos that are left to execute, the loop of a manual sprint stops: an
-- exception is raised, or the sprint is finalized because it was asked for or because no todo can
-- be executed.
pub manual_rounds_stop :
    (force checkpoint : Bool) (s : SprintState) (rounds : List Round)
    → AreCalm force checkpoint s rounds
    → open_todos s < length rounds
    → Stopped (manual_rounds force checkpoint s rounds).0
unfolding manual_rounds
manual_rounds_stop force checkpoint s [] calm h = absurd (omega arith)
manual_rounds_stop force checkpoint s (r ∷ rs) (calm, later) h =
    by_turn (turn force checkpoint s r) (turn-Shrinks force checkpoint s r calm) later
      (λ success s'. manual_rounds_stop success success s' rs)
  where
    by_turn :
        (t : Turn)
        → Shrinks (open_todos s) t
        → GoesOnCalmly (λ success s'. AreCalm success success s' rs) t
        → ((success : Bool) (s' : SprintState)
            → AreCalm success success s' rs
            → open_todos s' < length rs
            → Stopped (manual_rounds success success s' rs).0)
        → Stopped (after_turn (λ success s'. manual_rounds success success s' rs) t).0
    by_turn (ends outcome began) stopped later rest = stopped
    by_turn (goes_on s' success began) fewer later rest =
        rest success s' later (omega (arith, h, fewer))
