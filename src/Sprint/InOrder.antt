-- ===== src/Sprint/InOrder.antt =====
-- workflows/sprints/lifecycle.py: the order in which the loops of a sprint execute its todos.
use sprint_runtime.Prelude.{
  ◌≡◌, refl, arith, ◌≤◌, Bool, true, false, ◌⊎◌, inl, inr, Option, none, some, List, [], ◌∷◌, ◌++◌,
  Bool-cases, ap, sym, ◌∙◌, if_cases, ◌==◌, leb, if_both, or_else,
}
use sprint_runtime.Prelude.Sorting.{Each, Each-map, Each-append, none_kept, is_nil-sort_by}
use sprint_runtime.Prelude.Lists.{keep, is_nil}
use sprint_runtime.Python.{Fields, get}
use sprint_runtime.Python.Convert.{Result, ok, raise, text}
use sprint_runtime.Backlog.Order.{unset_rank}
use sprint_runtime.Sprint.{
  SprintState, status_of, is_terminal, successful_todo_status, rank, is_same, waits_on,
  sprint_todo_dependency_waiting_on, sprint_todo_dependencies_satisfied, stripped_text,
}
use sprint_runtime.Sprint.Execute.{Work, execute_sprint_todo, Executed}
use sprint_runtime.Sprint.Loop.{
  Outcome, Execution, Round, Turn, ends, goes_on, is_ready, first, prepared, turn_at, turn,
  manual_rounds, continue_manual_daily_sprint, automatic_rounds, is_wrap_up_requested, chosen,
  after_turn, after_execution, taken_turn, automatic_after,
}

-- A todo need not come after the candidate, or the candidate succeeded.
abbrev pub Clears : Fields → Fields → Type 0
Clears todo c =
    (is_same todo c ≡ true)
    ⊎ (rank todo ≤ rank c)
    ⊎ (successful_todo_status (text (get c "status")) ≡ true)

-- A todo with a rank of its own above 1 is executed only once every other todo with a smaller rank
-- succeeded.
abbrev pub IsInOrder : Execution → Type 0
IsInOrder e = (rank e.todo ≤ 1) ⊎ (unset_rank ≤ rank e.todo) ⊎ Each (Clears e.todo) e.todos

waits_on-Clears : (todo c : Fields) → waits_on todo c ≡ false → Clears todo c
unfolding waits_on
waits_on-Clears todo c h = elim (Bool-cases (is_same todo c)) [
  | inl same ↦ inl same
  | inr other ↦ elim (Bool-cases (successful_todo_status (text (get c "status")))) [
    | inl done ↦ inr (inr done)
    | inr unfinished ↦ inr (inl (ground arith))
  ]
]

pub satisfied-IsInOrder :
    (todo : Fields) (todos : List Fields)
    → sprint_todo_dependencies_satisfied todo todos ≡ true
    → IsInOrder (record { todo = todo; todos = todos })
unfolding sprint_todo_dependencies_satisfied sprint_todo_dependency_waiting_on
satisfied-IsInOrder todo todos h = elim (Bool-cases (leb (rank todo) 1)) [
  | inl low ↦ inl (ground arith)
  | inr high ↦ elim (Bool-cases (leb unset_rank (rank todo))) [
    | inl unset ↦ inr (inl (ground arith))
    | inr set ↦
        let kept : is_nil (keep (waits_on todo) todos) ≡ true =
          sym (is_nil-sort_by _ (keep (waits_on todo) todos)) ∙ (rw (high, set) at h) in
        inr (inr (Each-map _ _ todos (waits_on-Clears todo) (none_kept (waits_on todo) todos kept)))
  ]
]

pub first-passes :
    (p : Fields → Bool) (xs : List Fields) (x : Fields) → first p xs ≡ some x → p x ≡ true
first-passes p [] x h = cc
first-passes p (y ∷ xs) x h = elim (Bool-cases (p y)) [
  | inl e ↦ rw (ap (λ o. p (or_else o x)) (sym (rw e at h))) e
  | inr e ↦ first-passes p xs x (rw e at h)
]

pub ready-satisfied :
    (todos : List Fields) (todo : Fields)
    → is_ready todos todo ≡ true
    → sprint_todo_dependencies_satisfied todo todos ≡ true
unfolding is_ready
ready-satisfied todos todo h = ground arith

-- What a turn began is in order.
abbrev BeganInOrder : Turn → Type 0
BeganInOrder (ends outcome began) = Each IsInOrder began
BeganInOrder (goes_on s success began) = Each IsInOrder began

turn_at-InOrder :
    (r : Round) (s : SprintState) (todo : Fields)
    → is_ready s.todos todo ≡ true
    → BeganInOrder (turn_at r s todo)
unfolding turn_at
turn_at-InOrder r s todo h = by_result (execute_sprint_todo s todo (r.item todo) (r.work todo))
  where
    by_result : (o : Result (Option Executed)) → BeganInOrder (after_execution r s todo o)
    by_result (raise e) = (satisfied-IsInOrder todo s.todos (ready-satisfied s.todos todo h), tt)
    by_result (ok none) = tt
    by_result (ok (some e)) =
        (satisfied-IsInOrder todo s.todos (ready-satisfied s.todos todo h), tt)

turn-InOrder :
    (force checkpoint : Bool) (s : SprintState) (r : Round)
    → BeganInOrder (turn force checkpoint s r)
unfolding turn
turn-InOrder force checkpoint s r =
    if_both BeganInOrder (is_wrap_up_requested s) tt (by_prepared (prepared force checkpoint s r))
  where
    by_choice :
        (p : SprintState) (o : Option Fields)
        → first (is_ready p.todos) p.todos ≡ o
        → BeganInOrder (chosen r p o)
    by_choice p none h = tt
    by_choice p (some todo) h =
        turn_at-InOrder r p todo (first-passes (is_ready p.todos) p.todos todo h)

    by_prepared : (o : Result SprintState) → BeganInOrder (taken_turn r o)
    by_prepared (raise e) = tt
    by_prepared (ok p) = by_choice p (first (is_ready p.todos) p.todos) refl

pub manual_rounds-InOrder :
    (force checkpoint : Bool) (s : SprintState) (rounds : List Round)
    → Each IsInOrder (manual_rounds force checkpoint s rounds).1
unfolding manual_rounds
manual_rounds-InOrder force checkpoint s [] = tt
manual_rounds-InOrder force checkpoint s (r ∷ rs) =
    by_turn (turn force checkpoint s r) (turn-InOrder force checkpoint s r)
      (λ s' success. manual_rounds-InOrder success success s' rs)
  where
    by_turn :
        (t : Turn)
        → BeganInOrder t
        → ((s' : SprintState) (success : Bool)
            → Each IsInOrder (manual_rounds success success s' rs).1)
        → Each IsInOrder (after_turn (λ success s'. manual_rounds success success s' rs) t).1
    by_turn (ends outcome began) h rest = h
    by_turn (goes_on s' success began) h rest = Each-append IsInOrder began _ h (rest s' success)

abbrev AllInOrder : Outcome × List Execution → Type 0
AllInOrder run = Each IsInOrder run.1

continue_manual-InOrder :
    (s : SprintState) (initial : SprintState → SprintState × Bool) (rounds : List Round)
    → AllInOrder (continue_manual_daily_sprint s initial rounds)
unfolding continue_manual_daily_sprint
continue_manual-InOrder s initial rounds =
    if_both AllInOrder (stripped_text s.state "phase" == "initial")
      (if_both AllInOrder (is_wrap_up_requested s) tt
        (if_both AllInOrder (initial s).1 (manual_rounds-InOrder _ false _ rounds) tt))
      (manual_rounds-InOrder _ false _ rounds)

automatic_after-InOrder :
    (s : SprintState) (todo : Fields) (became : Fields → SprintState)
    (passed : Outcome × List Execution) (next : Fields → Outcome × List Execution)
    (o : Result (Option Executed))
    → sprint_todo_dependencies_satisfied todo s.todos ≡ true
    → AllInOrder passed
    → ((t : Fields) → AllInOrder (next t))
    → AllInOrder (automatic_after s todo became passed next o)
automatic_after-InOrder s todo became passed next (raise e) h p n =
    (satisfied-IsInOrder todo s.todos h, tt)
automatic_after-InOrder s todo became passed next (ok none) h p n = p
automatic_after-InOrder s todo became passed next (ok (some e)) h p n = (
  satisfied-IsInOrder todo s.todos h,
  if_both AllInOrder (status_of e.todo == "uncommitted") tt (n e.todo),
)

automatic-InOrder :
    (state : Fields) (item : Fields → Fields) (work : Fields → Work) (before todos : List Fields)
    → AllInOrder (automatic_rounds state item work before todos)
unfolding automatic_rounds
automatic-InOrder state item work before [] = tt
automatic-InOrder state item work before (todo ∷ todos) =
    let s : SprintState = record { state = state; todos = before ++ todo ∷ todos } in
    let passed = automatic-InOrder state item work (before ++ todo ∷ []) todos in
    if_both AllInOrder (is_wrap_up_requested s) tt (
      if_both AllInOrder (is_terminal (status_of todo)) passed (
        if_cases AllInOrder (sprint_todo_dependencies_satisfied todo s.todos)
          (λ h.
            automatic_after-InOrder s todo _ _ _
              (execute_sprint_todo s todo (item todo) (work todo)) h passed
              (λ t. automatic-InOrder state item work (before ++ t ∷ []) todos))
          (λ h. passed)))

-- Whatever the reviews, saves and executions of its rounds do, each execution that begins in the loop
-- of a manual sprint, one that raises an exception too, is of a todo without a rank above 1, or every
-- other todo of the sprint with a smaller rank succeeded; also where the todo is marked as a restart
-- checkpoint. So it is in the loop of an automatic sprint that has no pending requirement candidate
-- and whose saves change neither a todo nor the request to wrap up, whatever its executions do.
pub sprint_loops-InOrder :
    (s : SprintState) (initial : SprintState → SprintState × Bool) (rounds : List Round)
    (item : Fields → Fields) (work : Fields → Work)
    → Each IsInOrder (continue_manual_daily_sprint s initial rounds).1
      × Each IsInOrder (automatic_rounds s.state item work [] s.todos).1
sprint_loops-InOrder s initial rounds item work =
    (continue_manual-InOrder s initial rounds, automatic-InOrder s.state item work [] s.todos)
