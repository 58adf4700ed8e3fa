-- ===== src/Sprint/Loop.antt =====
-- workflows/sprints/lifecycle.py: the loops that execute the todos of a sprint. A sprint that is
-- finalized is the state that `finalize_sprint` is called with, before it is saved.
use sprint_runtime.Prelude.{
  String, Bool, false, not, ◌&&◌, ◌==◌, Option, none, some, List, [], ◌∷◌, ◌++◌, if◌then◌else◌,
}
use sprint_runtime.Prelude.Text.{is_empty, strip}
use sprint_runtime.Python.{Fields, get, put}
use sprint_runtime.Python.Convert.{Result, ok, raise, Exception, ◌>>=◌, text, truthy, tag}
use sprint_runtime.Backlog.{put_text}
use sprint_runtime.Sprint.{
  SprintState, status_of, stripped_text, is_executable, is_terminal, successful, sort_sprint_todos,
  sprint_todo_dependencies_satisfied,
}
use sprint_runtime.Sprint.Queue.{sync_manual_sprint_queue}
use sprint_runtime.Sprint.Execute.{Work, execute_sprint_todo, Executed}

-- `is_wrap_up_requested`
unfoldable pub is_wrap_up_requested : SprintState → Bool
unfolding text strip get
is_wrap_up_requested s = not (is_empty (stripped_text s.state "wrap_up_requested_at"))

unfoldable pub wrapped_up : SprintState → SprintState
unfolding put
wrapped_up s = record s { state = put_text s.state "phase" "wrap_up" }

-- How a loop stops: `ongoing` if the rounds that are given are over, `returned` without finalizing.
pub data Outcome : Type 0 where
  finalized returned ongoing : SprintState → Outcome
  raised : Exception → Outcome

-- A todo whose execution began, with the todos of the sprint at that moment.
pub record Execution : Type 0 where
  pub todo : Fields
  pub todos : List Fields

-- What one round of the loop finds outside: the state that a review of the planner leaves, which is
-- forced or not, and is a checkpoint or not; the backlog, with identifiers for new todos; the state
-- that a save leaves, which may recover todos from requests; the backlog item of a todo, and what
-- its execution finds; and the state after the execution, with its saves.
pub record Round : Type 0 where
  pub review : Bool → Bool → SprintState → SprintState
  pub backlog : List Fields
  pub new_id : Fields → String
  pub save : SprintState → SprintState
  pub item : Fields → Fields
  pub work : Fields → Work
  pub after : SprintState → SprintState

unfoldable pub is_ready : List Fields → Fields → Bool
unfolding tag get is_executable sprint_todo_dependencies_satisfied
is_ready todos todo =
    is_executable (status_of todo) && sprint_todo_dependencies_satisfied todo todos

-- `next((x for x in xs if p(x)), None)`
abbrev pub first {ℓ} : {A : Type ℓ} → (A → Bool) → List A → Option A
first p [] = none
first p (x ∷ xs) = if p x then some x else first p xs

-- The list, once the first `x` with `p(x)` was changed in place.
abbrev pub replace_first {ℓ} : {A : Type ℓ} → (A → Bool) → A → List A → List A
replace_first p y [] = []
replace_first p y (x ∷ xs) = if p x then y ∷ xs else x ∷ replace_first p y xs

-- The sprint that a round chooses its todo from.
unfoldable pub prepared : Bool → Bool → SprintState → Round → Result SprintState
unfolding sync_manual_sprint_queue sort_sprint_todos
prepared force checkpoint s r =
    sync_manual_sprint_queue (r.review force checkpoint s) r.backlog r.new_id >>= λ queued.
    ok (r.save (record queued { todos = sort_sprint_todos queued.todos }))

-- One round: it ends the loop, or it leaves a sprint, tells whether the todo succeeded, and which
-- execution began, one that raised an exception too.
pub data Turn : Type 0 where
  ends : Outcome → List Execution → Turn
  goes_on : SprintState → Bool → List Execution → Turn

abbrev pub with_todo : Round → SprintState → Fields → SprintState
with_todo r s todo = r.after (record s { todos = replace_first (is_ready s.todos) todo s.todos })

abbrev pub after_execution : Round → SprintState → Fields → Result (Option Executed) → Turn
after_execution r s todo (raise e) = ends (raised e) (record { todo = todo; todos = s.todos } ∷ [])
after_execution r s todo (ok none) = goes_on (r.after s) (successful (status_of todo)) []
after_execution r s todo (ok (some e)) =
    goes_on (with_todo r s e.todo) (successful (status_of e.todo))
      (record { todo = todo; todos = s.todos } ∷ [])

-- The round's turn at the todo that it chose.
unfoldable pub turn_at : Round → SprintState → Fields → Turn
unfolding execute_sprint_todo is_ready tag get
turn_at r s todo = after_execution r s todo (execute_sprint_todo s todo (r.item todo) (r.work todo))

abbrev pub chosen : Round → SprintState → Option Fields → Turn
chosen r p none = ends (finalized (wrapped_up p)) []
chosen r p (some todo) = turn_at r p todo

abbrev pub taken_turn : Round → Result SprintState → Turn
taken_turn r (raise e) = ends (raised e) []
taken_turn r (ok p) = chosen r p (first (is_ready p.todos) p.todos)

-- `_is_manual_sprint_cutoff_reached`, which the code asks beside the request to wrap up, is always
-- false.
unfoldable pub turn : Bool → Bool → SprintState → Round → Turn
unfolding is_wrap_up_requested wrapped_up prepared is_ready turn_at
turn force checkpoint s r =
    if is_wrap_up_requested s
    then ends (finalized (wrapped_up s)) []
    else taken_turn r (prepared force checkpoint s r)

-- The rounds after a turn; a review is a forced checkpoint if the todo succeeded.
abbrev pub after_turn :
    (Bool → SprintState → Outcome × List Execution) → Turn → Outcome × List Execution
after_turn rounds (ends outcome began) = (outcome, began)
after_turn rounds (goes_on s success began) = ((rounds success s).0, began ++ (rounds success s).1)

-- The loop of `continue_manual_daily_sprint`, for as many rounds as are given.
unfoldable pub manual_rounds : Bool → Bool → SprintState → List Round → Outcome × List Execution
unfolding turn
manual_rounds force checkpoint s [] = (ongoing s, [])
manual_rounds force checkpoint s (r ∷ rs) =
    after_turn (λ success s'. manual_rounds success success s' rs) (turn force checkpoint s r)

-- Whether a review of the planner is forced in the first round.
abbrev was_reviewed : SprintState → Bool
was_reviewed s = truthy (get s.state "last_planner_review_at")

abbrev pub set_running : SprintState → SprintState
set_running s = record s {
  state = put_text (put_text s.state "phase" "ongoing") "status" "running";
}

abbrev manual_loop : SprintState → List Round → Outcome × List Execution
manual_loop s rounds = manual_rounds (not (was_reviewed s)) false (set_running s) rounds

-- `initial` is what the initial phase leaves, and whether the sprint is ready for its todos; messages
-- are left out.
unfoldable pub continue_manual_daily_sprint :
    SprintState → (SprintState → SprintState × Bool) → List Round → Outcome × List Execution
unfolding manual_rounds is_wrap_up_requested wrapped_up text strip get put
continue_manual_daily_sprint s initial rounds =
    let after = initial s in
    let unready =
      if is_wrap_up_requested after.0 then finalized (wrapped_up after.0) else returned after.0 in
    if stripped_text s.state "phase" == "initial"
    then if is_wrap_up_requested s
      then (finalized (wrapped_up s), [])
      else if after.1
      then manual_loop after.0 rounds
      else (unready, [])
    else manual_loop s rounds

abbrev pub began : Execution → Outcome × List Execution → Outcome × List Execution
began e rest = (rest.0, e ∷ rest.1)

-- After the execution of a todo of the loop below: `passed` is the loop without it, and `next` the
-- loop with what it became.
abbrev pub automatic_after :
    SprintState
    → Fields
    → (Fields → SprintState)
    → Outcome × List Execution
    → (Fields → Outcome × List Execution)
    → Result (Option Executed)
    → Outcome × List Execution
automatic_after s todo became passed next (raise e) =
    (raised e, record { todo = todo; todos = s.todos } ∷ [])
automatic_after s todo became passed next (ok none) = passed
automatic_after s todo became passed next (ok (some e)) =
    began (record { todo = todo; todos = s.todos })
      (if status_of e.todo == "uncommitted" then (returned (became e.todo), []) else next e.todo)

-- The loop of `continue_sprint` over the todos as they stood at its start, where no requirement
-- candidate is pending and the saves recover nothing. The first list was gone through.
unfoldable pub automatic_rounds :
    Fields
    → (Fields → Fields)
    → (Fields → Work)
    → List Fields
    → List Fields
    → Outcome × List Execution
unfolding is_wrap_up_requested wrapped_up sprint_todo_dependencies_satisfied execute_sprint_todo
    is_terminal tag get
automatic_rounds state item work before [] =
    (finalized (record { state = state; todos = before }), [])
automatic_rounds state item work before (todo ∷ todos) =
    let s : SprintState = record { state = state; todos = before ++ todo ∷ todos } in
    let passed = automatic_rounds state item work (before ++ todo ∷ []) todos in
    let ran =
      automatic_after s todo (λ t. record s { todos = before ++ t ∷ todos }) passed
        (λ t. automatic_rounds state item work (before ++ t ∷ []) todos)
        (execute_sprint_todo s todo (item todo) (work todo)) in
    if is_wrap_up_requested s
    then (finalized (wrapped_up s), [])
    else if is_terminal (status_of todo)
    then passed
    else if sprint_todo_dependencies_satisfied todo s.todos
    then ran
    else passed
