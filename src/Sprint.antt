-- ===== src/Sprint.antt =====
-- workflows/sprints/lifecycle.py: the todos of a sprint, their order, and what a todo waits on.
pub mod Todos
pub mod Queue
pub mod Execute
pub mod Loop
pub mod InOrder
pub mod Settled
pub mod Stops
pub mod Lone
pub mod Repeats
pub mod Skipped
pub mod Reversed
pub mod Tasks
pub mod Commit
pub mod Committed
pub mod Recover
use sprint_runtime.Prelude.{
  ℕ, String, Bool, true, false, not, ◌&&◌, ◌||◌, ◌==◌, List, [], ◌∷◌, ltb, leb, if◌then◌else◌,
}
use sprint_runtime.Prelude.Text.{is_empty, strip, normalized}
use sprint_runtime.Prelude.Lists.{keep, is_nil, member}
use sprint_runtime.Prelude.Order.{lex, text_ltb}
use sprint_runtime.Prelude.Sorting.{sort_by}
use sprint_runtime.Python.{ℤ, pos, negsuc, Value, Fields, get}
use sprint_runtime.Python.Convert.{text, tag}
use sprint_runtime.Python.Sequences.{or_value}
use sprint_runtime.Backlog.Order.{
  priority_rank_sort_value, priority_rank_sort_key, key_precedes, unset_rank,
}

-- A sprint: its dictionary, and the dictionaries under its key `todos`.
pub record SprintState : Type 0 where
  pub state : Fields
  pub todos : List Fields

abbrev pub status_of : Fields → String
status_of todo = tag (get todo "status")

-- `str(d.get(key) or "").strip()`
abbrev pub stripped_text : Fields → String → String
stripped_text d key = strip (text (get d key))

abbrev pub rank_of_status : String → ℤ
rank_of_status status =
    if status == "queued"
    then pos 0
    else if status == "running"
    then pos 1
    else if member status ("blocked" ∷ "uncommitted" ∷ "failed" ∷ [])
    then pos 2
    else if status == "completed"
    then pos 3
    else if status == "committed"
    then pos 4
    else negsuc 0

unfoldable pub todo_status_rank : String → ℤ
unfolding normalized
todo_status_rank status = rank_of_status (normalized status)

abbrev pub successful : String → Bool
successful status = member status ("completed" ∷ "committed" ∷ [])

unfoldable pub successful_todo_status : String → Bool
unfolding normalized
successful_todo_status status = successful (normalized status)

-- `is_executable_todo_status`, of a status that is stripped and in lower case.
unfoldable pub is_executable : String → Bool
is_executable status = member status ("queued" ∷ "running" ∷ "uncommitted" ∷ [])

-- `is_terminal_todo_status`, of such a status.
unfoldable pub is_terminal : String → Bool
is_terminal status = member status ("completed" ∷ "committed" ∷ "blocked" ∷ "failed" ∷ [])

-- Whether the todo was queued again by a restart from a checkpoint.
unfoldable pub bypasses_gate : Fields → Bool
unfolding text strip get
bypasses_gate todo = stripped_text todo "dependency_gate_bypass" == "restart_checkpoint"

unfoldable pub rank : Fields → ℕ
unfolding priority_rank_sort_value get
rank todo = priority_rank_sort_value (get todo "priority_rank")

pub record TodoKey : Type 0 where
  pub bypass : ℕ
  pub running : ℕ
  pub rank : ℕ
  pub time : String
  pub identifier : String

unfoldable pub todo_key : Fields → TodoKey
unfolding bypasses_gate rank tag text get
todo_key todo = record {
  bypass = if bypasses_gate todo then 0 else 1;
  running = if status_of todo == "running" then 0 else 1;
  rank = rank todo;
  time = text (or_value (get todo "created_at") (get todo "started_at"));
  identifier = text (get todo "todo_id");
}

abbrev pub key_before : TodoKey → TodoKey → Bool
key_before =
    lex (λ a b. ltb a.bypass b.bypass)
      (lex (λ a b. ltb a.running b.running)
        (lex (λ a b. ltb a.rank b.rank)
          (lex (λ a b. text_ltb a.time b.time) (λ a b. text_ltb a.identifier b.identifier))))

unfoldable pub sort_sprint_todos : List Fields → List Fields
unfolding sort_by todo_key text_ltb
sort_sprint_todos todos = sort_by (λ a b. key_before (todo_key a) (todo_key b)) todos

abbrev pub id_of : Fields → String
id_of todo = stripped_text todo "todo_id"

-- Whether both have the same identifier, which is not blank.
unfoldable pub is_same : Fields → Fields → Bool
unfolding text strip get
is_same todo candidate = not (is_empty (id_of todo)) && id_of candidate == id_of todo

-- Whether `todo` waits on the candidate.
unfoldable pub waits_on : Fields → Fields → Bool
unfolding is_same rank successful_todo_status text get
waits_on todo candidate =
    not (is_same todo candidate)
    && not (leb (rank todo) (rank candidate))
    && not (successful_todo_status (text (get candidate "status")))

-- Only a todo with a rank above 1 waits.
abbrev pub can_wait : Fields → Bool
can_wait todo = not (leb (rank todo) 1 || leb unset_rank (rank todo))

unfoldable pub sprint_todo_dependency_waiting_on : Fields → List Fields → List Fields
unfolding rank waits_on sort_by priority_rank_sort_key text_ltb
sprint_todo_dependency_waiting_on todo todos =
    if can_wait todo
    then sort_by (λ a b. key_precedes (priority_rank_sort_key a) (priority_rank_sort_key b))
        (keep (waits_on todo) todos)
    else []

unfoldable pub sprint_todo_dependencies_satisfied : Fields → List Fields → Bool
unfolding sprint_todo_dependency_waiting_on
sprint_todo_dependencies_satisfied todo todos =
    is_nil (sprint_todo_dependency_waiting_on todo todos)
