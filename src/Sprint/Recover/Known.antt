-- ===== src/Sprint/Recover/Known.antt =====
-- workflows/sprints/lifecycle.py: `recover_sprint_todos_from_recovered`. The indexes of the todos by
-- identifier are built again only when a todo is appended; the model keeps the list they were built
-- from.
use sprint_runtime.Prelude.{
  ℕ, zero, suc, String, Bool, true, false, not, ◌&&◌, ◌||◌, ◌==◌, Option, none, some, List, [], ◌∷◌,
  ◌++◌, map, if◌then◌else◌,
}
use sprint_runtime.Prelude.Text.{is_empty}
use sprint_runtime.Prelude.Lists.{member}
use sprint_runtime.Python.{Fields}
use sprint_runtime.Python.Convert.{Result, ok, ◌>>=◌}
use sprint_runtime.Python.Sequences.{is_end}
use sprint_runtime.Python.Same.{same_dict}
use sprint_runtime.Sprint.{SprintState, stripped_text, sort_sprint_todos}
use sprint_runtime.Sprint.Recover.{Clock, merge_recovered_sprint_todo}

-- The todos, the list that the indexes were built from, and whether anything changed.
pub record Recovering : Type 0 where
  pub todos : List Fields
  pub known : List Fields
  pub changed : Bool

abbrev pub one_further : Option ℕ → Option ℕ
one_further none = none
one_further (some n) = some (suc n)

unfoldable pub position : String → String → List Fields → Option ℕ
position key id [] = none
position key id (todo ∷ todos) =
    let rest = position key id todos in
    if id == stripped_text todo key then some 0 else one_further rest

-- The first todo with the identifier, which is not blank.
unfoldable pub index_of : String → String → List Fields → Option ℕ
unfolding position
index_of key id todos = if is_empty id then none else position key id todos

abbrev pub or_else : Option ℕ → Option ℕ → Option ℕ
or_else none other = other
or_else (some n) other = some n

abbrev index_by : Fields → String → List Fields → Option ℕ
index_by recovered key known = index_of key (stripped_text recovered key) known

unfoldable pub existing_index : Fields → List Fields → Option ℕ
unfolding index_of
existing_index recovered known =
    or_else (index_by recovered "todo_id" known)
      (or_else (index_by recovered "request_id" known) (index_by recovered "backlog_id" known))

-- Whether the request was retried by another one.
unfoldable pub is_retired : Fields → List Fields → Bool
is_retired recovered todos =
    let id = stripped_text recovered "request_id" in
    not (is_empty id) && member id (map (λ todo. stripped_text todo "retry_of_request_id") todos)

-- The todo at the index is merged; the flag tells whether it changed.
unfoldable pub merged_at : Clock → ℕ → Fields → List Fields → Result (List Fields × Bool)
unfolding merge_recovered_sprint_todo same_dict
merged_at clock n recovered [] = ok ([], false)
merged_at clock zero recovered (todo ∷ todos) =
    merge_recovered_sprint_todo clock todo recovered >>= λ merged.
    ok (if same_dict merged todo then (todo ∷ todos, false) else (merged ∷ todos, true))
merged_at clock (suc n) recovered (todo ∷ todos) =
    merged_at clock n recovered todos >>= λ rest. ok (todo ∷ rest.0, rest.1)

-- The recovered todo is merged into the todo at the index, or appended.
unfoldable pub placed : Clock → Recovering → Fields → Option ℕ → Result Recovering
unfolding merged_at
placed clock r recovered none =
    let todos = r.todos ++ (recovered ∷ []) in
    ok (record { todos = todos; known = todos; changed = true })
placed clock r recovered (some n) = merged_at clock n recovered r.todos >>= λ merged.
    ok (record { todos = merged.0; known = r.known; changed = r.changed || merged.1 })

unfoldable pub recover_one : Clock → Recovering → Fields → Result Recovering
unfolding is_retired existing_index placed
recover_one clock r recovered =
    if is_end recovered || is_retired recovered r.todos
    then ok r
    else placed clock r recovered (existing_index recovered r.known)

unfoldable pub recover_all : Clock → Recovering → List Fields → Result Recovering
unfolding recover_one
recover_all clock r [] = ok r
recover_all clock r (recovered ∷ rest) =
    recover_one clock r recovered >>= λ next. recover_all clock next rest

-- The sprint, and whether it changed.
unfoldable pub recover_sprint_todos_from_recovered :
    Clock → SprintState → List Fields → Result (SprintState × Bool)
unfolding recover_all sort_sprint_todos
recover_sprint_todos_from_recovered clock s recovered_todos =
    recover_all clock (record { todos = s.todos; known = s.todos; changed = false }) recovered_todos
    >>= λ r.
        ok
          (if r.changed then (record s { todos = sort_sprint_todos r.todos }, true) else (s, false))
