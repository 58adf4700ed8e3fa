-- ===== src/Sprint/Recover/Identities.antt =====
-- workflows/sprints/lifecycle.py: the identifiers of the todos that
-- `recover_sprint_todos_from_recovered` leaves.
use sprint_runtime.Prelude.{◌≡◌, String, Bool, true, ◌||◌, ◌==◌, List, map}
use sprint_runtime.Prelude.Lists.{member}
use sprint_runtime.Prelude.Distinct.{distinct}
use sprint_runtime.Python.{Fields}
use sprint_runtime.Sprint.{SprintState, stripped_text}
use sprint_runtime.Sprint.Recover.Known.{Recovering}

abbrev pub ids : String → List Fields → List String
ids key todos = map (λ todo. stripped_text todo key) todos

-- What a merge leaves alone.
abbrev pub is_id : String → Bool
is_id key = key == "todo_id" || key == "backlog_id"

-- The list that the indexes were built from has the identifiers of the todos, which are distinct.
abbrev Fits : String → Recovering → Type 0
Fits key r = (ids key r.known ≡ ids key r.todos) × (distinct (ids key r.todos) ≡ true)

-- The identifier is still there.
abbrev Has : String → String → Recovering → Type 0
Has key id r = member id (ids key r.todos) ≡ true

abbrev Sound : String → String → Recovering → Type 0
Sound key id r = Fits key r × Has key id r

-- The identifiers of a sprint's todos are distinct, and the given one is among them.
abbrev pub KeepsIds : String → String → SprintState → Type 0
KeepsIds key id s = (distinct (ids key s.todos) ≡ true) × (member id (ids key s.todos) ≡ true)
