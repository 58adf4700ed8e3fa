-- ===== src/Tests/Recoveries.antt =====
-- Concrete todos, on which the theorems about their recovery are applied.
use sprint_runtime.Prelude.{◌≡◌, refl, ℕ, String, false, not, some, [], ◌∷◌, map}
use sprint_runtime.Prelude.Text.{strip}
use sprint_runtime.Prelude.Order.{text_ltb}
use sprint_runtime.Python.{pos, num, str, Fields, end, field, get}
use sprint_runtime.Python.Convert.{ok, ◌>>=◌, text, tag}
use sprint_runtime.Python.Laws.{OkIs}
use sprint_runtime.Python.Same.{same_dict}
use sprint_runtime.Sprint.{status_of, todo_status_rank}
use sprint_runtime.Sprint.Recover.{
  Clock, merge_recovered_sprint_todo, updated_at, time_of, is_newer, filled, overwritten,
}
use sprint_runtime.Sprint.Recover.Known.{recover_sprint_todos_from_recovered}
use sprint_runtime.Sprint.Recover.Decided.{Decided}
use sprint_runtime.Sprint.Recover.Merged.{merge_recovered-Decided}

abbrev todo_of : String → String → ℕ → Fields
todo_of id status rank = field "todo_id" (str id) (
    field "backlog_id" (str id)
      (field "status" (str status) (field "priority_rank" (num (pos rank)) end)))

-- Times that are written as the letters `a`, `b` and so on.
abbrev letters : Clock
letters = record { Instant = String; from_iso = some; not_before = λ a b. ok (not (text_ltb a b)) }

abbrev stored : Fields
stored = field "updated_at" (str "b") (todo_of "t1" "committed" 1)

abbrev older : Fields
older = field "updated_at" (str "a") (todo_of "t2" "queued" 1)

merge_recovered-Decided_example :
    OkIs (Decided false older stored) (merge_recovered_sprint_todo letters stored older)
unfolding updated_at time_of strip text get text_ltb
merge_recovered-Decided_example =
    merge_recovered-Decided letters stored older "b" "a" false refl refl refl

-- The record of an unknown todo is appended once.
recovered_statuses :
    recover_sprint_todos_from_recovered letters
        (record { state = end; todos = stored ∷ [] })
        (older ∷ older ∷ [])
      >>= (λ out. ok (map status_of out.0.todos))
    ≡ ok ("committed" ∷ "queued" ∷ [])
unfolding recover_sprint_todos_from_recovered updated_at time_of is_newer tag strip text get
    todo_status_rank text_ltb same_dict filled overwritten
recovered_statuses = refl
