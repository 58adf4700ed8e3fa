-- ===== src/Sprint/Repeats.antt =====
-- workflows/sprints/lifecycle.py: the loop of a manual sprint whose one todo cannot be committed.
use sprint_runtime.Prelude.{
  ◌≡◌, refl, suc, String, Bool, true, false, some, List, [], ◌∷◌, if◌then◌else◌, ap, ◌∙◌,
}
use sprint_runtime.Prelude.Text.{is_empty}
use sprint_runtime.Prelude.Lists.{length}
use sprint_runtime.Prelude.Sorting.{Each}
use sprint_runtime.Python.{Fields}
use sprint_runtime.Python.Convert.{ok}
use sprint_runtime.Sprint.{
  SprintState, status_of, stripped_text, sprint_todo_dependencies_satisfied, is_executable,
  successful,
}
use sprint_runtime.Prelude.{◌&&◌}
use sprint_runtime.Sprint.Execute.{Executed}
use sprint_runtime.Sprint.Loop.{
  Outcome, ongoing, Round, Turn, Execution, goes_on, turn, manual_rounds, is_wrap_up_requested,
  turn_at, is_ready, after_execution,
}
use sprint_runtime.Sprint.Lone.{
  IsStuck, lone, IsPending, prepared-lone, execute-lone, lone-satisfied,
}

lone-ready : (todo : Fields) → status_of todo ≡ "uncommitted" → is_ready (todo ∷ []) todo ≡ true
unfolding is_ready is_executable
lone-ready todo h =
    ap (λ s. is_executable s && sprint_todo_dependencies_satisfied todo (todo ∷ [])) h
    ∙ lone-satisfied todo

after-lone :
    (state todo : Fields) (r : Round) (e : Executed) (s : SprintState)
    → status_of todo ≡ "uncommitted"
    → r.after (lone state e.todo) ≡ s
    → status_of e.todo ≡ "uncommitted"
    → after_execution r (lone state todo) todo (ok (some e))
      ≡ goes_on s false (record { todo = todo; todos = todo ∷ [] } ∷ [])
after-lone state todo r e s open_todo left again =
    ap
      (λ (b : Bool).
        goes_on (r.after (record { state = state; todos = if b then e.todo ∷ [] else todo ∷ [] }))
          (successful (status_of e.todo)) (record { todo = todo; todos = todo ∷ [] } ∷ []))
      (lone-ready todo open_todo)
    ∙ ap
        (λ s'.
          goes_on s' (successful (status_of e.todo))
            (record { todo = todo; todos = todo ∷ [] } ∷ []))
        left
    ∙ ap (λ status. goes_on s (successful status) (record { todo = todo; todos = todo ∷ [] } ∷ []))
        again

unasked-lone :
    (state todo : Fields)
    → stripped_text state "wrap_up_requested_at" ≡ ""
    → is_wrap_up_requested (lone state todo) ≡ false
unfolding is_wrap_up_requested
unasked-lone state todo h = rw h refl

-- The turn executes one todo, without success, and leaves a sprint that is stuck as before.
abbrev WentOn : String → Turn → Type 0
WentOn sprint_id t =
    (state : Fields) × (todo : Fields) × (e : Execution) × (t
      ≡ goes_on (lone state todo) false (e ∷ []))
    × IsPending sprint_id state todo

turn-lone :
    (force checkpoint : Bool) (sprint_id : String) (state todo : Fields) (r : Round)
    → is_empty sprint_id ≡ false
    → IsStuck sprint_id r
    → IsPending sprint_id state todo
    → WentOn sprint_id (turn force checkpoint (lone state todo) r)
turn-lone force checkpoint sprint_id state todo r full stuck pending =
    let (state', todo', made, open') =
      prepared-lone force checkpoint sprint_id state todo r full stuck pending in
    let (e, ran, still) = execute-lone sprint_id state' todo' r stuck open' in
    let (state'', todo'', left, open'') = stuck.after state' e.todo still in
    (
      state'',
      todo'',
      record { todo = todo'; todos = todo' ∷ [] },
      unfold turn turn_at in
          rw
            (unasked-lone state todo pending.unasked, made, lone-ready todo' open'.uncommitted, ran)
            (after-lone state' todo' r e (lone state'' todo'') open'.uncommitted left
              still.uncommitted),
      open'',
    )

abbrev pub IsOngoing : Outcome → Type 0
IsOngoing (ongoing s) = Unit
IsOngoing _ = ⊥

-- Where a sprint has one todo, whose commit failed, and where every round finds the commit failing
-- again, with no item planned, the loop of a manual sprint executes the todo in each round and is
-- still going on after them, however many they are. The reviews and saves of a round may change the
-- sprint, as long as it keeps its name and its one uncommitted todo, and is not asked to wrap up.
pub uncommitted_repeats :
    (force checkpoint : Bool) (sprint_id : String) (state todo : Fields) (rounds : List Round)
    → is_empty sprint_id ≡ false
    → Each (IsStuck sprint_id) rounds
    → IsPending sprint_id state todo
    → IsOngoing (manual_rounds force checkpoint (lone state todo) rounds).0
      × (length (manual_rounds force checkpoint (lone state todo) rounds).1 ≡ length rounds)
unfolding manual_rounds
uncommitted_repeats force checkpoint sprint_id state todo [] full stuck pending = (tt, refl)
uncommitted_repeats force checkpoint sprint_id state todo (r ∷ rs) full (stuck, more) pending =
    let (state', todo', e, went, still) =
      turn-lone force checkpoint sprint_id state todo r full stuck pending in
    let (on, count) = uncommitted_repeats false false sprint_id state' todo' rs full more still in
    rw went (on, ap suc count)
