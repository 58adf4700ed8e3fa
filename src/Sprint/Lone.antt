-- ===== src/Sprint/Lone.antt =====
-- workflows/sprints/lifecycle.py: a sprint with one todo, whose commit fails again when it is executed.
use sprint_runtime.Prelude.{
  ◌≡◌, refl, arith, String, Bool, true, false, none, some, List, [], ◌∷◌, if◌then◌else◌, ap, ◌∙◌,
  if_both,
}
use sprint_runtime.Prelude.Text.{is_empty, strip}
use sprint_runtime.Prelude.Lists.{is_nil, keep}
use sprint_runtime.Prelude.Sorting.{sort_by, is_nil-sort_by}
use sprint_runtime.Files.{write_json}
use sprint_runtime.Python.{list, nil, Fields, get, put, str}
use sprint_runtime.Python.Convert.{Result, ok, raise, text, tag}
use sprint_runtime.Sprint.{
  SprintState, status_of, stripped_text, sort_sprint_todos, sprint_todo_dependencies_satisfied,
  sprint_todo_dependency_waiting_on, waits_on, can_wait, or_value, bypasses_gate,
}
use sprint_runtime.Backlog.{put_text}
use sprint_runtime.Python.Laws.{OkIs, OkIs-bind, OkIs-any, get-put}
use sprint_runtime.Prelude.{◌||◌}
use sprint_runtime.Python.Sequences.{is_end}
use sprint_runtime.Sprint.Todos.{cleaned}
use sprint_runtime.Sprint.Settled.{beside, status-put}
use sprint_runtime.Sprint.Queue.{items_of_sprint, sync_manual_sprint_queue}
use sprint_runtime.Workflow.Request.{request_workflow_state}
use sprint_runtime.Sprint.Execute.{
  recovers, is_over, Work, Executed, execute_sprint_todo, reported, started, settled,
  normalize_sprint_todo_artifacts, uncommitted_item,
}
use sprint_runtime.Sprint.Loop.{Round, prepared}

abbrev pub IsOk {ℓ} : {A : Type ℓ} → Result A → Type 0
IsOk (ok a) = Unit
IsOk (raise e) = ⊥

-- A sprint with one todo.
abbrev pub lone : Fields → Fields → SprintState
lone state todo = record { state = state; todos = todo ∷ [] }

abbrev synced : Fields → Fields
synced state = put (put state "selected_items" (list nil)) "selected_backlog_ids" (list nil)

-- The sprint and its todo, which waits for its commit.
pub record IsPending (sprint_id : String) (state todo : Fields) : Type 0 where
  pub named : stripped_text state "sprint_id" ≡ sprint_id
  pub unasked : stripped_text state "wrap_up_requested_at" ≡ ""
  pub listed : is_empty (stripped_text todo "backlog_id") ≡ false
  pub uncommitted : status_of todo ≡ "uncommitted"

-- The sprint still has one todo, which waits for its commit.
abbrev pub IsLone : String → SprintState → Type 0
IsLone sprint_id s =
    (state : Fields) × (todo : Fields) × (s ≡ lone state todo) × IsPending sprint_id state todo

-- Whatever else is changed in such a sprint, it stays one.
abbrev pub Keeps : String → (SprintState → SprintState) → Type 0
Keeps sprint_id step =
    (state todo : Fields)
    → IsPending sprint_id state todo
    → IsLone sprint_id (step (lone state todo))

-- A round whose reviews and saves leave the sprint with its one todo, in which no item of the backlog
-- is planned for the sprint, and in which the commit that ends an execution fails once more.
pub record IsStuck (sprint_id : String) (r : Round) : Type 0 where
  pub review : (force checkpoint : Bool) → Keeps sprint_id (r.review force checkpoint)
  pub save : Keeps sprint_id r.save
  pub after : Keeps sprint_id r.after
  pub unplanned : (milestone : String) → items_of_sprint sprint_id milestone r.backlog ≡ []
  pub fails : (todo : Fields) → status_of (r.work todo).result ≡ "uncommitted"
  pub reports : (todo told : Fields) → IsOk (reported told (r.work todo))

synced-IsPending :
    (sprint_id : String) (state todo : Fields)
    → IsPending sprint_id state todo
    → IsPending sprint_id (synced state) todo
synced-IsPending sprint_id state todo pending = record {
  named = ap (λ v. strip (text v)) (simp get-put refl) ∙ pending.named;
  unasked = ap (λ v. strip (text v)) (simp get-put refl) ∙ pending.unasked;
  listed = pending.listed;
  uncommitted = pending.uncommitted;
}

queued-lone :
    (sprint_id : String) (state todo : Fields) (r : Round)
    → is_empty sprint_id ≡ false
    → IsStuck sprint_id r
    → IsPending sprint_id state todo
    → sync_manual_sprint_queue (lone state todo) r.backlog r.new_id ≡ ok (lone (synced state) todo)
unfolding sync_manual_sprint_queue sort_sprint_todos sort_by write_json
queued-lone sprint_id state todo r full stuck pending =
    rw
      (
        pending.named,
        full,
        stuck.unplanned (stripped_text state "milestone_title"),
        pending.listed,
        pending.uncommitted,
      )
      refl

-- What a round chooses from.
abbrev pub IsPrepared : String → Result SprintState → Type 0
IsPrepared sprint_id prepared =
    (state : Fields) × (todo : Fields) × (prepared ≡ ok (lone state todo))
    × IsPending sprint_id state todo

pub prepared-lone :
    (force checkpoint : Bool) (sprint_id : String) (state todo : Fields) (r : Round)
    → is_empty sprint_id ≡ false
    → IsStuck sprint_id r
    → IsPending sprint_id state todo
    → IsPrepared sprint_id (prepared force checkpoint (lone state todo) r)
unfolding prepared sort_sprint_todos sort_by
prepared-lone force checkpoint sprint_id state todo r full stuck pending =
    let (state', todo', reviewed, open') = stuck.review force checkpoint state todo pending in
    let queued = queued-lone sprint_id state' todo' r full stuck open' in
    let (state'', todo'', saved, open'') =
      stuck.save (synced state') todo' (synced-IsPending sprint_id state' todo' open') in
    (state'', todo'', rw (reviewed, queued) (ap ok saved), open'')

abbrev KeepsItem : Fields → Fields → Type 0
KeepsItem todo told = get told "backlog_id" ≡ get todo "backlog_id"

started-KeepsItem : (todo : Fields) (work : Work) → KeepsItem todo (started todo work)
unfolding started
started-KeepsItem todo work =
    by_test (recovers todo work) (is_end work.request) (is_over work.request)
  where
    by_test :
        (recovering fresh over : Bool)
        → KeepsItem todo (
            let running =
              if recovering
              then todo
              else put_text
                  (put_text todo "status" "running")
                  "started_at"
                  (text (or_value (get todo "started_at") (str work.started_at))) in
            if fresh
            then put running "request_id" work.created_id
            else if over
            then running
            else put running "request_id" (get work.request "request_id"))
    by_test true true over = simp get-put refl
    by_test true false true = refl
    by_test true false false = simp get-put refl
    by_test false true over = simp get-put refl
    by_test false false true = simp get-put refl
    by_test false false false = simp get-put refl

reported-KeepsItem : (todo : Fields) (work : Work) → OkIs (KeepsItem todo) (reported todo work)
unfolding reported
reported-KeepsItem todo work =
    OkIs-bind {0, 0, 0, 0} (λ a. Unit) _ (request_workflow_state work.later) _
      (OkIs-any (request_workflow_state work.later))
      (λ workflow _.
        let artifacts = normalize_sprint_todo_artifacts (get work.result "artifacts") workflow in
        OkIs-bind {0, 0, 0, 0} (λ a. Unit) _ artifacts _ (OkIs-any artifacts)
          (λ listed _.
            let paths = cleaned (get work.result "version_control_paths") in
            OkIs-bind {0, 0, 0, 0} (λ a. Unit) _ paths _ (OkIs-any paths)
              (λ all_paths _. simp get-put refl)))

-- The todo that an execution leaves whose commit failed.
abbrev unsettled : Fields → Fields → Fields
unsettled told item =
    put_text (put_text told "status" "uncommitted") "carry_over_backlog_id"
      (text (get item "backlog_id"))

ok_result :
    (r : Result Fields) (P : Fields → Type 0) → IsOk r → OkIs P r → (a : Fields) × (r ≡ ok a) × P a
ok_result (ok a) P h p = (a, refl, p)
ok_result (raise e) P h p = absurd h

pub lone-satisfied : (todo : Fields) → sprint_todo_dependencies_satisfied todo (todo ∷ []) ≡ true
unfolding sprint_todo_dependencies_satisfied sprint_todo_dependency_waiting_on
lone-satisfied todo =
    if_both (λ (l : List Fields). is_nil l ≡ true) (can_wait todo)
      (is_nil-sort_by _ (keep (waits_on todo) (todo ∷ [])) ∙ rw (itself todo) refl) refl
  where
    itself : (todo : Fields) → waits_on todo todo ≡ false
    itself todo = unfold waits_on in ground arith

or_true : (b : Bool) → (b || true) ≡ true
or_true b = ground arith

settled-unsettled :
    (s : SprintState) (told item : Fields) (work : Work)
    → status_of work.result ≡ "uncommitted"
    → settled s told item work
      ≡ ok
          (record { todo = unsettled told item; item = uncommitted_item item work; carried = none })
unfolding settled
settled-unsettled s told item work h = rw h refl

unsettled-IsPending :
    (sprint_id : String) (state todo told item : Fields)
    → KeepsItem todo told
    → IsPending sprint_id state todo
    → IsPending sprint_id state (unsettled told item)
unsettled-IsPending sprint_id state todo told item kept pending = record {
  named = pending.named;
  unasked = pending.unasked;
  listed = ap (λ v. is_empty (strip (text v))) (simp get-put kept) ∙ pending.listed;
  uncommitted =
      beside "carry_over_backlog_id" (put_text told "status" "uncommitted") _ refl
        (status-put told "uncommitted" ∙ unfold tag in refl);
}

-- The execution of the todo leaves it as it was, as far as the loop is concerned.
pub execute-lone :
    (sprint_id : String) (state todo : Fields) (r : Round)
    → IsStuck sprint_id r
    → IsPending sprint_id state todo
    → (e : Executed) × (execute_sprint_todo (lone state todo) todo (r.item todo) (r.work todo)
        ≡ ok (some e))
      × IsPending sprint_id state e.todo
execute-lone sprint_id state todo r stuck pending = by_report (
    ok_result (reported (started todo work) work) (KeepsItem (started todo work))
      (stuck.reports todo (started todo work)) (reported-KeepsItem (started todo work) work))
  where
    work : Work
    work = r.work todo

    by_report :
        (told : Fields) × (reported (started todo work) work ≡ ok told)
          × KeepsItem (started todo work) told
        → (e : Executed) × (execute_sprint_todo (lone state todo) todo (r.item todo) work
            ≡ ok (some e))
          × IsPending sprint_id state e.todo
    by_report (told, made, kept) = (
      record {
        todo = unsettled told (r.item todo);
        item = uncommitted_item (r.item todo) work;
        carried = none;
      },
      unfold execute_sprint_todo in
          rw
            (
              lone-satisfied todo,
              or_true (bypasses_gate todo),
              made,
              settled-unsettled (lone state todo) told (r.item todo) work (stuck.fails todo),
            )
            refl,
      unsettled-IsPending sprint_id state todo told (r.item todo)
          (kept ∙ started-KeepsItem todo work) pending,
    )
