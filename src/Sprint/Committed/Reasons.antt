-- ===== src/Sprint/Committed/Reasons.antt =====
-- workflows/sprints/lifecycle.py: why the commit of a task leaves a status, by what the inspection of
-- the working tree and the answer of the version controller say.
use sprint_runtime.Prelude.{
  ◌≡◌, ◌≢◌, refl, arith, String, true, false, ◌⊎◌, inl, inr, ◌==◌, List, [], ◌∷◌, ap, ◌∙◌, sym,
  eq_iff, eq_refl, Bool-cases, if_cases,
}
use sprint_runtime.Prelude.Text.{strip}
use sprint_runtime.Prelude.Lists.{member, is_nil}
use sprint_runtime.Python.{Value, str, Fields, get}
use sprint_runtime.Python.Convert.{ok, ◌>>=◌, text}
use sprint_runtime.Python.Sequences.{or_value}
use sprint_runtime.Python.Laws.{OkIs}
use sprint_runtime.Sprint.{status_of, stripped_text}
use sprint_runtime.Sprint.Todos.{cleaned}
use sprint_runtime.Sprint.Tasks.{Task, Left, is_text}
use sprint_runtime.Sprint.Commit.{
  answered, has_failed, failed_status, finished_status, was_uncommitted,
  enforce_task_commit_for_completed_todo,
}
use sprint_runtime.Sprint.Committed.{HasStatus, task_status, enforce-HasStatus}

-- What the version controller says of the commit, and which paths it names.
abbrev pub said : Fields → String
said answer = strip (text (or_value (get answer "commit_status") (get answer "status")))

abbrev pub named_paths : Fields → Value
named_paths answer = or_value (get answer "commit_paths") (get answer "changed_paths")

abbrev pub Failed : Fields → Type 0
Failed answer =
    (said answer ≡ "failed")
    ⊎ (said answer ≡ "no_repo")
    ⊎ (status_of answer ≡ "blocked")
    ⊎ (status_of answer ≡ "failed")

abbrev pub Succeeded : Fields → Type 0
Succeeded answer =
    (said answer ≢ "failed")
    × (said answer ≢ "no_repo")
    × (status_of answer ≢ "blocked")
    × (status_of answer ≢ "failed")

abbrev pub WasUncommitted : Task → Type 0
WasUncommitted task =
    (status_of task.request ≡ "uncommitted") ⊎ (status_of task.result ≡ "uncommitted")

-- Why a task gets a status: `inspected` are the changed paths of the working tree, and `paths` those
-- that the version controller names.
pub data Reason (task : Task) (inspection answer : Fields) (inspected paths : List String)
    : String → Type 0 where
  clean :
      get inspection "status" ≡ str "no_changes"
      → Reason task inspection answer inspected paths "completed"
  committed :
      get inspection "status" ≢ str "no_changes"
      → Succeeded answer
      → said answer ≡ "committed"
      → Reason task inspection answer inspected paths "committed"
  finished :
      get inspection "status" ≢ str "no_changes"
      → Succeeded answer
      → said answer ≢ "committed"
      → Reason task inspection answer inspected paths "completed"
  uncommitted :
      get inspection "status" ≢ str "no_changes"
      → Failed answer
      → (inspected ≢ []) ⊎ (paths ≢ []) ⊎ WasUncommitted task
      → Reason task inspection answer inspected paths "uncommitted"
  blocked :
      get inspection "status" ≢ str "no_changes"
      → Failed answer
      → inspected ≡ []
      → paths ≡ []
      → status_of task.request ≢ "uncommitted"
      → status_of task.result ≢ "uncommitted"
      → Reason task inspection answer inspected paths "blocked"

is_text-str : (v : Value) (s : String) → is_text v s ≡ true → v ≡ str s
is_text-str (str t) s h = ap str ((eq_iff t s).0 h)
is_text-str Value.null s h = absurd (ground (arith, h))
is_text-str Value.true_value s h = absurd (ground (arith, h))
is_text-str Value.false_value s h = absurd (ground (arith, h))
is_text-str (Value.num n) s h = absurd (ground (arith, h))
is_text-str (Value.list items) s h = absurd (ground (arith, h))
is_text-str (Value.dict d) s h = absurd (ground (arith, h))

is_text-other : (v : Value) (s : String) → is_text v s ≡ false → v ≢ str s
is_text-other v s h e = ground (arith, sym h ∙ ap (λ w. is_text w s) e ∙ eq_refl s)

same-text : (s t : String) → (s == t) ≡ true → s ≡ t
same-text s t h = (eq_iff s t).0 h

other-text : (s t : String) → (s == t) ≡ false → s ≢ t
other-text s t h e = ground (arith, eq_iff s t, h, e)

is_nil-empty : (xs : List String) → is_nil xs ≡ true → xs ≡ []
is_nil-empty [] h = refl
is_nil-empty (x ∷ xs) h = absurd (ground (arith, h))

full : (xs : List String) → is_nil xs ≡ false → xs ≢ []
full xs h e = ground (arith, sym h ∙ ap is_nil e)

abbrev left_of : Fields → List String → Left
left_of answer paths = record {
  status = said answer;
  sha = stripped_text answer "commit_sha";
  message = stripped_text answer "commit_message";
  error = stripped_text answer "error";
  paths = paths;
}

answered-left :
    (answer : Fields) (paths : List String)
    → cleaned (named_paths answer) ≡ ok paths
    → answered answer ≡ ok (left_of answer paths)
unfolding answered
answered-left answer paths h = ap (λ r. r >>= λ p. ok (left_of answer p)) h

has_failed-Failed :
    (answer : Fields) (paths : List String)
    → has_failed (left_of answer paths) answer ≡ true
    → Failed answer
has_failed-Failed answer paths h = elim (Bool-cases (said answer == "failed")) [
  | inl a ↦ inl (same-text _ _ a)
  | inr a ↦ elim (Bool-cases (said answer == "no_repo")) [
    | inl b ↦ inr (inl (same-text _ _ b))
    | inr b ↦ elim (Bool-cases (status_of answer == "blocked")) [
      | inl c ↦ inr (inr (inl (same-text _ _ c)))
      | inr c ↦ inr (inr (inr (same-text _ _ (ground (arith, h, a, b, c)))))
    ]
  ]
]

has_failed-Succeeded :
    (answer : Fields) (paths : List String)
    → has_failed (left_of answer paths) answer ≡ false
    → Succeeded answer
has_failed-Succeeded answer paths h = (
  other-text _ _ (ground (arith, h)),
  other-text _ _ (ground (arith, h)),
  other-text _ _ (ground (arith, h)),
  other-text _ _ (ground (arith, h)),
)

-- Where the commit failed, something is left to commit, or nothing is.
failed_status-Reason :
    (task : Task) (inspection answer : Fields) (inspected paths : List String)
    → get inspection "status" ≢ str "no_changes"
    → Failed answer
    → Reason task inspection answer inspected paths
        (failed_status (was_uncommitted task) inspected (left_of answer paths))
failed_status-Reason task inspection answer inspected paths changed failed =
    elim (Bool-cases (is_nil inspected)) [
      | inr some_inspected ↦
          rw some_inspected (uncommitted changed failed (inl (full inspected some_inspected)))
      | inl none_inspected ↦ elim (Bool-cases (is_nil paths)) [
        | inr some_paths ↦
            rw (none_inspected, some_paths)
              (uncommitted changed failed (inr (inl (full paths some_paths))))
        | inl no_paths ↦
            rw (none_inspected, no_paths)
              (if_cases (Reason task inspection answer inspected paths) (was_uncommitted task)
                (λ was. uncommitted changed failed (inr (inr (was_reason was))))
                (λ was_not.
                  blocked changed failed (is_nil-empty inspected none_inspected)
                    (is_nil-empty paths no_paths) (other-text _ _ (ground (arith, was_not)))
                    (other-text _ _ (ground (arith, was_not)))))
      ]
    ]
  where
    was_reason : was_uncommitted task ≡ true → WasUncommitted task
    was_reason was = elim (Bool-cases (status_of task.request == "uncommitted")) [
      | inl request ↦ inl (same-text _ _ request)
      | inr other ↦ inr (same-text _ _ (ground (arith, was, other)))
    ]

finished_status-Reason :
    (task : Task) (inspection answer : Fields) (inspected paths : List String)
    → get inspection "status" ≢ str "no_changes"
    → Succeeded answer
    → Reason task inspection answer inspected paths (finished_status (left_of answer paths))
finished_status-Reason task inspection answer inspected paths changed good =
    if_cases (Reason task inspection answer inspected paths) (said answer == "committed")
      (λ yes. committed changed good (same-text _ _ yes))
      (λ no. finished changed good (other-text _ _ no))

task_status-Reason :
    (task : Task) (inspection answer : Fields) (inspected paths : List String)
    → Reason task inspection answer inspected paths (
        task_status
          (is_text (get inspection "status") "no_changes")
          (was_uncommitted task)
          inspected
          (left_of answer paths)
          answer)
task_status-Reason task inspection answer inspected paths =
    let reason = Reason task inspection answer inspected paths in
    if_cases reason (is_text (get inspection "status") "no_changes")
      (λ same. clean (is_text-str (get inspection "status") "no_changes" same))
      (λ other.
        let changed = is_text-other (get inspection "status") "no_changes" other in
        if_cases reason (has_failed (left_of answer paths) answer)
          (λ bad.
            failed_status-Reason task inspection answer inspected paths changed
              (has_failed-Failed answer paths bad))
          (λ good.
            finished_status-Reason task inspection answer inspected paths changed
              (has_failed-Succeeded answer paths good)))

-- For a result that is completed or uncommitted, unless an exception is raised: the request and the
-- result get one status, and the request stores the result. It is completed where the working tree
-- has no changes. Else the commit failed if the version controller says `failed` or `no_repo` of it, or
-- is itself blocked or failed: the status is uncommitted if there are changed paths, in the working
-- tree or in the answer, or if the request or the result was uncommitted, and blocked if not. Where
-- it did not fail, the status is committed if the version controller says so, and else completed.
pub enforce_task_commit-HasStatus :
    (task : Task) (inspection answer : Fields) (inspected paths : List String)
    → member (status_of task.result) ("completed" ∷ "uncommitted" ∷ []) ≡ true
    → cleaned (get inspection "changed_paths") ≡ ok inspected
    → cleaned (named_paths answer) ≡ ok paths
    → (status : String) × Reason task inspection answer inspected paths status
      × OkIs (HasStatus status) (enforce_task_commit_for_completed_todo task inspection answer)
enforce_task_commit-HasStatus task inspection answer inspected paths due found named = (
  _,
  task_status-Reason task inspection answer inspected paths,
  enforce-HasStatus task inspection answer inspected (left_of answer paths) due found
      (answered-left answer paths named),
)
