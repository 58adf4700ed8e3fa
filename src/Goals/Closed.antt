-- ===== src/Goals/Closed.antt =====
-- workflows/state/goal_store.py: the record of a goal that came to its end.
use sprint_runtime.Prelude.{◌≡◌, refl, ◌∙◌, String, false, ◌==◌}
use sprint_runtime.Python.{str, dict, Fields, put}
use sprint_runtime.Python.Laws.{is_end-put}
use sprint_runtime.Python.Sequences.{is_end}
use sprint_runtime.Goals.{GoalStatus, status_name, status_of, id_of}
use sprint_runtime.Goals.Sound.{status-put, status-put_status, id-put}
use sprint_runtime.Goals.Lifecycle.{closed}

-- The names of fields other than the status and the identifier.
abbrev pub IsOther : String → Type 0
IsOther key = ((key == "status") ≡ false) × ((key == "goal_id") ≡ false)

pub status-closed :
    (goal : Fields) (s : GoalStatus) (time_key evidence_key : String) (evidence : Fields)
    (now : String)
    → IsOther time_key
    → IsOther evidence_key
    → status_of (closed goal s time_key evidence_key evidence now) ≡ s
unfolding closed
status-closed goal s time_key evidence_key evidence now t e =
    status-put _ "updated_at" (str now) refl
    ∙ status-put _ evidence_key (dict evidence) e.0
    ∙ status-put _ time_key (str now) t.0
    ∙ status-put_status goal s

pub id-closed :
    (goal : Fields) (s : GoalStatus) (time_key evidence_key : String) (evidence : Fields)
    (now : String)
    → IsOther time_key
    → IsOther evidence_key
    → id_of (closed goal s time_key evidence_key evidence now) ≡ id_of goal
unfolding closed
id-closed goal s time_key evidence_key evidence now t e =
    id-put _ "updated_at" (str now) refl
    ∙ id-put _ evidence_key (dict evidence) e.1
    ∙ id-put _ time_key (str now) t.1
    ∙ id-put goal "status" _ refl

pub full-closed :
    (goal : Fields) (s : GoalStatus) (time_key evidence_key : String) (evidence : Fields)
    (now : String)
    → is_end (closed goal s time_key evidence_key evidence now) ≡ false
unfolding closed
full-closed goal s time_key evidence_key evidence now =
    is_end-put
      (put (put (put goal "status" (str (status_name s))) time_key (str now)) evidence_key
        (dict evidence))
      "updated_at" (str now)
