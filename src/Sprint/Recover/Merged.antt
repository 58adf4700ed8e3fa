-- ===== src/Sprint/Recover/Merged.antt =====
-- workflows/sprints/lifecycle.py: the status and the identifiers of a todo that
-- `merge_recovered_sprint_todo` merged.
use sprint_runtime.Prelude.{
  ◌≡◌, refl, String, Bool, true, List, not, ◌&&◌, none, some, [], ◌∷◌, ◌∙◌, ap, arith,
  if◌then◌else◌, if_cases,
}
use sprint_runtime.Prelude.Text.{is_empty, strip}
use sprint_runtime.Python.{Value, Fields, get}
use sprint_runtime.Python.Convert.{Result, ok, ◌>>=◌, text}
use sprint_runtime.Python.Sequences.{or_value}
use sprint_runtime.Python.Laws.{OkIs, OkIs-bind, OkIs-any, OkIs-map, get-put_other}
use sprint_runtime.Sprint.{stripped_text}
use sprint_runtime.Sprint.Recover.{
  Clock, filled, for_each, ranked, with_criteria, taken_over, added_to, filled_fields,
  merge_recovered_sprint_todo, is_newer, comes_later, time_of, updated_at,
}
use sprint_runtime.Sprint.Recover.Kept.{
  Same, avoids, Besides, filled-Leaves, for_each-Same, ranked-Besides, with_criteria-Besides,
}
use sprint_runtime.Sprint.Recover.Decided.{Decided, SameIds, decided, taken_or_added-Decided}

abbrev first_fields : List String
first_fields = "request_id" ∷ "title" ∷ "milestone_title" ∷ "summary" ∷ []

abbrev first_four : Fields → Fields → Fields
first_four recovered d = for_each (filled recovered) d first_fields

blank-time_of :
    (clock : Clock) (v : Value) → is_empty (strip (text v)) ≡ true → time_of clock v ≡ none
unfolding time_of
blank-time_of clock v h = rw h refl

-- A blank value is not what a time was read from.
time_of-blank :
    (clock : Clock) (u e c c' : Value) (t : clock.Instant)
    → is_empty (strip (text c)) ≡ true
    → time_of clock (or_value u (or_value e c)) ≡ some t
    → time_of clock (or_value u (or_value e c')) ≡ some t
time_of-blank clock u e c c' t blank h = ground (arith, blank-time_of clock c blank)

filled-updated_at :
    (clock : Clock) (recovered d : Fields) (t : clock.Instant)
    → updated_at clock d ≡ some t
    → updated_at clock (filled recovered d "created_at") ≡ some t
unfolding updated_at filled
filled-updated_at clock recovered d t h =
    if_cases (λ e. updated_at clock e ≡ some t)
      (is_empty (stripped_text d "created_at")
        && not (is_empty (stripped_text recovered "created_at")))
      (λ blank.
        rw
          (
            get-put_other d "created_at" "updated_at" (get recovered "created_at") refl,
            get-put_other d "created_at" "ended_at" (get recovered "created_at") refl,
          )
          (time_of-blank clock (get d "updated_at") (get d "ended_at") (get d "created_at") _ t
            (ground arith) h))
      (λ _. h)

updated_at-Besides :
    (clock : Clock) (d e : Fields)
    → Same "updated_at" d e
    → Same "ended_at" d e
    → Same "created_at" d e
    → updated_at clock e ≡ updated_at clock d
unfolding updated_at
updated_at-Besides clock d e u n c = rw (u, n, c) refl

decided-Besides :
    (newer : Bool) (recovered d e : Fields)
    → Same "status" d e
    → decided newer recovered e ≡ decided newer recovered d
decided-Besides newer recovered d e h = rw h refl

-- The fields that are written before the decision.
abbrev written_first : List String
written_first =
    "request_id" ∷ "title" ∷ "milestone_title" ∷ "summary" ∷ "created_at" ∷ "priority_rank"
    ∷ "acceptance_criteria" ∷ []

-- What the decision is made on: only those fields differ, and the time is the same.
abbrev Prepared : Clock → Fields → Fields → Type 0
Prepared clock d e =
    Besides written_first d e
    × ((t : clock.Instant) → updated_at clock d ≡ some t → updated_at clock e ≡ some t)

filled_in-Prepared :
    (clock : Clock) (recovered d : Fields)
    → Prepared clock d (for_each (filled recovered) d filled_fields)
unfolding for_each
filled_in-Prepared clock recovered d = (
  λ f h.
      for_each-Same (filled recovered) (filled-Leaves recovered) f d filled_fields (ground arith),
  λ t h. filled-updated_at clock recovered (first_four recovered d) t (
      updated_at-Besides clock d (first_four recovered d) (same "updated_at" refl)
        (same "ended_at" refl) (same "created_at" refl)
      ∙ h),
)
  where
    same : (f : String) → avoids f first_fields ≡ true → Same f d (first_four recovered d)
    same f h = for_each-Same (filled recovered) (filled-Leaves recovered) f d first_fields h

prepared-Decided :
    (clock : Clock) (newer : Bool) (recovered d e out : Fields)
    → Besides written_first d e
    → Decided newer recovered e out
    → Decided newer recovered d out
prepared-Decided clock newer recovered d e out same h = (
  h.0 ∙ decided-Besides newer recovered d e (same "status" refl),
  (h.1.0 ∙ same "todo_id" refl, h.1.1 ∙ same "backlog_id" refl),
)

-- The steps before the decision.
through-Prepared :
    (clock : Clock) (recovered d : Fields) (rest : Fields → Result Fields) (Q : Fields → Type 0)
    → ((e : Fields) → Prepared clock d e → OkIs Q (rest e))
    → OkIs Q (
        ranked recovered (for_each (filled recovered) d filled_fields) >>= λ with_rank.
        with_criteria recovered with_rank >>= rest)
through-Prepared clock recovered d rest Q h =
    let whole = for_each (filled recovered) d filled_fields in
    let start = filled_in-Prepared clock recovered d in
    OkIs-bind (Besides ("priority_rank" ∷ []) whole) Q (ranked recovered whole) _
      (ranked-Besides recovered whole)
      (λ with_rank r.
        OkIs-bind (Besides ("acceptance_criteria" ∷ []) with_rank) Q
          (with_criteria recovered with_rank) rest (with_criteria-Besides recovered with_rank)
          (λ e c. h e (
            λ f a. c f (ground arith) ∙ r f (ground arith) ∙ start.0 f a,
            λ t known.
                updated_at-Besides clock with_rank e (c "updated_at" refl) (c "ended_at" refl)
                  (c "created_at" refl)
                ∙ updated_at-Besides clock whole with_rank (r "updated_at" refl) (r "ended_at" refl)
                    (r "created_at" refl)
                ∙ start.1 t known,
          )))

is_newer-known :
    (clock : Clock) (e recovered : Fields) (mine theirs : clock.Instant) (newer : Bool)
    → updated_at clock e ≡ some mine
    → updated_at clock recovered ≡ some theirs
    → clock.not_before theirs mine ≡ ok newer
    → is_newer clock e recovered ≡ ok newer
unfolding is_newer
is_newer-known clock e recovered mine theirs newer m r c =
    ap (λ t. comes_later clock t (updated_at clock e)) r
    ∙ ap (comes_later clock (some theirs)) m
    ∙ c

-- Where the times of both todos can be read and compared, a merge that raises no exception keeps the
-- identifiers of the todo. Its status is the recovered one where that is not older or is further
-- on in the order of the statuses, unless the recovered todo has none; else it stays.
pub merge_recovered-Decided :
    (clock : Clock) (existing recovered : Fields) (mine theirs : clock.Instant) (newer : Bool)
    → updated_at clock existing ≡ some mine
    → updated_at clock recovered ≡ some theirs
    → clock.not_before theirs mine ≡ ok newer
    → OkIs (Decided newer recovered existing) (merge_recovered_sprint_todo clock existing recovered)
unfolding merge_recovered_sprint_todo
merge_recovered-Decided clock existing recovered mine theirs newer m r c =
    through-Prepared clock recovered existing _ (Decided newer recovered existing) (λ e p.
      rw (is_newer-known clock e recovered mine theirs newer (p.1 mine m) r c) (
        OkIs-map (Decided newer recovered e) _
          (if newer then taken_over recovered e else added_to recovered e)
          (taken_or_added-Decided newer recovered e)
          (λ out h. prepared-Decided clock newer recovered existing e out p.0 h)))

-- However the merge decides, it keeps the identifiers.
pub merge_recovered-SameIds :
    (clock : Clock) (existing recovered : Fields)
    → OkIs (SameIds existing) (merge_recovered_sprint_todo clock existing recovered)
unfolding merge_recovered_sprint_todo
merge_recovered-SameIds clock existing recovered =
    through-Prepared clock recovered existing _ (SameIds existing) (λ e p.
      OkIs-bind {0, 0, 0, 0} (λ a. Unit) _ (is_newer clock e recovered) _
        (OkIs-any (is_newer clock e recovered))
        (λ newer _.
          OkIs-map (Decided newer recovered e) _
            (if newer then taken_over recovered e else added_to recovered e)
            (taken_or_added-Decided newer recovered e)
            (λ out h. (h.1.0 ∙ p.0 "todo_id" refl, h.1.1 ∙ p.0 "backlog_id" refl))))
