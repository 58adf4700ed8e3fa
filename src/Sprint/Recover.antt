-- ===== src/Sprint/Recover.antt =====
-- workflows/sprints/lifecycle.py: a todo that is recovered from the record of its request, and the
-- todos of the sprint that it is merged into. `datetime.fromisoformat` and the order of the times
-- are given.
pub mod Known
pub mod Kept
pub mod Decided
pub mod Merged
pub mod Identities
pub mod Levels
use sprint_runtime.Prelude.{
  String, Bool, true, false, not, ◌&&◌, Option, none, some, List, [], ◌∷◌, if◌then◌else◌,
}
use sprint_runtime.Prelude.Text.{is_empty, strip}
use sprint_runtime.Prelude.Lists.{is_nil}
use sprint_runtime.Python.{ℤ, pos, Value, num, str, list, nil, Fields, get, put}
use sprint_runtime.Python.Convert.{Result, ok, ◌>>=◌, text, int_or}
use sprint_runtime.Python.Sequences.{or_value, iterate, values}
use sprint_runtime.Python.Integers.{is_zero, ltb_ℤ}
use sprint_runtime.Sprint.{stripped_text, todo_status_rank}
use sprint_runtime.Sprint.Todos.{texts}
use sprint_runtime.Sprint.Tasks.{collect_artifact_candidates}

-- Times as `datetime` reads them, and `a >= b`, which raises an exception where only one of the
-- two has a time zone.
pub record Clock : Type 1 where
  pub Instant : Type 0
  pub from_iso : String → Option Instant
  pub not_before : Instant → Instant → Result Bool

-- What is blank takes the recovered value.
unfoldable pub filled : Fields → Fields → String → Fields
filled recovered merged key =
    if is_empty (stripped_text merged key) && not (is_empty (stripped_text recovered key))
    then put merged key (get recovered key)
    else merged

-- A recovered value that is not blank is taken.
unfoldable pub overwritten : Fields → Fields → String → Fields
overwritten recovered merged key =
    if not (is_empty (stripped_text recovered key))
    then put merged key (get recovered key)
    else merged

-- One field after another.
unfoldable pub for_each : (Fields → String → Fields) → Fields → List String → Fields
for_each f merged [] = merged
for_each f merged (key ∷ keys) = for_each f (f merged key) keys

unfoldable pub ranked : Fields → Fields → Result Fields
unfolding int_or get put
ranked recovered merged = int_or (get merged "priority_rank") (pos 0) >>= λ mine.
    let other = int_or (get recovered "priority_rank") (pos 0) >>= λ theirs.
    ok (if is_zero theirs then merged else put merged "priority_rank" (num theirs)) in
    if is_zero mine then other else ok merged

-- `list(d.get(key) or [])`
abbrev pub listed : Fields → String → Result (List Value)
listed d key = iterate (or_value (get d key) (list nil))

unfoldable pub with_criteria : Fields → Fields → Result Fields
unfolding iterate get put
with_criteria recovered merged = listed merged "acceptance_criteria" >>= λ mine.
    let other = listed recovered "acceptance_criteria" >>= λ theirs.
    ok
      (if is_nil theirs then merged else put merged "acceptance_criteria" (list (values theirs))) in
    if is_nil mine then other else ok merged

-- `_parse_datetime_value(str(value or ""))`
unfoldable pub time_of : (clock : Clock) → Value → Option clock.Instant
time_of clock v = if is_empty (strip (text v)) then none else clock.from_iso (strip (text v))

-- When the todo was changed last, as far as its fields say.
unfoldable pub updated_at : (clock : Clock) → Fields → Option clock.Instant
updated_at clock d =
    time_of clock (or_value (get d "updated_at") (or_value (get d "ended_at") (get d "created_at")))

-- Whether the first time is known, and not before the second.
abbrev pub comes_later : (clock : Clock) → Option clock.Instant → Option clock.Instant → Result Bool
comes_later clock none mine = ok false
comes_later clock (some theirs) none = ok true
comes_later clock (some theirs) (some mine) = clock.not_before theirs mine

unfoldable pub is_newer : Clock → Fields → Fields → Result Bool
is_newer clock existing recovered =
    comes_later clock (updated_at clock recovered) (updated_at clock existing)

-- `recovered.get("status") or merged.get("status") or ""`
abbrev pub status_or : Fields → Fields → Value
status_or recovered merged =
    or_value (get recovered "status") (or_value (get merged "status") (str ""))

abbrev pub version_control_fields : List String
version_control_fields =
    "version_control_status" ∷ "version_control_message" ∷ "version_control_error" ∷ []

-- Where the recovered todo is newer, it decides.
unfoldable pub taken_over : Fields → Fields → Result Fields
unfolding get put iterate for_each overwritten
taken_over recovered merged =
    let told =
      for_each (overwritten recovered) (put merged "status" (status_or recovered merged))
        ("summary" ∷ "started_at" ∷ "ended_at" ∷ "updated_at" ∷ []) in
    listed recovered "artifacts" >>= λ artifacts.
    let noted =
      for_each (overwritten recovered) (put told "artifacts" (list (values artifacts)))
        version_control_fields in
    listed recovered "version_control_paths" >>= λ paths.
    ok (if is_nil paths then noted else put noted "version_control_paths" (list (values paths)))

abbrev pub rank_in : Fields → ℤ
rank_in d = todo_status_rank (text (get d "status"))

-- Whether the status of the recovered todo is further on.
unfoldable pub is_further : Fields → Fields → Bool
unfolding todo_status_rank text get
is_further recovered merged = ltb_ℤ (rank_in merged) (rank_in recovered)

-- The strings of both todos under the key.
unfoldable pub joined : Fields → Fields → String → Result Fields
unfolding get put collect_artifact_candidates
joined recovered d key =
    collect_artifact_candidates (get d key ∷ get recovered key ∷ []) >>= λ found.
    ok (put d key (texts found))

-- A status that is further on is taken, with what is said of it.
unfoldable pub advanced : Fields → Fields → Fields
unfolding get put for_each overwritten is_further
advanced recovered merged =
    if is_further recovered merged
    then for_each (overwritten recovered) (put merged "status" (status_or recovered merged))
        ("summary" ∷ "started_at" ∷ "ended_at" ∷ [])
    else merged

-- Where the recovered todo is not newer, it adds to the todo.
unfoldable pub added_to : Fields → Fields → Result Fields
unfolding for_each filled advanced joined
added_to recovered merged = joined recovered (advanced recovered merged) "artifacts" >>= λ noted.
    joined recovered (for_each (filled recovered) noted version_control_fields)
      "version_control_paths"

abbrev pub filled_fields : List String
filled_fields = "request_id" ∷ "title" ∷ "milestone_title" ∷ "summary" ∷ "created_at" ∷ []

unfoldable pub merge_recovered_sprint_todo : Clock → Fields → Fields → Result Fields
unfolding for_each filled ranked with_criteria is_newer taken_over added_to
merge_recovered_sprint_todo clock existing recovered =
    let whole = for_each (filled recovered) existing filled_fields in
    ranked recovered whole >>= λ with_rank. with_criteria recovered with_rank >>= λ merged.
    is_newer clock merged recovered >>= λ newer.
    let taken = taken_over recovered merged in
    let added = added_to recovered merged in if newer then taken else added
