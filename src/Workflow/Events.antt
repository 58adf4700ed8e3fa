-- ===== src/Workflow/Events.antt =====
-- workflows/state/request_store.py: `append_request_event`, and what the inference of a workflow
-- state in the engine makes of the events that it appends. The two times are given.
use mathlib.Core.Path.{subst}
use sprint_runtime.Prelude.{
  ◌≡◌, refl, sym, ap, ◌∙◌, arith, String, ◌==◌, false, List, [], ◌∷◌, ◌++◌, Bool-cases, inl, inr,
  if◌then◌else◌, eq_iff,
}
use sprint_runtime.Python.{
  Value, null, str, list, dict, Items, nil, cons, Fields, end, field, get, put, to_list,
}
use sprint_runtime.Prelude.Text.{lower}
use sprint_runtime.Python.Laws.{get-put_self, get-put_ne}
use sprint_runtime.Python.Convert.{Result, ok, raise, attribute_error, truthy, tag}
use sprint_runtime.Python.Sequences.{has_key, append_item}
use sprint_runtime.Workflow.Legacy.{
  no_reports, Reports, count_report, count_reports, event_list,
  infer_legacy_internal_workflow_state,
}

abbrev pub event_of : String → String → String → String → Value → Fields
event_of now event_type actor summary payload = field "timestamp" (str now) (
    field "type" (str event_type) (
      field "actor" (str actor) (
        field "summary" (str summary)
          (if truthy payload then field "payload" payload end else end))))

-- `request_record.setdefault("events", [])`
abbrev events_or_new : Fields → Value
events_or_new request = if has_key request "events" then get request "events" else list nil

abbrev with_event : Fields → Value → Fields → String → Result Fields
with_event request (list items) event later =
    ok (put (put request "events" (list (append_item items (dict event)))) "updated_at" (str later))
with_event request _ event later = raise attribute_error

unfoldable pub append_request_event :
    Fields → String → String → String → Value → String → String → Result Fields
unfolding append_item get put
append_request_event request event_type actor summary payload now later =
    with_event request (events_or_new request) (event_of now event_type actor summary payload) later

get-missing :
    (request : Fields) (key : String) → has_key request key ≡ false → get request key ≡ null
unfolding get
get-missing end key h = refl
get-missing (field k v rest) key h = ground (arith, get-missing rest key)

event_list-events_or_new :
    (request : Fields) → event_list (events_or_new request) ≡ event_list (get request "events")
event_list-events_or_new request = elim (Bool-cases (has_key request "events")) [
  | inl e ↦ rw e refl
  | inr e ↦ rw (e, get-missing request "events" e) refl
]

to_list-append_item :
    (items : Items) (v : Value) → to_list (append_item items v) ≡ to_list items ++ v ∷ []
unfolding append_item
to_list-append_item nil v = refl
to_list-append_item (cons w items) v = ap (λ xs. w ∷ xs) (to_list-append_item items v)

event_type-event_of :
    (now event_type actor summary : String) (payload : Value)
    → get (event_of now event_type actor summary payload) "event_type" ≡ null
unfolding get
event_type-event_of now event_type actor summary payload = elim (Bool-cases (truthy payload)) [
  | inl e ↦ rw e refl
  | inr e ↦ rw e refl
]

count_report-event_of :
    (now event_type actor summary : String) (payload : Value) (counts : Reports)
    → count_report (dict (event_of now event_type actor summary payload)) counts ≡ counts
unfolding count_report tag lower get
count_report-event_of now event_type actor summary payload counts =
    elim (Bool-cases (truthy payload)) [ inl e ↦ rw e refl | inr e ↦ rw e refl ]

count_reports-append :
    (events : List Value) (event : Value) (counts : Reports)
    → ((c : Reports) → count_report event c ≡ c)
    → count_reports (events ++ event ∷ []) counts ≡ count_reports events counts
unfolding count_reports
count_reports-append [] event counts h = h counts
count_reports-append (e ∷ events) event counts h =
    count_reports-append events event (count_report e counts) h

infer-ext :
    (r r' : Fields)
    → get r' "current_role" ≡ get r "current_role"
    → get r' "next_role" ≡ get r "next_role"
    → get r' "owner_role" ≡ get r "owner_role"
    → count_reports (event_list (get r' "events")) no_reports
      ≡ count_reports (event_list (get r "events")) no_reports
    → infer_legacy_internal_workflow_state r' ≡ infer_legacy_internal_workflow_state r
unfolding infer_legacy_internal_workflow_state
infer-ext r r' current next owner events = rw (current, next, owner, events) refl

abbrev stored : Fields → Items → Value → String → Fields
stored request items event later =
    put (put request "events" (list (append_item items event))) "updated_at" (str later)

get-stored :
    (request : Fields) (items : Items) (event : Value) (later key : String)
    → ("updated_at" == key) ≡ false
    → ("events" == key) ≡ false
    → get (stored request items event later) key ≡ get request key
get-stored request items event later key h k =
    get-put_ne _ "updated_at" key (str later) (λ e. ground (arith, eq_iff "updated_at" key))
    ∙ get-put_ne request "events" key _ (λ e. ground (arith, eq_iff "events" key))

stored-events :
    (request : Fields) (items : Items) (event : Value) (later : String)
    → get (stored request items event later) "events" ≡ list (append_item items event)
stored-events request items event later =
    get-put_ne _ "updated_at" "events" (str later)
      (λ e. ground (arith, eq_iff "updated_at" "events"))
    ∙ get-put_self request "events" _

stored-infers :
    (request : Fields) (items : Items) (event : Value) (later : String)
    → event_list (get request "events") ≡ to_list items
    → ((c : Reports) → count_report event c ≡ c)
    → infer_legacy_internal_workflow_state (stored request items event later)
      ≡ infer_legacy_internal_workflow_state request
stored-infers request items event later e h =
    infer-ext request (stored request items event later)
      (get-stored request items event later "current_role" refl refl)
      (get-stored request items event later "next_role" refl refl)
      (get-stored request items event later "owner_role" refl refl)
      (ap (λ v. count_reports (event_list v) no_reports) (stored-events request items event later)
        ∙ ap (λ xs. count_reports xs no_reports) (to_list-append_item items event)
        ∙ count_reports-append (to_list items) event no_reports h
        ∙ ap (λ xs. count_reports xs no_reports) (sym e))

abbrev Infers : Fields → Result Fields → Type 0
Infers request (ok request') =
    infer_legacy_internal_workflow_state request' ≡ infer_legacy_internal_workflow_state request
Infers request (raise _) = Unit

with_event-Infers :
    (request : Fields) (events : Value) (event : Fields) (later : String)
    → event_list (get request "events") ≡ event_list events
    → ((c : Reports) → count_report (dict event) c ≡ c)
    → Infers request (with_event request events event later)
with_event-Infers request (list items) event later e h =
    stored-infers request items (dict event) later e h
with_event-Infers request _ event later e h = tt

-- Where an event of whatever type and actor is appended to a request, the workflow state that is
-- inferred for the request stays the same.
pub append_request_event-infers :
    (request : Fields) (event_type actor summary : String) (payload : Value) (now later : String)
    {request' : Fields}
    → append_request_event request event_type actor summary payload now later ≡ ok request'
    → infer_legacy_internal_workflow_state request' ≡ infer_legacy_internal_workflow_state request
unfolding append_request_event
append_request_event-infers request event_type actor summary payload now later e =
    subst (Infers request) e (
      with_event-Infers request (events_or_new request)
        (event_of now event_type actor summary payload) later
        (sym (event_list-events_or_new request))
        (count_report-event_of now event_type actor summary payload))
