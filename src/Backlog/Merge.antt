-- ===== src/Backlog/Merge.antt =====
-- workflows/state/backlog_store.py: how a planner's payload is merged into the backlog. The digest
-- of a fingerprint and the new identifiers are given; an origin is a dictionary.
use sprint_runtime.Prelude.{
  String, Bool, true, false, not, ◌&&◌, ◌||◌, Option, none, some, List, [], ◌∷◌, ◌++◌, map,
  if◌then◌else◌,
}
use sprint_runtime.Prelude.Text.{is_empty, strip, has, join, split, normalized}
use sprint_runtime.Prelude.Lists.{any, member, is_nil}
use sprint_runtime.Python.{
  ℤ, pos, Value, true_value, false_value, num, str, list, dict, nil, Fields, end, field, get, put,
  of_list, fields_of, to_list,
}
use sprint_runtime.Python.Convert.{Result, ok, ◌>>=◌, truthy, text, tag, int_or}
use sprint_runtime.Python.Sequences.{or_value, iterate, has_key, clean_items}

-- `" ".join(str(value or "").strip().lower().split())`
abbrev pub collapsed : String → String
collapsed s = join " " (split (normalized s))

abbrev meta_markers : List String
meta_markers =
    "정리" ∷ "구체화" ∷ "반영" ∷ "동기화" ∷ "재구성" ∷ "업데이트" ∷ "개선" ∷ "prompt" ∷ "프롬프트" ∷ "문서" ∷ "라우팅"
    ∷ "회귀 테스트" ∷ "regression test" ∷ []

unfoldable pub looks_meta_backlog_title : String → Bool
unfolding join split normalized has
looks_meta_backlog_title value =
    not (is_empty (collapsed value)) && any (λ marker. has marker (collapsed value)) meta_markers

unfoldable pub build_backlog_fingerprint : (String → String) → String → String → String → String
unfolding join split normalized
build_backlog_fingerprint digest title scope kind =
    digest (join "|" (collapsed title ∷ collapsed scope ∷ normalized kind ∷ []))

-- `text or default`
abbrev pub text_or : String → String → String
text_or s default = if is_empty s then default else s

-- What `build_backlog_item` is called with.
pub record BacklogArguments : Type 0 where
  pub title : String
  pub summary : String
  pub kind : String
  pub source : String
  pub scope : String
  pub acceptance_criteria : List String
  pub origin : Fields
  pub backlog_id : String
  pub milestone_title : String
  pub priority_rank : ℤ
  pub planned_in_sprint_id : String
  pub added_during_active_sprint : Bool

abbrev pub flag : Bool → Value
flag true = true_value
flag false = false_value

unfoldable pub build_backlog_item : BacklogArguments → String → String → Fields
unfolding strip normalized clean_items
build_backlog_item a new_id now = field "backlog_id" (str (text_or a.backlog_id new_id)) (
    field "title" (str (text_or (strip a.title) "Untitled backlog item")) (
      field "summary" (str (strip a.summary)) (
        field "kind" (str (text_or (normalized (text_or a.kind "enhancement")) "enhancement")) (
          field "source" (str (text_or (normalized (text_or a.source "discovery")) "discovery")) (
            field "scope" (str (strip a.scope)) (
              field "acceptance_criteria"
                (list (of_list (clean_items (map str a.acceptance_criteria))))
                (field "milestone_title" (str (strip a.milestone_title)) (
                  field "priority_rank" (num a.priority_rank) (
                    field "planned_in_sprint_id" (str (strip a.planned_in_sprint_id)) (
                      field "added_during_active_sprint" (flag a.added_during_active_sprint) (
                        field "status" (str "pending") (
                          field "origin" (dict a.origin) (
                            field "created_at" (str now) (
                              field "updated_at" (str now) (
                                field "selected_in_sprint_id" (str "") (
                                  field "completed_in_sprint_id" (str "") (
                                    field "carry_over_of" (str "") (
                                      field "blocked_reason" (str "") (
                                        field "blocked_by_role" (str "") (
                                          field "required_inputs" (list nil) (
                                            field "recommended_next_step" (str "")
                                              end)))))))))))))))))))))

abbrev listed_items : Value → List Value
listed_items (list items) = to_list items
listed_items _ = []

abbrev single_item : Value → List Value
single_item (str s) = str s ∷ []
single_item (dict d) = dict d ∷ []
single_item _ = []

unfoldable pub extract_payload_items : Value → List Value
unfolding get
extract_payload_items (list items) = to_list items
extract_payload_items (dict payload) =
    let collected =
      listed_items (get payload "backlog_items") ++ single_item (get payload "backlog_item") in
    if not (is_nil collected)
    then collected
    else if has_key payload "title" || has_key payload "scope" || has_key payload "summary"
    then dict payload ∷ []
    else []
extract_payload_items _ = []

-- `normalize_backlog_acceptance_criteria`
unfoldable pub normalize_backlog_acceptance_criteria : Value → List String
unfolding clean_items strip
normalize_backlog_acceptance_criteria (list items) = clean_items (to_list items)
normalize_backlog_acceptance_criteria (str s) = if is_empty (strip s) then [] else strip s ∷ []
normalize_backlog_acceptance_criteria _ = []

-- An item, and the names of the fields that the planner gave.
pub record Candidate : Type 0 where
  pub item : Fields
  pub explicit : List String

abbrev pub explicit_names : Fields → List String
explicit_names end = []
explicit_names (field k v rest) = strip k ∷ explicit_names rest

-- The fields that are taken over as texts where they are given.
abbrev pub text_fields : List String
text_fields =
    "status" ∷ "selected_in_sprint_id" ∷ "completed_in_sprint_id" ∷ "carry_over_of"
    ∷ "blocked_reason" ∷ "blocked_by_role" ∷ "recommended_next_step" ∷ []

unfoldable pub given_texts : List String → Fields → List String → Fields → Fields
unfolding text strip get put
given_texts [] raw explicit item = item
given_texts (name ∷ names) raw explicit item =
    given_texts names raw explicit
      (if member name explicit then put item name (str (strip (text (get raw name)))) else item)

abbrev pub better_title : String → String → String → String
better_title title summary scope =
    if looks_meta_backlog_title title
      && not (is_empty summary)
      && not (looks_meta_backlog_title summary)
    then summary
    else if looks_meta_backlog_title title
        && not (is_empty scope)
        && not (looks_meta_backlog_title scope)
    then scope
    else title

abbrev pub with_request : String → Fields → Fields
with_request request_id origin =
    if not (is_empty request_id) && not (has_key origin "request_id")
    then put origin "request_id" (str request_id)
    else origin

-- The arguments that a dictionary stands for, with its rank as a number.
abbrev pub arguments_of : Fields → String → String → ℤ → BacklogArguments
arguments_of raw default_source request_id rank =
    let title =
      strip (text (or_value (get raw "title") (or_value (get raw "scope") (get raw "summary")))) in
    let scope = strip (text (or_value (get raw "scope") (str title))) in
    let summary = strip (text (or_value (get raw "summary") (or_value (str title) (str scope)))) in
    record {
      title = better_title title summary scope;
      summary = summary;
      kind = text_or (tag (or_value (get raw "kind") (str "enhancement"))) "enhancement";
      source = text_or (tag (or_value (get raw "source") (str default_source))) default_source;
      scope = scope;
      acceptance_criteria = normalize_backlog_acceptance_criteria (get raw "acceptance_criteria");
      origin = with_request request_id (fields_of (get raw "origin"));
      backlog_id = strip (text (get raw "backlog_id"));
      milestone_title = strip (text (get raw "milestone_title"));
      priority_rank = rank;
      planned_in_sprint_id = strip (text (get raw "planned_in_sprint_id"));
      added_during_active_sprint = truthy (get raw "added_during_active_sprint");
    }

-- `item["required_inputs"]`, where it is given.
unfoldable pub given_inputs : Fields → List String → Fields → Result Fields
unfolding iterate clean_items get put
given_inputs raw explicit item =
    if member "required_inputs" explicit
    then (iterate (or_value (get raw "required_inputs") (list nil)) >>= λ inputs.
        ok (put item "required_inputs" (list (of_list (clean_items inputs)))))
    else ok item

-- An item without a title is no candidate; the others get their fingerprint.
unfoldable pub finished : (String → String) → List String → Fields → Option Candidate
unfolding text strip build_backlog_fingerprint get put
finished digest explicit item =
    if is_empty (strip (text (get item "title")))
    then none
    else some (record {
      item = put item "fingerprint" (
          str (
            build_backlog_fingerprint digest (text (get item "title")) (text (get item "scope"))
              (text (get item "kind"))));
      explicit = explicit;
    })

abbrev pub arguments_of_text : String → String → String → BacklogArguments
arguments_of_text s default_source request_id = record {
  title = strip s;
  summary = strip s;
  kind = "enhancement";
  source = default_source;
  scope = strip s;
  acceptance_criteria = [];
  origin = if is_empty request_id then end else field "request_id" (str request_id) end;
  backlog_id = "";
  milestone_title = "";
  priority_rank = pos 0;
  planned_in_sprint_id = "";
  added_during_active_sprint = false;
}

unfoldable pub normalize_candidate :
    (String → String) → Value → String → String → String → String → Result (Option Candidate)
unfolding build_backlog_item given_texts given_inputs finished looks_meta_backlog_title
    normalize_backlog_acceptance_criteria text tag strip get put int_or
normalize_candidate digest (str s) default_source request_id new_id now = ok (
    finished digest []
      (build_backlog_item (arguments_of_text s default_source request_id) new_id now))
normalize_candidate digest (dict raw) default_source request_id new_id now =
    int_or (get raw "priority_rank") (pos 0) >>= λ rank.
    given_inputs raw (explicit_names raw) (
      given_texts text_fields raw (explicit_names raw)
        (build_backlog_item (arguments_of raw default_source request_id rank) new_id now))
    >>= λ item. ok (finished digest (explicit_names raw) item)
normalize_candidate digest _ default_source request_id new_id now = ok none
