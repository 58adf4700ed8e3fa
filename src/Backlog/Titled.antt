-- ===== src/Backlog/Titled.antt =====
-- workflows/state/backlog_store.py: the guard of `_normalize_candidate` against items without a title.
use sprint_runtime.Prelude.{
  ◌≡◌, refl, ap, ◌∙◌, arith, String, Bool, true, false, ◌==◌, Option, is_some, List, [], ◌∷◌,
  Bool-cases, inl, inr, if_both,
}
use sprint_runtime.Prelude.Text.{is_empty, strip}
use sprint_runtime.Prelude.Strip.{strip-strip}
use sprint_runtime.Prelude.Sorting.{Each}
use sprint_runtime.Prelude.Lists.{member}
use sprint_runtime.Python.{ℤ, pos, Value, str, list, dict, nil, Fields, get, put, of_list}
use sprint_runtime.Python.Laws.{get-put_other, OkIs, OkIs-bind}
use sprint_runtime.Python.Convert.{Result, ok, raise, ◌>>=◌, text, int_or}
use sprint_runtime.Python.Sequences.{or_value, iterate, clean_items}
use sprint_runtime.Backlog.Placed.{text-str}
use sprint_runtime.Backlog.Merge.{
  BacklogArguments, text_or, build_backlog_item, Candidate, explicit_names, text_fields,
  given_texts, given_inputs, finished, arguments_of, arguments_of_text, normalize_candidate,
}

-- The title is not blank.
abbrev IsTitled : Fields → Type 0
IsTitled item = is_empty (strip (text (get item "title"))) ≡ false

titled_or : (s : String) → is_empty (strip (text_or (strip s) "Untitled backlog item")) ≡ false
unfolding strip
titled_or s = elim (Bool-cases (is_empty (strip s))) [
  | inl blank ↦ rw blank refl
  | inr given ↦ rw given (ap is_empty (strip-strip s) ∙ given)
]

build-IsTitled :
    (a : BacklogArguments) (new_id now : String) → IsTitled (build_backlog_item a new_id now)
unfolding build_backlog_item get
build-IsTitled a new_id now =
    ap (λ t. is_empty (strip t)) (text-str (text_or (strip a.title) "Untitled backlog item"))
    ∙ titled_or a.title

put-IsTitled :
    (item : Fields) (name : String) (v : Value)
    → (name == "title") ≡ false
    → IsTitled item
    → IsTitled (put item name v)
put-IsTitled item name v other h =
    ap (λ t. is_empty (strip (text t))) (get-put_other item name "title" v other) ∙ h

given_texts-IsTitled :
    (names : List String) (raw : Fields) (explicit : List String) (item : Fields)
    → Each (λ name. (name == "title") ≡ false) names
    → IsTitled item
    → IsTitled (given_texts names raw explicit item)
unfolding given_texts
given_texts-IsTitled [] raw explicit item others h = h
given_texts-IsTitled (name ∷ names) raw explicit item (other, others) h =
    given_texts-IsTitled names raw explicit _ others (
      if_both IsTitled (member name explicit)
        (put-IsTitled item name (str (strip (text (get raw name)))) other h) h)

given_inputs-IsTitled :
    (raw : Fields) (explicit : List String) (item : Fields)
    → IsTitled item
    → OkIs IsTitled (given_inputs raw explicit item)
unfolding given_inputs
given_inputs-IsTitled raw explicit item h =
    if_both (OkIs IsTitled) (member "required_inputs" explicit)
      (by_inputs (iterate (or_value (get raw "required_inputs") (list nil)))) h
  where
    by_inputs :
        (r : Result (List Value))
        → OkIs IsTitled
            (r >>= λ inputs. ok (put item "required_inputs" (list (of_list (clean_items inputs)))))
    by_inputs (ok inputs) = put-IsTitled item "required_inputs" _ refl h
    by_inputs (raise e) = tt

finished-some :
    (digest : String → String) (explicit : List String) (item : Fields)
    → IsTitled item
    → is_some (finished digest explicit item) ≡ true
unfolding finished
finished-some digest explicit item h = rw h refl

-- A text or a dictionary.
abbrev pub is_item : Value → Bool
is_item (str s) = true
is_item (dict d) = true
is_item _ = false

-- No text and no dictionary is left out of the candidates, not even one without a title, unless an
-- exception is raised.
pub normalize_candidate-some :
    (digest : String → String) (raw : Value) (default_source request_id new_id now : String)
    → is_item raw ≡ true
    → OkIs
        (λ c. is_some c ≡ true)
        (normalize_candidate digest raw default_source request_id new_id now)
unfolding normalize_candidate
normalize_candidate-some digest (str s) default_source request_id new_id now h =
    finished-some digest []
      (build_backlog_item (arguments_of_text s default_source request_id) new_id now)
      (build-IsTitled (arguments_of_text s default_source request_id) new_id now)
normalize_candidate-some digest (dict raw) default_source request_id new_id now h =
    by_rank (int_or (get raw "priority_rank") (pos 0))
  where
    built : ℤ → Fields
    built rank = build_backlog_item (arguments_of raw default_source request_id rank) new_id now

    texts : ℤ → Fields
    texts rank = given_texts text_fields raw (explicit_names raw) (built rank)

    by_rank :
        (r : Result ℤ)
        → OkIs
            (λ (c : Option Candidate). is_some c ≡ true)
            (r >>= λ rank. given_inputs raw (explicit_names raw) (texts rank) >>= λ item.
              ok (finished digest (explicit_names raw) item))
    by_rank (raise e) = tt
    by_rank (ok rank) =
        OkIs-bind IsTitled (λ (c : Option Candidate). is_some c ≡ true)
          (given_inputs raw (explicit_names raw) (texts rank))
          (λ item. ok (finished digest (explicit_names raw) item))
          (given_inputs-IsTitled raw (explicit_names raw) (texts rank) (
            given_texts-IsTitled text_fields raw (explicit_names raw) (built rank)
              (refl, (refl, (refl, (refl, (refl, (refl, (refl, tt)))))))
              (build-IsTitled (arguments_of raw default_source request_id rank) new_id now)))
          (λ item t. finished-some digest (explicit_names raw) item t)
normalize_candidate-some digest _ default_source request_id new_id now h = absurd (ground arith)
