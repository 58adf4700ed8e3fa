-- ===== src/Backlog/Placed.antt =====
-- workflows/state/backlog_store.py: the status of an item and the sprints that go with it.
use sprint_runtime.Prelude.{
  ◌≡◌, refl, ap, ◌∙◌, String, false, not, ◌||◌, ◌==◌, Bool-cases, inl, inr, eq_iff,
}
use sprint_runtime.Prelude.Text.{is_empty, strip}
use sprint_runtime.Python.{str, list, nil, Fields, get}
use sprint_runtime.Python.Laws.{get-put_other, get-put_self, get-put, OkIs, OkIs-bind, OkIs-any}
use sprint_runtime.Python.Convert.{ok, text, tag}
use sprint_runtime.Backlog.{
  Desired, selected, done, desired_name, clear_backlog_blockers, field_text, has_no_blockers,
  Change, set_text, without_blockers, fill_text, set_status,
}

-- The sprints that an item is selected and completed in, by the status.
abbrev pub selected_in : Desired → String → String
selected_in selected sprint_id = sprint_id
selected_in done sprint_id = sprint_id
selected_in _ sprint_id = ""

abbrev pub completed_in : Desired → String → String
completed_in done sprint_id = sprint_id
completed_in _ sprint_id = ""

-- The item has the status, and the sprints that go with it.
abbrev pub IsIn : Desired → String → Fields → Type 0
IsIn desired sprint_id item =
    (tag (get item "status") ≡ desired_name desired)
    × (field_text item "selected_in_sprint_id" ≡ selected_in desired sprint_id)
    × (field_text item "completed_in_sprint_id" ≡ completed_in desired sprint_id)

pub text-str : (s : String) → text (str s) ≡ s
unfolding text
text-str String.[] = refl
text-str (String.◌∷◌ c s) = refl

pub set_text_self :
    (key value : String) (change : Change)
    → strip value ≡ value
    → field_text (set_text key value change).0 key ≡ value
unfolding set_text
set_text_self key value (item, changed) h = elim (Bool-cases (field_text item key == value)) [
  | inl e ↦ rw e ((eq_iff (field_text item key) value).0 e)
  | inr e ↦
      rw e (
        ap (λ v. strip (text v)) (get-put_self item key (str value))
        ∙ ap strip (text-str value)
        ∙ h)
]

pub set_text-other :
    (key other value : String) (change : Change)
    → (key == other) ≡ false
    → get (set_text key value change).0 other ≡ get change.0 other
unfolding set_text
set_text-other key other value (item, changed) h =
    elim (Bool-cases (field_text item key == value)) [
      | inl e ↦ rw e refl
      | inr e ↦ rw e (get-put item key other (str value) ∙ rw h refl)
    ]

pub fill_text-other :
    (key other value : String) (change : Change)
    → (key == other) ≡ false
    → get (fill_text key value change).0 other ≡ get change.0 other
unfolding fill_text
fill_text-other key other value (item, changed) h =
    elim (Bool-cases (is_empty (field_text item key))) [
      | inl e ↦ rw e (get-put item key other (str value) ∙ rw h refl)
      | inr e ↦ rw e refl
    ]

pub clear-other :
    (item : Fields) (other : String)
    → ("blocked_reason" == other) ≡ false
    → ("blocked_by_role" == other) ≡ false
    → ("required_inputs" == other) ≡ false
    → ("recommended_next_step" == other) ≡ false
    → get (clear_backlog_blockers item) other ≡ get item other
unfolding clear_backlog_blockers
clear-other item other a b c d =
    get-put_other _ "recommended_next_step" other (str "") d
    ∙ get-put_other _ "required_inputs" other (list nil) c
    ∙ get-put_other _ "blocked_by_role" other (str "") b
    ∙ get-put_other item "blocked_reason" other (str "") a

pub set_status-status :
    (status : String) (item : Fields)
    → tag (str status) ≡ status
    → tag (get (set_status status item).0 "status") ≡ status
unfolding set_status
set_status-status status item h = elim (Bool-cases (tag (get item "status") == status)) [
  | inl e ↦ rw e ((eq_iff (tag (get item "status")) status).0 e)
  | inr e ↦ rw e (ap tag (get-put_self item "status" (str status)) ∙ h)
]

-- The status, and then the two sprints.
abbrev pub placed : String → String → String → Fields → Change
placed status selected_id completed_id item =
    set_text "completed_in_sprint_id" completed_id
      (set_text "selected_in_sprint_id" selected_id (set_status status item))

pub IsIn-placed :
    (desired : Desired) (sprint_id : String) (item : Fields)
    → tag (str (desired_name desired)) ≡ desired_name desired
    → strip (selected_in desired sprint_id) ≡ selected_in desired sprint_id
    → strip (completed_in desired sprint_id) ≡ completed_in desired sprint_id
    → IsIn desired sprint_id
        (placed
          (desired_name desired)
          (selected_in desired sprint_id)
          (completed_in desired sprint_id)
          item).0
IsIn-placed desired sprint_id item h s c =
    let status = set_status (desired_name desired) item in
    let chosen = set_text "selected_in_sprint_id" (selected_in desired sprint_id) status in
    (
      ap tag (
            set_text-other "completed_in_sprint_id" "status" (completed_in desired sprint_id) chosen
              refl
            ∙ set_text-other "selected_in_sprint_id" "status" (selected_in desired sprint_id) status
                refl)
          ∙ set_status-status (desired_name desired) item h,
      ap (λ v. strip (text v))
            (set_text-other "completed_in_sprint_id" "selected_in_sprint_id"
              (completed_in desired sprint_id) chosen refl)
          ∙ set_text_self "selected_in_sprint_id" (selected_in desired sprint_id) status s,
      set_text_self "completed_in_sprint_id" (completed_in desired sprint_id) chosen c,
    )

-- The three fields are the same.
abbrev pub Agrees : Fields → Fields → Type 0
Agrees item item' =
    (get item' "status" ≡ get item "status")
    × (get item' "selected_in_sprint_id" ≡ get item "selected_in_sprint_id")
    × (get item' "completed_in_sprint_id" ≡ get item "completed_in_sprint_id")

pub IsIn-Agrees :
    (desired : Desired) (sprint_id : String) (item item' : Fields)
    → Agrees item item'
    → IsIn desired sprint_id item
    → IsIn desired sprint_id item'
IsIn-Agrees desired sprint_id item item' (a, b, c) (x, y, z) =
    (ap tag a ∙ x, ap (λ v. strip (text v)) b ∙ y, ap (λ v. strip (text v)) c ∙ z)

pub without_blockers-IsIn :
    (desired : Desired) (sprint_id : String) (change : Change)
    → IsIn desired sprint_id change.0
    → OkIs (λ (after : Change). IsIn desired sprint_id after.0) (without_blockers change)
unfolding without_blockers
without_blockers-IsIn desired sprint_id (item, changed) h =
    OkIs-bind (λ clear. Unit) (λ (after : Change). IsIn desired sprint_id after.0)
      (has_no_blockers item) (λ clear. ok (clear_backlog_blockers item, changed || not clear))
      (OkIs-any (has_no_blockers item))
      (λ clear u.
        IsIn-Agrees desired sprint_id item (clear_backlog_blockers item)
          (
            clear-other item "status" refl refl refl refl,
            clear-other item "selected_in_sprint_id" refl refl refl refl,
            clear-other item "completed_in_sprint_id" refl refl refl refl,
          )
          h)
