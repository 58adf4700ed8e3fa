-- ===== src/RoleResult/Dropped.antt =====
-- runtime/role_result_contract.py and workflows/orchestration/engine.py: unresolved items that are
-- given as a text.
use sprint_runtime.Prelude.{◌≡◌, refl, String, ◌==◌, List, [], ◌∷◌, ◌||◌, arith, eq_iff}
use sprint_runtime.Python.{Value, str, list, dict, nil, Fields, end, field, put}
use sprint_runtime.Python.Laws.{get-put_self, get-put}
use sprint_runtime.Python.Sequences.{has_key, clean_items}
use sprint_runtime.Workflow.Requested.{transition_of}
use sprint_runtime.RoleResult.{missing, transition_keys, transition_issues}

has_key-put :
    (d : Fields) (key other : String) (v : Value)
    → has_key (put d key v) other ≡ (key == other || has_key d other)
unfolding put
has_key-put end key other v = refl
has_key-put (field k w rest) key other v =
    ground (arith, has_key-put rest key other v, eq_iff k key, eq_iff k other, eq_iff key other)

missing-put :
    (keys : List String) (d : Fields) (key : String) (v w : Value)
    → missing keys (put d key v) ≡ missing keys (put d key w)
missing-put [] d key v w = refl
missing-put (k ∷ keys) d key v w =
    rw (has_key-put d key k v, has_key-put d key k w, missing-put keys d key v w) refl

-- A transition whose unresolved items are a text has the issues that it has with no items, and the
-- engine reads no items in it, whatever the text.
pub text_items-dropped :
    (t : Fields) (s : String)
    → (transition_issues (dict (put t "unresolved_items" (str s)))
        ≡ transition_issues (dict (put t "unresolved_items" (list nil))))
      × ((transition_of (dict (put t "unresolved_items" (str s)))).unresolved_items ≡ [])
unfolding transition_issues transition_of clean_items
text_items-dropped t s = (
  rw
      (
        missing-put transition_keys t "unresolved_items" (str s) (list nil),
        get-put t "unresolved_items" "reason" (str s),
        get-put t "unresolved_items" "reason" (list nil),
        get-put t "unresolved_items" "outcome" (str s),
        get-put t "unresolved_items" "outcome" (list nil),
        get-put t "unresolved_items" "finalize_phase" (str s),
        get-put t "unresolved_items" "finalize_phase" (list nil),
        get-put_self t "unresolved_items" (str s),
        get-put_self t "unresolved_items" (list nil),
      )
      refl,
  rw (get-put_self t "unresolved_items" (str s)) refl,
)
