-- ===== src/Python/Sequences.antt =====
-- Lists and dictionaries as the program reads and extends them: `in`, `or`, `append`, `for`.
use sprint_runtime.Prelude.{
  String, Bool, true, false, not, ◌||◌, ◌==◌, List, [], ◌∷◌, map, if◌then◌else◌,
}
use sprint_runtime.Prelude.Text.{is_empty, strip}
use sprint_runtime.Prelude.Lists.{keep}
use sprint_runtime.Python.{Value, str, list, dict, Items, nil, cons, Fields, end, field, to_list}
use sprint_runtime.Python.Convert.{Result, ok, raise, type_error, truthy}
use sprint_runtime.Python.Render.{to_str}

-- `key in d`
abbrev pub has_key : Fields → String → Bool
has_key end key = false
has_key (field k v rest) key = k == key || has_key rest key

-- `not d`
abbrev pub is_end : Fields → Bool
is_end end = true
is_end (field k v rest) = false

-- `items.append(v)`
unfoldable pub append_item : Items → Value → Items
append_item nil v = cons v nil
append_item (cons w items) v = cons w (append_item items v)

-- `a or b`
abbrev pub or_value : Value → Value → Value
or_value a b = if truthy a then a else b

abbrev pub values : List Value → Items
values [] = nil
values (v ∷ vs) = cons v (values vs)

-- `[dict(item) for item in items if isinstance(item, dict)]`
abbrev pub dicts : List Value → List Fields
dicts [] = []
dicts (dict d ∷ vs) = d ∷ dicts vs
dicts (_ ∷ vs) = dicts vs

characters : String → List Value
characters String.[] = []
characters (String.◌∷◌ c s) = str (String.◌∷◌ c "") ∷ characters s

keys : Fields → List Value
keys end = []
keys (field k v rest) = str k ∷ keys rest

-- What `for item in value` runs through.
unfoldable pub iterate : Value → Result (List Value)
unfolding characters keys
iterate (str s) = ok (characters s)
iterate (list items) = ok (to_list items)
iterate (dict d) = ok (keys d)
iterate _ = raise type_error

-- `[str(item).strip() for item in items if str(item).strip()]`
unfoldable pub clean_items : List Value → List String
unfolding to_str strip
clean_items items = keep (λ s. not (is_empty s)) (map (λ v. strip (to_str v)) items)
