-- ===== src/Python.antt =====
-- The values that the program reads from JSON and YAML: dictionaries with text keys, lists, texts,
-- whole numbers, booleans and None. Floats do not occur in the records that the model reads.
pub mod Render
pub mod Convert
pub mod Laws
pub mod Integers
pub mod Sequences
pub mod Same
use sprint_runtime.Prelude.{ℕ, suc, String, ◌==◌, List, [], ◌∷◌, if◌then◌else◌}

-- `negsuc n` is -(n + 1).
pub data ℤ : Type 0 where
  pos : ℕ → ℤ
  negsuc : ℕ → ℤ

mutual
  pub data Value : Type 0 where
    null : Value
    true_value : Value
    false_value : Value
    num : ℤ → Value
    str : String → Value
    list : Items → Value
    dict : Fields → Value

  pub data Items : Type 0 where
    nil : Items
    cons : Value → Items → Items

  pub data Fields : Type 0 where
    end : Fields
    field : String → Value → Fields → Fields

-- `d.get(key)`: None for a missing key.
unfoldable pub get : Fields → String → Value
get end key = null
get (field k v rest) key = if k == key then v else get rest key

-- `d[key] = value`
unfoldable pub put : Fields → String → Value → Fields
put end key value = field key value end
put (field k v rest) key value =
    if k == key then field k value rest else field k v (put rest key value)

-- `d` where it is a dictionary, and the empty one where it is not.
abbrev pub fields_of : Value → Fields
fields_of (dict fields) = fields
fields_of _ = end

abbrev pub to_list : Items → List Value
to_list nil = []
to_list (cons v items) = v ∷ to_list items

abbrev pub of_list : List String → Items
of_list [] = nil
of_list (s ∷ rest) = cons (str s) (of_list rest)
