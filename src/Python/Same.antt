-- ===== src/Python/Same.antt =====
-- `a == b` on values: texts, lists and None by what they hold, dictionaries without the order of
-- their keys, and booleans as the numbers 1 and 0.
use sprint_runtime.Prelude.{ℕ, suc, Bool, true, false, ◌&&◌, ◌==◌, Option, none, some, eqb}
use sprint_runtime.Python.{
  ℤ, pos, negsuc, Value, null, true_value, false_value, num, str, list, dict, Items, nil, cons,
  Fields, end, field, get,
}
use sprint_runtime.Python.Sequences.{has_key}

number_of : Value → Option ℤ
number_of true_value = some (pos 1)
number_of false_value = some (pos 0)
number_of (num n) = some n
number_of _ = none

same_number : Option ℤ → Option ℤ → Bool
same_number (some (pos a)) (some (pos b)) = eqb a b
same_number (some (negsuc a)) (some (negsuc b)) = eqb a b
same_number _ _ = false

count : Fields → ℕ
count end = 0
count (field k v rest) = suc (count rest)

mutual
  unfolding number_of same_number count get

  same : Value → Value → Bool
  same null null = true
  same (str a) (str b) = a == b
  same (list a) (list b) = same_items a b
  same (dict a) (dict b) = eqb (count a) (count b) && found_in a b
  same a b = same_number (number_of a) (number_of b)

  same_items : Items → Items → Bool
  same_items nil nil = true
  same_items (cons v a) (cons w b) = same v w && same_items a b
  same_items _ _ = false

  found_in : Fields → Fields → Bool
  found_in end b = true
  found_in (field k v rest) b = has_key b k && same v (get b k) && found_in rest b

unfoldable pub same_dict : Fields → Fields → Bool
unfolding count found_in
same_dict a b = eqb (count a) (count b) && found_in a b
