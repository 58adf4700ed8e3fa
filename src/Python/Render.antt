-- ===== src/Python/Render.antt =====
-- `str(value)`: the text of a number, and the `repr` of what stands inside a list or a dictionary.
-- Of the characters that `repr` escapes, those below U+0020 and U+007F are escaped.
use Prim.Native.Nat.{◌/◌, ◌%◌}
use Prim.Native.Char.{Char, code, nul}
use sprint_runtime.Prelude.{ℕ, zero, suc, String, ◌<>◌, not, ◌&&◌, ◌||◌, ltb, eqb, if◌then◌else◌}
use sprint_runtime.Prelude.Text.{has, char_or}
use sprint_runtime.Python.{
  ℤ, pos, negsuc, Value, null, true_value, false_value, num, str, list, dict,
}
use sprint_runtime.Python.{Items, nil, cons, Fields, end, field}

abbrev digit : ℕ → String
digit n = String.◌∷◌ (char_or "0123456789abcdef" n (char_or "?" 0 nul)) ""

-- The decimal digits of `n`, in front of `acc`. As much fuel as `n + 1` is enough.
decimal_from : ℕ → ℕ → String → String
decimal_from zero n acc = acc
decimal_from (suc fuel) n acc =
    let rest = decimal_from fuel (n / 10) (digit (n % 10) <> acc) in
    if ltb n 10 then digit n <> acc else rest

unfoldable pub decimal : ℕ → String
unfolding decimal_from
decimal n = decimal_from (suc n) n ""

abbrev integer : ℤ → String
integer (pos n) = decimal n
integer (negsuc n) = "-" <> decimal (suc n)

escaped : String → Char → String
escaped quote c =
    if eqb (code c) 92
    then "\\\\"
    else if has (String.◌∷◌ c "") quote
    then "\\" <> String.◌∷◌ c ""
    else if eqb (code c) 10
    then "\\n"
    else if eqb (code c) 13
    then "\\r"
    else if eqb (code c) 9
    then "\\t"
    else if ltb (code c) 32 || eqb (code c) 127
    then "\\x" <> digit (code c / 16) <> digit (code c % 16)
    else String.◌∷◌ c ""

escape_all : String → String → String
unfolding escaped
escape_all quote String.[] = ""
escape_all quote (String.◌∷◌ c s) = escaped quote c <> escape_all quote s

quoted : String → String
unfolding escape_all
quoted s =
    let quote = if has "'" s && not (has "\"" s) then "\"" else "'" in
    quote <> escape_all quote s <> quote

unfoldable mutual
  unfolding quoted decimal

  pub repr : Value → String
  repr null = "None"
  repr true_value = "True"
  repr false_value = "False"
  repr (num n) = integer n
  repr (str s) = quoted s
  repr (list items) = "[" <> repr_items items <> "]"
  repr (dict fields) = "{" <> repr_fields fields <> "}"

  repr_items : Items → String
  repr_items nil = ""
  repr_items (cons v nil) = repr v
  repr_items (cons v (cons w rest)) = repr v <> ", " <> repr_items (cons w rest)

  repr_fields : Fields → String
  repr_fields end = ""
  repr_fields (field k v end) = quoted k <> ": " <> repr v
  repr_fields (field k v (field j w rest)) =
      quoted k <> ": " <> repr v <> ", " <> repr_fields (field j w rest)

-- `str(value)`
unfoldable pub to_str : Value → String
unfolding repr
to_str (str s) = s
to_str v = repr v
