-- ===== src/Python/Convert.antt =====
-- Truth, `str(value or "")`, `int(value or d)` and `max` as the program applies them to raw values.
use Prim.Native.Char.{Char, code}
use sprint_runtime.Prelude.{
  ℕ, zero, suc, ◌+◌, ◌-◌, ◌*◌, String, Bool, true, false, not, ◌&&◌, Option, none, some, leb, eqb,
  if◌then◌else◌,
}
use sprint_runtime.Prelude.Text.{is_empty, strip, normalized}
use sprint_runtime.Python.{
  ℤ, pos, negsuc, Value, null, true_value, false_value, num, str, list, dict,
}
use sprint_runtime.Python.{nil, end}
use sprint_runtime.Python.Render.{to_str}

-- An exception that leaves the function.
pub data Exception : Type 0 where
  type_error value_error attribute_error : Exception

pub data Result {ℓ} (A : Type ℓ) : Type ℓ where
  ok : A → Result A
  raise : Exception → Result A

infixl 5 ◌>>=◌
abbrev pub ◌>>=◌ {ℓ κ} : {A : Type ℓ} {B : Type κ} → Result A → (A → Result B) → Result B
ok a >>= f = f a
raise e >>= f = raise e

abbrev pub truthy : Value → Bool
truthy null = false
truthy true_value = true
truthy false_value = false
truthy (num (pos zero)) = false
truthy (num (pos (suc _))) = true
truthy (num (negsuc _)) = true
truthy (str s) = not (is_empty s)
truthy (list nil) = false
truthy (list _) = true
truthy (dict end) = false
truthy (dict _) = true

-- `str(value or "")`
unfoldable pub text : Value → String
unfolding to_str
text v = if truthy v then to_str v else ""

-- `str(value or "").strip().lower()`
unfoldable pub tag : Value → String
unfolding text normalized
tag v = normalized (text v)

-- One character of a decimal: the number so far, and whether a digit came last.
digit_step : ℕ → Bool → Char → Option (ℕ × Bool)
digit_step acc digit c =
    if leb 48 (code c) && leb (code c) 57
    then some (acc * 10 + (code c - 48), true)
    else if eqb (code c) 95 && digit
    then some (acc, false)
    else none

digits_from : ℕ → Bool → String → Option ℕ
unfolding digit_step
digits_from acc digit String.[] = if digit then some acc else none
digits_from acc digit (String.◌∷◌ c s) = elim (digit_step acc digit c) [
  | none ↦ none
  | some (acc', digit') ↦ digits_from acc' digit' s
]

negated : ℕ → ℤ
negated zero = pos zero
negated (suc n) = negsuc n

signed : String → Option ℤ
unfolding digits_from negated
signed String.[] = none
signed (String.◌∷◌ c s) =
    if eqb (code c) 45
    then elim (digits_from 0 false s) [ none ↦ none | some n ↦ some (negated n) ]
    else if eqb (code c) 43
    then elim (digits_from 0 false s) [ none ↦ none | some n ↦ some (pos n) ]
    else elim (digits_from 0 false (String.◌∷◌ c s)) [ none ↦ none | some n ↦ some (pos n) ]

-- `int(value)`
unfoldable pub to_int : Value → Result ℤ
unfolding signed strip
to_int null = raise type_error
to_int true_value = ok (pos 1)
to_int false_value = ok (pos 0)
to_int (num n) = ok n
to_int (str s) = elim (signed (strip s)) [ none ↦ raise value_error | some n ↦ ok n ]
to_int (list _) = raise type_error
to_int (dict _) = raise type_error

-- `int(value or default)`
unfoldable pub int_or : Value → ℤ → Result ℤ
unfolding to_int
int_or v default = if truthy v then to_int v else ok default

-- `max(0, n)` and `max(1, n)`
abbrev pub at_least_zero : ℤ → ℕ
at_least_zero (pos n) = n
at_least_zero (negsuc _) = 0

abbrev pub at_least_one : ℤ → ℕ
at_least_one (pos zero) = 1
at_least_one (pos (suc n)) = suc n
at_least_one (negsuc _) = 1
