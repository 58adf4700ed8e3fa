-- ===== src/Python/Laws.antt =====
-- Reading back what was written to a dictionary.
use sprint_runtime.Prelude.{
  ◌≡◌, ◌≢◌, refl, String, ◌==◌, false, arith, eq_iff, eq_refl, if◌then◌else◌, if_both,
}
use sprint_runtime.Python.Convert.{Result, ok, raise, ◌>>=◌}
use sprint_runtime.Python.Sequences.{is_end}
use sprint_runtime.Python.{Value, Fields, end, field, get, put}

pub get-put_self : (raw : Fields) (key : String) (v : Value) → get (put raw key v) key ≡ v
unfolding get put
get-put_self end key v = rw (eq_refl key)
get-put_self (field k w rest) key v = ground (arith, get-put_self rest key v, eq_iff k key)

pub get-put_ne :
    (raw : Fields) (key other : String) (v : Value)
    → key ≢ other
    → get (put raw key v) other ≡ get raw other
unfolding get put
get-put_ne end key other v h = ground (arith, eq_iff key other)
get-put_ne (field k w rest) key other v h =
    ground (arith, get-put_ne rest key other v h, eq_iff k key, eq_iff k other, eq_iff key other)

pub get-put :
    (raw : Fields) (key other : String) (v : Value)
    → get (put raw key v) other ≡ (if key == other then v else get raw other)
unfolding get put
get-put end key other v = refl
get-put (field k w rest) key other v =
    ground (arith, get-put rest key other v, eq_iff k key, eq_iff k other, eq_iff key other)

-- A dictionary that was written to is not empty.
pub is_end-put : (raw : Fields) (key : String) (v : Value) → is_end (put raw key v) ≡ false
unfolding put
is_end-put end key v = refl
is_end-put (field k w rest) key v = if_both (λ d. is_end d ≡ false) (k == key) refl refl

-- What a result has, if there is one.
abbrev pub OkIs {ℓ κ} : {A : Type ℓ} → (A → Type κ) → Result A → Type κ
OkIs P (ok a) = P a
OkIs P (raise e) = Unit

pub OkIs-bind {ℓ ℓ' κ κ'} :
    {A : Type ℓ} {B : Type ℓ'} (P : A → Type κ) (Q : B → Type κ') (r : Result A) (f : A → Result B)
    → OkIs P r
    → ((a : A) → P a → OkIs Q (f a))
    → OkIs Q (r >>= f)
OkIs-bind P Q (ok a) f h g = g a h
OkIs-bind P Q (raise e) f h g = tt

pub OkIs-map {ℓ κ κ'} :
    {A : Type ℓ} (P : A → Type κ) (Q : A → Type κ') (r : Result A)
    → OkIs P r
    → ((a : A) → P a → Q a)
    → OkIs Q r
OkIs-map P Q (ok a) h g = g a h
OkIs-map P Q (raise e) h g = tt

pub OkIs-any {ℓ} : {A : Type ℓ} (r : Result A) → OkIs {ℓ, 0} (λ a. Unit) r
OkIs-any (ok a) = tt
OkIs-any (raise e) = tt

pub get-put_other :
    (raw : Fields) (key other : String) (v : Value)
    → (key == other) ≡ false
    → get (put raw key v) other ≡ get raw other
get-put_other raw key other v h = rw (get-put raw key other v) (rw h refl)
