-- ===== src/Prelude/Order.antt =====
-- Strict orders as Boolean tests, as Python compares tuples and texts.
use Prim.Native.Char.{code}
use Prim.Native.String.{String, [], ◌∷◌}
use mathlib.Core.Path.{◌≡◌, refl}
use mathlib.Core.Bool.{Bool, true, false, not, ◌&&◌, ◌||◌}
use native.Mathlib.Omega.{arith}
use sprint_runtime.Prelude.Tests.{ltb}

-- Of two keys, the first decides unless it is the same.
abbrev pub lex {ℓ} : {A : Type ℓ} → (A → A → Bool) → (A → A → Bool) → A → A → Bool
lex f g a b = f a b || not (f b a) && g a b

unfoldable pub text_ltb : String → String → Bool
text_ltb s [] = false
text_ltb [] (d ∷ t) = true
text_ltb (c ∷ s) (d ∷ t) = ltb (code c) (code d) || not (ltb (code d) (code c)) && text_ltb s t

pub record IsStrict {ℓ} {A : Type ℓ} (lt : A → A → Bool) : Type ℓ where
  pub asym : (a b : A) → lt a b ≡ true → lt b a ≡ false
  pub weak : (a b c : A) → lt a b ≡ false → lt b c ≡ false → lt a c ≡ false

pub lex-IsStrict {ℓ} :
    {A : Type ℓ} (f g : A → A → Bool) → IsStrict f → IsStrict g → IsStrict (lex f g)
lex-IsStrict f g hf hg = record {
  asym = λ a b h. ground (arith, hf.asym a b, hg.asym a b);
  weak = λ a b c h k. ground (
    arith,
    hf.asym a b,
    hf.asym b c,
    hf.weak a b c,
    hf.weak c b a,
    hf.weak b c a,
    hf.weak c a b,
    hf.weak a c b,
    hf.weak b a c,
    hg.weak a b c,
  );
}

-- The greater key first.
pub descending-IsStrict {ℓ κ} :
    {A : Type ℓ} {B : Type κ} (lt : B → B → Bool) (key : A → B)
    → IsStrict lt
    → IsStrict {A = A} (λ a b. lt (key b) (key a))
descending-IsStrict lt key h = record {
  asym = λ a b e. h.asym (key b) (key a) e;
  weak = λ a b c e e'. h.weak (key c) (key b) (key a) e' e;
}

-- The smaller key first.
pub ascending-IsStrict {ℓ κ} :
    {A : Type ℓ} {B : Type κ} (lt : B → B → Bool) (key : A → B)
    → IsStrict lt
    → IsStrict {A = A} (λ a b. lt (key a) (key b))
ascending-IsStrict lt key h = record {
  asym = λ a b e. h.asym (key a) (key b) e;
  weak = λ a b c e e'. h.weak (key a) (key b) (key c) e e';
}

pub ltb-IsStrict : IsStrict ltb
ltb-IsStrict = record { asym = λ a b h. ground arith; weak = λ a b c h k. ground arith }

text_ltb-asym : (s t : String) → text_ltb s t ≡ true → text_ltb t s ≡ false
unfolding text_ltb
text_ltb-asym [] [] h = refl
text_ltb-asym [] (◌∷◌ d t) h = refl
text_ltb-asym (◌∷◌ c s) [] h = ground arith
text_ltb-asym (◌∷◌ c s) (◌∷◌ d t) h = ground (arith, text_ltb-asym s t)

text_ltb-weak :
    (s t u : String) → text_ltb s t ≡ false → text_ltb t u ≡ false → text_ltb s u ≡ false
unfolding text_ltb
text_ltb-weak s t [] h k = refl
text_ltb-weak [] [] (◌∷◌ e u) h k = ground arith
text_ltb-weak [] (◌∷◌ d t) (◌∷◌ e u) h k = ground arith
text_ltb-weak (◌∷◌ c s) [] (◌∷◌ e u) h k = ground arith
text_ltb-weak (◌∷◌ c s) (◌∷◌ d t) (◌∷◌ e u) h k = ground (arith, text_ltb-weak s t u)

pub text_ltb-IsStrict : IsStrict text_ltb
text_ltb-IsStrict = record { asym = text_ltb-asym; weak = text_ltb-weak }
