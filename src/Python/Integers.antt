-- ===== src/Python/Integers.antt =====
-- Addition, scaling and order of Python's whole numbers.
use sprint_runtime.Prelude.{ℕ, zero, suc, ◌+◌, ◌*◌, ◌-◌, Bool, true, false, ltb, if◌then◌else◌}
use sprint_runtime.Prelude.{◌≡◌, refl, arith}
use sprint_runtime.Prelude.Order.{IsStrict}
use sprint_runtime.Python.{ℤ, pos, negsuc}

infixl 6 ◌+ℤ◌
unfoldable pub ◌+ℤ◌ : ℤ → ℤ → ℤ
pos a +ℤ pos b = pos (a + b)
pos a +ℤ negsuc b = if ltb b a then pos (a - suc b) else negsuc (b - a)
negsuc a +ℤ pos b = if ltb a b then pos (b - suc a) else negsuc (a - b)
negsuc a +ℤ negsuc b = negsuc (suc (a + b))

-- `n * k` for a length `n`
unfoldable pub times : ℕ → ℤ → ℤ
times n (pos k) = pos (n * k)
times zero (negsuc k) = pos 0
times (suc n) (negsuc k) = negsuc (n * suc k + k)

abbrev pub ltb_ℤ : ℤ → ℤ → Bool
ltb_ℤ (pos a) (pos b) = ltb a b
ltb_ℤ (pos a) (negsuc b) = false
ltb_ℤ (negsuc a) (pos b) = true
ltb_ℤ (negsuc a) (negsuc b) = ltb b a

abbrev pub is_zero : ℤ → Bool
is_zero (pos zero) = true
is_zero _ = false

ltb_ℤ-asym : (a b : ℤ) → ltb_ℤ a b ≡ true → ltb_ℤ b a ≡ false
ltb_ℤ-asym (pos a) (pos b) h = ground arith
ltb_ℤ-asym (negsuc a) (negsuc b) h = ground arith
ltb_ℤ-asym (pos a) (negsuc b) h = ground arith
ltb_ℤ-asym (negsuc a) (pos b) h = refl

ltb_ℤ-weak : (a b c : ℤ) → ltb_ℤ a b ≡ false → ltb_ℤ b c ≡ false → ltb_ℤ a c ≡ false
ltb_ℤ-weak (pos a) (pos b) (pos c) h k = ground arith
ltb_ℤ-weak (pos a) b (negsuc c) h k = refl
ltb_ℤ-weak (pos a) (negsuc b) (pos c) h k = ground arith
ltb_ℤ-weak (negsuc a) (pos b) c h k = ground arith
ltb_ℤ-weak (negsuc a) (negsuc b) (pos c) h k = ground arith
ltb_ℤ-weak (negsuc a) (negsuc b) (negsuc c) h k = ground arith

pub ltb_ℤ-IsStrict : IsStrict ltb_ℤ
ltb_ℤ-IsStrict = record { asym = ltb_ℤ-asym; weak = ltb_ℤ-weak }
