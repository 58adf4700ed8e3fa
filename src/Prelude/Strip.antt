-- ===== src/Prelude/Strip.antt =====
-- Stripping a text twice is stripping it once.
use Prim.Native.String.{String, [], ◌∷◌}
use Prim.Native.Char.{Char}
use mathlib.Core.Path.{◌≡◌, refl, ap, ◌∙◌}
use mathlib.Core.Bool.{false, ◌&&◌}
use mathlib.Core.Logic.{inl, inr}
use sprint_runtime.Prelude.Tests.{Bool-cases}
use sprint_runtime.Prelude.Text.{is_empty, is_space, lstrip, rstrip, strip}

rstrip-rstrip : (s : String) → rstrip (rstrip s) ≡ rstrip s
unfolding rstrip
rstrip-rstrip [] = refl
rstrip-rstrip (c ∷ s) = elim (Bool-cases (is_space c && is_empty (rstrip s))) [
  | inl gone ↦ rw gone refl
  | inr kept ↦ rw kept (rw (rstrip-rstrip s) (rw kept refl))
]

-- What begins with no space, or is empty, keeps its beginning.
lstrip-rstrip_cons :
    (c : Char) (s : String) → is_space c ≡ false → lstrip (rstrip (c ∷ s)) ≡ rstrip (c ∷ s)
unfolding rstrip lstrip
lstrip-rstrip_cons c s h = rw h (rw h refl)

lstrip-rstrip-lstrip : (s : String) → lstrip (rstrip (lstrip s)) ≡ rstrip (lstrip s)
unfolding lstrip
lstrip-rstrip-lstrip [] = unfold rstrip in refl
lstrip-rstrip-lstrip (c ∷ s) = elim (Bool-cases (is_space c)) [
  | inl space ↦ rw space (lstrip-rstrip-lstrip s)
  | inr solid ↦ rw solid (lstrip-rstrip_cons c s solid)
]

pub strip-strip : (s : String) → strip (strip s) ≡ strip s
unfolding strip
strip-strip s = ap rstrip (lstrip-rstrip-lstrip s) ∙ rstrip-rstrip (lstrip s)
