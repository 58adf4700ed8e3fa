-- ===== src/Prelude/Text.antt =====
-- The methods of Python's `str` that the program calls, on the native texts. `lower` maps the
-- letters A to Z and leaves every other character as it is.
use Prim.Native.Nat.{ℕ, zero, suc, ◌-◌}
use Prim.Native.Char.{Char, code}
use Prim.Native.String.{String, [], ◌∷◌, ◌++◌}
use mathlib.Core.Bool.{Bool, true, false, ◌&&◌, ◌||◌}
use mathlib.Core.List.{List}
use text.Mathlib.Text.{◌==◌}
use sprint_runtime.Prelude.Tests.{leb, eqb, if◌then◌else◌}

abbrev pub is_empty : String → Bool
is_empty [] = true
is_empty (_ ∷ _) = false

abbrev between : ℕ → ℕ → ℕ → Bool
between lo hi n = leb lo n && leb n hi

-- What `str.strip` and `str.split` take for white space.
space_code : ℕ → Bool
space_code n =
    between 9 13 n
    || between 28 32 n
    || eqb n 133
    || eqb n 160
    || eqb n 5760
    || between 8192 8202 n
    || between 8232 8233 n
    || eqb n 8239
    || eqb n 8287
    || eqb n 12288

unfoldable pub is_space : Char → Bool
unfolding space_code
is_space c = space_code (code c)

unfoldable pub lstrip : String → String
lstrip [] = []
lstrip (c ∷ s) = if is_space c then lstrip s else c ∷ s

unfoldable pub rstrip : String → String
rstrip [] = []
rstrip (c ∷ s) = let rest = rstrip s in if is_space c && is_empty rest then [] else c ∷ rest

unfoldable pub strip : String → String
unfolding lstrip rstrip is_space
strip s = rstrip (lstrip s)

abbrev pub char_or : String → ℕ → Char → Char
char_or [] i d = d
char_or (c ∷ s) zero d = c
char_or (c ∷ s) (suc i) d = char_or s i d

unfoldable pub lower_char : Char → Char
lower_char c =
    if leb 65 (code c) && leb (code c) 90
    then char_or "abcdefghijklmnopqrstuvwxyz" (code c - 65) c
    else c

unfoldable pub lower : String → String
unfolding lower_char
lower [] = []
lower (c ∷ s) = lower_char c ∷ lower s

-- `s.strip().lower()`
unfoldable pub normalized : String → String
unfolding strip lower
normalized s = lower (strip s)

unfoldable pub starts_with : String → String → Bool
starts_with s [] = true
starts_with [] (d ∷ t) = false
starts_with (c ∷ s) (d ∷ t) = eqb (code c) (code d) && starts_with s t

-- `needle in s`
unfoldable pub has : String → String → Bool
unfolding starts_with
has needle [] = is_empty needle
has needle (c ∷ s) = starts_with (c ∷ s) needle || has needle s

unfoldable pub ends_with : String → String → Bool
ends_with [] t = is_empty t
ends_with (c ∷ s) t = (c ∷ s) == t || ends_with s t

-- `s.replace(old, new)` for an `old` of one character.
unfoldable pub replace : Char → Char → String → String
replace old new [] = []
replace old new (c ∷ s) = (if eqb (code c) (code old) then new else c) ∷ replace old new s

-- `sep.join(parts)`
unfoldable pub join : String → List String → String
join sep List.[] = []
join sep (List.◌∷◌ s List.[]) = s
join sep (List.◌∷◌ s (List.◌∷◌ t rest)) = s ++ sep ++ join sep (List.◌∷◌ t rest)

-- The word that is being read and the words behind it, by runs of spaces.
abbrev push_word : String → List String → List String
push_word [] words = words
push_word (c ∷ s) words = List.◌∷◌ (c ∷ s) words

split_from : String → String → List String
unfolding is_space
split_from word [] = push_word word List.[]
split_from word (c ∷ s) =
    let ended = push_word word (split_from [] s) in
    let longer = split_from (word ++ (c ∷ [])) s in if is_space c then ended else longer

-- `s.split()`
unfoldable pub split : String → List String
unfolding split_from
split s = split_from [] s
