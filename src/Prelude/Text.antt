-- ===== src/Prelude/Text.antt =====
-- The parts of Python's `str` that the models use: searching, `strip` with Python's own set of white space,
-- and `lower` for comparisons, which folds the ASCII letters and leaves other characters alone.
use Prim.Native.Nat.{ℕ, ◌+◌}
use Prim.Native.Char.{Char, code}
use Prim.Native.String.{String}
use mathlib.Core.Path.{◌≡◌, refl, ap}
use mathlib.Core.Bool.{Bool, true, false, ◌&&◌, ◌||◌}
use mathlib.Core.List.{List, [], ◌∷◌}
use c4raven_server.Prelude.Tests.{leb, if◌then◌else◌}
use c4raven_server.Prelude.Equality.{◌==◌, nat_eq}

-- `str.isspace` of one character
unfoldable pub is_space : ℕ → Bool
is_space c =
    leb 9 c && leb c 13
    || leb 28 c && leb c 32
    || c == 133
    || c == 160
    || c == 5760
    || leb 8192 c && leb c 8202
    || c == 8232
    || c == 8233
    || c == 8239
    || c == 8287
    || c == 12288

lstrip : String → String
lstrip String.[] = String.[]
lstrip (String.◌∷◌ c s) = let rest = lstrip s in if is_space (code c) then rest else String.◌∷◌ c s

keep_unless_blank : Char → String → String
keep_unless_blank c String.[] = if is_space (code c) then String.[] else String.◌∷◌ c String.[]
keep_unless_blank c (String.◌∷◌ d s) = String.◌∷◌ c (String.◌∷◌ d s)

rstrip : String → String
rstrip String.[] = String.[]
rstrip (String.◌∷◌ c s) = keep_unless_blank c (rstrip s)

unfoldable pub strip : String → String
unfolding lstrip rstrip keep_unless_blank is_space
strip s = rstrip (lstrip s)

-- The code points of a text with the ASCII capitals folded, as `a.lower() == b.lower()` compares.
unfoldable pub lower : String → List ℕ
lower String.[] = []
lower (String.◌∷◌ c s) =
    (if leb 65 (code c) && leb (code c) 90 then code c + 32 else code c) ∷ lower s

-- `str.startswith`
unfoldable pub starts_with : String → String → Bool
starts_with s String.[] = true
starts_with String.[] (String.◌∷◌ d t) = false
starts_with (String.◌∷◌ c s) (String.◌∷◌ d t) = code c == code d && starts_with s t

-- `needle in s`
unfoldable pub has_text : String → String → Bool
unfolding starts_with
has_text needle String.[] = starts_with String.[] needle
has_text needle (String.◌∷◌ c s) = starts_with (String.◌∷◌ c s) needle || has_text needle s

-- `s + t` by the characters of `s`
abbrev pub append : String → String → String
append String.[] t = t
append (String.◌∷◌ c s) t = String.◌∷◌ c (append s t)

pub append_assoc_text : (a b c : String) → append (append a b) c ≡ append a (append b c)
append_assoc_text String.[] b c = refl
append_assoc_text (String.◌∷◌ x a) b c = ap (λ s. String.◌∷◌ x s) (append_assoc_text a b c)

pub append_nil_text : (a : String) → append a "" ≡ a
append_nil_text String.[] = refl
append_nil_text (String.◌∷◌ x a) = ap (λ s. String.◌∷◌ x s) (append_nil_text a)
