-- ===== src/Prelude/Slices.antt =====
-- The methods of `str` that cut a text at characters, and whitespace.
use mathlib.Core.Path.{◌≡◌, refl, sym, ap, ◌∙◌}
use mathlib.Core.Logic.{inl, inr}
use mathlib.Core.Bool.{Bool, true, false, ◌&&◌, ◌||◌}
use mathlib.Core.Option
use mathlib.Core.Option.{Option, none, some}
use mathlib.Core.List.{List, [], ◌∷◌, ◌++◌, reverse, reverse-append, reverse-reverse}
use Prim.Native.Nat.{ℕ}
use native.Mathlib.Omega.{arith}
use zanei.Prelude.Tests.{leb, ◌==◌, if◌then◌else◌, Option-cases}
use zanei.Prelude.Lists.{any}
use zanei.Prelude.Strings.{Text}

unfoldable pub strip_prefix : Text → Text → Option Text
strip_prefix [] t = some t
strip_prefix (p ∷ ps) [] = none
strip_prefix (p ∷ ps) (c ∷ t) = if p == c then strip_prefix ps t else none

abbrev is_some : Option Text → Bool
is_some none = false
is_some (some t) = true

unfoldable pub starts_with : Text → Text → Bool
unfolding strip_prefix
starts_with p t = is_some (strip_prefix p t)

unfoldable pub strip_suffix : Text → Text → Option Text
unfolding strip_prefix
strip_suffix s t = Option.map reverse (strip_prefix (reverse s) (reverse t))

unfoldable pub ends_with : Text → Text → Bool
unfolding strip_suffix
ends_with s t = is_some (strip_suffix s t)

pub strip_prefix-some : (p t r : Text) → strip_prefix p t ≡ some r → t ≡ p ++ r
unfolding strip_prefix
strip_prefix-some [] t r h = ground arith
strip_prefix-some (p ∷ ps) [] r h = cc
strip_prefix-some (p ∷ ps) (c ∷ t) r h = ground (arith, strip_prefix-some ps t r)

pub strip_prefix-append : (p r : Text) → strip_prefix p (p ++ r) ≡ some r
unfolding strip_prefix
strip_prefix-append [] r = refl
strip_prefix-append (p ∷ ps) r = ground (arith, strip_prefix-append ps r)

pub strip_suffix-some : (s t r : Text) → strip_suffix s t ≡ some r → t ≡ r ++ s
unfolding strip_suffix
strip_suffix-some s t r h = elim (Option-cases (strip_prefix (reverse s) (reverse t))) [
  | inl e ↦ ground (arith, e)
  | inr (q, e) ↦
      sym (reverse-reverse t)
      ∙ ap reverse (strip_prefix-some (reverse s) (reverse t) q e)
      ∙ reverse-append (reverse s) q
      ∙ ap (◌++◌ (reverse q)) (reverse-reverse s)
      ∙ ap (λ (x : Text). x ++ s) (ground (arith, e))
]

pub strip_suffix-append : (s r : Text) → strip_suffix s (r ++ s) ≡ some r
unfolding strip_suffix
strip_suffix-append s r =
    ap (λ x. Option.map reverse (strip_prefix (reverse s) x)) (reverse-append r s)
    ∙ ap (Option.map reverse) (strip_prefix-append (reverse s) (reverse r))
    ∙ ap some (reverse-reverse r)

-- What stands before the first character with the property, and the rest from there on.
unfoldable pub break_at : (ℕ → Bool) → Text → Text × Text
break_at p [] = ([], [])
break_at p (c ∷ t) =
    let (before, rest) = break_at p t in if p c then ([], c ∷ t) else (c ∷ before, rest)

-- `split_once` and `rsplit_once` at a character.
unfoldable pub split_once : ℕ → Text → Option (Text × Text)
split_once d [] = none
split_once d (c ∷ t) =
    let rest = split_once d t in
    if c == d then some ([], t) else elim rest [ none ↦ none | some (a, b) ↦ some (c ∷ a, b) ]

unfoldable pub rsplit_once : ℕ → Text → Option (Text × Text)
rsplit_once d [] = none
rsplit_once d (c ∷ t) = elim (rsplit_once d t) [
  | some (a, b) ↦ some (c ∷ a, b)
  | none ↦ if c == d then some ([], t) else none
]

-- `split` at a character: one piece more than there are separators.
abbrev push_front : ℕ → List Text → List Text
push_front c [] = (c ∷ []) ∷ []
push_front c (t ∷ ts) = (c ∷ t) ∷ ts

unfoldable pub split : ℕ → Text → List Text
split d [] = [] ∷ []
split d (c ∷ t) = let rest = split d t in if c == d then [] ∷ rest else push_front c rest

-- `trim_start_matches` and `trim_end_matches`.
unfoldable pub trim_start : (ℕ → Bool) → Text → Text
trim_start p [] = []
trim_start p (c ∷ t) = let rest = trim_start p t in if p c then rest else c ∷ t

unfoldable pub trim_end : (ℕ → Bool) → Text → Text
unfolding trim_start
trim_end p t = reverse (trim_start p (reverse t))

-- `char::is_whitespace`.
unfoldable pub is_whitespace : ℕ → Bool
is_whitespace c =
    (leb 9 c && leb c 13)
    || c == 32
    || c == 0x85
    || c == 0xa0
    || c == 0x1680
    || (leb 0x2000 c && leb c 0x200a)
    || c == 0x2028
    || c == 0x2029
    || c == 0x202f
    || c == 0x205f
    || c == 0x3000

unfoldable pub trim : Text → Text
unfolding trim_start trim_end is_whitespace
trim t = trim_start is_whitespace (trim_end is_whitespace t)

-- The ASCII classes.
abbrev pub is_digit : ℕ → Bool
is_digit c = leb b'0' c && leb c b'9'

abbrev pub is_alphabetic : ℕ → Bool
is_alphabetic c = (leb b'a' c && leb c b'z') || (leb b'A' c && leb c b'Z')

abbrev pub is_alphanumeric : ℕ → Bool
is_alphanumeric c = is_alphabetic c || is_digit c

abbrev pub is_hexdigit : ℕ → Bool
is_hexdigit c = is_digit c || (leb b'a' c && leb c b'f') || (leb b'A' c && leb c b'F')

unfoldable pub contains_char : ℕ → Text → Bool
contains_char d t = any (λ c. c == d) t

-- `contains` of a text.
unfoldable pub contains_text : Text → Text → Bool
contains_text [] pattern = starts_with pattern []
contains_text (c ∷ t) pattern = starts_with pattern (c ∷ t) || contains_text t pattern

-- `split_once` at a text that is not empty.
abbrev before_split : ℕ → Option (Text × Text) → Option (Text × Text)
before_split c none = none
before_split c (some (a, b)) = some (c ∷ a, b)

unfoldable pub split_once_text : Text → Text → Option (Text × Text)
split_once_text d [] = none
split_once_text d (c ∷ t) = elim (strip_prefix d (c ∷ t)) [
  | some r ↦ some ([], r)
  | none ↦ before_split c (split_once_text d t)
]
