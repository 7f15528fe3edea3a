-- ===== src/Prelude/Ordered.antt =====
-- Texts in order, maps kept in the order of their keys, and numbers in decimal digits.
use Prim.Native.Nat.{ℕ, zero, suc, ◌+◌, ◌/◌, ◌%◌}
use mathlib.Core.Bool.{Bool, true, false, not, ◌&&◌, ◌||◌}
use mathlib.Core.Option.{Option, none, some}
use mathlib.Core.List.{List, [], ◌∷◌}
use zanei.Prelude.Tests.{ltb, ◌==◌, if◌then◌else◌}
use zanei.Prelude.Strings.{Text, text_eq}
use zanei.Prelude.Maps.{TextMap}

-- `Ord for str`: the order of the UTF-8 bytes is that of the code points.
unfoldable pub text_lt : Text → Text → Bool
text_lt [] [] = false
text_lt [] (b ∷ t) = true
text_lt (a ∷ s) [] = false
text_lt (a ∷ s) (b ∷ t) = ltb a b || (a == b && text_lt s t)

-- `*map.entry(key).or_default() += n`, where the sum is by `add`.
unfoldable pub entry_add : (ℕ → ℕ → ℕ) → Text → ℕ → TextMap ℕ → TextMap ℕ
entry_add add key n [] = (key, add 0 n) ∷ []
entry_add add key n ((k, m) ∷ rest) =
    let later = entry_add add key n rest in
    if text_eq k key
    then (k, add m n) ∷ rest
    else if text_lt key k
    then (key, add 0 n) ∷ (k, m) ∷ rest
    else (k, m) ∷ later

-- `BTreeSet::insert`.
unfoldable pub insert_text : Text → List Text → List Text
insert_text t [] = t ∷ []
insert_text t (s ∷ ss) =
    let later = insert_text t ss in
    if text_eq s t then s ∷ ss else if text_lt t s then t ∷ s ∷ ss else s ∷ later

-- `max_by` on the value and, for equal values, the smaller key.
abbrev wins : Text → ℕ → Text → ℕ → Bool
wins key n k m = ltb n m || (n == m && not (text_lt key k))

unfoldable pub max_entry : Text → ℕ → TextMap ℕ → Text
max_entry key n [] = key
max_entry key n ((k, m) ∷ rest) = elim (wins key n k m) [
  | true ↦ max_entry k m rest
  | false ↦ max_entry key n rest
]

unfoldable pub max_key : TextMap ℕ → Option Text
max_key [] = none
max_key ((k, n) ∷ rest) = some (max_entry k n rest)

-- `Display` of an unsigned integer.
unfoldable pub digits : ℕ → ℕ → Text → Text
digits zero n rest = rest
digits (suc fuel) n rest = elim (ltb n 10) [
  | true ↦ (b'0' + n) ∷ rest
  | false ↦ digits fuel (n / 10) ((b'0' + n % 10) ∷ rest)
]

unfoldable pub to_string : ℕ → Text
to_string n = digits (suc n) n []
