-- ===== src/Core/TextDelta.antt =====
-- crates/zanei-core/src/text_delta.rs: the changed region of a text field.
-- A text is the list of its characters, so a slice of it is a list of consecutive characters.
pub mod Clusters
pub mod Cuts
pub mod Ends
pub mod Region
use mathlib.Core.List.{flatten}
use zanei.Prelude.{
  ℕ, ◌-◌, min, Bool, true, false, not, ◌&&◌, ◌||◌, Option, none, some, List, [], ◌∷◌, ◌++◌, reverse,
  Text, text_eq, leb, ◌==◌, if◌then◌else◌, length, take, drop, is_empty,
}

abbrev pub zero_width_joiner : ℕ
zero_width_joiner = 0x200d

abbrev in_range : ℕ → ℕ → ℕ → Bool
in_range lo hi c = leb lo c && leb c hi

unfoldable pub is_cluster_extension : ℕ → Bool
is_cluster_extension c =
    in_range 0x0300 0x036f c
    || in_range 0x1ab0 0x1aff c
    || in_range 0x1dc0 0x1dff c
    || in_range 0x20d0 0x20ff c
    || in_range 0xfe00 0xfe0f c
    || in_range 0xfe20 0xfe2f c
    || in_range 0x1f3fb 0x1f3ff c
    || in_range 0xe0100 0xe01ef c

-- Whether a cluster begins at the character.
unfoldable pub starts_cluster : ℕ → Bool → Bool
unfolding is_cluster_extension
starts_cluster character previous_was_joiner =
    not (is_cluster_extension character)
    && not (character == zero_width_joiner)
    && not previous_was_joiner

-- The loop over the characters after the first; `cluster` is what stands since `cluster_start`.
unfoldable pub cluster_loop : Text → Bool → Text → List Text
unfolding starts_cluster
cluster_loop cluster previous_was_joiner [] = cluster ∷ []
cluster_loop cluster previous_was_joiner (character ∷ rest) =
    elim (starts_cluster character previous_was_joiner) [
      | true ↦ cluster ∷ cluster_loop (character ∷ []) (character == zero_width_joiner) rest
      | false ↦ cluster_loop (cluster ++ character ∷ []) (character == zero_width_joiner) rest
    ]

unfoldable pub grapheme_clusters : Text → List Text
unfolding cluster_loop
grapheme_clusters [] = []
grapheme_clusters (first ∷ rest) = cluster_loop (first ∷ []) (first == zero_width_joiner) rest

-- `zip`, `take(n)` and `take_while` of the iterators, and `count`.
abbrev pub zip : List Text → List Text → List (Text × Text)
zip [] ys = []
zip (x ∷ xs) [] = []
zip (x ∷ xs) (y ∷ ys) = (x, y) ∷ zip xs ys

unfoldable pub take_while_equal : List (Text × Text) → List (Text × Text)
take_while_equal [] = []
take_while_equal ((x, y) ∷ rest) = if text_eq x y then (x, y) ∷ take_while_equal rest else []

unfoldable pub common_prefix_len : List Text → List Text → ℕ
unfolding take_while_equal
common_prefix_len baseline current = length (take_while_equal (zip baseline current))

unfoldable pub common_suffix_len : ℕ → List Text → List Text → ℕ
unfolding take_while_equal
common_suffix_len max_suffix_len baseline current =
    length (take_while_equal (take max_suffix_len (zip (reverse baseline) (reverse current))))

-- The comparison of the two lists of clusters.
unfoldable pub cluster_delta : List Text → List Text → Option Text
unfolding common_prefix_len common_suffix_len
cluster_delta baseline current =
    let prefix = common_prefix_len baseline current in
    let max_suffix_len = min (length baseline) (length current) - prefix in
    let suffix = common_suffix_len max_suffix_len baseline current in
    let baseline_changed_len = length baseline - prefix - suffix in
    let current_changed_len = length current - prefix - suffix in
    if leb current_changed_len baseline_changed_len
    then none
    else some (flatten (take (length current - suffix - prefix) (drop prefix current)))

unfoldable pub text_delta : Text → Text → Option Text
unfolding grapheme_clusters cluster_delta
text_delta [] current = if not (is_empty current) then some current else none
text_delta baseline current = cluster_delta (grapheme_clusters baseline) (grapheme_clusters current)
