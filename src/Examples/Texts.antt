-- ===== src/Examples/Texts.antt =====
-- text_delta.rs at concrete texts.
use mathlib.Core.List.{flatten}
use zanei.Prelude.{text_eq, ◌≡◌, refl, none, [], ◌∷◌, Text, text, length}
use zanei.Core.TextDelta.{grapheme_clusters, text_delta}
use zanei.Core.TextDelta.Clusters.{flatten-grapheme_clusters}

replaced : text_delta (text "secret") (text "public") ≡ none
unfolding text_delta text_eq
replaced = refl

-- A base letter with a combining accent is one cluster.
accent : length (grapheme_clusters (b'e' ∷ 0x301 ∷ b'a' ∷ [])) ≡ 2
unfolding grapheme_clusters
accent = refl

abbrev accented : Text
accented = b'e' ∷ 0x301 ∷ b'a' ∷ []

flatten-grapheme_clusters_example : flatten (grapheme_clusters accented) ≡ accented
flatten-grapheme_clusters_example = flatten-grapheme_clusters accented
