-- ===== src/Core/TextDelta/Clusters.antt =====
-- The division of a text into grapheme clusters.
use mathlib.Core.List.{flatten, append_assoc, append-nil}
use zanei.Prelude.{
  ℕ, ◌≡◌, refl, sym, ap, ◌∙◌, inl, inr, Bool, false, [], ◌∷◌, ◌++◌, Text, ◌==◌, All, Bool-cases,
}
use zanei.Core.TextDelta.{cluster_loop, grapheme_clusters, starts_cluster, zero_width_joiner}

flatten-cluster_loop :
    (cluster : Text) (joined : Bool) (rest : Text)
    → flatten (cluster_loop cluster joined rest) ≡ cluster ++ rest
unfolding cluster_loop flatten
flatten-cluster_loop cluster joined [] = rw append-nil
flatten-cluster_loop cluster joined (c ∷ rest) = elim (Bool-cases (starts_cluster c joined)) [
  | inl new ↦
      rw (new, cluster_loop)
        (ap (◌++◌ cluster) (flatten-cluster_loop (c ∷ []) (c == zero_width_joiner) rest))
  | inr old ↦
      rw (old, cluster_loop)
        (flatten-cluster_loop (cluster ++ c ∷ []) (c == zero_width_joiner) rest
          ∙ append_assoc cluster (c ∷ []) rest)
]

-- The clusters of a text, put together, are the text.
pub flatten-grapheme_clusters : (v : Text) → flatten (grapheme_clusters v) ≡ v
unfolding grapheme_clusters flatten
flatten-grapheme_clusters [] = refl
flatten-grapheme_clusters (c ∷ rest) = flatten-cluster_loop (c ∷ []) (c == zero_width_joiner) rest

-- No character of the text begins a cluster, after a joiner or not.
abbrev Joins : Bool → Text → Type 0
Joins joined [] = Unit
Joins joined (c ∷ rest) = (starts_cluster c joined ≡ false) × Joins (c == zero_width_joiner) rest

abbrev last_joined : Bool → Text → Bool
last_joined joined [] = joined
last_joined joined (c ∷ rest) = last_joined (c == zero_width_joiner) rest

Joins-snoc :
    (joined : Bool) (t : Text) (c : ℕ)
    → Joins joined t
    → starts_cluster c (last_joined joined t) ≡ false
    → Joins joined (t ++ c ∷ [])
Joins-snoc joined [] c h e = (e, tt)
Joins-snoc joined (d ∷ t) c h e = (h.0, Joins-snoc (d == zero_width_joiner) t c h.1 e)

last_joined-snoc :
    (joined : Bool) (t : Text) (c : ℕ) → last_joined joined (t ++ c ∷ []) ≡ (c == zero_width_joiner)
last_joined-snoc joined [] c = refl
last_joined-snoc joined (d ∷ t) c = last_joined-snoc (d == zero_width_joiner) t c

-- A cluster is not empty, and no character of it after the first begins a cluster.
abbrev pub IsCluster : Text → Type 0
IsCluster [] = ⊥
IsCluster (first ∷ rest) = Joins (first == zero_width_joiner) rest

cluster_loop-IsCluster :
    (first : ℕ) (rest : Text) (last : Bool) (t : Text)
    → last ≡ last_joined (first == zero_width_joiner) rest
    → IsCluster (first ∷ rest)
    → All IsCluster (cluster_loop (first ∷ rest) last t)
unfolding cluster_loop
cluster_loop-IsCluster first rest last [] e h = (h, tt)
cluster_loop-IsCluster first rest last (c ∷ t) e h = elim (Bool-cases (starts_cluster c last)) [
  | inl new ↦
      rw (new, cluster_loop) (h, cluster_loop-IsCluster c [] (c == zero_width_joiner) t refl tt)
  | inr old ↦
      rw (old, cluster_loop)
        (cluster_loop-IsCluster first (rest ++ c ∷ []) (c == zero_width_joiner) t
          (sym (last_joined-snoc (first == zero_width_joiner) rest c))
          (Joins-snoc (first == zero_width_joiner) rest c h (rw (← e) old)))
]

-- Every cluster of a text is a cluster: not empty, and with no character after its first that
-- begins one.
pub grapheme_clusters-IsCluster : (v : Text) → All IsCluster (grapheme_clusters v)
unfolding grapheme_clusters
grapheme_clusters-IsCluster [] = tt
grapheme_clusters-IsCluster (c ∷ rest) =
    cluster_loop-IsCluster c [] (c == zero_width_joiner) rest refl tt
