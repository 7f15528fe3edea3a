-- ===== src/Core/TextDelta/Region.antt =====
-- What `text_delta` shows of a change: the region between a common prefix and a common suffix.
use mathlib.Core.List.{flatten}
use zanei.Prelude.{
  ℕ, ◌+◌, ◌-◌, ◌≤◌, ◌<◌, min, ◌≡◌, ◌≢◌, ◌↔◌, refl, none, some, List, [], ◌∷◌, ◌++◌, Text, leb,
  length, take, drop, arith, if◌then◌else◌,
}
use zanei.Core.TextDelta.{
  grapheme_clusters, common_prefix_len, common_suffix_len, cluster_delta, text_delta,
}
use zanei.Core.TextDelta.Ends.{take_while_equal-take, common_suffix}

-- A change of clusters with a net growth: what stands between a common prefix and a common suffix
-- has become longer, and `shown` is the new text there. The prefix and the suffix cannot be longer:
-- the old and the new region neither begin nor end with the same cluster.
pub record Grows (baseline current : List Text) (shown : Text) : Type 0 where
  pub prefix : List Text
  pub old : List Text
  pub new : List Text
  pub suffix : List Text
  pub in_baseline : baseline ≡ prefix ++ (old ++ suffix)
  pub in_current : current ≡ prefix ++ (new ++ suffix)
  pub shown_is_new : shown ≡ flatten new
  pub growth : length old < length new
  pub heads_differ : (x : Text) (xs ys : List Text) → old ≡ x ∷ xs → new ≢ x ∷ ys
  pub lasts_differ : (x : Text) (xs ys : List Text) → old ≡ xs ++ x ∷ [] → new ≢ ys ++ x ∷ []

module _ (b c : List Text) where
  prefix_len : ℕ
  prefix_len = common_prefix_len b c

  suffix_len : ℕ
  suffix_len = common_suffix_len (min (length b) (length c) - prefix_len) b c

  ends_fit : (prefix_len + suffix_len ≤ length b) × (prefix_len + suffix_len ≤ length c)
  unfolding prefix_len suffix_len common_prefix_len
  ends_fit = omega (
    arith,
    take_while_equal-take b c prefix_len refl,
    common_suffix (min (length b) (length c) - prefix_len) b c,
  )

  cluster_delta_lem : cluster_delta b c ≡ (
      if leb (length c - prefix_len - suffix_len) (length b - prefix_len - suffix_len)
      then none
      else some (flatten (take (length c - suffix_len - prefix_len) (drop prefix_len c))))
  unfolding cluster_delta prefix_len suffix_len
  cluster_delta_lem = refl

  old_region : List Text
  old_region = take (length b - suffix_len - prefix_len) (drop prefix_len b)

  new_region : List Text
  new_region = take (length c - suffix_len - prefix_len) (drop prefix_len c)

  cluster_delta-none : (cluster_delta b c ≡ none) ↔ (length c ≤ length b)
  cluster_delta-none =
      (λ h. ground (arith, cluster_delta_lem, ends_fit), λ h. ground (arith, cluster_delta_lem))

-- For a baseline that is not empty, nothing is shown exactly when the number of grapheme clusters
-- has not grown.
pub text_delta-none :
    (first : ℕ) (rest current : Text)
    → (text_delta (first ∷ rest) current ≡ none)
      ↔ (length (grapheme_clusters current) ≤ length (grapheme_clusters (first ∷ rest)))
unfolding text_delta
text_delta-none first rest current = cluster_delta-none _ _
