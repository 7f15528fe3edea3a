-- ===== src/Core/Privacy/Redactor/Merged.antt =====
-- The merged ranges of patterns.rs: in order and apart, and none of the found ones is lost.
use zanei.Prelude.{
  subst, sym, ℕ, ◌≤◌, max, ◌≡◌, refl, ◌⊎◌, inl, inr, true, false, List, [], ◌∷◌, Text, leb, arith,
  length, All, Bool-cases, if_rule, none,
}
use zanei.Core.Config.{RedactorKind, email, credit_card, token}
use zanei.Core.Privacy.Redactor.Patterns.{Range}
use zanei.Core.Privacy.Redactor.Tokens.{
  key_le, insert_range, sort_ranges, merge_ranges, merge_all, normalize_ranges, token_loop,
  token_ranges, ranges,
}
use zanei.Core.Privacy.Redactor.Bounds.{Ordered, email_ranges-Ordered, credit_card_ranges-Ordered}
use zanei.Core.Privacy.Redactor.Found.{Inside, token_loop-Inside}

insert_first :
    (r q : Range) (qs : List Range) → key_le r q ≡ true → insert_range r (q ∷ qs) ≡ r ∷ q ∷ qs
unfolding insert_range
insert_first r q qs h = rw (h, insert_range) refl

insert_later :
    (r q : Range) (qs : List Range)
    → key_le r q ≡ false
    → insert_range r (q ∷ qs) ≡ q ∷ insert_range r qs
unfolding insert_range
insert_later r q qs h = rw (h, insert_range) refl

merge_joined :
    (start end t f : ℕ) (rs : List Range)
    → leb t end ≡ true
    → merge_ranges (start, end) ((t, f) ∷ rs) ≡ merge_ranges (start, max end f) rs
unfolding merge_ranges
merge_joined start end t f rs h = rw (h, merge_ranges) refl

merge_apart :
    (start end t f : ℕ) (rs : List Range)
    → leb t end ≡ false
    → merge_ranges (start, end) ((t, f) ∷ rs) ≡ (start, end) ∷ merge_ranges (t, f) rs
unfolding merge_ranges
merge_apart start end t f rs h = rw (h, merge_ranges) refl

module _ (P : Range → Type 0) where
  insert_range-All : (r : Range) (qs : List Range) → P r → All P qs → All P (insert_range r qs)
  unfolding insert_range
  insert_range-All r [] h a = (h, tt)
  insert_range-All r (q ∷ qs) h a =
      if_rule (All P) (key_le r q) (r ∷ q ∷ qs) (q ∷ insert_range r qs) (λ _. (h, a))
        (λ _. (a.0, insert_range-All r qs h a.1))

  sort_ranges-All : (rs : List Range) → All P rs → All P (sort_ranges rs)
  unfolding sort_ranges
  sort_ranges-All [] a = tt
  sort_ranges-All (r ∷ rs) a = insert_range-All r (sort_ranges rs) a.0 (sort_ranges-All rs a.1)

  All-insert_range : (r : Range) (qs : List Range) → All P (insert_range r qs) → P r × All P qs
  unfolding insert_range
  All-insert_range r [] a = (a.0, tt)
  All-insert_range r (q ∷ qs) a = elim (Bool-cases (key_le r q)) [
    | inl first ↦ subst (All P) (insert_first r q qs first) a
    | inr later ↦
        let b = subst (All P) (insert_later r q qs later) a in
        let c = All-insert_range r qs b.1 in (c.0, (b.0, c.1))
  ]

  All-sort_ranges : (rs : List Range) → All P (sort_ranges rs) → All P rs
  unfolding sort_ranges
  All-sort_ranges [] a = tt
  All-sort_ranges (r ∷ rs) a =
      let b = All-insert_range r (sort_ranges rs) a in (b.0, All-sort_ranges rs b.1)

-- The starts do not fall, from `lo` on.
abbrev Sorted : ℕ → List Range → Type 0
Sorted lo [] = Unit
Sorted lo ((start, end) ∷ rs) = (lo ≤ start) × Sorted start rs

insert_range-Sorted :
    (lo start end : ℕ) (qs : List Range)
    → lo ≤ start
    → Sorted lo qs
    → Sorted lo (insert_range (start, end) qs)
unfolding insert_range
insert_range-Sorted lo start end [] h o = (h, tt)
insert_range-Sorted lo start end ((s, e) ∷ qs) h o =
    if_rule (Sorted lo) (key_le (start, end) (s, e)) ((start, end) ∷ (s, e) ∷ qs)
      ((s, e) ∷ insert_range (start, end) qs) (λ first. (h, (ground arith, o.1)))
      (λ later. (o.0, insert_range-Sorted s start end qs (ground arith) o.1))

sort_ranges-Sorted : (rs : List Range) → Sorted 0 (sort_ranges rs)
unfolding sort_ranges
sort_ranges-Sorted [] = tt
sort_ranges-Sorted ((start, end) ∷ rs) =
    insert_range-Sorted 0 start end (sort_ranges rs) (omega arith) (sort_ranges-Sorted rs)

merge_ranges-Ordered :
    (lo n start end : ℕ) (rs : List Range)
    → lo ≤ start
    → Inside n (start, end)
    → All (Inside n) rs
    → Ordered lo n (merge_ranges (start, end) rs)
unfolding merge_ranges
merge_ranges-Ordered lo n start end [] h i a = (h, i.0, i.1)
merge_ranges-Ordered lo n start end ((s, e) ∷ rs) h i a = elim (Bool-cases (leb s end)) [
  | inl joins ↦
      rw (joins, merge_ranges)
        (merge_ranges-Ordered lo n start (max end e) rs h
          (omega (arith, i.0), omega (arith, i.1, a.0)) a.1)
  | inr apart ↦
      rw (apart, merge_ranges) (h, i.0, merge_ranges-Ordered end n s e rs (ground arith) a.0 a.1)
]

merge_all-Ordered : (n : ℕ) (rs : List Range) → All (Inside n) rs → Ordered 0 n (merge_all rs)
merge_all-Ordered n [] a = omega arith
merge_all-Ordered n ((s, e) ∷ rs) a = merge_ranges-Ordered 0 n s e rs (omega arith) a.0 a.1

token_ranges-Ordered : (value : Text) → Ordered 0 (length value) (token_ranges value)
unfolding token_ranges normalize_ranges
token_ranges-Ordered value = merge_all-Ordered (length value) _ (
    sort_ranges-All (Inside (length value)) (token_loop none 0 value)
      (token_loop-Inside (length value) none 0 value (omega arith)))

-- The ranges of every rule stand in the text, in order, and do not overlap.
pub ranges-Ordered :
    (value : Text) (rule : RedactorKind) → Ordered 0 (length value) (ranges value rule)
unfolding ranges
ranges-Ordered value email = email_ranges-Ordered value
ranges-Ordered value credit_card = credit_card_ranges-Ordered value
ranges-Ordered value token = token_ranges-Ordered value

-- One of the ranges holds the range `r`.
abbrev pub Holds : Range → Range → Type 0
Holds (s, e) (start, end) = (start ≤ s) × (e ≤ end)

abbrev pub IsCovered : List Range → Range → Type 0
IsCovered [] r = ⊥
IsCovered (q ∷ qs) r = Holds r q ⊎ IsCovered qs r

merge_ranges-first :
    (s e start end : ℕ) (rs : List Range)
    → Holds (s, e) (start, end)
    → IsCovered (merge_ranges (start, end) rs) (s, e)
unfolding merge_ranges
merge_ranges-first s e start end [] h = inl h
merge_ranges-first s e start end ((t, f) ∷ rs) h = elim (Bool-cases (leb t end)) [
  | inl joins ↦
      rw (joins, merge_ranges)
        (merge_ranges-first s e start (max end f) rs (h.0, omega (arith, h.1)))
  | inr apart ↦ rw (apart, merge_ranges) (inl h)
]

Sorted-weaken : (lo low : ℕ) (rs : List Range) → low ≤ lo → Sorted lo rs → Sorted low rs
Sorted-weaken lo low [] h o = tt
Sorted-weaken lo low ((s, e) ∷ rs) h o = (omega (arith, o.0), o.1)

All-inr : (q : Range) (qs rs : List Range) → All (IsCovered qs) rs → All (IsCovered (q ∷ qs)) rs
All-inr q qs [] a = tt
All-inr q qs (r ∷ rs) a = (inr a.0, All-inr q qs rs a.1)

merge_ranges-rest :
    (start end : ℕ) (rs : List Range)
    → Sorted start rs
    → All (IsCovered (merge_ranges (start, end) rs)) rs
merge_ranges-rest start end [] o = tt
merge_ranges-rest start end ((t, f) ∷ rs) o = elim (Bool-cases (leb t end)) [
  | inl joins ↦
      subst (λ m. All (IsCovered m) ((t, f) ∷ rs)) (sym (merge_joined start end t f rs joins))
        (
          merge_ranges-first t f start (max end f) rs (o.0, omega arith),
          merge_ranges-rest start (max end f) rs (Sorted-weaken t start rs o.0 o.1),
        )
  | inr apart ↦
      subst (λ m. All (IsCovered m) ((t, f) ∷ rs)) (sym (merge_apart start end t f rs apart))
        (
          inr (merge_ranges-first t f t f rs (omega arith, omega arith)),
          All-inr (start, end) (merge_ranges (t, f) rs) rs (merge_ranges-rest t f rs o.1),
        )
]

merge_all-IsCovered : (rs : List Range) → Sorted 0 rs → All (IsCovered (merge_all rs)) rs
merge_all-IsCovered [] o = tt
merge_all-IsCovered ((s, e) ∷ rs) o =
    (merge_ranges-first s e s e rs (omega arith, omega arith), merge_ranges-rest s e rs o.1)

-- Every token that is found is held by one of the merged ranges.
pub token_ranges-IsCovered :
    (value : Text) → All (IsCovered (token_ranges value)) (token_loop none 0 value)
unfolding token_ranges normalize_ranges
token_ranges-IsCovered value =
    All-sort_ranges (IsCovered (normalize_ranges (token_loop none 0 value)))
      (token_loop none 0 value)
      (merge_all-IsCovered (sort_ranges (token_loop none 0 value))
        (sort_ranges-Sorted (token_loop none 0 value)))
