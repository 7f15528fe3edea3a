-- ===== src/Core/TextDelta/Ends.antt =====
-- The prefix and the suffix that text_delta.rs finds in common.
use mathlib.Core.List.{reverse-reverse}
use zanei.Prelude.{
  ℕ, zero, suc, ◌-◌, ◌≤◌, ◌<◌, ◌≡◌, ◌≢◌, refl, sym, ap, ◌∙◌, List, [], ◌∷◌, reverse, Text,
  text_eq_sound, text_eq_iff, length, length-reverse, take, drop, arith,
}
use zanei.Core.TextDelta.{zip, take_while_equal, common_suffix_len}
use zanei.Core.TextDelta.Cuts.{take-reverse}

pub take_while_equal-take :
    (xs ys : List Text) (n : ℕ)
    → n ≡ length (take_while_equal (zip xs ys))
    → (take n xs ≡ take n ys) × (n ≤ length xs) × (n ≤ length ys)
unfolding take_while_equal
take_while_equal-take [] ys n h = ground arith
take_while_equal-take (x ∷ xs) [] n h = ground arith
take_while_equal-take (x ∷ xs) (y ∷ ys) zero h = (refl, omega arith, omega arith)
take_while_equal-take (x ∷ xs) (y ∷ ys) (suc n) h =
    ground (arith, text_eq_sound x y, take_while_equal-take xs ys n)

take_while_equal-take_limit :
    (limit : ℕ) (xs ys : List Text) (n : ℕ)
    → n ≡ length (take_while_equal (take limit (zip xs ys)))
    → (take n xs ≡ take n ys) × (n ≤ length xs) × (n ≤ length ys) × (n ≤ limit)
unfolding take_while_equal
take_while_equal-take_limit zero xs ys n h = ground arith
take_while_equal-take_limit (suc m) [] ys n h = ground arith
take_while_equal-take_limit (suc m) (x ∷ xs) [] n h = ground arith
take_while_equal-take_limit (suc m) (x ∷ xs) (y ∷ ys) zero h =
    (refl, omega arith, omega arith, omega arith)
take_while_equal-take_limit (suc m) (x ∷ xs) (y ∷ ys) (suc n) h =
    ground (arith, text_eq_sound x y, take_while_equal-take_limit m xs ys n)

drop-nil : (n : ℕ) → drop {A = Text} n [] ≡ []
drop-nil zero = refl
drop-nil (suc n) = refl

-- Behind the equal pairs the two lists differ.
pub take_while_equal-differ :
    (xs ys : List Text) (n : ℕ) (x : Text) (xs1 ys1 : List Text)
    → n ≡ length (take_while_equal (zip xs ys))
    → drop n xs ≡ x ∷ xs1
    → drop n ys ≢ x ∷ ys1
unfolding take_while_equal
take_while_equal-differ [] ys n x xs1 ys1 h a b = cc (drop-nil n)
take_while_equal-differ (x' ∷ xs) [] n x xs1 ys1 h a b = cc (drop-nil n)
take_while_equal-differ (x' ∷ xs) (y ∷ ys) zero x xs1 ys1 h a b =
    let e : x' ≡ y = cc in ground (arith, (text_eq_iff x' y).1 e)
take_while_equal-differ (x' ∷ xs) (y ∷ ys) (suc n) x xs1 ys1 h a b =
    ground (arith, take_while_equal-differ xs ys n x xs1 ys1)

pub take_while_equal-differ_limit :
    (limit : ℕ) (xs ys : List Text) (n : ℕ) (x : Text) (xs1 ys1 : List Text)
    → n ≡ length (take_while_equal (take limit (zip xs ys)))
    → n < limit
    → drop n xs ≡ x ∷ xs1
    → drop n ys ≢ x ∷ ys1
unfolding take_while_equal
take_while_equal-differ_limit zero xs ys n x xs1 ys1 h l a b = absurd (omega (arith, l))
take_while_equal-differ_limit (suc m) [] ys n x xs1 ys1 h l a b = cc (drop-nil n)
take_while_equal-differ_limit (suc m) (x' ∷ xs) [] n x xs1 ys1 h l a b = cc (drop-nil n)
take_while_equal-differ_limit (suc m) (x' ∷ xs) (y ∷ ys) zero x xs1 ys1 h l a b =
    let e : x' ≡ y = cc in ground (arith, (text_eq_iff x' y).1 e)
take_while_equal-differ_limit (suc m) (x' ∷ xs) (y ∷ ys) (suc n) x xs1 ys1 h l a b =
    ground (arith, take_while_equal-differ_limit m xs ys n x xs1 ys1)

-- The suffix that the two lists share.
pub common_suffix :
    (limit : ℕ) (b c : List Text)
    → let s = common_suffix_len limit b c in
      (drop (length b - s) b ≡ drop (length c - s) c)
      × (s ≤ length b)
      × (s ≤ length c)
      × (s ≤ limit)
unfolding common_suffix_len
common_suffix limit b c =
    let s : ℕ = common_suffix_len limit b c in
    let h = take_while_equal-take_limit limit (reverse b) (reverse c) s refl in
    let hb : s ≤ length b = omega (arith, length-reverse b, h.1) in
    let hc : s ≤ length c = omega (arith, length-reverse c, h.2) in
    (
      sym (reverse-reverse _)
          ∙ ap reverse (sym (take-reverse s b hb) ∙ h.0 ∙ take-reverse s c hc)
          ∙ reverse-reverse _,
      hb,
      hc,
      h.3,
    )
