-- ===== src/Core/TextDelta/Cuts.antt =====
-- Lists cut at two places, and their ends seen from the end: the slices of text_delta.rs.
use mathlib.Core.List.{reverse-append}
use zanei.Prelude.{
  ℕ, zero, suc, ◌+◌, ◌-◌, ◌≤◌, ◌≡◌, refl, sym, ap, ◌∙◌, List, [], ◌∷◌, ◌++◌, reverse, length,
  length-reverse, length-take, length-drop, take, drop, take-append-drop, arith,
}

module _ {ℓ} {A : Type ℓ} where
  take-append_length : (xs ys : List A) → take (length xs) (xs ++ ys) ≡ xs
  take-append_length [] ys = refl
  take-append_length (x ∷ xs) ys = ap (λ l. x ∷ l) (take-append_length xs ys)

  pub drop-append_length : (xs ys : List A) → drop (length xs) (xs ++ ys) ≡ ys
  drop-append_length [] ys = refl
  drop-append_length (x ∷ xs) ys = drop-append_length xs ys

  pub drop-drop : (p k : ℕ) (xs : List A) → drop k (drop p xs) ≡ drop (p + k) xs
  drop-drop zero k xs = let e : k ≡ zero + k = omega arith in ap (λ n. drop n xs) e
  drop-drop (suc p) zero [] = let e : suc p ≡ suc p + zero = omega arith in ap (λ n. drop n []) e
  drop-drop (suc p) (suc k) [] =
      let e : suc (p + suc k) ≡ suc p + suc k = omega arith in ap (λ n. drop n []) e
  drop-drop (suc p) k (x ∷ xs) =
      let e : suc (p + k) ≡ suc p + k = omega arith in
      drop-drop p k xs ∙ ap (λ n. drop n (x ∷ xs)) e

  -- A list cut at two places.
  pub cut : (p n : ℕ) (xs : List A) → xs ≡ take p xs ++ (take n (drop p xs) ++ drop (p + n) xs)
  cut p n xs =
      sym (take-append-drop p xs)
      ∙ ap (◌++◌ (take p xs))
          (sym (take-append-drop n (drop p xs)) ∙ ap (◌++◌ (take n (drop p xs))) (drop-drop p n xs))

  -- The last `n` elements, seen from the end.
  pub take-reverse :
      (n : ℕ) (xs : List A)
      → n ≤ length xs
      → take n (reverse xs) ≡ reverse (drop (length xs - n) xs)
  take-reverse n xs h =
      let k : ℕ = length xs - n in
      let e : reverse xs ≡ reverse (drop k xs) ++ reverse (take k xs) =
        ap reverse (sym (take-append-drop k xs)) ∙ reverse-append (take k xs) (drop k xs) in
      let m : n ≡ length (reverse (drop k xs)) =
        omega (arith, length-reverse (drop k xs), length-drop k xs) in
      ap (take n) e
      ∙ ap (λ i. take i (reverse (drop k xs) ++ reverse (take k xs))) m
      ∙ take-append_length (reverse (drop k xs)) (reverse (take k xs))

  -- A list cut behind its first `p` elements and before its last `s`.
  pub cut_ends :
      (p s : ℕ) (xs : List A)
      → p + s ≤ length xs
      → xs ≡ take p xs ++ (take (length xs - s - p) (drop p xs) ++ drop (length xs - s) xs)
  cut_ends p s xs h =
      let e : p + (length xs - s - p) ≡ length xs - s = omega arith in
      cut p (length xs - s - p) xs
      ∙ ap (λ n. take p xs ++ (take (length xs - s - p) (drop p xs) ++ drop n xs)) e

  pub length-middle :
      (p s : ℕ) (xs : List A)
      → p + s ≤ length xs
      → length (take (length xs - s - p) (drop p xs)) ≡ length xs - p - s
  length-middle p s xs h =
      omega (arith, length-take (length xs - s - p) (drop p xs), length-drop p xs)
