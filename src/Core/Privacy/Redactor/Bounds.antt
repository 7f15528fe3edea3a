-- ===== src/Core/Privacy/Redactor/Bounds.antt =====
-- The ranges of patterns.rs stand in the text, in order and apart.
use mathlib.Core.List.{append-nil}
use zanei.Prelude.{
  subst, ◌==◌, ℕ, suc, ◌+◌, ◌≤◌, ◌≡◌, Bool, ◌||◌, Option, none, some, List, [], ◌∷◌, ◌++◌, reverse,
  Text, arith, length, length-reverse, Option-cases, Bool-cases, inl, inr, if_rule,
}
use zanei.Prelude.Slices.{trim_start, trim_end, is_digit}
use zanei.Core.Privacy.Redactor.Patterns.{
  Range, take_while, is_email_domain_byte, email_at, email_loop, email_ranges, card_range,
  card_loop, credit_card_ranges, is_card_separator,
}

-- Ranges that begin at `lo` or later, end at `n` or earlier, follow one another and do not overlap.
abbrev pub Ordered : ℕ → ℕ → List Range → Type 0
Ordered lo n [] = lo ≤ n
Ordered lo n ((start, end) ∷ rs) = (lo ≤ start) × (start ≤ end) × Ordered end n rs

pub length-trim_start : (p : ℕ → Bool) (t : Text) → length (trim_start p t) ≤ length t
unfolding trim_start
length-trim_start p [] = omega arith
length-trim_start p (c ∷ t) = ground (arith, length-trim_start p t)

pub length-trim_end : (p : ℕ → Bool) (t : Text) → length (trim_end p t) ≤ length t
unfolding trim_end
length-trim_end p t = omega (
  arith,
  length-reverse (trim_start p (reverse t)),
  length-trim_start p (reverse t),
  length-reverse t,
)

pub length-take_while : (p : ℕ → Bool) (t : Text) → length (take_while p t) ≤ length t
unfolding take_while
length-take_while p [] = omega arith
length-take_while p (c ∷ t) = ground (arith, length-take_while p t)

pub Ordered-weaken :
    (lo low n : ℕ) (rs : List Range) → low ≤ lo → Ordered lo n rs → Ordered low n rs
Ordered-weaken lo low n [] h o = omega arith
Ordered-weaken lo low n ((start, end) ∷ rs) h o = (omega (arith, o.0), o.1, o.2)

abbrev end_of : Option ℕ → ℕ
end_of none = 0
end_of (some e) = e

email_at-bounds :
    (at : ℕ) (before : Text) (last : Option ℕ) (c : ℕ) (rest : Text) (start end : ℕ)
    → email_at at before last c rest ≡ some (start, end)
    → (end_of last ≤ start) × (start ≤ end) × (end ≤ at + suc (length rest))
unfolding email_at
email_at-bounds at before last c rest start end h = ground (
  arith,
  length-trim_end (λ d. d == b'.') (take_while is_email_domain_byte rest),
  length-take_while is_email_domain_byte rest,
)

email_loop-Ordered :
    (n at : ℕ) (before : Text) (last : Option ℕ) (rest : Text)
    → at + length rest ≡ n
    → end_of last ≤ n
    → Ordered (end_of last) n (email_loop at before last rest)
unfolding email_loop
email_loop-Ordered n at before last [] e h = h
email_loop-Ordered n at before last (c ∷ rest) e h =
    elim (Option-cases (email_at at before last c rest)) [
      | inl none_here ↦
          rw (none_here, email_loop)
            (email_loop-Ordered n (suc at) (c ∷ before) last rest (omega arith) h)
      | inr ((start, end), found) ↦
          let b = email_at-bounds at before last c rest start end found in
          rw (found, email_loop)
            (
              b.0,
              b.1,
              email_loop-Ordered n (suc at) (c ∷ before) (some end) rest (omega arith)
                  (omega (arith, b.2)),
            )
    ]

-- A candidate that was begun ends at the cursor.
abbrev Started : ℕ → Text → ℕ → Type 0
Started start [] cursor = Unit
Started start (d ∷ run) cursor = start + length (d ∷ run) ≡ cursor

card_range-Ordered :
    (lo n start cursor : ℕ) (run : Text) (rs : List Range)
    → lo ≤ start
    → start + length run ≡ cursor
    → Ordered cursor n rs
    → Ordered lo n (card_range start run ++ rs)
unfolding card_range
card_range-Ordered lo n start cursor run rs h e o =
    let candidate = trim_end is_card_separator (reverse run) in
    let fits : start + length candidate ≤ cursor =
      omega (arith, length-trim_end is_card_separator (reverse run), length-reverse run) in
    if_rule (λ (found : List Range). Ordered lo n (found ++ rs)) _
      ((start, start + length candidate) ∷ []) []
      (λ _. (h, omega arith, Ordered-weaken cursor (start + length candidate) n rs fits o))
      (λ _. Ordered-weaken cursor lo n rs (omega arith) o)

card_loop-Ordered :
    (lo n cursor start : ℕ) (run rest : Text)
    → cursor + length rest ≡ n
    → lo + length run ≤ cursor
    → Started start run cursor
    → Ordered lo n (card_loop cursor start run rest)
unfolding card_loop
card_loop-Ordered lo n cursor start [] [] e h s = omega arith
card_loop-Ordered lo n cursor start (d ∷ run) [] e h s =
    subst (λ (rs : List Range). Ordered lo n rs) (append-nil (card_range start (d ∷ run)))
      (card_range-Ordered lo n start cursor (d ∷ run) [] (omega (arith, s)) s (omega arith))
card_loop-Ordered lo n cursor start [] (c ∷ rest) e h s = elim (Bool-cases (is_digit c)) [
  | inl begins ↦
      rw (begins, card_loop)
        (card_loop-Ordered lo n (suc cursor) cursor (c ∷ []) rest (omega arith) (omega arith)
          (omega arith))
  | inr other ↦
      rw (other, card_loop)
        (card_loop-Ordered lo n (suc cursor) cursor [] rest (omega arith) (omega arith) tt)
]
card_loop-Ordered lo n cursor start (d ∷ run) (c ∷ rest) e h s =
    elim (Bool-cases (is_digit c || is_card_separator c)) [
      | inl goes_on ↦
          rw (goes_on, card_loop)
            (card_loop-Ordered lo n (suc cursor) start (c ∷ d ∷ run) rest (omega arith)
              (omega arith) (omega (arith, s)))
      | inr ends ↦
          rw (ends, card_loop)
            (card_range-Ordered lo n start cursor (d ∷ run) _ (omega (arith, s)) s (
              card_loop-Ordered cursor n (suc cursor) cursor [] rest (omega arith) (omega arith)
                tt))
    ]

pub email_ranges-Ordered : (value : Text) → Ordered 0 (length value) (email_ranges value)
unfolding email_ranges
email_ranges-Ordered value =
    email_loop-Ordered (length value) 0 [] none value (omega arith) (omega arith)

pub credit_card_ranges-Ordered :
    (value : Text) → Ordered 0 (length value) (credit_card_ranges value)
unfolding credit_card_ranges
credit_card_ranges-Ordered value =
    card_loop-Ordered 0 (length value) 0 0 [] value (omega arith) (omega arith) tt
