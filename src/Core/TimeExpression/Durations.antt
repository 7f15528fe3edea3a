-- ===== src/Core/TimeExpression/Durations.antt =====
-- Which durations time_expression.rs reads.
use zanei.Prelude.{
  ℕ, ◌*◌, ◌≤◌, ◌≡◌, ◌↔◌, refl, ap, ◌∙◌, true, false, some, [], ◌∷◌, ◌++◌, Text, arith, all,
  is_empty, Option-cases, inl, inr, u64_max,
}
use zanei.Prelude.Slices.{trim, is_digit}
use zanei.Core.Privacy.Hosts.{decimal}
use zanei.Core.TimeExpression.{
  ok, i64_max, is_relative_unit, split_last, parse_amount, parse_number, split_relative_expression,
  seconds_per_unit, in_seconds, parse_duration_expression,
}

split_last-snoc :
    (t front : Text) (last : ℕ) → split_last t ≡ some (front, last) → t ≡ front ++ (last ∷ [])
unfolding split_last
split_last-snoc [] front last h = cc
split_last-snoc (c ∷ []) front last h = ground arith
split_last-snoc (c ∷ d ∷ t) front last h = elim (Option-cases (split_last (d ∷ t))) [
  | inl e ↦ absurd (ground (arith, e))
  | inr ((f, l), e) ↦
      let tail = split_last-snoc (d ∷ t) f l e in
      let front_is : front ≡ c ∷ f = ground (arith, e) in
      let last_is : last ≡ l = ground (arith, e) in
      ap (λ (x : Text). c ∷ x) tail ∙ cc (front_is, last_is)
]

-- A positive number of units of time, in digits.
pub record Amount (input : Text) (seconds : ℕ) : Type 0 where
  pub number : Text
  pub unit : ℕ
  pub written : input ≡ number ++ (unit ∷ [])
  pub digits : all is_digit number ≡ true
  pub is_unit : is_relative_unit unit ≡ true
  pub positive : 1 ≤ decimal 0 number
  pub value : seconds ≡ decimal 0 number * seconds_per_unit unit
  pub fits : seconds ≤ i64_max

parse_number-Amount :
    (input number : Text) (unit seconds : ℕ)
    → input ≡ number ++ (unit ∷ [])
    → in_seconds input (parse_number input (some (number, unit))) ≡ ok seconds
    → Amount input seconds
unfolding parse_number parse_amount
parse_number-Amount input number unit seconds w h = record {
  number = number;
  unit = unit;
  written = w;
  digits = ground arith;
  is_unit = ground arith;
  positive = ground arith;
  value = ground arith;
  fits = ground arith;
}

parsed-Amount :
    (input : Text) (seconds : ℕ)
    → parse_duration_expression input ≡ ok seconds
    → Amount (trim input) seconds
unfolding parse_duration_expression split_relative_expression
parsed-Amount input seconds h = elim (Option-cases (split_last (trim input))) [
  | inl e ↦ absurd (ground (arith, e))
  | inr ((number, unit), e) ↦
      parse_number-Amount (trim input) number unit seconds
        (split_last-snoc (trim input) number unit e) (ground (arith, e))
]

snoc-split_last : (front : Text) (last : ℕ) → split_last (front ++ (last ∷ [])) ≡ some (front, last)
unfolding split_last
snoc-split_last [] last = refl
snoc-split_last (c ∷ []) last = refl
snoc-split_last (c ∷ d ∷ t) last = rw (snoc-split_last (d ∷ t) last, split_last) refl

snoc_filled : (front : Text) (last : ℕ) → is_empty (front ++ (last ∷ [])) ≡ false
snoc_filled [] last = refl
snoc_filled (c ∷ t) last = refl

decimal_filled : (number : Text) → 1 ≤ decimal 0 number → is_empty number ≡ false
unfolding decimal
decimal_filled [] h = absurd (omega arith)
decimal_filled (c ∷ t) h = refl

amount_fits : (n unit : ℕ) → n * seconds_per_unit unit ≤ i64_max → n ≤ u64_max
unfolding seconds_per_unit
amount_fits n unit h = ground arith

in_seconds-Amount :
    (input : Text) (seconds : ℕ) (a : Amount input seconds)
    → in_seconds input (parse_number input (some (a.number, a.unit))) ≡ ok seconds
unfolding parse_number parse_amount
in_seconds-Amount input seconds a = ground (
  arith,
  a.digits,
  a.is_unit,
  a.positive,
  a.value,
  a.fits,
  decimal_filled a.number a.positive,
  amount_fits (decimal 0 a.number) a.unit,
)

-- A text is read as a duration exactly when it is, but for white space around it, a positive
-- number in digits and one of the letters s, m, h, d and w, of which that number of seconds,
-- minutes, hours, days or weeks fits in 63 bits of seconds; the duration is then that many
-- seconds.
pub parse_duration_expression-Amount :
    (input : Text) (seconds : ℕ)
    → (parse_duration_expression input ≡ ok seconds) ↔ Amount (trim input) seconds
unfolding parse_duration_expression split_relative_expression
parse_duration_expression-Amount input seconds = (
  parsed-Amount input seconds,
  λ a. ground (
    arith,
    ap is_empty a.written,
    snoc_filled a.number a.unit,
    ap split_last a.written,
    snoc-split_last a.number a.unit,
    in_seconds-Amount (trim input) seconds a,
  ),
)
