-- ===== src/Core/Timeline/Activity/Numerals.antt =====
-- crates/zanei-core/src/timeline: the numbers in an activity and in the Markdown text.
use zanei.Prelude.{
  ℕ, zero, suc, ◌+◌, ◌*◌, ◌/◌, ◌%◌, ◌<◌, ◌≡◌, refl, ap, ◌∙◌, inl, inr, [], ◌∷◌, Text, arith, ltb,
  not_ltb→le, true, false, Bool-cases,
}
use zanei.Prelude.Ordered.{digits, to_string}
use zanei.Core.Privacy.Hosts.{decimal}

digits_last :
    (fuel n : ℕ) (rest : Text) → ltb n 10 ≡ true → digits (suc fuel) n rest ≡ (b'0' + n) ∷ rest
unfolding digits
digits_last fuel n rest h = rw (h, digits) refl

digits_next :
    (fuel n : ℕ) (rest : Text)
    → ltb n 10 ≡ false
    → digits (suc fuel) n rest ≡ digits fuel (n / 10) ((b'0' + n % 10) ∷ rest)
unfolding digits
digits_next fuel n rest h = rw (h, digits) refl

decimal_digit : (a d : ℕ) (rest : Text) → decimal a ((b'0' + d) ∷ rest) ≡ decimal (a * 10 + d) rest
unfolding decimal
decimal_digit a d rest = ap (λ x. decimal x rest) (omega arith)

decimal-digits :
    (fuel n : ℕ) (rest : Text) → n < fuel → decimal 0 (digits fuel n rest) ≡ decimal n rest
decimal-digits zero n rest h = absurd (omega arith)
decimal-digits (suc fuel) n rest h = elim (Bool-cases (ltb n 10)) [
  | inl e ↦
      ap (decimal 0) (digits_last fuel n rest e)
      ∙ decimal_digit 0 n rest
      ∙ ap (λ x. decimal x rest) (omega arith)
  | inr e ↦
      ap (decimal 0) (digits_next fuel n rest e)
      ∙ decimal-digits fuel (n / 10) ((b'0' + n % 10) ∷ rest) (omega (arith, not_ltb→le n 10 e))
      ∙ decimal_digit (n / 10) (n % 10) rest
      ∙ ap (λ x. decimal x rest) (omega arith)
]

-- The digits of a number are read back as that number.
pub decimal-to_string : (n : ℕ) → decimal 0 (to_string n) ≡ n
unfolding to_string decimal
decimal-to_string n = decimal-digits (suc n) n [] (omega arith)
