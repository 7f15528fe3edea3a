-- ===== src/Core/TimeExpression.antt =====
-- crates/zanei-core/src/config/time_expression.rs: relative times and durations.
-- Parameters of `parse_time_expression`: the timestamps of the time crate, their RFC 3339 parser
-- and their checked subtraction of seconds.
pub mod Durations
use zanei.Prelude.{
  ℕ, ◌*◌, Bool, true, false, not, ◌&&◌, ◌||◌, Option, none, some, [], ◌∷◌, Text, text, text_eq, leb,
  ◌==◌, if◌then◌else◌, all, is_empty, last?, u64_max,
}
use zanei.Prelude.Slices.{trim, is_digit}
use zanei.Core.Privacy.Hosts.{decimal}

abbrev pub i64_max : ℕ
i64_max = 9223372036854775807

pub data TimeExpressionError : Type 0 where
  empty : TimeExpressionError
  invalid_relative invalid_timestamp overflow : Text → TimeExpressionError

pub data Parsed (A : Type 0) : Type 0 where
  ok : A → Parsed A
  err : TimeExpressionError → Parsed A

unfoldable pub is_relative_unit : ℕ → Bool
is_relative_unit unit = unit == b's' || unit == b'm' || unit == b'h' || unit == b'd' || unit == b'w'

-- A text without its last character, and that character.
unfoldable pub split_last : Text → Option (Text × ℕ)
split_last [] = none
split_last (c ∷ []) = some ([], c)
split_last (c ∷ d ∷ t) = elim (split_last (d ∷ t)) [
  | none ↦ none
  | some (front, last) ↦ some (c ∷ front, last)
]

-- `number.parse::<u64>()` of digits, and the test for zero.
unfoldable pub parse_amount : Text → ℕ → ℕ → Parsed (ℕ × ℕ)
parse_amount input amount unit =
    if not (leb amount u64_max)
    then err (overflow input)
    else if amount == 0
    then err (invalid_relative input)
    else ok (amount, unit)

unfoldable pub parse_number : Text → Option (Text × ℕ) → Parsed (ℕ × ℕ)
unfolding parse_amount
parse_number input none = err (invalid_relative input)
parse_number input (some (number, unit)) =
    if not (is_relative_unit unit)
    then err (invalid_relative input)
    else if is_empty number || not (all is_digit number)
    then err (invalid_relative input)
    else parse_amount input (decimal 0 number) unit

unfoldable pub split_relative_expression : Text → Parsed (ℕ × ℕ)
unfolding parse_number
split_relative_expression input = parse_number input (split_last input)

unfoldable pub seconds_per_unit : ℕ → ℕ
seconds_per_unit unit =
    if unit == b's'
    then 1
    else if unit == b'm'
    then 60
    else if unit == b'h'
    then 60 * 60
    else if unit == b'd'
    then 24 * 60 * 60
    else 7 * 24 * 60 * 60

abbrev pub in_seconds : Text → Parsed (ℕ × ℕ) → Parsed ℕ
in_seconds input (err e) = err e
in_seconds input (ok (amount, unit)) =
    if leb (amount * seconds_per_unit unit) u64_max && leb (amount * seconds_per_unit unit) i64_max
    then ok (amount * seconds_per_unit unit)
    else err (overflow input)

unfoldable pub parse_duration_expression : Text → Parsed ℕ
unfolding split_relative_expression
parse_duration_expression input =
    if is_empty (trim input)
    then err empty
    else in_seconds (trim input) (split_relative_expression (trim input))

module _ (T : Type 0) (parse_rfc3339 : Text → Option T) (checked_sub : T → ℕ → Option T) where
  abbrev or_overflow : Text → Option T → Parsed T
  or_overflow input none = err (overflow input)
  or_overflow input (some t) = ok t

  abbrev before : Text → T → Parsed ℕ → Parsed T
  before input now (err e) = err e
  before input now (ok seconds) = or_overflow input (checked_sub now seconds)

  abbrev or_invalid : Text → Option T → Parsed T
  or_invalid input none = err (invalid_timestamp input)
  or_invalid input (some t) = ok t

  abbrev ends_in_unit : Option ℕ → Bool
  ends_in_unit none = false
  ends_in_unit (some c) = is_relative_unit c

  unfoldable pub parse_time_expression : Text → T → Parsed T
  parse_time_expression input now =
      if is_empty (trim input)
      then err empty
      else if text_eq (trim input) (text "now")
      then ok now
      else if ends_in_unit (last? (trim input))
      then before (trim input) now (parse_duration_expression (trim input))
      else or_invalid (trim input) (parse_rfc3339 (trim input))
