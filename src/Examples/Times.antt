-- ===== src/Examples/Times.antt =====
-- Durations, at the texts of the tests of config.rs.
use zanei.Prelude.{◌≡◌, ◌↔◌, refl, text}
use zanei.Prelude.Slices.{trim}
use zanei.Core.TimeExpression.{
  ok, err, invalid_relative, overflow, parse_duration_expression, is_relative_unit,
  seconds_per_unit, split_last,
}
use zanei.Core.Privacy.Hosts.{decimal}
use zanei.Core.TimeExpression.Durations.{Amount, parse_duration_expression-Amount}

fifteen_minutes : parse_duration_expression (text " 15m ") ≡ ok 900
unfolding parse_duration_expression trim split_last is_relative_unit decimal seconds_per_unit
fifteen_minutes = refl

zero_hours : parse_duration_expression (text "0h") ≡ err (invalid_relative (text "0h"))
unfolding parse_duration_expression trim split_last is_relative_unit decimal
zero_hours = refl

too_many_weeks :
    parse_duration_expression (text "18446744073709551615w")
    ≡ err (overflow (text "18446744073709551615w"))
unfolding parse_duration_expression trim split_last is_relative_unit decimal seconds_per_unit
too_many_weeks = refl

parse_duration_expression-Amount_example :
    (parse_duration_expression (text " 15m ") ≡ ok 900) ↔ Amount (trim (text " 15m ")) 900
parse_duration_expression-Amount_example = parse_duration_expression-Amount (text " 15m ") 900
