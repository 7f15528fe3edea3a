-- ===== src/Examples/Redaction.antt =====
-- The redactors at the texts of redactor.rs's tests.
use zanei.Prelude.{
  ◌≡◌, refl, Text, text, length, All, map, none, text_eq, to_ascii_lowercase, eq_ignore_ascii_case,
}
use zanei.Prelude.Slices.{
  trim_start, trim_end, split, contains_char, contains_text, starts_with, strip_prefix,
}
use zanei.Core.Config.{email, credit_card, token}
use zanei.Core.Privacy.Redactor.{rule_marker, redact_text}
use zanei.Core.Privacy.Redactor.Patterns.{
  take_while, is_email_local_byte, is_email_domain_byte, valid_email_local, valid_email_domain,
  email_at, email_loop, email_ranges, luhn_value, luhn_sum, passes_luhn, digits_of, card_range,
  card_loop, credit_card_ranges,
}
use zanei.Core.Privacy.Redactor.Bounds.{Ordered}
use zanei.Core.Privacy.Redactor.Tokens.{
  is_token_byte, is_base64url_byte, is_identifier_byte, starts_with_ignore_ascii_case,
  word_boundary_before, word_boundary_after, skip_ascii_spaces, scan_token, skip_bearer,
  token_after_sign, token_after_label, token_after_bearer, prefixed_token, jwt_token, find_map,
  tokens_at, token_loop, insert_range, sort_ranges, merge_ranges, normalize_ranges, token_ranges,
  ranges, replace_from, replace_ranges,
}
use zanei.Core.Privacy.Redactor.Merged.{IsCovered, ranges-Ordered, token_ranges-IsCovered}
use zanei.Core.Privacy.Redactor.Replaced.{weave, gaps, matches, redact_text-weave}

abbrev mail : Text
mail = text "mail alice+tag@example.com, then bob@test.dev."

redacted_mail : redact_text mail email ≡ text "mail [REDACTED:email], then [REDACTED:email]."
unfolding redact_text replace_ranges replace_from ranges email_ranges email_loop email_at take_while
    is_email_local_byte is_email_domain_byte valid_email_local valid_email_domain contains_char
    contains_text starts_with strip_prefix trim_start trim_end split rule_marker
redacted_mail = refl

redacted_card :
    redact_text (text "valid 4111 1111 1111 1111 invalid 4111 1111 1111 1112") credit_card
    ≡ text "valid [REDACTED:credit_card] invalid 4111 1111 1111 1112"
unfolding redact_text replace_ranges replace_from ranges credit_card_ranges card_loop card_range
    digits_of trim_start trim_end passes_luhn luhn_sum luhn_value rule_marker
redacted_card = refl

abbrev secrets : Text
secrets =
    text
      "token=abcd1234 sk-testsecret Bearer xyz987 jwt eyJhbGciOiJIUzI1NiJ9.eyJzdWIiOiIxMjMifQ.signature"

redacted_secrets :
    redact_text secrets token
    ≡ text "token=[REDACTED:token] [REDACTED:token] Bearer [REDACTED:token] jwt [REDACTED:token]"
unfolding redact_text replace_ranges replace_from ranges token_ranges normalize_ranges merge_ranges
    sort_ranges insert_range token_loop tokens_at find_map jwt_token prefixed_token
    token_after_bearer token_after_label token_after_sign skip_bearer scan_token skip_ascii_spaces
    word_boundary_after word_boundary_before starts_with_ignore_ascii_case is_identifier_byte
    is_base64url_byte is_token_byte eq_ignore_ascii_case to_ascii_lowercase text_eq contains_char
    starts_with strip_prefix trim_start trim_end take_while split rule_marker
redacted_secrets = refl

ranges-Ordered_example : Ordered 0 (length mail) (ranges mail email)
ranges-Ordered_example = ranges-Ordered mail email

token_ranges-IsCovered_example : All (IsCovered (token_ranges secrets)) (token_loop none 0 secrets)
token_ranges-IsCovered_example = token_ranges-IsCovered secrets

redact_text-weave_example :
    (mail ≡ weave (gaps mail 0 (ranges mail email)) (matches mail (ranges mail email)))
    × (redact_text mail email
        ≡ weave
            (gaps mail 0 (ranges mail email))
            (map (λ r. rule_marker email) (ranges mail email)))
redact_text-weave_example = redact_text-weave mail email
