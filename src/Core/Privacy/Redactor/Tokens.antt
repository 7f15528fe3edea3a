-- ===== src/Core/Privacy/Redactor/Tokens.antt =====
-- crates/zanei-core/src/privacy/redactor/patterns.rs: where a text holds a token, and the ranges
-- of one rule, sorted and merged.
use zanei.Prelude.{
  ℕ, suc, ◌+◌, ◌-◌, max, Bool, true, false, not, ◌&&◌, ◌||◌, Option, none, some, List, [], ◌∷◌,
  ◌++◌, Text, text, eq_ignore_ascii_case, leb, ltb, ◌==◌, if◌then◌else◌, all, length, take, drop,
}
use zanei.Prelude.Slices.{split, trim_end, is_alphanumeric, contains_char, starts_with}
use zanei.Core.Config.{RedactorKind, email, credit_card, token}
use zanei.Core.Privacy.Redactor.Patterns.{Range, take_while, email_ranges, credit_card_ranges}

unfoldable pub is_token_byte : ℕ → Bool
is_token_byte c = is_alphanumeric c || contains_char c (text "_-.~+/=")

unfoldable pub is_base64url_byte : ℕ → Bool
is_base64url_byte c = is_alphanumeric c || contains_char c (text "_-=")

unfoldable pub is_identifier_byte : ℕ → Bool
is_identifier_byte c = is_alphanumeric c || c == b'_'

unfoldable pub starts_with_ignore_ascii_case : Text → Text → Bool
starts_with_ignore_ascii_case value prefix =
    eq_ignore_ascii_case (take (length prefix) value) prefix

-- The character before the position, and the text from it on.
unfoldable pub word_boundary_before : Option ℕ → Bool
word_boundary_before none = true
word_boundary_before (some c) = not (is_identifier_byte c)

unfoldable pub word_boundary_after : Text → Bool
word_boundary_after [] = true
word_boundary_after (c ∷ t) = not (is_identifier_byte c)

abbrev is_ascii_whitespace : ℕ → Bool
is_ascii_whitespace c = c == 32 || c == 9 || c == 10 || c == 12 || c == 13

-- The position and the text behind the spaces.
unfoldable pub skip_ascii_spaces : ℕ → Text → ℕ × Text
skip_ascii_spaces cursor [] = (cursor, [])
skip_ascii_spaces cursor (c ∷ t) =
    let rest = skip_ascii_spaces (suc cursor) t in
    if is_ascii_whitespace c then rest else (cursor, c ∷ t)

unfoldable pub scan_token : ℕ → Text → ℕ → Option Range
scan_token start rest minimum_len =
    let found = trim_end (λ c. contains_char c (text ",;:")) (take_while is_token_byte rest) in
    if leb minimum_len (length found) then some (start, start + length found) else none

abbrev pub bearer : Text
bearer = text "bearer"

-- The optional word `bearer` behind a label.
unfoldable pub skip_bearer : ℕ × Text → ℕ × Text
skip_bearer (cursor, rest) =
    if starts_with_ignore_ascii_case rest bearer && word_boundary_after (drop (length bearer) rest)
    then skip_ascii_spaces (cursor + length bearer) (drop (length bearer) rest)
    else (cursor, rest)

unfoldable pub token_after_sign : ℕ × Text → Option Range
token_after_sign (cursor, []) = none
token_after_sign (cursor, c ∷ t) =
    if c == b':' || c == b'='
    then (let (at, rest) = skip_bearer (skip_ascii_spaces (suc cursor) t) in scan_token at rest 4)
    else none

unfoldable pub token_after_label : Option ℕ → ℕ → Text → Text → Option Range
token_after_label before start rest label =
    if starts_with_ignore_ascii_case rest label
      && word_boundary_before before
      && word_boundary_after (drop (length label) rest)
    then token_after_sign (skip_ascii_spaces (start + length label) (drop (length label) rest))
    else none

unfoldable pub token_after_bearer : Option ℕ → ℕ → Text → Option Range
token_after_bearer before start rest =
    let (at, t) = skip_ascii_spaces (start + length bearer) (drop (length bearer) rest) in
    if starts_with_ignore_ascii_case rest bearer
      && word_boundary_before before
      && word_boundary_after (drop (length bearer) rest)
      && not (at == start + length bearer)
    then scan_token at t 4
    else none

unfoldable pub prefixed_token : Option ℕ → ℕ → Text → Text → Option Range
prefixed_token before start rest prefix =
    if starts_with prefix rest && word_boundary_before before then scan_token start rest 8 else none

abbrev valid_segment : Text → Bool
valid_segment segment = leb 4 (length segment) && all is_base64url_byte segment

abbrev three_segments : List Text → Bool
three_segments (a ∷ b ∷ c ∷ []) = valid_segment a && valid_segment b && valid_segment c
three_segments _ = false

abbrev pub if_jwt : Text → Option Range → Option Range
if_jwt rest none = none
if_jwt rest (some (start, end)) =
    if three_segments (split b'.' (take (end - start) rest)) then some (start, end) else none

unfoldable pub jwt_token : Option ℕ → ℕ → Text → Option Range
jwt_token before start rest =
    if word_boundary_before before then if_jwt rest (scan_token start rest 20) else none

abbrev pub labels : List Text
labels =
    text "access_token"
    ∷ text "authorization"
    ∷ text "auth_token"
    ∷ text "api_key"
    ∷ text "api-key"
    ∷ text "apikey"
    ∷ text "secret"
    ∷ text "token"
    ∷ []

abbrev pub token_prefixes : List Text
token_prefixes =
    text "github_pat_"
    ∷ text "xoxb-"
    ∷ text "xoxp-"
    ∷ text "xoxa-"
    ∷ text "xoxr-"
    ∷ text "xoxs-"
    ∷ text "ghp_"
    ∷ text "sk-"
    ∷ []

-- `Iterator::find_map`.
unfoldable pub find_map : (Text → Option Range) → List Text → Option Range
find_map f [] = none
find_map f (x ∷ xs) = elim (f x) [ some r ↦ some r | none ↦ find_map f xs ]

abbrev pub optional : Option Range → List Range
optional none = []
optional (some r) = r ∷ []

unfoldable pub tokens_at : Option ℕ → ℕ → Text → List Range
tokens_at before start rest =
    optional (find_map (token_after_label before start rest) labels)
    ++ (optional (token_after_bearer before start rest)
        ++ (optional (find_map (prefixed_token before start rest) token_prefixes)
            ++ optional (jwt_token before start rest)))

unfoldable pub token_loop : Option ℕ → ℕ → Text → List Range
token_loop before cursor [] = []
token_loop before cursor (c ∷ rest) =
    tokens_at before cursor (c ∷ rest) ++ token_loop (some c) (suc cursor) rest

-- `sort_by_key` with the key (start, end).
abbrev pub key_le : Range → Range → Bool
key_le (s, e) (t, f) = ltb s t || (s == t && leb e f)

unfoldable pub insert_range : Range → List Range → List Range
insert_range r [] = r ∷ []
insert_range r (q ∷ qs) =
    let rest = insert_range r qs in if key_le r q then r ∷ q ∷ qs else q ∷ rest

unfoldable pub sort_ranges : List Range → List Range
sort_ranges [] = []
sort_ranges (r ∷ rs) = insert_range r (sort_ranges rs)

-- The fold, with the last range of the result in hand.
unfoldable pub merge_ranges : Range → List Range → List Range
merge_ranges previous [] = previous ∷ []
merge_ranges (start, end) ((s, e) ∷ rest) = elim (leb s end) [
  | true ↦ merge_ranges (start, max end e) rest
  | false ↦ (start, end) ∷ merge_ranges (s, e) rest
]

abbrev pub merge_all : List Range → List Range
merge_all [] = []
merge_all (r ∷ rs) = merge_ranges r rs

unfoldable pub normalize_ranges : List Range → List Range
normalize_ranges rs = merge_all (sort_ranges rs)

unfoldable pub token_ranges : Text → List Range
token_ranges value = normalize_ranges (token_loop none 0 value)

unfoldable pub ranges : Text → RedactorKind → List Range
ranges value email = email_ranges value
ranges value credit_card = credit_card_ranges value
ranges value token = token_ranges value

unfoldable pub replace_from : ℕ → Text → List Range → Text → Text
replace_from cursor rest [] replacement = rest
replace_from cursor rest ((start, end) ∷ rs) replacement =
    take (start - cursor) rest
    ++ (replacement ++ replace_from end (drop (end - cursor) rest) rs replacement)

-- The loop of `replace_ranges` over the text that is left behind the cursor.
unfoldable pub replace_ranges : Text → List Range → Text → Text
replace_ranges value rs replacement = replace_from 0 value rs replacement
