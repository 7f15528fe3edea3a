-- ===== src/Core/Privacy/Redactor/Patterns.antt =====
-- crates/zanei-core/src/privacy/redactor/patterns.rs: where a text holds an e-mail address, a card
-- number or a token. A range counts code points: every end of a range stands at an ASCII character
-- or at an end of the text, so the byte ranges of the source are these.
use zanei.Prelude.{
  ℕ, suc, ◌+◌, ◌-◌, ◌*◌, ◌%◌, Bool, true, false, not, ◌&&◌, ◌||◌, Option, none, some, List, [], ◌∷◌,
  ◌++◌, reverse, Text, text, leb, ltb, ◌==◌, if◌then◌else◌, all, is_empty, length, first?, last?,
}
use zanei.Prelude.Slices.{split, trim_end, is_digit, is_alphanumeric, contains_char, contains_text}

abbrev pub Range : Type 0
Range = ℕ × ℕ

unfoldable pub take_while : (ℕ → Bool) → Text → Text
take_while p [] = []
take_while p (c ∷ t) = if p c then c ∷ take_while p t else []

abbrev is_char : Option ℕ → (ℕ → Bool) → Bool
is_char none p = false
is_char (some c) p = p c

unfoldable pub is_email_local_byte : ℕ → Bool
is_email_local_byte c = is_alphanumeric c || contains_char c (text "._%+-")

unfoldable pub is_email_domain_byte : ℕ → Bool
is_email_domain_byte c = is_alphanumeric c || c == b'.' || c == b'-'

unfoldable pub valid_email_local : Text → Bool
valid_email_local local =
    not (is_empty local)
    && not (is_char (first? local) (λ c. c == b'.'))
    && not (is_char (last? local) (λ c. c == b'.'))
    && not (contains_text local (text ".."))

unfoldable pub valid_email_domain : Text → Bool
valid_email_domain domain =
    not (is_empty domain)
    && all
        (λ label.
          not (is_empty label)
          && all (λ c. is_alphanumeric c || c == b'-') label
          && is_char (first? label) is_alphanumeric
          && is_char (last? label) is_alphanumeric)
        (split b'.' domain)

-- `ranges.last().is_none_or(|range| range.end <= start)`.
abbrev ends_by : Option ℕ → ℕ → Bool
ends_by none start = true
ends_by (some end) start = leb end start

-- What stands before the position, from the nearest character on, is `before`.
unfoldable pub email_at : ℕ → Text → Option ℕ → ℕ → Text → Option Range
email_at at before last c rest =
    let local = take_while is_email_local_byte before in
    let domain = trim_end (λ d. d == b'.') (take_while is_email_domain_byte rest) in
    if c == b'@'
      && valid_email_local (reverse local)
      && valid_email_domain domain
      && ends_by last (at - length local)
    then some (at - length local, at + 1 + length domain)
    else none

unfoldable pub email_loop : ℕ → Text → Option ℕ → Text → List Range
email_loop at before last [] = []
email_loop at before last (c ∷ rest) = elim (email_at at before last c rest) [
  | some (start, end) ↦ (start, end) ∷ email_loop (suc at) (c ∷ before) (some end) rest
  | none ↦ email_loop (suc at) (c ∷ before) last rest
]

unfoldable pub email_ranges : Text → List Range
email_ranges value = email_loop 0 [] none value

unfoldable pub luhn_value : Bool → ℕ → ℕ
luhn_value false digit = digit
luhn_value true digit = if ltb 9 (digit * 2) then digit * 2 - 9 else digit * 2

-- The sum over the digits from the last one on; every second one is doubled.
unfoldable pub luhn_sum : Bool → List ℕ → ℕ
luhn_sum doubled [] = 0
luhn_sum doubled (d ∷ ds) = luhn_value doubled d + luhn_sum (not doubled) ds

unfoldable pub passes_luhn : List ℕ → Bool
passes_luhn digits = luhn_sum false (reverse digits) % 10 == 0

unfoldable pub digits_of : Text → List ℕ
digits_of [] = []
digits_of (c ∷ t) = let rest = digits_of t in if is_digit c then (c - b'0') ∷ rest else rest

abbrev pub is_card_separator : ℕ → Bool
is_card_separator c = c == b' ' || c == b'-'

-- A candidate that starts at `start`: `run` is its text from the last character on.
unfoldable pub card_range : ℕ → Text → List Range
card_range start run =
    let candidate = trim_end is_card_separator (reverse run) in
    let digits = digits_of candidate in
    if leb 13 (length digits) && leb (length digits) 19 && passes_luhn digits
    then (start, start + length candidate) ∷ []
    else []

-- The loop at `cursor`, in a candidate or, when `run` is empty, in none.
unfoldable pub card_loop : ℕ → ℕ → Text → Text → List Range
card_loop cursor start [] [] = []
card_loop cursor start (d ∷ run) [] = card_range start (d ∷ run)
card_loop cursor start [] (c ∷ rest) = elim (is_digit c) [
  | true ↦ card_loop (suc cursor) cursor (c ∷ []) rest
  | false ↦ card_loop (suc cursor) cursor [] rest
]
card_loop cursor start (d ∷ run) (c ∷ rest) = elim (is_digit c || is_card_separator c) [
  | true ↦ card_loop (suc cursor) start (c ∷ d ∷ run) rest
  | false ↦ card_range start (d ∷ run) ++ card_loop (suc cursor) cursor [] rest
]

unfoldable pub credit_card_ranges : Text → List Range
credit_card_ranges value = card_loop 0 0 [] value
