-- ===== src/Core/Privacy/Redactor/Found.antt =====
-- Where the token rule of patterns.rs finds tokens: inside the text.
use zanei.Prelude.{
  subst, ℕ, suc, ◌+◌, ◌≤◌, ◌≡◌, refl, ap, true, Option, none, some, List, [], ◌∷◌, Text, text, leb,
  arith, length, length-take, length-drop, take, drop, All, All-append, Option-cases, inl, inr,
  if_rule, eq_ignore_ascii_case, to_ascii_lowercase, text_eq_sound,
}
use zanei.Prelude.Slices.{trim_end, contains_char}
use zanei.Core.Privacy.Redactor.Patterns.{Range, take_while}
use zanei.Core.Privacy.Redactor.Bounds.{length-trim_end, length-take_while}
use zanei.Core.Privacy.Redactor.Tokens.{
  is_token_byte, starts_with_ignore_ascii_case, skip_ascii_spaces, scan_token, bearer, skip_bearer,
  token_after_sign, token_after_label, token_after_bearer, prefixed_token, jwt_token, if_jwt,
  labels, token_prefixes, find_map, optional, tokens_at, token_loop,
}

-- A range that stands in a text of length `n`.
abbrev pub Inside : ℕ → Range → Type 0
Inside n (start, end) = (start ≤ end) × (end ≤ n)

abbrev MaybeInside : ℕ → Option Range → Type 0
MaybeInside n none = Unit
MaybeInside n (some r) = Inside n r

length-to_ascii_lowercase : (t : Text) → length (to_ascii_lowercase t) ≡ length t
unfolding to_ascii_lowercase
length-to_ascii_lowercase [] = refl
length-to_ascii_lowercase (c ∷ t) = ap suc (length-to_ascii_lowercase t)

prefix_fits :
    (value prefix : Text)
    → starts_with_ignore_ascii_case value prefix ≡ true
    → length prefix ≤ length value
unfolding starts_with_ignore_ascii_case eq_ignore_ascii_case
prefix_fits value prefix h = omega (
  arith,
  ap length (
      text_eq_sound (to_ascii_lowercase (take (length prefix) value)) (to_ascii_lowercase prefix)
        h),
  length-to_ascii_lowercase (take (length prefix) value),
  length-to_ascii_lowercase prefix,
  length-take (length prefix) value,
)

-- The position and the text behind it keep their sum.
skip_ascii_spaces-sum :
    (cursor : ℕ) (t : Text)
    → (skip_ascii_spaces cursor t).0 + length (skip_ascii_spaces cursor t).1 ≡ cursor + length t
unfolding skip_ascii_spaces
skip_ascii_spaces-sum cursor [] = refl
skip_ascii_spaces-sum cursor (c ∷ t) = ground (arith, skip_ascii_spaces-sum (suc cursor) t)

scan_token-MaybeInside :
    (n start : ℕ) (rest : Text) (minimum_len : ℕ)
    → start + length rest ≤ n
    → MaybeInside n (scan_token start rest minimum_len)
unfolding scan_token
scan_token-MaybeInside n start rest minimum_len h =
    let found = trim_end (λ c. contains_char c (text ",;:")) (take_while is_token_byte rest) in
    let fits : length found ≤ length rest = omega (
      arith,
      length-trim_end (λ c. contains_char c (text ",;:")) (take_while is_token_byte rest),
      length-take_while is_token_byte rest,
    ) in
    if_rule (MaybeInside n) (leb minimum_len (length found)) (some (start, start + length found))
      none (λ _. (omega arith, omega arith)) (λ _. tt)

skip_bearer-fits :
    (n : ℕ) (at : ℕ × Text)
    → at.0 + length at.1 ≤ n
    → (skip_bearer at).0 + length (skip_bearer at).1 ≤ n
unfolding skip_bearer
skip_bearer-fits n (cursor, rest) h = ground (
  arith,
  prefix_fits rest bearer,
  skip_ascii_spaces-sum (cursor + length bearer) (drop (length bearer) rest),
  length-drop (length bearer) rest,
)

token_after_sign-MaybeInside :
    (n : ℕ) (at : ℕ × Text) → at.0 + length at.1 ≤ n → MaybeInside n (token_after_sign at)
unfolding token_after_sign
token_after_sign-MaybeInside n (cursor, []) h = tt
token_after_sign-MaybeInside n (cursor, c ∷ t) h =
    let behind = skip_bearer (skip_ascii_spaces (suc cursor) t) in
    if_rule (MaybeInside n) _ (scan_token behind.0 behind.1 4) none
      (λ _. scan_token-MaybeInside n behind.0 behind.1 4 (
        skip_bearer-fits n (skip_ascii_spaces (suc cursor) t)
          (omega (arith, skip_ascii_spaces-sum (suc cursor) t))))
      (λ _. tt)

token_after_label-MaybeInside :
    (n : ℕ) (before : Option ℕ) (start : ℕ) (rest label : Text)
    → start + length rest ≤ n
    → MaybeInside n (token_after_label before start rest label)
unfolding token_after_label
token_after_label-MaybeInside n before start rest label h =
    let behind = skip_ascii_spaces (start + length label) (drop (length label) rest) in
    if_rule (MaybeInside n) _ (token_after_sign behind) none
      (λ found. token_after_sign-MaybeInside n behind (
        ground (
          arith,
          prefix_fits rest label,
          length-drop (length label) rest,
          skip_ascii_spaces-sum (start + length label) (drop (length label) rest),
        )))
      (λ _. tt)

token_after_bearer-MaybeInside :
    (n : ℕ) (before : Option ℕ) (start : ℕ) (rest : Text)
    → start + length rest ≤ n
    → MaybeInside n (token_after_bearer before start rest)
unfolding token_after_bearer
token_after_bearer-MaybeInside n before start rest h =
    let behind = skip_ascii_spaces (start + length bearer) (drop (length bearer) rest) in
    if_rule (MaybeInside n) _ (scan_token behind.0 behind.1 4) none
      (λ found. scan_token-MaybeInside n behind.0 behind.1 4 (
        ground (
          arith,
          prefix_fits rest bearer,
          length-drop (length bearer) rest,
          skip_ascii_spaces-sum (start + length bearer) (drop (length bearer) rest),
        )))
      (λ _. tt)

prefixed_token-MaybeInside :
    (n : ℕ) (before : Option ℕ) (start : ℕ) (rest prefix : Text)
    → start + length rest ≤ n
    → MaybeInside n (prefixed_token before start rest prefix)
unfolding prefixed_token
prefixed_token-MaybeInside n before start rest prefix h =
    if_rule (MaybeInside n) _ (scan_token start rest 8) none
      (λ _. scan_token-MaybeInside n start rest 8 h) (λ _. tt)

if_jwt-MaybeInside :
    (n : ℕ) (rest : Text) (o : Option Range) → MaybeInside n o → MaybeInside n (if_jwt rest o)
if_jwt-MaybeInside n rest none h = tt
if_jwt-MaybeInside n rest (some (start, end)) h =
    if_rule (MaybeInside n) _ (some (start, end)) none (λ _. h) (λ _. tt)

jwt_token-MaybeInside :
    (n : ℕ) (before : Option ℕ) (start : ℕ) (rest : Text)
    → start + length rest ≤ n
    → MaybeInside n (jwt_token before start rest)
unfolding jwt_token
jwt_token-MaybeInside n before start rest h =
    if_rule (MaybeInside n) _ (if_jwt rest (scan_token start rest 20)) none
      (λ _.
        if_jwt-MaybeInside n rest (scan_token start rest 20)
          (scan_token-MaybeInside n start rest 20 h))
      (λ _. tt)

find_map-MaybeInside :
    (n : ℕ) (f : Text → Option Range) (words : List Text)
    → ((word : Text) → MaybeInside n (f word))
    → MaybeInside n (find_map f words)
unfolding find_map
find_map-MaybeInside n f [] h = tt
find_map-MaybeInside n f (word ∷ words) h = elim (Option-cases (f word)) [
  | inl e ↦ rw (e, find_map) (find_map-MaybeInside n f words h)
  | inr (r, e) ↦ rw (e, find_map) (subst (MaybeInside n) e (h word))
]

optional-Inside : (n : ℕ) (o : Option Range) → MaybeInside n o → All (Inside n) (optional o)
optional-Inside n none h = tt
optional-Inside n (some r) h = (h, tt)

tokens_at-Inside :
    (n : ℕ) (before : Option ℕ) (start : ℕ) (rest : Text)
    → start + length rest ≤ n
    → All (Inside n) (tokens_at before start rest)
unfolding tokens_at
tokens_at-Inside n before start rest h =
    All-append (Inside n) _ _
      (optional-Inside n _ (
        find_map-MaybeInside n (token_after_label before start rest) labels
          (λ label. token_after_label-MaybeInside n before start rest label h)))
      (All-append (Inside n) _ _
        (optional-Inside n _ (token_after_bearer-MaybeInside n before start rest h))
        (All-append (Inside n) _ _
          (optional-Inside n _ (
            find_map-MaybeInside n (prefixed_token before start rest) token_prefixes
              (λ prefix. prefixed_token-MaybeInside n before start rest prefix h)))
          (optional-Inside n _ (jwt_token-MaybeInside n before start rest h))))

-- Every token that is found stands in the text.
pub token_loop-Inside :
    (n : ℕ) (before : Option ℕ) (cursor : ℕ) (rest : Text)
    → cursor + length rest ≤ n
    → All (Inside n) (token_loop before cursor rest)
unfolding token_loop
token_loop-Inside n before cursor [] h = tt
token_loop-Inside n before cursor (c ∷ rest) h =
    All-append (Inside n) _ _ (tokens_at-Inside n before cursor (c ∷ rest) h)
      (token_loop-Inside n (some c) (suc cursor) rest (omega arith))
