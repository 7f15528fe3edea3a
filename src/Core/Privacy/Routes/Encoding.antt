-- ===== src/Core/Privacy/Routes/Encoding.antt =====
-- Percent-encoding does not hide a word from capture_policy.rs.
use zanei.Prelude.{
  ℕ, zero, suc, ◌+◌, ◌-◌, ◌/◌, ◌%◌, ◌<◌, ◌≡◌, ◌≢◌, refl, ap, sym, ◌∙◌, Bool, true, false, ◌&&◌, not,
  none, some, List, [], ◌∷◌, Text, map, ascii_lower, ltb, ◌==◌, if◌then◌else◌, arith, All,
}
use zanei.Core.Privacy.Routes.{
  decode, decoded, is_unreserved, normalized_segment, without_extension,
}

-- The digit of a number below 16, in the one case of letters or the other.
abbrev hex_char : Bool → ℕ → ℕ
hex_char upper n = if ltb n 10 then n + b'0' else if upper then n - 10 + b'A' else n - 10 + b'a'

abbrev encoded_ok : Bool → Bool → ℕ → Bool
encoded_ok high low c = elim (decoded b'%' (hex_char high (c / 16)) (hex_char low (c % 16))) [
  | none ↦ not (is_unreserved c)
  | some v ↦ v == c && is_unreserved c
]

-- A test of every character under a bound.
table_holds : (ℕ → Bool) → ℕ → Bool
table_holds test zero = true
table_holds test (suc top) = table_holds test top && test top

table_holds-at :
    (test : ℕ → Bool) (top c : ℕ) → c < top → table_holds test top ≡ true → test c ≡ true
unfolding table_holds
table_holds-at test (suc top) c lt holds = ground (arith, table_holds-at test top c)
table_holds-at test zero c lt holds = absurd (omega arith)

encoded_table : (high low : Bool) → table_holds (encoded_ok high low) 128 ≡ true
unfolding table_holds decoded
encoded_table true true = refl
encoded_table true false = refl
encoded_table false true = refl
encoded_table false false = refl

decoded-encoded :
    (high low : Bool) (c : ℕ)
    → c < 128
    → is_unreserved c ≡ true
    → decoded b'%' (hex_char high (c / 16)) (hex_char low (c % 16)) ≡ some c
decoded-encoded high low c h u =
    check (table_holds-at (encoded_ok high low) 128 c h (encoded_table high low))
  where
    check :
        encoded_ok high low c ≡ true
        → decoded b'%' (hex_char high (c / 16)) (hex_char low (c % 16)) ≡ some c
    check ok = ground arith

decoded-ne : (c d e : ℕ) → c ≢ b'%' → decoded c d e ≡ none
unfolding decoded
decoded-ne c d e h = ground arith

decode-plain : (c : ℕ) (rest : Text) → c ≢ b'%' → decode (c ∷ rest) ≡ ascii_lower c ∷ decode rest
unfolding decode
decode-plain c [] h = refl
decode-plain c (d ∷ []) h = refl
decode-plain c (d ∷ e ∷ rest) h = rw (decoded-ne c d e h, decode)

-- A character as it is, or percent-encoded with its two digits in the upper case or the lower one.
pub data Spelling : Type 0 where
  as_is : Spelling
  encoded : Bool → Bool → Spelling

abbrev pub spell : List (ℕ × Spelling) → Text
spell [] = []
spell ((c, encoded high low) ∷ rest) =
    b'%' ∷ hex_char high (c / 16) ∷ hex_char low (c % 16) ∷ spell rest
spell ((c, as_is) ∷ rest) = c ∷ spell rest

abbrev pub Unreserved : ℕ × Spelling → Type 0
Unreserved c = (c.0 < 128) × (is_unreserved c.0 ≡ true)

-- The spelled characters, in lower case.
abbrev pub lower_case : List (ℕ × Spelling) → Text
lower_case = map (λ c. ascii_lower c.0)

unreserved_ne : (c : ℕ) → is_unreserved c ≡ true → c ≢ b'%'
unreserved_ne c h e = ground arith

decode-encoded :
    (high low : Bool) (c : ℕ) (rest : Text)
    → c < 128
    → is_unreserved c ≡ true
    → decode (b'%' ∷ hex_char high (c / 16) ∷ hex_char low (c % 16) ∷ rest)
      ≡ ascii_lower c ∷ decode rest
unfolding decode
decode-encoded high low c rest h u = rw (decoded-encoded high low c h u, decode)

decode-spell : (cs : List (ℕ × Spelling)) → All Unreserved cs → decode (spell cs) ≡ lower_case cs
decode-spell [] h = unfold decode in refl
decode-spell ((c, encoded high low) ∷ cs) h =
    decode-encoded high low c (spell cs) h.0.0 h.0.1
    ∙ ap (λ (t : Text). ascii_lower c ∷ t) (decode-spell cs h.1)
decode-spell ((c, as_is) ∷ cs) h =
    decode-plain c (spell cs) (unreserved_ne c h.0.1)
    ∙ ap (λ (t : Text). ascii_lower c ∷ t) (decode-spell cs h.1)

-- Two spellings of the same unreserved ASCII characters up to upper and lower case, each of them as
-- it is or percent-encoded with hexadecimal digits of any case, are the same segment.
pub normalized_segment-spell :
    (cs ds : List (ℕ × Spelling))
    → All Unreserved cs
    → All Unreserved ds
    → lower_case cs ≡ lower_case ds
    → normalized_segment (spell cs) ≡ normalized_segment (spell ds)
unfolding normalized_segment
normalized_segment-spell cs ds hc hd e =
    ap without_extension (decode-spell cs hc ∙ e ∙ sym (decode-spell ds hd))
