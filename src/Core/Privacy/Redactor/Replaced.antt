-- ===== src/Core/Privacy/Redactor/Replaced.antt =====
-- What a redactor makes of a text: each match is replaced by the marker of its rule and the rest
-- stays.
use zanei.Prelude.{
  ℕ, sym, take-append-drop, ◌+◌, ◌-◌, ◌≡◌, refl, ap, ◌∙◌, List, [], ◌∷◌, ◌++◌, Text, map, length,
  take, drop, arith,
}
use zanei.Core.Config.{RedactorKind}
use zanei.Core.TextDelta.Cuts.{drop-drop}
use zanei.Core.Privacy.Redactor.{rule_marker, redact_text}
use zanei.Core.Privacy.Redactor.Patterns.{Range}
use zanei.Core.Privacy.Redactor.Tokens.{ranges, replace_from, replace_ranges}
use zanei.Core.Privacy.Redactor.Bounds.{Ordered}
use zanei.Core.Privacy.Redactor.Merged.{ranges-Ordered}

-- The texts of `kept` with those of `between` put between them.
pub weave : List Text → List Text → Text
weave [] between = []
weave (k ∷ kept) [] = k
weave (k ∷ kept) (m ∷ between) = k ++ (m ++ weave kept between)

-- The part of a text from one place to another.
abbrev pub slice : Text → ℕ → ℕ → Text
slice value start end = take (end - start) (drop start value)

-- What the ranges hold of the text, and what they leave of it from a place on.
abbrev pub matches : Text → List Range → List Text
matches value rs = map (λ r. slice value r.0 r.1) rs

abbrev pub gaps : Text → ℕ → List Range → List Text
gaps value from [] = drop from value ∷ []
gaps value from ((start, end) ∷ rs) = slice value from start ∷ gaps value end rs

-- What follows a place falls into the two, in turn.
drop-weave :
    (value : Text) (n from : ℕ) (rs : List Range)
    → Ordered from n rs
    → drop from value ≡ weave (gaps value from rs) (matches value rs)
unfolding weave
drop-weave value n from [] o = refl
drop-weave value n from ((start, end) ∷ rs) o =
    let e : from + (start - from) ≡ start = omega (arith, o.0) in
    let k : start + (end - start) ≡ end = omega (arith, o.1) in
    sym (take-append-drop (start - from) (drop from value))
    ∙ ap (◌++◌ (slice value from start)) (
        drop-drop from (start - from) value
        ∙ ap (λ i. drop i value) e
        ∙ sym (take-append-drop (end - start) (drop start value))
        ∙ ap (◌++◌ (slice value start end)) (
            drop-drop start (end - start) value
            ∙ ap (λ i. drop i value) k
            ∙ drop-weave value n end rs o.2))

replace_from-weave :
    (value : Text) (n from : ℕ) (rs : List Range) (marker : Text)
    → Ordered from n rs
    → replace_from from (drop from value) rs marker
      ≡ weave (gaps value from rs) (map (λ r. marker) rs)
unfolding replace_from weave
replace_from-weave value n from [] marker o = refl
replace_from-weave value n from ((start, end) ∷ rs) marker o =
    let k : from + (end - from) ≡ end = omega (arith, o.0, o.1) in
    ap (λ (t : Text). slice value from start ++ (marker ++ t))
      (ap (λ t. replace_from end t rs marker)
          (drop-drop from (end - from) value ∙ ap (λ i. drop i value) k)
        ∙ replace_from-weave value n end rs marker o.2)

-- The ranges of the rule cut a text into what they hold and, in turn with it, what they leave. Its
-- redacted form is what they leave, unchanged, with the marker of the rule in the place of each
-- range.
pub redact_text-weave :
    (value : Text) (rule : RedactorKind)
    → (value ≡ weave (gaps value 0 (ranges value rule)) (matches value (ranges value rule)))
      × (redact_text value rule
          ≡ weave
              (gaps value 0 (ranges value rule))
              (map (λ r. rule_marker rule) (ranges value rule)))
unfolding redact_text replace_ranges
redact_text-weave value rule =
    let rs = ranges value rule in
    let o = ranges-Ordered value rule in
    (
      drop-weave value (length value) 0 rs o,
      replace_from-weave value (length value) 0 rs (rule_marker rule) o,
    )
