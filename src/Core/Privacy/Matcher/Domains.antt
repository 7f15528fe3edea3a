-- ===== src/Core/Privacy/Matcher/Domains.antt =====
-- What matcher.rs matches: a domain matches itself and its subdomains, and nothing else.
use mathlib.Core.Bool.{false≢true}
use zanei.Prelude.{
  ℕ, ◌≡◌, ◌≢◌, ◌↔◌, refl, sym, ap, ◌∙◌, ◌⊎◌, inl, inr, Bool, true, false, some, List, [], ◌∷◌, ◌++◌,
  Text, arith, is_empty, last?, any, Option-cases,
}
use zanei.Prelude.Slices.{strip_suffix, strip_suffix-some, strip_suffix-append}
use zanei.Core.Privacy.Matcher.{canonical, at_boundary, domain_matches, host_is_allowed}

-- `host` is the domain, or ends with a dot and the domain.
abbrev pub IsWithin : Text → Text → Type 0
IsWithin host domain =
    (host ≡ domain) ⊎ ((before : Text) × (host ≡ (before ++ b'.' ∷ []) ++ domain))

last?-snoc : (t : Text) (c : ℕ) → last? (t ++ c ∷ []) ≡ some c
last?-snoc [] c = refl
last?-snoc (d ∷ []) c = refl
last?-snoc (d ∷ e ∷ t) c = last?-snoc (e ∷ t) c

any-middle {ℓ} :
    {A : Type ℓ} (p : A → Bool) (before : List A) (x : A) (after : List A)
    → p x ≡ true
    → any p (before ++ x ∷ after) ≡ true
any-middle p [] x after h = ground arith
any-middle p (y ∷ before) x after h = ground (arith, any-middle p before x after h)

-- A text that ends with a character.
ends_in : (t : Text) (c : ℕ) → last? t ≡ some c → (before : Text) × (t ≡ before ++ c ∷ [])
ends_in [] c h = cc
ends_in (d ∷ []) c h = ([], ground arith)
ends_in (d ∷ e ∷ t) c h = let (b, q) = ends_in (e ∷ t) c h in (d ∷ b, ap (λ (x : Text). d ∷ x) q)

last?-cons : (c : ℕ) (t : Text) → (d : ℕ) × (last? (c ∷ t) ≡ some d)
last?-cons c [] = (c, refl)
last?-cons c (d ∷ t) = last?-cons d t

boundary-IsWithin :
    (host domain before : Text)
    → host ≡ before ++ domain
    → at_boundary (some before) ≡ true
    → IsWithin host domain
boundary-IsWithin host domain [] e h = inl e
boundary-IsWithin host domain (c ∷ before) e h =
    let (d, last) = last?-cons c before in
    let (b, cut) = ends_in (c ∷ before) d last in
    let dot : d ≡ b'.' = ground (arith, last) in
    inr (b, e ∙ ap (λ (x : Text). x ++ domain) (cut ∙ ap (λ (x : ℕ). b ++ x ∷ []) dot))

IsWithin-boundary :
    (host domain : Text) → IsWithin host domain → at_boundary (strip_suffix domain host) ≡ true
IsWithin-boundary host domain (inl e) =
    ap (λ (x : Text). at_boundary (strip_suffix domain x)) e
    ∙ ap at_boundary (strip_suffix-append domain [])
IsWithin-boundary host domain (inr (before, e)) =
    ap (λ (x : Text). at_boundary (strip_suffix domain x)) e
    ∙ ap at_boundary (strip_suffix-append domain (before ++ b'.' ∷ []))
    ∙ ground (arith, last?-snoc before b'.')

stripped-IsWithin :
    (host domain : Text) → at_boundary (strip_suffix domain host) ≡ true → IsWithin host domain
stripped-IsWithin host domain h = elim (Option-cases (strip_suffix domain host)) [
  | inl e ↦ absurd (false≢true (sym (ap at_boundary e) ∙ h))
  | inr (before, e) ↦
      boundary-IsWithin host domain before (strip_suffix-some domain host before e)
        (sym (ap at_boundary e) ∙ h)
]

empty_iff : (t : Text) → (is_empty t ≡ false) ↔ (t ≢ [])
empty_iff [] = (λ h. absurd (cc), λ h. absurd (h refl))
empty_iff (c ∷ t) = (λ h e. cc, λ h. refl)

-- A configured domain matches a host exactly when it is not empty and the host is that domain or
-- one of its subdomains, up to case and trailing dots.
pub domain_matches_iff :
    (host domain : Text)
    → (domain_matches host domain ≡ true)
      ↔ ((canonical domain ≢ []) × IsWithin (canonical host) (canonical domain))
unfolding domain_matches
domain_matches_iff host domain = (
  λ h. (
    (empty_iff (canonical domain)).0 (ground arith),
    stripped-IsWithin (canonical host) (canonical domain) (ground arith),
  ),
  λ h. ground (
    arith,
    (empty_iff (canonical domain)).1 h.0,
    IsWithin-boundary (canonical host) (canonical domain) h.1,
  ),
)

-- A host that one excluded domain contains is never allowed, whatever else the lists hold.
pub host_is_allowed-excluded :
    (host domain : Text) (include_only before after : List Text)
    → canonical domain ≢ []
    → IsWithin (canonical host) (canonical domain)
    → host_is_allowed host include_only (before ++ domain ∷ after) ≡ false
unfolding host_is_allowed
host_is_allowed-excluded host domain include_only before after filled within =
    let found : any (λ d. domain_matches host d) (before ++ domain ∷ after) ≡ true =
      any-middle _ before domain after ((domain_matches_iff host domain).1 (filled, within)) in
    ground (arith, found)
