-- ===== src/Core/Privacy/Routes.antt =====
-- crates/zanei-core/src/privacy/capture_policy.rs: the words of a URL's route that name a page for
-- authentication or payment. The parts of a parsed URL are ASCII, so a byte is a character.
pub mod Precedence
pub mod Encoding
use zanei.Prelude.{
  ℕ, ◌+◌, ◌-◌, ◌*◌, ◌≤◌, Bool, true, false, not, ◌&&◌, ◌||◌, Option, none, some, List, [], ◌∷◌,
  Text, text, text_eq, ascii_lower, leb, ltb, ◌==◌, if◌then◌else◌, all, any, is_empty, length,
}
use zanei.Prelude.Slices.{rsplit_once, split, is_digit, is_alphanumeric}
use zanei.Core.Config.{BrowserPolicy}

pub data CaptureDeniedReason : Type 0 where
  protected_app app_not_allowed browser_off url_unavailable blocked_url : CaptureDeniedReason
  authentication_url payment_url default_denied file_name_unavailable env_file : CaptureDeniedReason

unfoldable pub hex_digit : ℕ → Option ℕ
hex_digit byte =
    if leb b'0' byte && leb byte b'9'
    then some (byte - b'0')
    else if leb b'a' byte && leb byte b'f'
    then some (byte - b'a' + 10)
    else if leb b'A' byte && leb byte b'F'
    then some (byte - b'A' + 10)
    else none

abbrev pub is_unreserved : ℕ → Bool
is_unreserved value =
    is_alphanumeric value || value == b'-' || value == b'.' || value == b'_' || value == b'~'

abbrev hex_value : Option ℕ → Option ℕ → Option ℕ
hex_value (some high) (some low) = some (high * 16 + low)
hex_value _ _ = none

-- The unreserved character that `%de` stands for.
abbrev unreserved_only : Option ℕ → Option ℕ
unreserved_only none = none
unreserved_only (some value) = if is_unreserved value then some value else none

unfoldable pub decoded : ℕ → ℕ → ℕ → Option ℕ
unfolding hex_digit
decoded c d e = if c == b'%' then unreserved_only (hex_value (hex_digit d) (hex_digit e)) else none

-- The loop over the bytes of a segment.
unfoldable pub decode : Text → Text
decode [] = []
decode (c ∷ []) = ascii_lower c ∷ []
decode (c ∷ d ∷ []) = ascii_lower c ∷ decode (d ∷ [])
decode (c ∷ d ∷ e ∷ rest) = elim (decoded c d e) [
  | some value ↦ ascii_lower value ∷ decode rest
  | none ↦ ascii_lower c ∷ decode (d ∷ e ∷ rest)
]

-- One trailing extension is dropped.
unfoldable pub without_extension : Text → Text
unfolding rsplit_once
without_extension t = elim (rsplit_once b'.' t) [
  | none ↦ t
  | some (stem, extension) ↦
      if not (is_empty stem)
        && leb 1 (length extension)
        && leb (length extension) 10
        && all is_alphanumeric extension
      then stem
      else t
]

unfoldable pub normalized_segment : Text → Text
normalized_segment raw = without_extension (decode raw)

unfoldable pub one_of : Text → List Text → Bool
one_of t words = any (λ w. text_eq t w) words

abbrev pub auth_words : List Text
auth_words =
    text "login"
    ∷ text "log-in"
    ∷ text "signin"
    ∷ text "sign-in"
    ∷ text "sign_in"
    ∷ text "signup"
    ∷ text "sign-up"
    ∷ text "sign_up"
    ∷ text "register"
    ∷ text "registration"
    ∷ text "oauth"
    ∷ text "oauth2"
    ∷ text "authorize"
    ∷ text "reset-password"
    ∷ text "reset_password"
    ∷ text "password-reset"
    ∷ text "password_reset"
    ∷ text "forgot-password"
    ∷ text "forgot_password"
    ∷ []

abbrev pub payment_words : List Text
payment_words =
    text "checkout"
    ∷ text "payment"
    ∷ text "payments"
    ∷ text "billing"
    ∷ text "subscription"
    ∷ text "subscriptions"
    ∷ []

unfoldable pub names_auth : Text → Text → Bool
names_auth previous segment =
    one_of segment auth_words
    || (text_eq previous (text "password") && one_of segment (text "reset" ∷ text "forgot" ∷ []))

abbrev pub payment_if : Bool → Option CaptureDeniedReason
payment_if true = some CaptureDeniedReason.payment_url
payment_if false = none

-- The loop of `scan_route`, over the segments.
unfoldable pub scan_segments : BrowserPolicy → Text → Bool → List Text → Option CaptureDeniedReason
scan_segments rules previous payment [] = payment_if payment
scan_segments rules previous payment (raw ∷ rest) =
    let segment = normalized_segment raw in
    let next =
      scan_segments rules segment
        (payment || (rules.block_payments && one_of segment payment_words)) rest in
    if rules.block_auth && names_auth previous segment
    then some CaptureDeniedReason.authentication_url
    else next

unfoldable pub scan_route : BrowserPolicy → Text → Option CaptureDeniedReason
scan_route rules route = scan_segments rules [] false (split b'/' route)

-- The loop of `preset_match`, over the leading host label, the path and the fragment.
abbrev pub is_auth : Option CaptureDeniedReason → Bool
is_auth (some CaptureDeniedReason.authentication_url) = true
is_auth _ = false

abbrev pub is_some_reason : Option CaptureDeniedReason → Bool
is_some_reason none = false
is_some_reason (some r) = true

unfoldable pub scan_routes : BrowserPolicy → Bool → List Text → Option CaptureDeniedReason
scan_routes rules payment [] = payment_if payment
scan_routes rules payment (route ∷ rest) =
    let next = scan_routes rules (payment || is_some_reason (scan_route rules route)) rest in
    if is_auth (scan_route rules route) then some CaptureDeniedReason.authentication_url else next
