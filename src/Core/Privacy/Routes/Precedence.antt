-- ===== src/Core/Privacy/Routes/Precedence.antt =====
-- Which reason capture_policy.rs gives for a URL: authentication before payment.
use zanei.Prelude.{◌≡◌, Bool, true, ◌&&◌, ◌||◌, some, List, [], ◌∷◌, ◌++◌, Text, arith}
use zanei.Core.Config.{BrowserPolicy}
use zanei.Core.Privacy.Routes.{
  CaptureDeniedReason, normalized_segment, names_auth, one_of, auth_words, payment_words,
  scan_segments, scan_route, scan_routes, is_some_reason,
}

names_auth-word :
    (previous segment : Text)
    → one_of segment auth_words ≡ true
    → names_auth previous segment ≡ true
unfolding names_auth
names_auth-word previous segment h = rw h

-- A segment that is an authentication word is found whatever stands before it, payments included.
pub scan_segments-auth :
    (rules : BrowserPolicy) (previous : Text) (payment : Bool) (before : List Text) (raw : Text)
    (after : List Text)
    → rules.block_auth ≡ true
    → one_of (normalized_segment raw) auth_words ≡ true
    → scan_segments rules previous payment (before ++ raw ∷ after)
      ≡ some CaptureDeniedReason.authentication_url
unfolding scan_segments
scan_segments-auth rules previous payment [] raw after on found =
    rw (on, names_auth-word previous (normalized_segment raw) found)
scan_segments-auth rules previous payment (b ∷ before) raw after on found = ground (
  arith,
  scan_segments-auth rules (normalized_segment b)
      (payment || (rules.block_payments && one_of (normalized_segment b) payment_words)) before raw
      after on found,
)

-- An authentication match in one of the routes decides, whatever the other routes hold.
pub scan_routes-auth :
    (rules : BrowserPolicy) (payment : Bool) (before : List Text) (route : Text) (after : List Text)
    → scan_route rules route ≡ some CaptureDeniedReason.authentication_url
    → scan_routes rules payment (before ++ route ∷ after)
      ≡ some CaptureDeniedReason.authentication_url
unfolding scan_routes
scan_routes-auth rules payment [] route after found = ground arith
scan_routes-auth rules payment (b ∷ before) route after found = ground (
  arith,
  scan_routes-auth rules (payment || is_some_reason (scan_route rules b)) before route after found,
)
