-- ===== src/Examples/Hosts.antt =====
-- matcher.rs and capture_policy.rs at concrete hosts, URLs and routes.
use zanei.Prelude.{
  ℕ, ◌≡◌, ◌≢◌, ◌↔◌, refl, inr, Bool, true, false, some, List, [], ◌∷◌, Text, text, All, arith,
  text_eq,
}
use zanei.Core.Config.{BrowserPolicy, PolicyMode, PolicyAction}
use zanei.Core.Privacy.Matcher.{canonical, domain_matches}
use zanei.Core.Privacy.Matcher.Domains.{IsWithin, domain_matches_iff}
use zanei.Core.Privacy.Hosts.{extract_url_host}
use zanei.Prelude.Slices.{split}
use zanei.Core.Privacy.Routes.{
  CaptureDeniedReason, normalized_segment, scan_route, scan_segments, names_auth, one_of,
  without_extension, decode, decoded,
}
use zanei.Core.Privacy.Routes.Encoding.{
  Spelling, as_is, encoded, Unreserved, spell, normalized_segment-spell,
}

domain_matches_iff_example : (domain_matches (text "mail.bank.test") (text "Bank.test.") ≡ true) ↔ (
    (canonical (text "Bank.test.") ≢ [])
    × IsWithin (canonical (text "mail.bank.test")) (canonical (text "Bank.test.")))
domain_matches_iff_example = domain_matches_iff (text "mail.bank.test") (text "Bank.test.")

filled : canonical (text "Bank.test.") ≢ []
unfolding canonical
filled e = cc

within : IsWithin (canonical (text "mail.bank.test")) (canonical (text "Bank.test."))
unfolding canonical
within = inr (text "mail", refl)

abbrev no_ipv6 : Text → Bool
no_ipv6 t = false

extracted : extract_url_host no_ipv6 (text "https://Example.COM/a") ≡ some (text "example.com")
unfolding extract_url_host
extracted = refl

abbrev rules : BrowserPolicy
rules = record {
  mode = PolicyMode.all_sites;
  default_policy = PolicyAction.allow;
  on_url_unavailable = PolicyAction.block;
  block_auth = true;
  block_payments = true;
  allow_list = [];
  block_list = [];
}

login_route : scan_route rules (text "/a/Login.php") ≡ some CaptureDeniedReason.authentication_url
unfolding scan_route scan_segments split names_auth one_of text_eq normalized_segment
    without_extension decode decoded
login_route = refl

abbrev some_encoded : List (ℕ × Spelling)
some_encoded = (b'l', encoded true false) ∷ (b'o', as_is) ∷ []

abbrev none_encoded : List (ℕ × Spelling)
none_encoded = (b'L', as_is) ∷ (b'o', as_is) ∷ []

some_encoded-Unreserved : All Unreserved some_encoded
some_encoded-Unreserved = ((omega arith, refl), ((omega arith, refl), tt))

none_encoded-Unreserved : All Unreserved none_encoded
none_encoded-Unreserved = ((omega arith, refl), ((omega arith, refl), tt))

normalized_segment-spell_example :
    normalized_segment (spell some_encoded) ≡ normalized_segment (spell none_encoded)
normalized_segment-spell_example =
    normalized_segment-spell some_encoded none_encoded some_encoded-Unreserved
      none_encoded-Unreserved refl
