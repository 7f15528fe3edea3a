-- ===== src/Examples/Policies.antt =====
-- The capture policy at concrete URLs and window titles.
use zanei.Prelude.{
  ◌≡◌, refl, true, Option, none, some, [], ◌∷◌, Text, text, any, if◌then◌else◌, text_eq,
}
use zanei.Prelude.Slices.{split}
use zanei.Core.Config.{CapturePolicyConfig, BrowserPolicy, PolicyMode, PolicyAction}
use zanei.Core.Schema.{App}
use zanei.Core.Privacy.Routes.{
  CaptureDeniedReason, decode, decoded, normalized_segment, one_of, without_extension,
}
use zanei.Core.Privacy.CapturePolicy.{Url, deny, rule_matches, evaluate_url, routes}
use zanei.Core.Privacy.CapturePolicy.Denials.{evaluate_url-auth}

-- A URL parser for two URLs.
abbrev login_url : Url
login_url = record {
  scheme = text "https";
  host_str = some (text "example.com");
  path = text "/users/login";
  fragment = none;
}

abbrev parse : Text → Option Url
parse raw = some login_url

abbrev rules : BrowserPolicy
rules = record {
  mode = PolicyMode.all_sites;
  default_policy = PolicyAction.allow;
  on_url_unavailable = PolicyAction.block;
  block_auth = true;
  block_payments = true;
  allow_list = [];
  block_list = [];
}

abbrev policy : CapturePolicyConfig
policy = record {
  allowed_apps = none;
  browser = rules;
  ide = record { block_env_files = true; on_file_name_unavailable = PolicyAction.allow };
}

evaluate_url-auth_example : evaluate_url rules (text "example.com") login_url ≡ (
    if any (rule_matches (text "example.com") login_url) rules.block_list
    then deny CaptureDeniedReason.blocked_url
    else deny CaptureDeniedReason.authentication_url)
unfolding routes split one_of text_eq normalized_segment without_extension decode decoded
evaluate_url-auth_example =
    evaluate_url-auth rules (text "example.com") login_url (text "example" ∷ [])
      (text "/users/login") ([] ∷ []) ([] ∷ text "users" ∷ []) (text "login") [] refl refl refl refl

abbrev editor : App
editor = record { name = text "Cursor"; bundle_id = none; pid = none }
