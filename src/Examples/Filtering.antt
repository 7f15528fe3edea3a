-- ===== src/Examples/Filtering.antt =====
-- The privacy filter at concrete events.
use zanei.Prelude.{
  ap, ◌∙◌, ℕ, ◌+◌, ◌*◌, ◌≡◌, refl, Bool, true, false, Option, none, some, List, [], ◌∷◌, Text, text,
  length, if◌then◌else◌, to_ascii_lowercase,
}
use zanei.Prelude.Slices.{starts_with, trim}
use zanei.Core.Config.{
  FilterConfig, ScopedFilterConfig, CapturePolicyConfig, BrowserPolicy, PolicyMode, PolicyAction,
  email,
}
use zanei.Core.Schema.{App, Event, EventData, ContentSnapshotLine, FieldKind, BrowserMode}
use zanei.Core.Privacy.Matcher.{host_is_allowed, app_is_allowed}
use zanei.Core.Privacy.Routes.{one_of}
use zanei.Core.Privacy.CapturePolicy.{Url, evaluate_capture_policy, app_name_key}
use zanei.Core.Privacy.Filter.{
  PolicySelectors, PendingEvent, finish, reprocess, selected_host, is_web_browser,
  app_is_allowed_for, host_is_allowed_for, policy_allows, site_allowed, text_denied,
  unavailable_allowed, website_scope_is_allowed,
}
use zanei.Core.Privacy.Filter.Carried.{NoText}
use zanei.Core.Privacy.Filter.Admission.{
  reprocess_again, reprocess_relaxed, admits, reprocess-admits, finish-HasType, reprocess-NoText,
}
use zanei.Core.Privacy.Hosts.{extract_url_host}
use zanei.Core.Privacy.Filter.Refusals.{is_admitted, reprocess_alike, reprocess-browser}

abbrev bytes : List ContentSnapshotLine → ℕ
bytes lines = 2 + 60 * length lines

abbrev no_ipv6 : Text → Bool
no_ipv6 t = false

-- A URL parser for two URLs.
abbrev login_url : Url
login_url = record {
  scheme = text "https";
  host_str = some (text "example.com");
  path = text "/users/login";
  fragment = none;
}

abbrev parse : Text → Option Url
parse raw = some login_url

abbrev rules : BrowserPolicy
rules = record {
  mode = PolicyMode.all_sites;
  default_policy = PolicyAction.allow;
  on_url_unavailable = PolicyAction.block;
  block_auth = true;
  block_payments = true;
  allow_list = [];
  block_list = [];
}

abbrev policy : CapturePolicyConfig
policy = record {
  allowed_apps = none;
  browser = rules;
  ide = record { block_env_files = true; on_file_name_unavailable = PolicyAction.allow };
}

abbrev open_scope : ScopedFilterConfig
open_scope = record {
  exclude_apps = [];
  include_only_apps = [];
  exclude_websites = [];
  include_only_websites = [];
}

-- Standalone: no capture policy, and the text of one app is denied.
abbrev standalone : FilterConfig
standalone = record {
  capture_policy = none;
  exclude_apps = [];
  include_only_apps = [];
  exclude_websites = [];
  include_only_websites = [];
  redactors = email ∷ [];
  text_scope = record open_scope { exclude_apps = text "Notes" ∷ [] };
  snapshot_scope = open_scope;
}

abbrev event_of : App → Text → EventData → Event
event_of app event_type payload = record {
  version = 1;
  id = text "evt_01";
  ts = text "2026-01-01T00:00:00.000Z";
  mono_ns = 5;
  source = text "test";
  event_type = event_type;
  app = app;
  window = none;
  element = none;
  payload = payload;
  redaction = record { applied = false; rules = [] };
}

abbrev selectors : App → Option Text → PolicySelectors
selectors app url = record { app = app; title = none; url = url }

abbrev notes : App
notes = record { name = text "Notes"; bundle_id = none; pid = none }

abbrev typed : PendingEvent
typed = record {
  event = event_of notes (text "ui.value") (
      EventData.ui_value
        (record { field_kind = none; value_len = some 4; text = some (text "a@b.co") }));
  selectors = selectors notes none;
}

abbrev after : PendingEvent → PendingEvent
after p = finish to_ascii_lowercase no_ipv6 parse bytes standalone p

typed_passes :
    reprocess to_ascii_lowercase no_ipv6 parse bytes standalone typed ≡ some (after typed)
unfolding reprocess app_is_allowed_for app_is_allowed policy_allows starts_with
typed_passes = refl

reprocess_again_example :
    reprocess to_ascii_lowercase no_ipv6 parse bytes standalone (after typed)
    ≡ some (after (after typed))
reprocess_again_example =
    reprocess_again to_ascii_lowercase no_ipv6 parse bytes standalone typed (after typed)
      typed_passes

reprocess-NoText_example : NoText (after typed).event
unfolding text_denied site_allowed unavailable_allowed website_scope_is_allowed app_is_allowed_for
    app_is_allowed
reprocess-NoText_example =
    reprocess-NoText to_ascii_lowercase no_ipv6 parse bytes standalone typed (after typed) refl
      typed_passes

abbrev longer : PendingEvent
longer = record typed {
  event = event_of notes (text "ui.value") (
      EventData.ui_value
        (record { field_kind = some FieldKind.search; value_len = none; text = none }));
}

reprocess_alike_example :
    is_admitted (reprocess to_ascii_lowercase no_ipv6 parse bytes standalone typed)
    ≡ is_admitted (reprocess to_ascii_lowercase no_ipv6 parse bytes standalone longer)
reprocess_alike_example =
    reprocess_alike to_ascii_lowercase no_ipv6 parse bytes standalone typed longer refl refl

abbrev keychain : App
keychain = record { name = text "Keychain Access"; bundle_id = none; pid = none }

abbrev locked : PendingEvent
locked = record {
  event = event_of keychain (text "app.launch") EventData.app_launch;
  selectors = selectors keychain none;
}

abbrev chrome : App
chrome = record {
  name = text "Google Chrome";
  bundle_id = some (text "com.google.Chrome");
  pid = none;
}

abbrev visited : PendingEvent
visited = record {
  event = event_of chrome (text "browser.navigate") (
      EventData.browser_navigate (record {
        url = some (text "https://Example.com/a");
        tab_title = none;
        mode = BrowserMode.normal;
        transition = none;
      }));
  selectors = selectors chrome (some (text "https://Example.com/a"));
}

visited_passes :
    reprocess to_ascii_lowercase no_ipv6 parse bytes standalone visited ≡ some (after visited)
unfolding reprocess app_is_allowed_for app_is_allowed policy_allows starts_with site_allowed
    unavailable_allowed website_scope_is_allowed host_is_allowed_for selected_host extract_url_host
    host_is_allowed
visited_passes = refl

reprocess-browser_example :
    (host : Text) × (selected_host to_ascii_lowercase no_ipv6 parse visited.selectors ≡ some host)
    × (is_web_browser (some (text "com.google.Chrome")) ≡ true
        → host_is_allowed host standalone.include_only_websites standalone.exclude_websites ≡ true)
unfolding starts_with
reprocess-browser_example =
    reprocess-browser to_ascii_lowercase no_ipv6 parse bytes standalone visited (after visited) refl
      refl visited_passes

abbrev supervised : FilterConfig
supervised = record standalone { capture_policy = some policy }

abbrev under_policy : PendingEvent
under_policy = finish to_ascii_lowercase no_ipv6 parse bytes supervised typed

typed_passes_policy :
    reprocess to_ascii_lowercase no_ipv6 parse bytes supervised typed ≡ some under_policy
unfolding reprocess app_is_allowed_for app_is_allowed policy_allows evaluate_capture_policy one_of
    app_name_key trim starts_with
typed_passes_policy = refl

-- The same configuration without the rule that denies text.
abbrev relaxed : FilterConfig
relaxed = record standalone { text_scope = open_scope }

abbrev after_relaxed : PendingEvent
after_relaxed = finish to_ascii_lowercase no_ipv6 parse bytes relaxed (after typed)

relaxed-admits :
    (if admits to_ascii_lowercase no_ipv6 parse bytes relaxed typed.selectors (text "ui.value")
      then some after_relaxed
      else none)
    ≡ some after_relaxed
unfolding admits app_is_allowed_for app_is_allowed policy_allows starts_with
relaxed-admits = refl

relaxed_passes :
    reprocess to_ascii_lowercase no_ipv6 parse bytes relaxed (after typed) ≡ some after_relaxed
unfolding finish
relaxed_passes =
    reprocess-admits to_ascii_lowercase no_ipv6 parse bytes relaxed (after typed)
    ∙ ap
        (λ (t : Text).
          if admits to_ascii_lowercase no_ipv6 parse bytes relaxed typed.selectors t
          then some after_relaxed
          else none)
        (finish-HasType to_ascii_lowercase no_ipv6 parse bytes standalone typed)
    ∙ relaxed-admits

reprocess_relaxed_example : NoText after_relaxed.event
unfolding text_denied site_allowed unavailable_allowed website_scope_is_allowed app_is_allowed_for
    app_is_allowed
reprocess_relaxed_example =
    reprocess_relaxed to_ascii_lowercase no_ipv6 parse bytes standalone relaxed typed (after typed)
      after_relaxed refl typed_passes relaxed_passes
