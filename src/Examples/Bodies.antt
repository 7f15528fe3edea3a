-- ===== src/Examples/Bodies.antt =====
-- The text of a browser's event at the router and in the quarantine.
use mathlib.Core.List.{Memᴰ}
use zanei.Prelude.{
  ℕ, ◌+◌, ◌≡◌, refl, Bool, true, false, Option, none, some, List, [], ◌∷◌, Text, text, All,
  to_ascii_lowercase,
}
use zanei.Core.Config.{FilterConfig, ScopedFilterConfig}
use zanei.Core.Schema.{EventData, CaptureContext, InputKeyKind}
use zanei.Core.Privacy.CapturePolicy.{Url}
use zanei.Core.Normalizer.State.{RawEvent}
use zanei.Macos.CapturePolicy.{
  CapturePolicy, CaptureDecision, app_allowed, browser_part, decision, decision_at_send,
  policy_allows_app, tightened,
}
use zanei.Macos.Quarantine.{
  ChromeWindowKey, ReleasedEvent, TextQuarantine, new_quarantine, hold_text, release, decision_of,
  hold_at, is_confirmed, release_all, released, resolve_confirmed,
}
use zanei.Macos.Quarantine.Parts.{IsPartition}
use zanei.Macos.Quarantine.Released.{release-IsPartition}
use zanei.Macos.Quarantine.Runs.{
  Call, hold_text_call, hold_snapshot_call, release_call, flush_call, call, run, texts_called,
  texts_held, texts_released, run-texts, release-Waits, Waits,
}
use zanei.Macos.Routing.{
  quarantine, has_text_body, route_text_body, decision_for, data_body, route_decided,
}
use zanei.Macos.Routing.Bodies.{IsPrivate, route_text_body-IsPrivate}
use zanei.Core.Privacy.Filter.{app_is_allowed_for}
use zanei.Core.Privacy.Matcher.{app_is_allowed}
use zanei.Macos.Routing.Confirmed.{IsRouted, HasOrigin, confirmed_body}

abbrev no_ipv6 : Text → Bool
no_ipv6 t = false

abbrev no_url : Text → Option Url
no_url t = none

abbrev open_scope : ScopedFilterConfig
open_scope = record {
  exclude_apps = [];
  include_only_apps = [];
  exclude_websites = [];
  include_only_websites = [];
}

abbrev open_filter : FilterConfig
open_filter = record {
  capture_policy = none;
  exclude_apps = [];
  include_only_apps = [];
  exclude_websites = [];
  include_only_websites = [];
  redactors = [];
  text_scope = open_scope;
  snapshot_scope = open_scope;
}

abbrev page : CaptureContext
page = record { url = some (text "https://a.example"); surface = none }

-- A policy whose tracker has seen the window at a time, with a version.
abbrev policy_at : ℕ → ℕ → CapturePolicy
policy_at time version = record {
  chrome = record {
    decision = λ scope pid window_id. record {
      allowed = true;
      capture_context = page;
      version = some version;
    };
    observed_at = λ pid window_id. some time;
  };
  filter = some open_filter;
  secure_input = some (some false);
  activity = none;
}

abbrev typed : RawEvent
typed = record {
  observed_at = some 40;
  source = text "macos.eventtap";
  event_type = text "input.key";
  app = record {
    name = text "Google Chrome";
    bundle_id = some (text "com.google.Chrome");
    pid = some 7;
  };
  window = some (record { title = some (text "Window"); id = some 11 });
  element = none;
  payload = EventData.input_key (record {
    kind = InputKeyKind.text_key;
    modifiers = [];
    count = 1;
    combo = none;
    text = some (text "private");
    field_kind = none;
  });
  capture_context = record { url = none; surface = none };
}

abbrev window : ChromeWindowKey
window = record { pid = 7; window_id = 11 }

abbrev captured : CaptureDecision
captured = record { allowed = true; capture_context = page; chrome_version = some 3 }

abbrev waiting : RawEvent
waiting = record typed { capture_context = page }

typed_waits :
    route_text_body to_ascii_lowercase no_ipv6 no_url typed (policy_at 10 3) (some captured)
    ≡ quarantine waiting window 3 40
unfolding route_text_body route_decided has_text_body data_body decision_for decision_at_send
    tightened decision app_allowed app_is_allowed_for app_is_allowed policy_allows_app browser_part
typed_waits = refl

-- The text stays through one release, and leaves with its body once the window has been observed
-- again, unchanged.
abbrev two_releases : List Call
two_releases =
    hold_text_call waiting window 3 40 20
    ∷ release_call 21 (policy_at 10 3)
    ∷ release_call 25 (policy_at 22 3)
    ∷ []

let_out_whole :
    (run to_ascii_lowercase no_ipv6 no_url (new_quarantine []) two_releases).1
    ≡ record { event = waiting; snapshot_hash = none } ∷ []
unfolding run call release release_all hold_text hold_at is_confirmed resolve_confirmed decision_of
    decision app_allowed app_is_allowed_for app_is_allowed policy_allows_app browser_part released
let_out_whole = refl

two_releases-IsRouted : All (IsRouted to_ascii_lowercase no_ipv6 no_url) two_releases
two_releases-IsRouted = ((typed, policy_at 10 3, captured, typed_waits), (tt, (tt, tt)))

is_let_out :
    Memᴰ {A = ReleasedEvent}
      (record { event = waiting; snapshot_hash = none })
      (run to_ascii_lowercase no_ipv6 no_url (new_quarantine []) two_releases).1
unfolding run call release release_all hold_text hold_at is_confirmed resolve_confirmed decision_of
    decision app_allowed app_is_allowed_for app_is_allowed policy_allows_app browser_part released
is_let_out = Memᴰ.head refl

confirmed_body_example : HasOrigin to_ascii_lowercase no_ipv6 no_url two_releases waiting
unfolding has_text_body data_body
confirmed_body_example =
    confirmed_body to_ascii_lowercase no_ipv6 no_url [] two_releases
      (record { event = waiting; snapshot_hash = none }) two_releases-IsRouted is_let_out refl refl

route_text_body-IsPrivate_example :
    IsPrivate typed
      (decision_for to_ascii_lowercase no_ipv6 no_url typed (policy_at 10 3) (some captured))
      (route_text_body to_ascii_lowercase no_ipv6 no_url typed (policy_at 10 3) (some captured))
route_text_body-IsPrivate_example =
    route_text_body-IsPrivate to_ascii_lowercase no_ipv6 no_url typed (policy_at 10 3)
      (some captured)

abbrev calls : List Call
calls =
    hold_text_call waiting window 3 40 20
    ∷ hold_snapshot_call waiting window 3 5 21
    ∷ release_call 25 (policy_at 22 4)
    ∷ hold_text_call waiting window 4 41 30
    ∷ flush_call
    ∷ hold_text_call waiting window 4 41 50
    ∷ []

abbrev after_calls : TextQuarantine
after_calls = (run to_ascii_lowercase no_ipv6 no_url (new_quarantine []) calls).0

release-IsPartition_example :
    IsPartition to_ascii_lowercase no_ipv6 no_url
      (policy_at 60 4)
      61
      after_calls.held
      (release to_ascii_lowercase no_ipv6 no_url after_calls 61 (policy_at 60 4)).1
      (release to_ascii_lowercase no_ipv6 no_url after_calls 61 (policy_at 60 4)).0.held
release-IsPartition_example =
    release-IsPartition to_ascii_lowercase no_ipv6 no_url (policy_at 60 4) 61 after_calls

run-texts_example :
    texts_called calls + texts_held []
    ≡ texts_released (run to_ascii_lowercase no_ipv6 no_url (new_quarantine []) calls).1
      + texts_held (run to_ascii_lowercase no_ipv6 no_url (new_quarantine []) calls).0.held
run-texts_example = run-texts to_ascii_lowercase no_ipv6 no_url (new_quarantine []) calls

release-Waits_example :
    All
      (Waits to_ascii_lowercase no_ipv6 no_url (policy_at 22 4) 51)
      (call to_ascii_lowercase no_ipv6 no_url
        (run to_ascii_lowercase no_ipv6 no_url (new_quarantine []) calls).0
        (release_call 51 (policy_at 22 4))).0.held
release-Waits_example = release-Waits to_ascii_lowercase no_ipv6 no_url [] calls 51 (policy_at 22 4)
