-- ===== src/Core/Privacy/Filter.antt =====
-- crates/zanei-core/src/privacy/mod.rs: the privacy filter, and from normalize.rs the selectors of
-- an event, which are what its decisions read.
-- Parameters: `to_lowercase` and the IPv6 parser of the standard library, the parser of the url
-- crate, and the size of a snapshot's lines as JSON.
pub mod Carried
pub mod Admission
pub mod Refusals
use zanei.Prelude.{
  ℕ, Bool, true, false, not, ◌&&◌, ◌||◌, Option, none, some, List, Text, text, text_eq,
  if◌then◌else◌,
}
use zanei.Prelude.Slices.{starts_with}
use zanei.Core.Config.{FilterConfig, ScopedFilterConfig}
use zanei.Core.Schema.{App, Window, Element, Event, EventData, CaptureContext, ContentSnapshotLine}
use zanei.Core.Limits.{enforce_size_limits}
use zanei.Core.Privacy.Matcher.{app_is_allowed, host_is_allowed}
use zanei.Core.Privacy.Hosts.{extract_url_host}
use zanei.Core.Privacy.CapturePolicy.{
  CapturePolicyDecision, allow, deny, Url, evaluate_capture_policy,
}
use zanei.Core.Privacy.Redactor.{redact_event}

pub data PrivacyScope : Type 0 where
  all_events text_scope snapshot_scope : PrivacyScope

pub record PolicySelectors : Type 0 where
  pub app : App
  pub title : Option Text
  pub url : Option Text

pub record PendingEvent : Type 0 where
  pub event : Event
  pub selectors : PolicySelectors

abbrev title_of : Option Window → Option Text
title_of none = none
title_of (some w) = w.title

abbrev url_of : EventData → CaptureContext → Option Text
url_of (EventData.browser_navigate d) context = d.url
url_of _ context = context.url

-- `NormalizedEvent::new`: the selectors, before the size limits are applied.
unfoldable pub selectors_of : Event → CaptureContext → PolicySelectors
selectors_of event context = record {
  app = record event.app { pid = none };
  title = title_of event.window;
  url = url_of event.payload context;
}

unfoldable pub suppress_element : Option Element → Option Element
suppress_element none = none
suppress_element (some e) = some (record e { value = none })

unfoldable pub suppress_payload : EventData → EventData
suppress_payload (EventData.input_key d) = EventData.input_key (record d { text = none })
suppress_payload (EventData.ui_value d) = EventData.ui_value (record d { text = none })
suppress_payload (EventData.clipboard_copy d) =
    EventData.clipboard_copy (record d { text = none; size_bytes = none })
suppress_payload (EventData.clipboard_paste d) =
    EventData.clipboard_paste (record d { text = none; size_bytes = none })
suppress_payload d = d

unfoldable pub suppress_text_content : Event → Event
suppress_text_content event = record event {
  payload = suppress_payload event.payload;
  element = suppress_element event.element;
}

unfoldable pub host_is_allowed_for : PrivacyScope → Option Text → FilterConfig → Bool
host_is_allowed_for scope none config = false
host_is_allowed_for scope (some host) config =
    host_is_allowed host config.include_only_websites config.exclude_websites && elim scope [
      | all_events ↦ true
      | text_scope ↦
          host_is_allowed host config.text_scope.include_only_websites
            config.text_scope.exclude_websites
      | snapshot_scope ↦
          host_is_allowed host config.snapshot_scope.include_only_websites
            config.snapshot_scope.exclude_websites
    ]

abbrev pub is_web_browser : Option Text → Bool
is_web_browser none = false
is_web_browser (some id) =
    text_eq id (text "com.google.Chrome") || text_eq id (text "com.apple.Safari")

unfoldable pub website_scope_is_allowed : PrivacyScope → App → Option Text → FilterConfig → Bool
website_scope_is_allowed scope app host config =
    if not (is_web_browser app.bundle_id) then true else host_is_allowed_for scope host config

abbrev pub is_none : Option Text → Bool
is_none none = true
is_none (some t) = false

module _ (lowercase : Text → Text) (is_ipv6 : Text → Bool) (parse_url : Text → Option Url) where
  unfoldable pub app_is_allowed_for : PrivacyScope → App → FilterConfig → Bool
  app_is_allowed_for scope app config =
      app_is_allowed lowercase app config.include_only_apps config.exclude_apps && elim scope [
        | all_events ↦ true
        | text_scope ↦
            app_is_allowed lowercase app config.text_scope.include_only_apps
              config.text_scope.exclude_apps
        | snapshot_scope ↦
            app_is_allowed lowercase app config.snapshot_scope.include_only_apps
              config.snapshot_scope.exclude_apps
      ]

  abbrev is_allow : CapturePolicyDecision → Bool
  is_allow allow = true
  is_allow (deny reason) = false

  abbrev pub is_some_policy : FilterConfig → Bool
  is_some_policy config = elim config.capture_policy [ none ↦ false | some policy ↦ true ]

  unfoldable pub policy_allows : FilterConfig → PolicySelectors → Bool
  policy_allows config s = elim config.capture_policy [
    | none ↦ true
    | some policy ↦
        is_allow (evaluate_capture_policy lowercase parse_url policy s.app s.title s.url)
  ]

  unfoldable pub selected_host : PolicySelectors → Option Text
  selected_host s = elim s.url [ none ↦ none | some url ↦ extract_url_host is_ipv6 url ]

  unfoldable pub unavailable_allowed : FilterConfig → PolicySelectors → Bool
  unavailable_allowed config s = is_some_policy config && is_none (selected_host s)

  unfoldable pub site_allowed : PrivacyScope → FilterConfig → PolicySelectors → Bool
  site_allowed scope config s =
      unavailable_allowed config s || website_scope_is_allowed scope s.app (selected_host s) config

  -- The condition under which the text of an event is suppressed.
  unfoldable pub text_denied : FilterConfig → PolicySelectors → Bool
  text_denied config s =
      not (site_allowed all_events config s)
      || not (app_is_allowed_for text_scope s.app config)
      || not (site_allowed text_scope config s)

  module _ (lines_bytes : List ContentSnapshotLine → ℕ) where
    unfoldable pub finish : FilterConfig → PendingEvent → PendingEvent
    finish config p = record p {
      event = enforce_size_limits lines_bytes (
          redact_event
            (if text_denied config p.selectors then suppress_text_content p.event else p.event)
            config.redactors);
    }

    unfoldable pub reprocess : FilterConfig → PendingEvent → Option PendingEvent
    reprocess config p =
        if not (app_is_allowed_for all_events p.selectors.app config)
        then none
        else if not (policy_allows config p.selectors)
        then none
        else if starts_with (text "browser.") p.event.event_type
            && (not (site_allowed all_events config p.selectors)
                || (is_none (selected_host p.selectors)
                    && not (unavailable_allowed config p.selectors)))
        then none
        else if starts_with (text "content.") p.event.event_type
            && (not (app_is_allowed_for snapshot_scope p.selectors.app config)
                || not (site_allowed snapshot_scope config p.selectors))
        then none
        else some (finish config p)

    -- The pipeline's entry: the selectors are bound and the size limits applied, then the filter.
    unfoldable pub process_pending : FilterConfig → Event → CaptureContext → Option PendingEvent
    process_pending config event context = reprocess config (record {
      event = enforce_size_limits lines_bytes event;
      selectors = selectors_of event context;
    })

    unfoldable pub content_snapshot_is_allowed : FilterConfig → App → Option Text → Bool
    content_snapshot_is_allowed config app website_host =
        app_is_allowed_for snapshot_scope app config
        && website_scope_is_allowed snapshot_scope app website_host config
