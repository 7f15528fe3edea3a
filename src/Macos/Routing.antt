-- ===== src/Macos/Routing.antt =====
-- crates/zanei-macos/src/text_capture/routing.rs: an event that may carry a text is sent, with the
-- text or without it, or waits in the quarantine.
pub mod Bodies
pub mod Sanctioned
pub mod Confirmed
use zanei.Prelude.{ℕ, Bool, true, false, not, ◌||◌, Option, none, some, Text, if◌then◌else◌}
use zanei.Core.Schema.{Window, Element, EventData}
use zanei.Core.Privacy.CapturePolicy.{Url}
use zanei.Core.Privacy.Filter.{PrivacyScope, suppress_payload, suppress_element, is_web_browser}
use zanei.Core.Normalizer.State.{RawEvent, window_title}
use zanei.Macos.CapturePolicy.{CapturePolicy, CaptureDecision, decision_at_send}
use zanei.Macos.Quarantine.{ChromeWindowKey}

pub data TextBodyRoute : Type 0 where
  send : RawEvent → TextBodyRoute
  quarantine : RawEvent → ChromeWindowKey → ℕ → ℕ → TextBodyRoute

abbrev pub has_text : Option Text → Bool
has_text none = false
has_text (some t) = true

abbrev has_size : Option ℕ → Bool
has_size none = false
has_size (some n) = true

unfoldable pub data_body : EventData → Bool
data_body (EventData.input_key d) = has_text d.text
data_body (EventData.clipboard_copy d) = has_text d.text || has_size d.size_bytes
data_body (EventData.clipboard_paste d) = has_text d.text || has_size d.size_bytes
data_body (EventData.ui_value d) = has_text d.text
data_body d = false

unfoldable pub element_body : Option Element → Bool
element_body none = false
element_body (some e) = has_text e.value

unfoldable pub has_text_body : RawEvent → Bool
has_text_body event = data_body event.payload || element_body event.element

unfoldable pub suppressed : RawEvent → RawEvent
suppressed event = record event {
  payload = suppress_payload event.payload;
  element = suppress_element event.element;
}

abbrev pub id_of : Option Window → Option ℕ
id_of none = none
id_of (some w) = w.id

-- The process, the window and the time of an event that has them.
abbrev pub zip : Option ℕ → Option ℕ → Option ℕ → Option ((ℕ × ℕ) × ℕ)
zip (some pid) (some window_id) (some observed_at) = some ((pid, window_id), observed_at)
zip _ _ _ = none

abbrev pub route_confirmed : RawEvent → ℕ → Option ((ℕ × ℕ) × ℕ) → TextBodyRoute
route_confirmed event version none = send (suppressed event)
route_confirmed event version (some ((pid, window_id), observed_at)) =
    quarantine event (record { pid = pid; window_id = window_id }) version observed_at

abbrev pub route_version : RawEvent → Option ℕ → TextBodyRoute
route_version event none =
    send (if is_web_browser event.app.bundle_id then suppressed event else event)
route_version event (some version) =
    route_confirmed event version (zip event.app.pid (id_of event.window) event.observed_at)

unfoldable pub route_decided : RawEvent → CaptureDecision → TextBodyRoute
route_decided event d =
    if not (has_text_body event)
    then send event
    else if not d.allowed
    then send (suppressed event)
    else route_version event d.chrome_version

module _ (lowercase : Text → Text) (is_ipv6 : Text → Bool) (parse_url : Text → Option Url) where
  unfoldable pub decision_for : RawEvent → CapturePolicy → Option CaptureDecision → CaptureDecision
  decision_for event policy earlier =
      decision_at_send lowercase is_ipv6 parse_url policy PrivacyScope.text_scope event.app
        (id_of event.window) (window_title event.window) earlier

  unfoldable pub route_text_body : RawEvent → CapturePolicy → Option CaptureDecision → TextBodyRoute
  route_text_body event policy earlier =
      let d = decision_for event policy earlier in
      route_decided (record event { capture_context = d.capture_context }) d
