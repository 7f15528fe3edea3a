-- ===== src/Macos/Routing/Bodies.antt =====
-- Which bodies routing.rs lets through, and where to.
use zanei.Prelude.{ℕ, ◌≡◌, refl, ap, Bool, true, false, not, Option, none, some, Text, if_rule}
use zanei.Core.Schema.{Element, EventData}
use zanei.Core.Privacy.CapturePolicy.{Url}
use zanei.Core.Privacy.Filter.{suppress_payload, suppress_element, is_web_browser}
use zanei.Core.Privacy.Filter.Carried.{
  NoPayloadText, NoElementValue, suppress_payload-NoPayloadText, suppress_element-NoElementValue,
}
use zanei.Core.Normalizer.State.{RawEvent}
use zanei.Macos.CapturePolicy.{CapturePolicy, CaptureDecision}
use zanei.Macos.Routing.{
  TextBodyRoute, send, quarantine, data_body, element_body, has_text_body, suppressed, id_of, zip,
  route_confirmed, route_version, route_decided, decision_for, route_text_body, has_text,
}

data_body-NoPayloadText : (d : EventData) → NoPayloadText d → data_body d ≡ false
unfolding data_body
data_body-NoPayloadText (EventData.input_key d) n = ap has_text n
data_body-NoPayloadText (EventData.clipboard_copy d) n = rw (n.0, n.1) refl
data_body-NoPayloadText (EventData.clipboard_paste d) n = rw (n.0, n.1) refl
data_body-NoPayloadText (EventData.ui_value d) n = ap has_text n
data_body-NoPayloadText _ n = refl

element_body-NoElementValue : (e : Option Element) → NoElementValue e → element_body e ≡ false
unfolding element_body
element_body-NoElementValue none n = refl
element_body-NoElementValue (some e) n = ap has_text n

pub has_text_body-none :
    (e : RawEvent) → NoPayloadText e.payload → NoElementValue e.element → has_text_body e ≡ false
unfolding has_text_body
has_text_body-none e p n =
    rw (data_body-NoPayloadText e.payload p, element_body-NoElementValue e.element n) refl

-- What the quarantine leaves of a text that it suppresses.
pub suppressed_body :
    (e : RawEvent)
    → has_text_body
        (record e { payload = suppress_payload e.payload; element = suppress_element e.element })
      ≡ false
suppressed_body e =
    has_text_body-none _ (suppress_payload-NoPayloadText e.payload)
      (suppress_element-NoElementValue e.element)

suppressed-none : (e : RawEvent) → has_text_body (suppressed e) ≡ false
unfolding suppressed
suppressed-none e = suppressed_body e

-- A body that is sent was allowed, and its app is no browser: no version stands for a window. One
-- that waits was allowed too, and waits for its own window with the version of the decision.
abbrev pub IsPrivate : RawEvent → CaptureDecision → TextBodyRoute → Type 0
IsPrivate event d (send e) =
    has_text_body e ≡ true
    → (d.allowed ≡ true) × (d.chrome_version ≡ none) × (is_web_browser event.app.bundle_id ≡ false)
IsPrivate event d (quarantine e key version observed_at) =
    (d.allowed ≡ true)
    × (d.chrome_version ≡ some version)
    × (e ≡ record event { capture_context = d.capture_context })
    × (event.app.pid ≡ some key.pid)
    × (id_of event.window ≡ some key.window_id)
    × (event.observed_at ≡ some observed_at)

-- A suppressed event carries no body.
suppressed-IsPrivate :
    (event : RawEvent) (d : CaptureDecision) (e : RawEvent)
    → IsPrivate event d (send (suppressed e))
suppressed-IsPrivate event d e body = let bare = suppressed-none e in cc

route_confirmed-IsPrivate :
    (event : RawEvent) (d : CaptureDecision) (version : ℕ) (p w o : Option ℕ)
    → d.allowed ≡ true
    → d.chrome_version ≡ some version
    → event.app.pid ≡ p
    → id_of event.window ≡ w
    → event.observed_at ≡ o
    → IsPrivate event d
        (route_confirmed (record event { capture_context = d.capture_context }) version (zip p w o))
route_confirmed-IsPrivate event d version (some pid) (some window_id) (some at) a v p w o =
    (a, v, refl, p, w, o)
route_confirmed-IsPrivate event d version none w o a v hp hw ho = suppressed-IsPrivate event d _
route_confirmed-IsPrivate event d version (some pid) none o a v hp hw ho =
    suppressed-IsPrivate event d _
route_confirmed-IsPrivate event d version (some pid) (some window_id) none a v hp hw ho =
    suppressed-IsPrivate event d _

route_version-IsPrivate :
    (event : RawEvent) (d : CaptureDecision) (version : Option ℕ)
    → d.allowed ≡ true
    → d.chrome_version ≡ version
    → IsPrivate event d
        (route_version (record event { capture_context = d.capture_context }) version)
route_version-IsPrivate event d none a v =
    if_rule (λ e. IsPrivate event d (send e)) (is_web_browser event.app.bundle_id) _ _
      (λ yes. suppressed-IsPrivate event d _) (λ off body. (a, v, off))
route_version-IsPrivate event d (some version) a v =
    route_confirmed-IsPrivate event d version event.app.pid (id_of event.window) event.observed_at a
      v refl refl refl

unnegated : (b : Bool) → not b ≡ false → b ≡ true
unnegated true h = refl
unnegated false h = cc

negated : (b : Bool) → not b ≡ true → b ≡ false
negated true h = cc
negated false h = refl

route_decided-IsPrivate :
    (event : RawEvent) (d : CaptureDecision)
    → IsPrivate event d (route_decided (record event { capture_context = d.capture_context }) d)
unfolding route_decided
route_decided-IsPrivate event d =
    if_rule (IsPrivate event d) (not (has_text_body _)) (send _) _
      (λ bare body. let off = negated _ bare in cc)
      (λ has.
        if_rule (IsPrivate event d) (not d.allowed) _ _ (λ denied. suppressed-IsPrivate event d _)
          (λ a. route_version-IsPrivate event d d.chrome_version (unnegated d.allowed a) refl))

module _ (lowercase : Text → Text) (is_ipv6 : Text → Bool) (parse_url : Text → Option Url) where
  -- A text that is sent at once was allowed by the decision at the sending, and is not that of a
  -- browser. A text that waits was allowed too, and waits as it is, for the window it came from
  -- and the version of that decision.
  pub route_text_body-IsPrivate :
      (event : RawEvent) (policy : CapturePolicy) (earlier : Option CaptureDecision)
      → IsPrivate event
          (decision_for lowercase is_ipv6 parse_url event policy earlier)
          (route_text_body lowercase is_ipv6 parse_url event policy earlier)
  unfolding route_text_body
  route_text_body-IsPrivate event policy earlier = route_decided-IsPrivate event _
