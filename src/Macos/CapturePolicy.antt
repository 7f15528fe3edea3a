-- ===== src/Macos/CapturePolicy.antt =====
-- crates/zanei-macos/src/capture_policy.rs: the decision to capture a body, and its repetition
-- before the body is sent.
-- The tracker of the browser windows is a record of its two questions. A poisoned lock has no
-- filter. Parameters: those of the privacy filter, and the `<=` of two `f64`.
use zanei.Prelude.{ℕ, Bool, true, false, not, ◌&&◌, ◌||◌, Option, none, some, Text, if◌then◌else◌}
use zanei.Core.Config.{FilterConfig}
use zanei.Core.Schema.{App, CaptureContext}
use zanei.Core.Privacy.CapturePolicy.{allow, deny, Url, evaluate_capture_policy}
use zanei.Core.Privacy.Filter.{PrivacyScope, is_web_browser, app_is_allowed_for}
use zanei.Macos.ContentSnapshot.Trigger.{FieldClass, FocusedField}

pub record CaptureDecision : Type 0 where
  pub allowed : Bool
  pub capture_context : CaptureContext
  pub chrome_version : Option ℕ

-- chrome/eligibility.rs
pub record ChromeEligibilityDecision : Type 0 where
  pub allowed : Bool
  pub capture_context : CaptureContext
  pub version : Option ℕ

pub record ChromeTracker : Type 0 where
  pub decision : PrivacyScope → ℕ → Option ℕ → ChromeEligibilityDecision
  pub observed_at : ℕ → ℕ → Option ℕ

-- `secure_input` is the answer of its probe, and `activity` that of the activity's, where the
-- inner `none` is an error.
pub record CapturePolicy : Type 0 where
  pub chrome : ChromeTracker
  pub filter : Option FilterConfig
  pub secure_input : Option (Option Bool)
  pub activity : Option ℕ

abbrev pub no_context : CaptureContext
no_context = record { url = none; surface = none }

unfoldable pub browser_part :
    CapturePolicy → PrivacyScope → App → Option ℕ → ChromeEligibilityDecision
browser_part policy scope app window_id =
    if not (is_web_browser app.bundle_id)
    then record { allowed = true; capture_context = no_context; version = none }
    else elim app.pid [
      | none ↦ record { allowed = false; capture_context = no_context; version = none }
      | some pid ↦ policy.chrome.decision scope pid window_id
    ]

module _ (lowercase : Text → Text) (is_ipv6 : Text → Bool) (parse_url : Text → Option Url) where
  unfoldable pub policy_allows_app : FilterConfig → App → Option Text → Bool
  policy_allows_app config app title = elim config.capture_policy [
    | none ↦ true
    | some rules ↦
        is_web_browser app.bundle_id
        || elim (evaluate_capture_policy lowercase parse_url rules app title none) [
          | allow ↦ true
          | deny reason ↦ false
        ]
  ]

  unfoldable pub app_allowed : Option FilterConfig → PrivacyScope → App → Option Text → Bool
  app_allowed none scope app title = false
  app_allowed (some config) scope app title =
      app_is_allowed_for lowercase is_ipv6 parse_url scope app config
      && policy_allows_app config app title

  unfoldable pub decision :
      CapturePolicy → PrivacyScope → App → Option ℕ → Option Text → CaptureDecision
  decision policy scope app window_id title =
      let browser = browser_part policy scope app window_id in
      record {
        allowed = app_allowed policy.filter scope app title && browser.allowed;
        capture_context = browser.capture_context;
        chrome_version = browser.version;
      }

  abbrev has_version : Option ℕ → Bool
  has_version none = false
  has_version (some v) = true

  unfoldable pub tightened : CaptureDecision → Option CaptureDecision → CaptureDecision
  tightened current none = current
  tightened current (some earlier) = record {
    allowed =
        (current.allowed && earlier.allowed)
        && not (has_version current.chrome_version && not (has_version earlier.chrome_version));
    capture_context = earlier.capture_context;
    chrome_version = earlier.chrome_version;
  }

  unfoldable pub decision_at_send :
      CapturePolicy
      → PrivacyScope
      → App
      → Option ℕ
      → Option Text
      → Option CaptureDecision
      → CaptureDecision
  decision_at_send policy scope app window_id title earlier =
      tightened (decision policy scope app window_id title) earlier

  abbrev is_known_text : Option FocusedField → Bool
  is_known_text none = false
  is_known_text (some field) = elim field.class [ FieldClass.known_text kind ↦ true | _ ↦ false ]

  unfoldable pub input_decision :
      CapturePolicy → App → Option ℕ → Option Text → Option FocusedField → CaptureDecision
  input_decision policy app window_id title field =
      let d = decision policy PrivacyScope.text_scope app window_id title in
      record d { allowed = d.allowed && is_known_text field }

unfoldable pub secure_input_allows : CapturePolicy → Bool
secure_input_allows policy = elim policy.secure_input [
  | none ↦ false
  | some answer ↦ elim answer [ none ↦ false | some enabled ↦ not enabled ]
]

module _ (le_f64 : ℕ → ℕ → Bool) where
  unfoldable pub refresh_activity_allows : CapturePolicy → Option ℕ → Bool
  refresh_activity_allows policy none = true
  refresh_activity_allows policy (some interval) = elim policy.activity [
    | none ↦ false
    | some seconds ↦ le_f64 seconds interval
  ]
