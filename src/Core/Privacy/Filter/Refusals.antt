-- ===== src/Core/Privacy/Filter/Refusals.antt =====
-- Which events the filter of privacy/mod.rs turns away, whatever else they hold.
use zanei.Prelude.{
  ℕ, ◌≡◌, Bool, true, false, Option, none, some, List, Text, text, arith, Option-cases, inl, inr,
}
use zanei.Prelude.Slices.{starts_with}
use zanei.Core.Config.{FilterConfig, CapturePolicyConfig}
use zanei.Core.Schema.{App, ContentSnapshotLine}
use zanei.Core.Privacy.CapturePolicy.{Url, allow, evaluate_capture_policy}
use zanei.Core.Privacy.Matcher.{app_is_allowed, app_key, is_built_in_exclusion, host_is_allowed}
use zanei.Core.Privacy.Filter.{
  PendingEvent, app_is_allowed_for, policy_allows, site_allowed, selected_host, unavailable_allowed,
  website_scope_is_allowed, host_is_allowed_for, reprocess, is_some_policy, is_web_browser,
}
use zanei.Core.Privacy.Filter.Admission.{admits, reprocess-admits, reprocess-some}

abbrev pub is_admitted : Option PendingEvent → Bool
is_admitted none = false
is_admitted (some p) = true

module _ (lowercase : Text → Text) (is_ipv6 : Text → Bool) (parse_url : Text → Option Url)
    (lines_bytes : List ContentSnapshotLine → ℕ) (config : FilterConfig) where
  -- Two events of one type with the same selectors are decided alike: no body, window or element
  -- takes part in the decision.
  pub reprocess_alike :
      (p q : PendingEvent)
      → p.selectors ≡ q.selectors
      → p.event.event_type ≡ q.event.event_type
      → is_admitted (reprocess lowercase is_ipv6 parse_url lines_bytes config p)
        ≡ is_admitted (reprocess lowercase is_ipv6 parse_url lines_bytes config q)
  reprocess_alike p q s t = ground (
    arith,
    reprocess-admits lowercase is_ipv6 parse_url lines_bytes config p,
    reprocess-admits lowercase is_ipv6 parse_url lines_bytes config q,
  )

  built_in-app_is_allowed :
      (app : App) (include_only exclude : List Text)
      → is_built_in_exclusion lowercase app (app_key app) ≡ true
      → app_is_allowed lowercase app include_only exclude ≡ false
  unfolding app_is_allowed
  built_in-app_is_allowed app include_only exclude h = ground arith

  -- No configuration lets an event of a built-in excluded app pass.
  pub reprocess-built_in :
      (p : PendingEvent)
      → is_built_in_exclusion lowercase p.selectors.app (app_key p.selectors.app) ≡ true
      → reprocess lowercase is_ipv6 parse_url lines_bytes config p ≡ none
  unfolding reprocess app_is_allowed_for
  reprocess-built_in p h = ground (
    arith,
    built_in-app_is_allowed p.selectors.app config.include_only_apps config.exclude_apps h,
  )

  -- Without a capture policy, a browser event that passes has a URL with a host, and in Chrome or
  -- Safari the website lists allow that host.
  pub reprocess-browser :
      (p q : PendingEvent)
      → is_some_policy lowercase is_ipv6 parse_url config ≡ false
      → starts_with (text "browser.") p.event.event_type ≡ true
      → reprocess lowercase is_ipv6 parse_url lines_bytes config p ≡ some q
      → (host : Text) × (selected_host lowercase is_ipv6 parse_url p.selectors ≡ some host)
        × (is_web_browser p.selectors.app.bundle_id ≡ true
            → host_is_allowed host config.include_only_websites config.exclude_websites ≡ true)
  unfolding admits unavailable_allowed site_allowed website_scope_is_allowed host_is_allowed_for
  reprocess-browser p q standalone browser h =
      let (admitted, _) = reprocess-some lowercase is_ipv6 parse_url lines_bytes config p q h in
      elim (Option-cases (selected_host lowercase is_ipv6 parse_url p.selectors)) [
        | inl e ↦ absurd (ground arith)
        | inr (host, e) ↦ (host, e, λ b. ground arith)
      ]

  -- Under a capture policy, an event passes only when the policy allows its app, title and URL.
  pub reprocess-policy :
      (policy : CapturePolicyConfig) (p q : PendingEvent)
      → config.capture_policy ≡ some policy
      → reprocess lowercase is_ipv6 parse_url lines_bytes config p ≡ some q
      → evaluate_capture_policy lowercase parse_url policy p.selectors.app p.selectors.title
          p.selectors.url
        ≡ allow
  unfolding admits policy_allows
  reprocess-policy policy p q on h =
      let (admitted, _) = reprocess-some lowercase is_ipv6 parse_url lines_bytes config p q h in
      ground arith
