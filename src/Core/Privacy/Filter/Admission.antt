-- ===== src/Core/Privacy/Filter/Admission.antt =====
-- Which events the filter of privacy/mod.rs admits, and what it gives of them.
use zanei.Prelude.{
  ℕ, ◌≡◌, refl, subst, Bool, true, not, ◌&&◌, ◌||◌, Option, none, some, List, Text, text, arith,
  if_rule, if◌then◌else◌,
}
use zanei.Prelude.Slices.{starts_with}
use zanei.Core.Config.{FilterConfig}
use zanei.Core.Schema.{ContentSnapshotLine}
use zanei.Core.Limits.Bounds.{IsBounded, enforce_size_limits-IsBounded}
use zanei.Core.Privacy.CapturePolicy.{Url}
use zanei.Core.Privacy.Filter.{
  all_events, snapshot_scope, PolicySelectors, PendingEvent, app_is_allowed_for, policy_allows,
  site_allowed, selected_host, unavailable_allowed, text_denied, finish, reprocess,
  suppress_text_content, is_none,
}
use zanei.Core.Privacy.Filter.Carried.{
  redact_event-IsCarried, HasType, HasType-IsCarried, NoText, NoText-IsCarried,
  enforce_size_limits-NoText, enforce_size_limits-HasType, suppress_text_content-NoText,
}

module _ (lowercase : Text → Text) (is_ipv6 : Text → Bool) (parse_url : Text → Option Url)
    (lines_bytes : List ContentSnapshotLine → ℕ) (config : FilterConfig) where
  -- The decision, which reads the selectors and the type of the event alone.
  unfoldable pub admits : PolicySelectors → Text → Bool
  admits s event_type =
      app_is_allowed_for lowercase is_ipv6 parse_url all_events s.app config
      && policy_allows lowercase is_ipv6 parse_url config s
      && not (
          starts_with (text "browser.") event_type
          && (not (site_allowed lowercase is_ipv6 parse_url all_events config s)
              || (is_none (selected_host lowercase is_ipv6 parse_url s)
                  && not (unavailable_allowed lowercase is_ipv6 parse_url config s))))
      && not (
          starts_with (text "content.") event_type
          && (not (app_is_allowed_for lowercase is_ipv6 parse_url snapshot_scope s.app config)
              || not (site_allowed lowercase is_ipv6 parse_url snapshot_scope config s)))

  -- An event passes the filter exactly when its selectors and its type are admitted, and what
  -- passes is then its finished form: no other field of the event takes part in the decision.
  pub reprocess-admits :
      (p : PendingEvent)
      → reprocess lowercase is_ipv6 parse_url lines_bytes config p ≡ (
          if admits p.selectors p.event.event_type
          then some (finish lowercase is_ipv6 parse_url lines_bytes config p)
          else none)
  unfolding reprocess admits
  reprocess-admits p = ground arith

  pub reprocess-some :
      (p q : PendingEvent)
      → reprocess lowercase is_ipv6 parse_url lines_bytes config p ≡ some q
      → (admits p.selectors p.event.event_type ≡ true)
        × (finish lowercase is_ipv6 parse_url lines_bytes config p ≡ q)
  reprocess-some p q h = ground (arith, reprocess-admits p)

  pub finish-HasType :
      (p : PendingEvent)
      → (finish lowercase is_ipv6 parse_url lines_bytes config p).event.event_type
        ≡ p.event.event_type
  unfolding finish suppress_text_content
  finish-HasType p = enforce_size_limits-HasType lines_bytes p.event.event_type _ (
      redact_event-IsCarried (HasType-IsCarried p.event.event_type) _ config.redactors (
        if_rule (HasType p.event.event_type)
          (text_denied lowercase is_ipv6 parse_url config p.selectors)
          (suppress_text_content p.event) p.event (λ _. refl) (λ _. refl)))

  finish-selectors :
      (p : PendingEvent)
      → (finish lowercase is_ipv6 parse_url lines_bytes config p).selectors ≡ p.selectors
  unfolding finish
  finish-selectors p = refl

  -- An event that the filter admitted is admitted again under the same configuration.
  pub reprocess_again :
      (p q : PendingEvent)
      → reprocess lowercase is_ipv6 parse_url lines_bytes config p ≡ some q
      → reprocess lowercase is_ipv6 parse_url lines_bytes config q
        ≡ some (finish lowercase is_ipv6 parse_url lines_bytes config q)
  reprocess_again p q h =
      ground (arith, reprocess-some p q h, reprocess-admits q, finish-HasType p, finish-selectors p)

  finish-NoText :
      (p : PendingEvent)
      → text_denied lowercase is_ipv6 parse_url config p.selectors ≡ true
      → NoText (finish lowercase is_ipv6 parse_url lines_bytes config p).event
  unfolding finish
  finish-NoText p h = enforce_size_limits-NoText lines_bytes _ (
      redact_event-IsCarried NoText-IsCarried _ config.redactors (
        if_rule NoText (text_denied lowercase is_ipv6 parse_url config p.selectors)
          (suppress_text_content p.event) p.event (λ _. suppress_text_content-NoText p.event)
          (λ f. absurd (cc))))

  -- When the app or the site of an event is denied its text, an event that passes holds no typed,
  -- entered, copied or pasted text and no element value.
  pub reprocess-NoText :
      (p q : PendingEvent)
      → text_denied lowercase is_ipv6 parse_url config p.selectors ≡ true
      → reprocess lowercase is_ipv6 parse_url lines_bytes config p ≡ some q
      → NoText q.event
  reprocess-NoText p q denied h =
      subst (λ (r : PendingEvent). NoText r.event) (reprocess-some p q h).1 (finish-NoText p denied)

  finish-IsBounded :
      (p : PendingEvent)
      → IsBounded lines_bytes (finish lowercase is_ipv6 parse_url lines_bytes config p).event
  unfolding finish
  finish-IsBounded p = enforce_size_limits-IsBounded lines_bytes _

  -- Whatever passes the filter is within the size limits and keeps its selectors and its type.
  pub reprocess-IsBounded :
      (p q : PendingEvent)
      → reprocess lowercase is_ipv6 parse_url lines_bytes config p ≡ some q
      → IsBounded lines_bytes q.event
        × (q.selectors ≡ p.selectors)
        × (q.event.event_type ≡ p.event.event_type)
  reprocess-IsBounded p q h =
      subst
        (λ (r : PendingEvent).
          IsBounded lines_bytes r.event
          × (r.selectors ≡ p.selectors)
          × (r.event.event_type ≡ p.event.event_type))
        (reprocess-some p q h).1 (finish-IsBounded p, finish-selectors p, finish-HasType p)

  finish-keeps :
      (p : PendingEvent)
      → NoText p.event
      → NoText (finish lowercase is_ipv6 parse_url lines_bytes config p).event
  unfolding finish
  finish-keeps p h = enforce_size_limits-NoText lines_bytes _ (
      redact_event-IsCarried NoText-IsCarried _ config.redactors (
        if_rule NoText (text_denied lowercase is_ipv6 parse_url config p.selectors)
          (suppress_text_content p.event) p.event (λ _. suppress_text_content-NoText p.event)
          (λ _. h)))

-- A text body that one filter has suppressed is not restored by another, however permissive.
pub reprocess_relaxed :
    (lowercase : Text → Text) (is_ipv6 : Text → Bool) (parse_url : Text → Option Url)
    (lines_bytes : List ContentSnapshotLine → ℕ) (config relaxed : FilterConfig)
    (p q r : PendingEvent)
    → text_denied lowercase is_ipv6 parse_url config p.selectors ≡ true
    → reprocess lowercase is_ipv6 parse_url lines_bytes config p ≡ some q
    → reprocess lowercase is_ipv6 parse_url lines_bytes relaxed q ≡ some r
    → NoText r.event
reprocess_relaxed lowercase is_ipv6 parse_url lines_bytes config relaxed p q r denied h k =
    subst (λ (s : PendingEvent). NoText s.event)
      (reprocess-some lowercase is_ipv6 parse_url lines_bytes relaxed q r k).1
      (finish-keeps lowercase is_ipv6 parse_url lines_bytes relaxed q
        (reprocess-NoText lowercase is_ipv6 parse_url lines_bytes config p q denied h))
