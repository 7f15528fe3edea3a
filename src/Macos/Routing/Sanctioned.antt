-- ===== src/Macos/Routing/Sanctioned.antt =====
-- The decisions about a browser's text in routing.rs and quarantine.rs.
use zanei.Prelude.{ℕ, ◌≡◌, ◌<◌, refl, ap, ◌∙◌, subst, Bool, true, false, ◌&&◌, Option, some, Text}
use zanei.Core.Privacy.CapturePolicy.{Url}
use zanei.Core.Privacy.Filter.{PrivacyScope}
use zanei.Core.Normalizer.State.{RawEvent, window_title}
use zanei.Macos.CapturePolicy.{
  CapturePolicy, CaptureDecision, decision, decision_at_send, tightened,
}
use zanei.Macos.Quarantine.{ChromeWindowKey, decision_of}
use zanei.Macos.Quarantine.Parts.{IsAuthorized}
use zanei.Macos.Quarantine.Runs.{held_text}
use zanei.Macos.Routing.{quarantine, id_of, decision_for}
use zanei.Macos.Routing.Bodies.{IsPrivate}

and_both : (a b c : Bool) → ((a && b) && c) ≡ true → (a ≡ true) × (b ≡ true)
and_both true true c h = (refl, refl)
and_both true false c h = cc
and_both false b c h = cc

module _ (lowercase : Text → Text) (is_ipv6 : Text → Bool) (parse_url : Text → Option Url) where
  -- The decisions about a text at its capture, its sending and its confirmation.
  pub record IsSanctioned (event : RawEvent) (before after : CapturePolicy)
      (earlier : CaptureDecision) (key : ChromeWindowKey) (version observed_at held_at : ℕ)
      (sent : RawEvent) : Type 0 where
    pub at_capture : (earlier.allowed ≡ true) × (earlier.chrome_version ≡ some version)
    pub at_sending :
        (decision lowercase is_ipv6 parse_url before PrivacyScope.text_scope event.app
          (id_of event.window)
          (window_title event.window)).allowed
        ≡ true
    pub at_confirmation :
        let d =
          decision lowercase is_ipv6 parse_url after PrivacyScope.text_scope event.app
            (some key.window_id)
            (window_title event.window) in
        (d.allowed ≡ true) × (d.chrome_version ≡ some version)
    pub place : (event.app.pid ≡ some key.pid) × (id_of event.window ≡ some key.window_id)
    pub observed :
        (t : ℕ) × (after.chrome.observed_at key.pid key.window_id ≡ some t) × (held_at < t)
    pub unchanged :
        sent
        ≡ record event { capture_context = earlier.capture_context; observed_at = some observed_at }

  -- A held text, when its event is released whole.
  pub sanctioned :
      (event : RawEvent) (before after : CapturePolicy) (earlier : CaptureDecision) (e : RawEvent)
      (key : ChromeWindowKey) (version observed_at held_at : ℕ) (sent : RawEvent)
      → IsPrivate event
          (decision_for lowercase is_ipv6 parse_url event before (some earlier))
          (quarantine e key version observed_at)
      → IsAuthorized lowercase is_ipv6 parse_url after (held_text e key version observed_at held_at)
      → sent ≡ record e { observed_at = some observed_at }
      → IsSanctioned event before after earlier key version observed_at held_at sent
  unfolding decision_for decision_at_send tightened decision_of
  sanctioned event before after earlier e key version observed_at held_at sent
        (a, v, same, pid, window_id, at) auth whole =
      let author =
        subst
          (λ x.
            IsAuthorized lowercase is_ipv6 parse_url after
              (held_text x key version observed_at held_at))
          same auth in
      let both = and_both _ earlier.allowed _ a in
      record {
        at_capture = (both.1, v);
        at_sending = both.0;
        at_confirmation = (author.allowed, author.version);
        place = (pid, window_id);
        observed = author.observed;
        unchanged = whole ∙ ap (λ (x : RawEvent). record x { observed_at = some observed_at }) same;
      }
