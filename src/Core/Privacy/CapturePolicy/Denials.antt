-- ===== src/Core/Privacy/CapturePolicy/Denials.antt =====
-- What the evaluation of capture_policy.rs denies.
use zanei.Prelude.{
  text_eq, text_eq_sound, subst, Bool-cases, ◌≡◌, ◌≢◌, refl, ap, sym, ◌∙◌, inl, inr, true, false,
  Option, some, List, [], ◌∷◌, ◌++◌, Text, text, arith, any, if◌then◌else◌,
}
use zanei.Prelude.Slices.{split}
use zanei.Core.Schema.{App}
use zanei.Core.Config.{CapturePolicyConfig, BrowserPolicy}
use zanei.Core.Privacy.Routes.{
  CaptureDeniedReason, normalized_segment, one_of, auth_words, scan_route, scan_segments,
  scan_routes,
}
use zanei.Core.Privacy.Routes.Precedence.{scan_routes-auth, scan_segments-auth}
use zanei.Core.Privacy.CapturePolicy.{
  allow, deny, Url, routes, preset_match, rule_matches, evaluate_url, is_env_file, evaluate_ide,
  app_name_key, evaluate_capture_policy, is_browser_name, is_ide_name, ide_file_name,
}

scan_route-auth :
    (rules : BrowserPolicy) (route : Text) (before : List Text) (raw : Text) (after : List Text)
    → rules.block_auth ≡ true
    → split b'/' route ≡ before ++ raw ∷ after
    → one_of (normalized_segment raw) auth_words ≡ true
    → scan_route rules route ≡ some CaptureDeniedReason.authentication_url
unfolding scan_route
scan_route-auth rules route before raw after on cut word =
    ap (λ (segments : List Text). scan_segments rules [] false segments) cut
    ∙ scan_segments-auth rules [] false before raw after on word

-- With the authentication preset on, a URL whose host label, path or fragment has an
-- authentication word for a segment is denied, whatever the mode, the allow list and the payment
-- words: as blocked when a block rule matches it, and else as an authentication page.
pub evaluate_url-auth :
    (rules : BrowserPolicy) (host : Text) (url : Url) (earlier : List Text) (route : Text)
    (later : List Text) (before : List Text) (raw : Text) (after : List Text)
    → rules.block_auth ≡ true
    → routes host url ≡ earlier ++ route ∷ later
    → split b'/' route ≡ before ++ raw ∷ after
    → one_of (normalized_segment raw) auth_words ≡ true
    → evaluate_url rules host url ≡ (
        if any (rule_matches host url) rules.block_list
        then deny CaptureDeniedReason.blocked_url
        else deny CaptureDeniedReason.authentication_url)
unfolding evaluate_url preset_match
evaluate_url-auth rules host url earlier route later before raw after on place cut word =
    let found =
      ap (scan_routes rules false) place
      ∙ scan_routes-auth rules false earlier route later
          (scan_route-auth rules route before raw after on cut word) in
    ground (arith, found)

module _ (lowercase : Text → Text) (parse_url : Text → Option Url) where
  named_is_no_browser :
      (name listed : Text)
      → text_eq name listed ≡ true
      → is_browser_name lowercase parse_url listed ≡ false
      → is_browser_name lowercase parse_url name ≡ false
  named_is_no_browser name listed e h =
      subst (λ n. is_browser_name lowercase parse_url n ≡ false) (sym (text_eq_sound name listed e))
        h

  ide_is_no_browser :
      (name : Text)
      → is_ide_name lowercase parse_url name ≡ true
      → is_browser_name lowercase parse_url name ≡ false
  unfolding one_of text_eq
  ide_is_no_browser name h = elim (Bool-cases (text_eq name (text "cursor"))) [
    | inl a ↦ named_is_no_browser name (text "cursor") a refl
    | inr a ↦ elim (Bool-cases (text_eq name (text "visual studio code"))) [
      | inl b ↦ named_is_no_browser name (text "visual studio code") b refl
      | inr b ↦ named_is_no_browser name (text "code") (ground arith) refl
    ]
  ]

  -- In an editor whose environment files are protected, a window title that names one is never
  -- allowed.
  pub evaluate_capture_policy-env :
      (policy : CapturePolicyConfig) (app : App) (title name : Text) (url : Option Text)
      → is_ide_name lowercase parse_url (app_name_key lowercase parse_url app) ≡ true
      → policy.ide.block_env_files ≡ true
      → ide_file_name lowercase title ≡ some name
      → is_env_file lowercase name ≡ true
      → evaluate_capture_policy lowercase parse_url policy app (some title) url ≢ allow
  unfolding evaluate_capture_policy evaluate_ide
  evaluate_capture_policy-env policy app title name url ide on found env h =
      ground (arith, ide_is_no_browser (app_name_key lowercase parse_url app) ide)
