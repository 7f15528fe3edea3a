-- ===== src/Core/Privacy/CapturePolicy.antt =====
-- crates/zanei-core/src/privacy/capture_policy.rs: the evaluation of one app, window title and URL.
-- Parameters: the Unicode `to_lowercase` of the standard library, and the parser of the `url`
-- crate, which gives the parts of a URL that the evaluator reads.
pub mod Denials
use zanei.Prelude.{
  ℕ, ◌+◌, Bool, true, false, not, ◌&&◌, ◌||◌, Option, none, some, List, [], ◌∷◌, ◌++◌, Text, text,
  text_eq, leb, ltb, ◌==◌, if◌then◌else◌, all, any, is_empty, len, last?, map,
}
use zanei.Prelude.Slices.{
  trim, rsplit_once, split, contains_char, contains_text, starts_with, ends_with, strip_prefix,
  is_whitespace, is_alphanumeric,
}
use zanei.Core.Schema.{App}
use zanei.Core.Config.{CapturePolicyConfig, BrowserPolicy, BrowserUrlRule, PolicyMode, PolicyAction}
use zanei.Core.Privacy.Matcher.{app_is_allowed}
use zanei.Core.Privacy.Routes.{CaptureDeniedReason, one_of, scan_routes}

pub data CapturePolicyDecision : Type 0 where
  allow : CapturePolicyDecision
  deny : CaptureDeniedReason → CapturePolicyDecision

-- A parsed URL of the `url` crate.
pub record Url : Type 0 where
  pub scheme : Text
  pub host_str : Option Text
  pub path : Text
  pub fragment : Option Text

unfoldable pub action : PolicyAction → CaptureDeniedReason → CapturePolicyDecision
action PolicyAction.allow reason = allow
action PolicyAction.block reason = deny reason

abbrev or_empty : Option Text → Text
or_empty none = []
or_empty (some t) = t

-- The leading label of the host.
abbrev first_label : List Text → Text
first_label [] = []
first_label (label ∷ rest) = label

unfoldable pub routes : Text → Url → List Text
routes host url = first_label (split b'.' host) ∷ url.path ∷ or_empty url.fragment ∷ []

unfoldable pub preset_match : BrowserPolicy → Text → Url → Option CaptureDeniedReason
unfolding routes
preset_match rules host url = scan_routes rules false (routes host url)

unfoldable pub rule_matches : Text → Url → BrowserUrlRule → Bool
rule_matches host url rule =
    (text_eq host rule.host || (rule.match_subdomains && ends_with (b'.' ∷ rule.host) host))
    && starts_with rule.path_prefix url.path

abbrev pub is_off : PolicyMode → Bool
is_off PolicyMode.off = true
is_off m = false

abbrev pub is_all_sites : PolicyMode → Bool
is_all_sites PolicyMode.all_sites = true
is_all_sites m = false

unfoldable pub evaluate_url : BrowserPolicy → Text → Url → CapturePolicyDecision
unfolding action
evaluate_url rules host url =
    if any (rule_matches host url) rules.block_list
    then deny CaptureDeniedReason.blocked_url
    else elim (preset_match rules host url) [
      | some reason ↦ deny reason
      | none ↦
          if is_all_sites rules.mode || any (rule_matches host url) rules.allow_list
          then allow
          else action rules.default_policy CaptureDeniedReason.default_denied
    ]

-- An http or https URL with a host.
abbrev web_host : Option Url → Option (Text × Url)
web_host none = none
web_host (some url) = elim url.host_str [
  | none ↦ none
  | some host ↦
      if text_eq url.scheme (text "http") || text_eq url.scheme (text "https")
      then some (host, url)
      else none
]

-- Separators and bullets of a window title: en dash, em dash; black circle, bullet.
abbrev hyphenated : Text → Text
hyphenated = map (λ c. if c == 0x2013 || c == 0x2014 then b'-' else c)

unfoldable pub without_bullets : Text → Text
without_bullets [] = []
without_bullets (c ∷ t) =
    let rest = without_bullets t in if c == 0x25cf || c == 0x2022 then rest else c ∷ rest

unfoldable pub utf16_count : Text → ℕ
utf16_count [] = 0
utf16_count (c ∷ t) = (if ltb c 0x10000 then 1 else 2) + utf16_count t

abbrev space_at : Option ℕ → Bool
space_at none = false
space_at (some c) = is_whitespace c

abbrev head_of : Text → Option ℕ
head_of [] = none
head_of (c ∷ t) = some c

abbrev short_extension : Option (Text × Text) → Bool
short_extension none = false
short_extension (some (stem, ext)) =
    not (is_empty stem) && not (is_empty ext) && leb (len ext) 10 && all is_alphanumeric ext

abbrev nonempty_suffix : Option Text → Bool
nonempty_suffix none = false
nonempty_suffix (some suffix) = not (is_empty suffix)

module _ (lowercase : Text → Text) where
  unfoldable pub is_env_file : Text → Bool
  is_env_file name =
      (text_eq (lowercase name) (text ".env")
        || nonempty_suffix (strip_prefix (text ".env.") (lowercase name)))
      && not (contains_text (lowercase name) (text ".example"))

  unfoldable pub is_file_name : Text → Bool
  is_file_name name =
      leb (utf16_count name) 255
      && not (contains_char b'/' name || contains_char b'\\' name)
      && (text_eq (lowercase name) (text ".env")
          || starts_with (text ".env.") (lowercase name)
          || short_extension (rsplit_once b'.' name))

  unfoldable pub file_name_candidate : Text → Option Text
  unfolding is_file_name
  file_name_candidate candidate =
      let name = trim (without_bullets candidate) in if is_file_name name then some name else none

  -- The loop over the hyphens between spaces; `piece` is what stands since `start`.
  unfoldable pub scan_title : Text → Text → Option Text
  scan_title piece [] = file_name_candidate piece
  scan_title piece (c ∷ rest) =
      elim (c == b'-' && space_at (last? piece) && space_at (head_of rest)) [
        | true ↦ elim (file_name_candidate piece) [
          | some name ↦ some name
          | none ↦ scan_title [] rest
        ]
        | false ↦ scan_title (piece ++ c ∷ []) rest
      ]

  unfoldable pub ide_file_name : Text → Option Text
  ide_file_name title = scan_title [] (hyphenated title)

  abbrev title_file : Option Text → Option Text
  title_file none = none
  title_file (some title) = ide_file_name title

  unfoldable pub evaluate_ide : PolicyAction → Option Text → CapturePolicyDecision
  evaluate_ide on_unavailable none = action on_unavailable CaptureDeniedReason.file_name_unavailable
  evaluate_ide on_unavailable (some name) =
      if is_env_file name then deny CaptureDeniedReason.env_file else allow

  module _ (parse_url : Text → Option Url) where
    abbrev parsed : Option Text → Option Url
    parsed none = none
    parsed (some raw) = parse_url raw

    unfoldable pub evaluate_browser : BrowserPolicy → Option Text → CapturePolicyDecision
    evaluate_browser rules raw_url =
        if is_off rules.mode
        then deny CaptureDeniedReason.browser_off
        else elim (web_host (parsed raw_url)) [
          | none ↦ action rules.on_url_unavailable CaptureDeniedReason.url_unavailable
          | some (host, url) ↦ evaluate_url rules host url
        ]

    abbrev pub is_browser_name : Text → Bool
    is_browser_name name = one_of name (text "google chrome" ∷ text "safari" ∷ [])

    abbrev pub is_ide_name : Text → Bool
    is_ide_name name = one_of name (text "cursor" ∷ text "visual studio code" ∷ text "code" ∷ [])

    abbrev app_listed : Option (List Text) → Text → Bool
    app_listed none name = true
    app_listed (some allowed_apps) name = any (λ a. text_eq (lowercase a) name) allowed_apps

    unfoldable pub app_name_key : App → Text
    app_name_key app = lowercase (trim app.name)

    unfoldable pub evaluate_capture_policy :
        CapturePolicyConfig → App → Option Text → Option Text → CapturePolicyDecision
    evaluate_capture_policy policy app window_title browser_url =
        if not (app_is_allowed lowercase app [] [])
        then deny CaptureDeniedReason.protected_app
        else if not (app_listed policy.allowed_apps (app_name_key app))
        then deny CaptureDeniedReason.app_not_allowed
        else if is_browser_name (app_name_key app)
        then evaluate_browser policy.browser browser_url
        else if is_ide_name (app_name_key app) && policy.ide.block_env_files
        then evaluate_ide policy.ide.on_file_name_unavailable (title_file window_title)
        else allow
