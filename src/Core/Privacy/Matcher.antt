-- ===== src/Core/Privacy/Matcher.antt =====
-- crates/zanei-core/src/privacy/matcher.rs: which apps and hosts the lists of the configuration
-- allow. The case mapping of `str::to_lowercase` follows the Unicode tables of the standard
-- library; it is the parameter `lowercase`.
pub mod Domains
use zanei.Prelude.{
  ℕ, Bool, true, false, not, ◌&&◌, ◌||◌, Option, none, some, List, [], ◌∷◌, Text, text, text_eq,
  to_ascii_lowercase, eq_ignore_ascii_case, ◌==◌, if◌then◌else◌, any, is_empty, last?,
}
use zanei.Prelude.Slices.{strip_suffix, trim_end}
use zanei.Core.Schema.{App}

abbrev pub built_in_excluded_app_names : List Text
built_in_excluded_app_names = text "1Password" ∷ text "1Password 7" ∷ text "Keychain Access" ∷ []

abbrev pub built_in_excluded_bundle_ids : List Text
built_in_excluded_bundle_ids =
    text "com.1password.1password"
    ∷ text "com.agilebits.onepassword7"
    ∷ text "com.apple.keychainaccess"
    ∷ []

-- `host.trim_end_matches('.').to_ascii_lowercase()`.
unfoldable pub canonical : Text → Text
unfolding trim_end to_ascii_lowercase
canonical host = to_ascii_lowercase (trim_end (λ c. c == b'.') host)

-- What stands before the domain is empty or ends with a dot.
abbrev pub at_boundary : Option Text → Bool
at_boundary none = false
at_boundary (some before) = elim (last? before) [ none ↦ true | some c ↦ c == b'.' ]

-- `host.ends_with(&domain)`, and then the equal lengths or the byte before the suffix.
unfoldable pub domain_matches : Text → Text → Bool
unfolding canonical strip_suffix
domain_matches host configured_domain =
    not (is_empty (canonical configured_domain))
    && at_boundary (strip_suffix (canonical configured_domain) (canonical host))

unfoldable pub host_is_allowed : Text → List Text → List Text → Bool
unfolding domain_matches
host_is_allowed host include_only exclude =
    if not (is_empty include_only) && not (any (λ d. domain_matches host d) include_only)
    then false
    else not (any (λ d. domain_matches host d) exclude)

-- `app.bundle_id.as_deref().unwrap_or(&app.name)`.
unfoldable pub app_key : App → Text
app_key app = elim app.bundle_id [ none ↦ app.name | some id ↦ id ]

module _ (lowercase : Text → Text) where
  unfoldable pub contains_case_insensitive : List Text → Text → Bool
  contains_case_insensitive values expected =
      any (λ value. text_eq (lowercase value) (lowercase expected)) values

  unfoldable pub is_built_in_exclusion : App → Text → Bool
  unfolding eq_ignore_ascii_case
  is_built_in_exclusion app key = elim app.bundle_id [
    | some id ↦ any (λ b. eq_ignore_ascii_case b key) built_in_excluded_bundle_ids
    | none ↦ any (λ n. text_eq (lowercase n) (lowercase key)) built_in_excluded_app_names
  ]

  unfoldable pub app_is_allowed : App → List Text → List Text → Bool
  unfolding contains_case_insensitive is_built_in_exclusion app_key
  app_is_allowed app include_only exclude =
      if not (is_empty include_only) && not (contains_case_insensitive include_only (app_key app))
      then false
      else not (contains_case_insensitive exclude (app_key app))
        && not (is_built_in_exclusion app (app_key app))
