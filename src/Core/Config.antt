-- ===== src/Core/Config.antt =====
-- crates/zanei-core/src/config.rs and config/capture_policy.rs: the filter's configuration.
use zanei.Prelude.{Bool, Option, List, Text}

pub data RedactorKind : Type 0 where
  email credit_card token : RedactorKind

pub record ScopedFilterConfig : Type 0 where
  pub exclude_apps : List Text
  pub include_only_apps : List Text
  pub exclude_websites : List Text
  pub include_only_websites : List Text

pub data PolicyAction : Type 0 where
  allow block : PolicyAction

pub data PolicyMode : Type 0 where
  off all_sites by_rules : PolicyMode

pub record BrowserUrlRule : Type 0 where
  pub host : Text
  pub path_prefix : Text
  pub match_subdomains : Bool

pub record BrowserPolicy : Type 0 where
  pub mode : PolicyMode
  pub default_policy : PolicyAction
  pub on_url_unavailable : PolicyAction
  pub block_auth : Bool
  pub block_payments : Bool
  pub allow_list : List BrowserUrlRule
  pub block_list : List BrowserUrlRule

pub record IdePolicy : Type 0 where
  pub block_env_files : Bool
  pub on_file_name_unavailable : PolicyAction

pub record CapturePolicyConfig : Type 0 where
  pub allowed_apps : Option (List Text)
  pub browser : BrowserPolicy
  pub ide : IdePolicy

pub record FilterConfig : Type 0 where
  pub capture_policy : Option CapturePolicyConfig
  pub exclude_apps : List Text
  pub include_only_apps : List Text
  pub exclude_websites : List Text
  pub include_only_websites : List Text
  pub redactors : List RedactorKind
  pub text_scope : ScopedFilterConfig
  pub snapshot_scope : ScopedFilterConfig
