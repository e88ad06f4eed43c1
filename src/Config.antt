-- ===== src/Config.antt =====
-- src/api_tests/config.py: a target environment and the policy that it must satisfy.
pub mod Fields
pub mod Policy
use budget_analyzer_api_test.Base.{
  ℕ, zero, suc, ◌+◌, ◌-◌, ◌≤◌, ◌<◌, ◌≡◌, refl, sym, ◌∙◌, ap, ◌≢◌, ◌↔◌, ◌⊎◌, Bool, true, false, ◌&&◌,
  ◌||◌, not, List, [], ◌∷◌, ◌++◌, map, arith, Eq, ◌==◌, contains, keep, if◌then◌else◌, Option, none,
  some, inl, inr, Bool-cases, Option-cases, String, ◌<>◌, contains-append, contains-keep,
  all-contains, all-ext, any-ext, null-keep-not, null-keep, all-map, any-map, null-map,
  contains-map-keep, all-and, All-map, All-of_contains, all_mono, ltb, leb, all, any, null, nodup,
  length, All, string_eq, nat_eq, ==_self, eq_of_==, null-append, length-append, bool_eq, option_eq,
}
use budget_analyzer_api_test.Base.Dict.{
  Dict, keys, lookup, get_or, insert, lookup-insert, contains-keys-insert, lookup-eq-none_iff,
  lookup-tabulate, keys-tabulate, length-insert,
}
use budget_analyzer_api_test.Base.Sort.{
  sorted, contains-sorted, mem-sorted, sorted-All, sorted_perm, length-sorted, null-sorted,
  all-sorted, any-sorted,
}
use budget_analyzer_api_test.Base.Result.{
  Result, ok, err, ◌>>=◌, ◌>>◌, raise_if, >>=-eq-ok, raise_if-eq-ok, raise_if-then,
}

pub data EnvironmentType : Type 0 where
  local staging production : EnvironmentType

pub data AuthMode : Type 0 where
  supplied_sessions browser_preprovisioned : AuthMode

environment_type_dec : Discrete EnvironmentType
environment_type_dec = hlevel

auth_mode_dec : Discrete AuthMode
auth_mode_dec = hlevel

instance unfoldable pub environment_type_eq : Eq EnvironmentType
unfolding environment_type_dec
environment_type_eq = record { dec = environment_type_dec }

instance unfoldable pub auth_mode_eq : Eq AuthMode
unfolding auth_mode_dec
auth_mode_eq = record { dec = auth_mode_dec }

pub record SuppliedSessionConfig : Type 0 where
  pub primary_session_env : String
  pub secondary_session_env : Option String
  pub admin_session_env : Option String

pub record BrowserConfig : Type 0 where
  pub headless : Bool
  pub primary_username_env : String
  pub primary_password_env : String
  pub secondary_username_env : String
  pub secondary_password_env : String
  pub admin_username_env : String
  pub admin_password_env : String

pub record AuthConfig : Type 0 where
  pub mode : AuthMode
  pub supplied_sessions : SuppliedSessionConfig
  pub browser : Option BrowserConfig

pub record BrowserAuthContract : Type 0 where
  pub callback_path : String
  pub default_return_path : String
  pub admin_return_path : String
  pub logout_return_path : String
  pub provider_logout_path : String
  pub provider_host_suffixes : List String
  pub session_cookie_same_site : String

-- In whole milliseconds.
pub record TimeoutConfig : Type 0 where
  pub request_seconds : ℕ
  pub eventually_seconds : ℕ

pub record EnvironmentConfig : Type 0 where
  pub name : String
  pub origin : String
  pub api_base_path : String
  pub openapi_path : String
  pub environment_type : EnvironmentType
  pub allow_mutation : Bool
  pub allow_destructive : Bool
  pub session_cookie_name : String
  pub auth : AuthConfig
  pub browser_auth_contract : BrowserAuthContract
  pub timeouts : TimeoutConfig

-- The `ValueError`s of `validate_environment_policy`, in the order of its checks, and those of the field
-- validators.
pub data PolicyError : Type 0 where
  production_mutation production_destructive production_auth_mode production_browser : PolicyError
  staging_secondary_session staging_browser_settings : PolicyError
  browser_in_production browser_settings : PolicyError
  destructive_without_mutation : PolicyError
  invalid_variable_name empty_value invalid_origin invalid_path invalid_browser_path : PolicyError
  invalid_host_suffixes invalid_timeouts : PolicyError

abbrev pub is_some {ℓ} : {A : Type ℓ} → Option A → Bool
is_some none = false
is_some (some _) = true

abbrev pub is_none {ℓ} : {A : Type ℓ} → Option A → Bool
is_none o = not (is_some o)

abbrev production_checks : EnvironmentConfig → Result PolicyError (Unit {0})
production_checks c = do
  raise_if c.allow_mutation production_mutation
  raise_if c.allow_destructive production_destructive
  raise_if (not (c.auth.mode == supplied_sessions)) production_auth_mode
  raise_if (is_some c.auth.browser) production_browser

abbrev staging_checks : EnvironmentConfig → Result PolicyError (Unit {0})
staging_checks c = do
  raise_if
      (c.auth.mode == supplied_sessions && is_none c.auth.supplied_sessions.secondary_session_env)
      staging_secondary_session
  raise_if (c.auth.mode == browser_preprovisioned && is_none c.auth.browser)
      staging_browser_settings

abbrev browser_checks : EnvironmentConfig → Result PolicyError (Unit {0})
browser_checks c = do
  raise_if (c.environment_type == production) browser_in_production
  raise_if (is_none c.auth.browser) browser_settings

-- `if test:` before a block of checks
abbrev pub when : {E : Type 0} → Bool → Result E (Unit {0}) → Result E (Unit {0})
when true checks = checks
when false checks = ok tt

-- `EnvironmentConfig.validate_environment_policy`
unfoldable pub validate_environment_policy :
    EnvironmentConfig → Result PolicyError EnvironmentConfig
validate_environment_policy c = do
  when (c.environment_type == production) (production_checks c)
  when (c.environment_type == staging) (staging_checks c)
  when (c.auth.mode == browser_preprovisioned) (browser_checks c)
  raise_if (c.allow_destructive && not c.allow_mutation) destructive_without_mutation
  ok c
