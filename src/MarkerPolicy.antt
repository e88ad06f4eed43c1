-- ===== src/MarkerPolicy.antt =====
-- src/api_tests/pytest_plugin.py: which tests the selected environment may run.
pub mod Safety
use budget_analyzer_api_test.Base.{
  ℕ, zero, suc, ◌+◌, ◌-◌, ◌≤◌, ◌<◌, ◌≡◌, refl, sym, ◌∙◌, ap, ◌≢◌, ◌↔◌, ◌⊎◌, Bool, true, false, ◌&&◌,
  ◌||◌, not, List, [], ◌∷◌, ◌++◌, map, arith, Eq, ◌==◌, contains, keep, if◌then◌else◌, Option, none,
  some, inl, inr, Bool-cases, Option-cases, String, ◌<>◌, contains-append, contains-keep,
  all-contains, all-ext, any-ext, null-keep-not, null-keep, all-map, any-map, null-map,
  contains-map-keep, all-and, All-map, All-of_contains, all_mono, ltb, leb, all, any, null, nodup,
  length, All, string_eq, nat_eq, ==_self, eq_of_==, ne_of_==, null-append, length-append, bool_eq,
  option_eq,
}
use budget_analyzer_api_test.Base.Dict.{
  Dict, keys, lookup, get_or, insert, lookup-insert, contains-keys-insert, lookup-eq-none_iff,
  lookup-tabulate, keys-tabulate, length-insert,
}
use budget_analyzer_api_test.Base.Sort.{
  sorted, contains-sorted, mem-sorted, sorted-All, sorted_perm, length-sorted, null-sorted,
  all-sorted, any-sorted,
}
use budget_analyzer_api_test.Base.Result.{
  Result, ok, err, ◌>>=◌, ◌>>◌, raise_if, >>=-eq-ok, raise_if-eq-ok, raise_if-then,
}
use budget_analyzer_api_test.Base.Text.{text_le}
use budget_analyzer_api_test.Config.{
  local, staging, production, supplied_sessions, browser_preprovisioned, EnvironmentConfig,
  environment_type_eq, auth_mode_eq, is_none,
}

-- `LOCAL_ENVIRONMENT_NAME` and `LOCAL_ORIGIN` of local_credentials.py
abbrev pub local_environment_name : String
local_environment_name = "local"

abbrev pub local_origin : String
local_origin = "https://app.budgetanalyzer.localhost"

-- The configuration is the local target and no other.
abbrev pub is_exact_local : EnvironmentConfig → Bool
is_exact_local c =
    c.name == local_environment_name && c.environment_type == local && c.origin == local_origin

pub data SkipReason : Type 0 where
  deactivation_needs_local deactivation_needs_browser : SkipReason
  destructive_disabled mutation_disabled : SkipReason
  production_excludes_admin staging_needs_secondary : SkipReason

abbrev deactivation_reason : EnvironmentConfig → Option SkipReason
deactivation_reason c =
    if not (is_exact_local c)
    then some deactivation_needs_local
    else if not (c.auth.mode == browser_preprovisioned)
    then some deactivation_needs_browser
    else none

abbrev later_reason : EnvironmentConfig → List String → Option SkipReason
later_reason c names =
    if contains names "destructive" && not c.allow_destructive
    then some destructive_disabled
    else if contains names "mutation" && not c.allow_mutation
    then some mutation_disabled
    else if c.environment_type == production
        && (contains names "admin" || contains names "admin_auth_smoke")
    then some production_excludes_admin
    else if c.environment_type == staging
        && contains names "authorization"
        && c.auth.mode == supplied_sessions
        && is_none c.auth.supplied_sessions.secondary_session_env
    then some staging_needs_secondary
    else none

unfoldable pub marker_policy_skip_reason : EnvironmentConfig → List String → Option SkipReason
marker_policy_skip_reason c names =
    elim (if contains names "admin_deactivation" then deactivation_reason c else none) [
      | some reason ↦ some reason
      | none ↦ later_reason c names
    ]

-- `_validate_admin_deactivation_markers`: the markers that are missing.
abbrev pub deactivation_markers : List String
deactivation_markers = "admin" ∷ "authorization" ∷ "mutation" ∷ "destructive" ∷ []

unfoldable pub missing_deactivation_markers : List String → List String
unfolding sorted
missing_deactivation_markers names =
    if contains names "admin_deactivation"
    then sorted text_le (keep (λ m. not (contains names m)) deactivation_markers)
    else []
