-- ===== src/MarkerPolicy/Safety.antt =====
-- What a test that is not skipped may rely on.
use budget_analyzer_api_test.Base.{
  ◌≡◌, ◌↔◌, true, false, ◌&&◌, ◌||◌, not, List, [], ◌∷◌, arith, ◌==◌, contains, keep, none, String,
  null-keep-not, all, null, string_eq, nat_eq, implies, bool_eq, option_eq,
}
use budget_analyzer_api_test.Base.Sort.{null-sorted}
use budget_analyzer_api_test.Base.Text.{text_le}
use budget_analyzer_api_test.Config.{
  staging, production, supplied_sessions, browser_preprovisioned, EnvironmentConfig,
  environment_type_eq, auth_mode_eq, is_some,
}
use budget_analyzer_api_test.Config.Policy.{IsAllowed}
use budget_analyzer_api_test.MarkerPolicy.{
  is_exact_local, marker_policy_skip_reason, deactivation_markers, missing_deactivation_markers,
}

-- What the environment must allow for a test with these markers.
pub record MayRun (c : EnvironmentConfig) (names : List String) : Type 0 where
  pub exact_local : implies (contains names "admin_deactivation") (is_exact_local c) ≡ true
  pub browser :
      implies (contains names "admin_deactivation") (c.auth.mode == browser_preprovisioned) ≡ true
  pub destructive : implies (contains names "destructive") c.allow_destructive ≡ true
  pub mutation : implies (contains names "mutation") c.allow_mutation ≡ true
  pub no_admin :
      implies
        (c.environment_type == production)
        (not (contains names "admin" || contains names "admin_auth_smoke"))
      ≡ true
  pub secondary :
      implies
        (c.environment_type == staging
          && contains names "authorization"
          && c.auth.mode == supplied_sessions)
        (is_some c.auth.supplied_sessions.secondary_session_env)
      ≡ true

skip_reason_sound :
    (c : EnvironmentConfig) (names : List String)
    → marker_policy_skip_reason c names ≡ none
    → MayRun c names
unfolding marker_policy_skip_reason
skip_reason_sound c names h = record {
  exact_local = ground arith;
  browser = ground arith;
  destructive = ground arith;
  mutation = ground arith;
  no_admin = ground arith;
  secondary = ground arith;
}

skip_reason_complete :
    (c : EnvironmentConfig) (names : List String)
    → MayRun c names
    → marker_policy_skip_reason c names ≡ none
unfolding marker_policy_skip_reason
skip_reason_complete c names r = ground arith

-- A test is let through exactly when the environment allows all that its markers need.
pub skip_reason_iff :
    (c : EnvironmentConfig) (names : List String)
    → (marker_policy_skip_reason c names ≡ none) ↔ MayRun c names
skip_reason_iff c names = (skip_reason_sound c names, skip_reason_complete c names)

-- In a production environment that the configuration policy accepts, a test that is not skipped has
-- none of the markers for mutation, destruction, administration and deactivation.
pub production_read_only :
    (c : EnvironmentConfig) (names : List String)
    → IsAllowed c
    → c.environment_type ≡ production
    → marker_policy_skip_reason c names ≡ none
    → all
        (λ m. not (contains names m))
        ("mutation" ∷ "destructive" ∷ "admin" ∷ "admin_auth_smoke" ∷ "admin_deactivation" ∷ [])
      ≡ true
production_read_only c names a p h =
    let r = skip_reason_sound c names h in
    let mutates : contains names "mutation" ≡ false = ground (arith, r.mutation, a.read_only) in
    let destroys : contains names "destructive" ≡ false =
      ground (arith, r.destructive, a.not_destructive) in
    let admin : (contains names "admin" ≡ false) × (contains names "admin_auth_smoke" ≡ false) =
      ground (arith, r.no_admin) in
    let deactivates : contains names "admin_deactivation" ≡ false =
      ground (arith, r.browser, a.supplied) in
    ground (arith, mutates, destroys, admin, deactivates)

-- A deactivation test that has its companion markers and is not skipped runs against the exact local
-- target, in browser mode, with mutation and destructive tests allowed.
pub deactivation_safe :
    (c : EnvironmentConfig) (names : List String)
    → contains names "admin_deactivation" ≡ true
    → missing_deactivation_markers names ≡ []
    → marker_policy_skip_reason c names ≡ none
    → (is_exact_local c ≡ true)
      × (c.auth.mode ≡ browser_preprovisioned)
      × (c.allow_mutation ≡ true)
      × (c.allow_destructive ≡ true)
unfolding missing_deactivation_markers
deactivation_safe c names m complete h =
    let r = skip_reason_sound c names h in
    let gone : null (keep (λ i. not (contains names i)) deactivation_markers) ≡ true =
      ground
        (arith, null-sorted text_le (keep (λ i. not (contains names i)) deactivation_markers)) in
    let listed : all (contains names) deactivation_markers ≡ true =
      ground (arith, null-keep-not (contains names) deactivation_markers) in
    (
      ground (arith, r.exact_local),
      ground (arith, r.browser),
      ground (arith, r.mutation, listed),
      ground (arith, r.destructive, listed),
    )
