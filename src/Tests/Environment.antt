-- ===== src/Tests/Environment.antt =====
-- config.py and the marker policy of pytest_plugin.py on the local and the production target.
use budget_analyzer_api_test.Base.{
  ◌≡◌, refl, ◌↔◌, true, false, not, List, [], ◌∷◌, contains, Option, none, some, String, string_eq,
  nat_eq, all, bool_eq, option_eq,
}
use budget_analyzer_api_test.Base.Sort.{sorted}
use budget_analyzer_api_test.Base.Result.{ok, err}
use budget_analyzer_api_test.Config.{
  EnvironmentType, local, production, AuthMode, supplied_sessions, browser_preprovisioned,
  EnvironmentConfig, SuppliedSessionConfig, BrowserConfig, BrowserAuthContract, production_mutation,
  environment_type_eq, auth_mode_eq, validate_environment_policy,
}
use Prim.Native.Char.{Char, code}
use budget_analyzer_api_test.Base.{leb, ◌&&◌, ◌||◌, if◌then◌else◌, Bool}
use budget_analyzer_api_test.Base.Text.{strip}
use budget_analyzer_api_test.Base.Prefix.{starts_with}
use budget_analyzer_api_test.Config.Fields.{
  Library, with_session_mode, model_validate, validate_fields, validate_env_var_name,
  validate_optional_session_env, validate_supplied_sessions, validate_browser,
  validate_browser_path, validate_provider_host_suffixes, validate_browser_auth_contract,
  validate_non_empty_string, validate_origin, validate_absolute_path, validate_timeouts,
}
use budget_analyzer_api_test.Config.Policy.{
  IsAllowed, validate_environment_policy_iff, with_session_mode-IsAllowed,
  with_session_mode-production,
}
use budget_analyzer_api_test.MarkerPolicy.{
  is_exact_local, mutation_disabled, marker_policy_skip_reason, missing_deactivation_markers,
}
use budget_analyzer_api_test.MarkerPolicy.Safety.{
  MayRun, skip_reason_iff, production_read_only, deactivation_safe,
}

abbrev sessions : SuppliedSessionConfig
sessions = record {
  primary_session_env = "TEST_USER_SESSION_TOKEN";
  secondary_session_env = some "TEST_USER_B_SESSION_TOKEN";
  admin_session_env = none;
}

abbrev pub browser_config : BrowserConfig
browser_config = record {
  headless = true;
  primary_username_env = "TEST_USER_USERNAME";
  primary_password_env = "TEST_USER_PASSWORD";
  secondary_username_env = "TEST_USER_B_USERNAME";
  secondary_password_env = "TEST_USER_B_PASSWORD";
  admin_username_env = "TEST_ADMIN_USERNAME";
  admin_password_env = "TEST_ADMIN_PASSWORD";
}

abbrev contract : BrowserAuthContract
contract = record {
  callback_path = "/login/oauth2/code/idp";
  default_return_path = "/";
  admin_return_path = "/admin";
  logout_return_path = "/peace";
  provider_logout_path = "/v2/logout";
  provider_host_suffixes = "auth0.com" ∷ [];
  session_cookie_same_site = "Strict";
}

abbrev config_at :
    String → String → EnvironmentType → Bool → AuthMode → Option BrowserConfig → EnvironmentConfig
config_at name origin type allow mode browser = record {
  name = name;
  origin = origin;
  api_base_path = "/api";
  openapi_path = "/api/v3/api-docs";
  environment_type = type;
  allow_mutation = allow;
  allow_destructive = allow;
  session_cookie_name = "BA_SESSION";
  auth = record { mode = mode; supplied_sessions = sessions; browser = browser };
  browser_auth_contract = contract;
  timeouts = record { request_seconds = 10000; eventually_seconds = 30000 };
}

abbrev pub local_config : EnvironmentConfig
local_config =
    config_at "local" "https://app.budgetanalyzer.localhost" local true browser_preprovisioned
      (some browser_config)

abbrev pub production_config : EnvironmentConfig
production_config =
    config_at "production" "https://app.example.org" production false supplied_sessions none

abbrev write_names : List String
write_names = "admin_deactivation" ∷ "admin" ∷ "authorization" ∷ "mutation" ∷ "destructive" ∷ []

policy_runs :
    (validate_environment_policy local_config ≡ ok local_config)
    × (validate_environment_policy (record production_config { allow_mutation = true })
        ≡ err production_mutation)
unfolding validate_environment_policy environment_type_eq auth_mode_eq
policy_runs = (refl, refl)

local_config-IsAllowed : IsAllowed local_config
local_config-IsAllowed =
    ((validate_environment_policy_iff local_config local_config).0 policy_runs.0).0

production_allowed : validate_environment_policy production_config ≡ ok production_config
unfolding validate_environment_policy environment_type_eq auth_mode_eq
production_allowed = refl

production_config-IsAllowed : IsAllowed production_config
production_config-IsAllowed =
    ((validate_environment_policy_iff production_config production_config).0 production_allowed).0

validate_environment_policy_iff_example :
    (validate_environment_policy local_config ≡ ok local_config)
    ↔ (IsAllowed local_config × (local_config ≡ local_config))
validate_environment_policy_iff_example = validate_environment_policy_iff local_config local_config

abbrev supplied_config : EnvironmentConfig
supplied_config = record local_config {
  auth = record (local_config.auth) { mode = supplied_sessions };
}

-- The library's functions on the texts of these configurations, in ASCII.
abbrev is_letter : Char → Bool
is_letter c = let n = code c in leb 65 n && leb n 90 || leb 97 n && leb n 122

abbrev python : Library
python = record {
  is_alnum = λ c. is_letter c || leb 48 (code c) && leb (code c) 57;
  is_alpha = is_letter;
  casefold = λ s. s;
  urlparse = λ s.
      if starts_with "https://" s
      then some (record {
        scheme = "https";
        netloc = s;
        path = "";
        params = "";
        query = "";
        fragment = "";
      })
      else some
          (record { scheme = ""; netloc = ""; path = s; params = ""; query = ""; fragment = "" });
}

mode_runs : with_session_mode python local_config (some supplied_sessions) ≡ ok supplied_config
unfolding with_session_mode validate_environment_policy environment_type_eq auth_mode_eq
    model_validate validate_fields validate_non_empty_string string_eq strip nat_eq validate_origin
    validate_absolute_path validate_supplied_sessions validate_env_var_name
    validate_optional_session_env validate_browser validate_browser_auth_contract
    validate_browser_path validate_provider_host_suffixes validate_timeouts
mode_runs = refl

with_session_mode-IsAllowed_example :
    IsAllowed supplied_config
    × (supplied_config.auth.mode ≡ supplied_sessions)
    × (supplied_config.environment_type ≡ local_config.environment_type)
    × (supplied_config.allow_mutation ≡ local_config.allow_mutation)
    × (supplied_config.allow_destructive ≡ local_config.allow_destructive)
with_session_mode-IsAllowed_example =
    with_session_mode-IsAllowed python local_config supplied_config (some supplied_sessions)
      local_config-IsAllowed mode_runs

production_mode_runs :
    with_session_mode python production_config (some supplied_sessions) ≡ ok production_config
unfolding with_session_mode auth_mode_eq
production_mode_runs = refl

with_session_mode-production_example :
    (production_config ≡ production_config) × (supplied_sessions ≡ supplied_sessions)
with_session_mode-production_example =
    with_session_mode-production python production_config production_config (some supplied_sessions)
      production_config-IsAllowed refl production_mode_runs

skip_reason_iff_example :
    (marker_policy_skip_reason local_config write_names ≡ none) ↔ MayRun local_config write_names
skip_reason_iff_example = skip_reason_iff local_config write_names

skip_runs :
    (marker_policy_skip_reason local_config write_names ≡ none)
    × (marker_policy_skip_reason production_config ("smoke" ∷ []) ≡ none)
    × (marker_policy_skip_reason production_config ("mutation" ∷ []) ≡ some mutation_disabled)
    × (missing_deactivation_markers write_names ≡ [])
    × (missing_deactivation_markers ("admin_deactivation" ∷ "mutation" ∷ [])
        ≡ "admin" ∷ "authorization" ∷ "destructive" ∷ [])
unfolding marker_policy_skip_reason missing_deactivation_markers sorted string_eq
    environment_type_eq auth_mode_eq
skip_runs = (refl, refl, refl, refl, refl)

production_read_only_example :
    all
      (λ (m : String). not (contains ("smoke" ∷ []) m))
      ("mutation" ∷ "destructive" ∷ "admin" ∷ "admin_auth_smoke" ∷ "admin_deactivation" ∷ [])
    ≡ true
production_read_only_example =
    production_read_only production_config ("smoke" ∷ []) production_config-IsAllowed refl
      skip_runs.1

deactivation_safe_example :
    (is_exact_local local_config ≡ true)
    × (browser_preprovisioned ≡ browser_preprovisioned)
    × (true ≡ true)
    × (true ≡ true)
unfolding string_eq
deactivation_safe_example = deactivation_safe local_config write_names refl skip_runs.3 skip_runs.0
