-- ===== src/Config/Fields.antt =====
-- config.py: the field validators, and the override of the session mode, which runs them again on the
-- values that they returned. Python's tables of characters, its case folding and `urlparse`, which may
-- raise, are parameters. Where several fields are invalid, the first one is reported.
use budget_analyzer_api_test.Base.{
  Bool, true, false, ◌&&◌, ◌||◌, not, List, map, ◌==◌, if◌then◌else◌, Option, none, some, String,
  ltb, any, null, string_eq, nat_eq, bool_eq, option_eq,
}
use budget_analyzer_api_test.Base.Result.{Result, ok, err, ◌>>=◌, ◌>>◌, raise_if}
use Prim.Native.Char.{Char, code}
use budget_analyzer_api_test.Base.Text.{strip}
use budget_analyzer_api_test.Base.Prefix.{starts_with, has_part}
use budget_analyzer_api_test.Config.{
  AuthMode, SuppliedSessionConfig, BrowserConfig, BrowserAuthContract, TimeoutConfig,
  EnvironmentConfig, PolicyError, invalid_variable_name, empty_value, invalid_origin, invalid_path,
  invalid_browser_path, invalid_host_suffixes, invalid_timeouts, validate_environment_policy,
  auth_mode_eq,
}

-- `value.replace("_", "")`
abbrev without_marks : String → String
without_marks String.[] = ""
without_marks (String.◌∷◌ c s) =
    let rest = without_marks s in if code c == 95 then rest else String.◌∷◌ c rest

-- `value.rstrip("/")`
abbrev without_last_slashes : String → String
without_last_slashes String.[] = ""
without_last_slashes (String.◌∷◌ c s) =
    let rest = without_last_slashes s in
    if code c == 47 && rest == "" then "" else String.◌∷◌ c rest

-- `item.lstrip(".")`
abbrev without_first_dots : String → String
without_first_dots String.[] = ""
without_first_dots (String.◌∷◌ c s) =
    let rest = without_first_dots s in if code c == 46 then rest else String.◌∷◌ c s

abbrev all_chars : (Char → Bool) → String → Bool
all_chars p String.[] = true
all_chars p (String.◌∷◌ c s) = p c && all_chars p s

abbrev starts_char : (Char → Bool) → String → Bool
starts_char p String.[] = false
starts_char p (String.◌∷◌ c s) = p c

-- What `urlparse` returns.
pub record Url : Type 0 where
  pub scheme : String
  pub netloc : String
  pub path : String
  pub params : String
  pub query : String
  pub fragment : String

pub record Library : Type 0 where
  pub is_alnum : Char → Bool
  pub is_alpha : Char → Bool
  pub casefold : String → String
  pub urlparse : String → Option Url

module _ (python : Library) where
  unfoldable pub validate_env_var_name : String → Result PolicyError String
  validate_env_var_name value = do
    let name = strip value
    raise_if (name == "") invalid_variable_name
    raise_if
        (without_marks name == ""
          || (not (all_chars python.is_alnum (without_marks name))
              || not (starts_char python.is_alpha name)))
        invalid_variable_name
    ok name

  -- `validate_optional_session_env`
  unfoldable pub validate_optional_session_env : Option String → Result PolicyError (Option String)
  validate_optional_session_env none = ok none
  validate_optional_session_env (some value) = do name ← validate_env_var_name value; ok (some name)

  -- The validators of `SuppliedSessionConfig`
  unfoldable pub validate_supplied_sessions :
      SuppliedSessionConfig → Result PolicyError SuppliedSessionConfig
  validate_supplied_sessions s = do
    primary ← validate_env_var_name s.primary_session_env
    secondary ← validate_optional_session_env s.secondary_session_env
    admin ← validate_optional_session_env s.admin_session_env
    ok (record {
      primary_session_env = primary;
      secondary_session_env = secondary;
      admin_session_env = admin;
    })

  -- The validators of `BrowserConfig`, where there is one
  unfoldable pub validate_browser : Option BrowserConfig → Result PolicyError (Option BrowserConfig)
  validate_browser none = ok none
  validate_browser (some b) = do
    primary_username ← validate_env_var_name b.primary_username_env
    primary_password ← validate_env_var_name b.primary_password_env
    secondary_username ← validate_env_var_name b.secondary_username_env
    secondary_password ← validate_env_var_name b.secondary_password_env
    admin_username ← validate_env_var_name b.admin_username_env
    admin_password ← validate_env_var_name b.admin_password_env
    ok (
        some (record {
          headless = b.headless;
          primary_username_env = primary_username;
          primary_password_env = primary_password;
          secondary_username_env = secondary_username;
          secondary_password_env = secondary_password;
          admin_username_env = admin_username;
          admin_password_env = admin_password;
        }))

  unfoldable pub validate_browser_path : String → Result PolicyError String
  validate_browser_path value = do
    let path = strip value
    raise_if (not (starts_with "/" path) || starts_with "//" path) invalid_browser_path
    elim (python.urlparse path) [
      | none ↦ err invalid_browser_path
      | some url ↦ do
        raise_if (not (url.scheme == "" && url.netloc == "" && url.fragment == ""))
            invalid_browser_path
        ok path
    ]

  unfoldable pub validate_provider_host_suffixes : List String → Result PolicyError (List String)
  validate_provider_host_suffixes value = do
    let normalized = map (λ suffix. without_first_dots (python.casefold (strip suffix))) value
    raise_if (null normalized || any (λ suffix. suffix == "" || has_part "/" suffix) normalized)
        invalid_host_suffixes
    ok normalized

  -- The validators of `BrowserAuthContract`
  unfoldable pub validate_browser_auth_contract :
      BrowserAuthContract → Result PolicyError BrowserAuthContract
  validate_browser_auth_contract k = do
    callback ← validate_browser_path k.callback_path
    default_return ← validate_browser_path k.default_return_path
    admin_return ← validate_browser_path k.admin_return_path
    logout_return ← validate_browser_path k.logout_return_path
    provider_logout ← validate_browser_path k.provider_logout_path
    suffixes ← validate_provider_host_suffixes k.provider_host_suffixes
    ok (record {
      callback_path = callback;
      default_return_path = default_return;
      admin_return_path = admin_return;
      logout_return_path = logout_return;
      provider_logout_path = provider_logout;
      provider_host_suffixes = suffixes;
      session_cookie_same_site = k.session_cookie_same_site;
    })

  unfoldable pub validate_non_empty_string : String → Result PolicyError String
  validate_non_empty_string value = do raise_if (strip value == "") empty_value; ok (strip value)

  unfoldable pub validate_origin : String → Result PolicyError String
  validate_origin value = do
    let origin = without_last_slashes (strip value)
    elim (python.urlparse origin) [
      | none ↦ err invalid_origin
      | some url ↦ do
        raise_if (not (url.scheme == "https") || url.netloc == "") invalid_origin
        raise_if (not (url.path == "" && url.params == "" && url.query == "" && url.fragment == ""))
            invalid_origin
        ok origin
    ]

  unfoldable pub validate_absolute_path : String → Result PolicyError String
  validate_absolute_path value = do
    let path = strip value
    raise_if (not (starts_with "/" path)) invalid_path
    raise_if (has_part "//" path) invalid_path
    ok (if path == "/" then path else without_last_slashes path)

  -- The bounds of `TimeoutConfig` and `validate_timeout_order`
  unfoldable pub validate_timeouts : TimeoutConfig → Result PolicyError TimeoutConfig
  validate_timeouts t = do
    raise_if (t.request_seconds == 0 || t.eventually_seconds == 0) invalid_timeouts
    raise_if (ltb t.eventually_seconds t.request_seconds) invalid_timeouts
    ok t

  -- The validation of every field, before `validate_environment_policy`.
  unfoldable pub validate_fields : EnvironmentConfig → Result PolicyError EnvironmentConfig
  validate_fields c = do
    name ← validate_non_empty_string c.name
    origin ← validate_origin c.origin
    api_base_path ← validate_absolute_path c.api_base_path
    openapi_path ← validate_absolute_path c.openapi_path
    session_cookie_name ← validate_non_empty_string c.session_cookie_name
    supplied_sessions ← validate_supplied_sessions c.auth.supplied_sessions
    browser ← validate_browser c.auth.browser
    contract ← validate_browser_auth_contract c.browser_auth_contract
    timeouts ← validate_timeouts c.timeouts
    ok (record {
      name = name;
      origin = origin;
      api_base_path = api_base_path;
      openapi_path = openapi_path;
      environment_type = c.environment_type;
      allow_mutation = c.allow_mutation;
      allow_destructive = c.allow_destructive;
      session_cookie_name = session_cookie_name;
      auth = record {
        mode = c.auth.mode;
        supplied_sessions = supplied_sessions;
        browser = browser;
      };
      browser_auth_contract = contract;
      timeouts = timeouts;
    })

  -- `EnvironmentConfig.model_validate`, of the dump of a configuration
  unfoldable pub model_validate : EnvironmentConfig → Result PolicyError EnvironmentConfig
  model_validate c = do fields ← validate_fields c; validate_environment_policy fields

  unfoldable pub with_session_mode :
      EnvironmentConfig → Option AuthMode → Result PolicyError EnvironmentConfig
  with_session_mode c none = ok c
  with_session_mode c (some mode) =
      if mode == c.auth.mode
      then ok c
      else model_validate (record c { auth = record (c.auth) { mode = mode } })
