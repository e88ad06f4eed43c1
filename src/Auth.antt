-- ===== src/Auth.antt =====
-- auth.py: how a session is acquired for a role. The browser automation of browser_login.py is a
-- parameter, a record of what its functions answer; a run that calls it twice has two such records.
-- The acquisition of a session returns its result and the credential file as it is afterwards, also
-- where it raises, since credentials are stored before signup.
pub mod Retry
pub mod Modes
pub mod Target
use budget_analyzer_api_test.Base.{
  ◌||◌, not, List, [], ◌∷◌, ◌==◌, if◌then◌else◌, Option, none, some, String, string_eq, nat_eq,
  bool_eq, option_eq,
}
use budget_analyzer_api_test.Base.Dict.{Dict}
use budget_analyzer_api_test.Base.Result.{Result, ok, err, ◌>>=◌}
use budget_analyzer_api_test.Config.{
  EnvironmentConfig, local, production, supplied_sessions, browser_preprovisioned,
  environment_type_eq, auth_mode_eq,
}
use budget_analyzer_api_test.Identity.{Session}
use budget_analyzer_api_test.Credentials.Line.{is_empty}
use budget_analyzer_api_test.Credentials.Local.{
  SessionRole, primary, secondary, admin, pending, session_role_eq, credential_state_eq,
  BrowserLoginCredentials, CredentialError, stripped, load_or_create_local_credentials,
  mark_local_credentials_complete,
}
use budget_analyzer_api_test.Credentials.Disposable.{
  DisposableCredentialRecord, disposable_state_eq, load_or_create_disposable_credentials,
  mark_disposable_credentials_complete,
}
use budget_analyzer_api_test.Credentials.Disposable

pub data AuthError : Type 0 where
  credential_failure : CredentialError → AuthError
  browser_failure missing_secret : String → AuthError
  browser_in_production missing_browser_settings not_browser_mode not_provisioned : AuthError
  not_permitted missing_secondary_session missing_admin_session : AuthError

-- `signup_with_browser` returns, raises `BrowserAccountExistsError`, or raises another error.
pub data SignupOutcome : Type 0 where
  signed_up : Session → SignupOutcome
  account_exists : SignupOutcome
  signup_failed : String → SignupOutcome

-- `login`, where the caller gives one, `login_with_browser` with the return paths that it expects, and
-- `signup`. The text of a failure is its exception's.
pub record Browser : Type 0 where
  pub login : Option (EnvironmentConfig → BrowserLoginCredentials → Result String Session)
  pub login_with_browser :
      EnvironmentConfig → BrowserLoginCredentials → List String → Result String Session
  pub signup : EnvironmentConfig → BrowserLoginCredentials → SignupOutcome

-- `_required_secret`
abbrev pub required_secret : Dict String String → String → Result AuthError String
required_secret source name =
    let value = stripped source name in
    if is_empty value then err (missing_secret name) else ok value

-- `_browser_variable_names`
abbrev pub browser_variable_names :
    EnvironmentConfig → SessionRole → Result AuthError (String × String)
browser_variable_names c role = elim c.auth.browser [
  | none ↦ err missing_browser_settings
  | some b ↦ elim role [
    | primary ↦ ok (b.primary_username_env, b.primary_password_env)
    | secondary ↦ ok (b.secondary_username_env, b.secondary_password_env)
    | admin ↦ ok (b.admin_username_env, b.admin_password_env)
  ]
]

abbrev pub failing_browser : Result String Session → Result AuthError Session
failing_browser (ok session) = ok session
failing_browser (err message) = err (browser_failure message)

-- `_login_browser_account`
unfoldable pub login_browser_account :
    Browser → EnvironmentConfig → SessionRole → BrowserLoginCredentials → Result AuthError Session
login_browser_account browser c role credentials =
    let contract = c.browser_auth_contract in
    let admin_paths = if role == admin then contract.admin_return_path ∷ [] else [] in
    failing_browser (elim browser.login [
      | some login ↦ login c credentials
      | none ↦ browser.login_with_browser c credentials (contract.default_return_path ∷ admin_paths)
    ])

-- Signup, or login where the account exists.
unfoldable pub provision :
    Browser → EnvironmentConfig → SessionRole → BrowserLoginCredentials → Result AuthError Session
provision browser c role credentials = elim (browser.signup c credentials) [
  | signed_up session ↦ ok session
  | account_exists ↦ login_browser_account browser c role credentials
  | signup_failed message ↦ err (browser_failure message)
]

-- What follows a session of a pending account.
abbrev pub complete_account :
    EnvironmentConfig
    → SessionRole
    → BrowserLoginCredentials
    → Option String
    → Result AuthError Session
    → Result AuthError Session × Option String
complete_account c role credentials file (err e) = (err e, file)
complete_account c role credentials file (ok session) =
    elim (mark_local_credentials_complete c role credentials file) [
      | err e ↦ (err (credential_failure e), file)
      | ok after ↦ (ok session, after)
    ]

-- The part of `acquire_browser_session` for the local environment.
unfoldable pub acquire_local_session :
    EnvironmentConfig
    → SessionRole
    → Dict String String
    → Option String
    → BrowserLoginCredentials
    → Browser
    → Result AuthError Session × Option String
acquire_local_session c role source file generated browser =
    elim (load_or_create_local_credentials c role source file generated) [
      | err e ↦ (err (credential_failure e), file)
      | ok (account, after) ↦
          if not (account.state == pending)
          then (login_browser_account browser c role account.credentials, after)
          else complete_account c role account.credentials after
              (provision browser c role account.credentials)
    ]

-- The username and the password that the environment supplies.
abbrev pub supplied_credentials :
    EnvironmentConfig → SessionRole → Dict String String → Result AuthError BrowserLoginCredentials
supplied_credentials c role source = do
  (username_env, password_env) ← browser_variable_names c role
  username ← required_secret source username_env
  password ← required_secret source password_env
  ok (record { username = username; password = password })

unfoldable pub acquire_browser_session :
    EnvironmentConfig
    → SessionRole
    → Dict String String
    → Option String
    → BrowserLoginCredentials
    → Browser
    → Result AuthError Session × Option String
acquire_browser_session c role source file generated browser =
    if c.environment_type == production
    then (err browser_in_production, file)
    else elim c.auth.browser [
      | none ↦ (err missing_browser_settings, file)
      | some b ↦
          if c.environment_type == local
          then acquire_local_session c role source file generated browser
          else (supplied_credentials c role source >>= login_browser_account browser c role, file)
    ]

-- The variable that `load_supplied_session` reads.
abbrev pub session_variable : EnvironmentConfig → SessionRole → Result AuthError String
session_variable c primary = ok c.auth.supplied_sessions.primary_session_env
session_variable c secondary = elim c.auth.supplied_sessions.secondary_session_env [
  | none ↦ err missing_secondary_session
  | some name ↦ ok name
]
session_variable c admin = elim c.auth.supplied_sessions.admin_session_env [
  | none ↦ err missing_admin_session
  | some name ↦ ok name
]

unfoldable pub load_supplied_session :
    EnvironmentConfig → SessionRole → Dict String String → Result AuthError Session
load_supplied_session c role source = do
  name ← session_variable c role
  value ← required_secret source name
  ok (record { cookie_name = c.session_cookie_name; cookie_value = value })

-- Of the two modes that a configuration can have.
unfoldable pub acquire_session :
    EnvironmentConfig
    → SessionRole
    → Dict String String
    → Option String
    → BrowserLoginCredentials
    → Browser
    → Result AuthError Session × Option String
acquire_session c role source file generated browser = elim c.auth.mode [
  | browser_preprovisioned ↦ acquire_browser_session c role source file generated browser
  | supplied_sessions ↦ (load_supplied_session c role source, file)
]

-- The credentials of an account that was signed up before. A load that finds no credentials in the
-- file stores new ones, which are then pending.
unfoldable pub load_existing_browser_credentials :
    EnvironmentConfig
    → SessionRole
    → Dict String String
    → Option String
    → BrowserLoginCredentials
    → Result AuthError BrowserLoginCredentials × Option String
load_existing_browser_credentials c role source file generated =
    if not (c.auth.mode == browser_preprovisioned)
    then (err not_browser_mode, file)
    else if c.environment_type == production
    then (err browser_in_production, file)
    else elim c.auth.browser [
      | none ↦ (err missing_browser_settings, file)
      | some b ↦
          if c.environment_type == local
          then elim (load_or_create_local_credentials c role source file generated) [
            | err e ↦ (err (credential_failure e), file)
            | ok (account, after) ↦
                if account.state == pending
                then (err not_provisioned, after)
                else (ok account.credentials, after)
          ]
          else (supplied_credentials c role source, file)
    ]

pub record ProvisionedDisposableTarget : Type 0 where
  pub account : DisposableCredentialRecord
  pub first_session : Session

-- What follows a session of the target.
abbrev pub complete_target :
    EnvironmentConfig
    → DisposableCredentialRecord
    → Option String
    → Result AuthError Session
    → Result AuthError ProvisionedDisposableTarget × Option String
complete_target c account file (err e) = (err e, file)
complete_target c account file (ok session) =
    elim (mark_disposable_credentials_complete c account file) [
      | err e ↦ (err (credential_failure e), file)
      | ok (completed, after) ↦
          (ok (record { account = completed; first_session = session }), after)
    ]

abbrev pub known_target :
    DisposableCredentialRecord
    → Result AuthError Session
    → Result AuthError ProvisionedDisposableTarget
known_target account (err e) = err e
known_target account (ok session) = ok (record { account = account; first_session = session })

unfoldable pub acquire_disposable_browser_target :
    EnvironmentConfig
    → String
    → String
    → Dict String String
    → Option String
    → BrowserLoginCredentials
    → Browser
    → Result AuthError ProvisionedDisposableTarget × Option String
acquire_disposable_browser_target c run_id scenario_id environ file generated browser =
    if not (c.auth.mode == browser_preprovisioned)
    then (err not_browser_mode, file)
    else if not c.allow_mutation || not c.allow_destructive
    then (err not_permitted, file)
    else elim (load_or_create_disposable_credentials c run_id scenario_id environ file generated) [
      | err e ↦ (err (credential_failure e), file)
      | ok (account, after) ↦
          if account.state == Disposable.complete
          then (
            known_target account (login_browser_account browser c primary account.credentials),
            after,
          )
          else complete_target c account after (provision browser c primary account.credentials)
    ]
