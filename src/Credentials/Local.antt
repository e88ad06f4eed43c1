-- ===== src/Credentials/Local.antt =====
-- local_credentials.py: the accounts of the local target, one for each role of a session. What the
-- functions read and write is given to them: the environment variables, the credential file's text (or
-- none, where there is no file), and the credentials that the generator would make. They return the
-- file as it is afterwards; a call that raises has not written to it.
pub mod Stored
pub mod Names
pub mod Kept
pub mod Marked
pub mod Loaded
pub mod Reloaded
pub mod Accounts
pub mod Distinct
use budget_analyzer_api_test.Base.{
  Bool, ◌&&◌, ◌||◌, not, List, [], ◌∷◌, Eq, ◌==◌, if◌then◌else◌, Option, none, some, String,
  string_eq, nat_eq, bool_eq, option_eq,
}
use budget_analyzer_api_test.Base.Dict.{Dict, get_or, insert}
use budget_analyzer_api_test.Base.Result.{Result, ok, err, ◌>>=◌, ◌>>◌, raise_if}
use budget_analyzer_api_test.Base.Text.{strip}
use budget_analyzer_api_test.Config.{EnvironmentConfig, BrowserConfig}
use budget_analyzer_api_test.MarkerPolicy.{is_exact_local}
use budget_analyzer_api_test.Credentials.Line.{is_empty}
use budget_analyzer_api_test.Credentials.File.{
  FileError, read_credential_file, update_credential_file,
}

pub data SessionRole : Type 0 where
  primary secondary admin : SessionRole

pub data CredentialState : Type 0 where
  external pending complete : CredentialState

session_role_dec : Discrete SessionRole
session_role_dec = hlevel

credential_state_dec : Discrete CredentialState
credential_state_dec = hlevel

instance unfoldable pub session_role_eq : Eq SessionRole
unfolding session_role_dec
session_role_eq = record { dec = session_role_dec }

instance unfoldable pub credential_state_eq : Eq CredentialState
unfolding credential_state_dec
credential_state_eq = record { dec = credential_state_dec }

-- `BrowserLoginCredentials` of browser_login.py
pub record BrowserLoginCredentials : Type 0 where
  pub username : String
  pub password : String

pub record LocalCredentialRecord : Type 0 where
  pub credentials : BrowserLoginCredentials
  pub state : CredentialState

-- What is raised as a `LocalCredentialError`, by the functions here and by those of the disposable
-- accounts.
pub data CredentialError : Type 0 where
  file_error : FileError → CredentialError
  not_exact_local missing_browser_settings : CredentialError
  partial_environment partial_file invalid_state state_alone : SessionRole → CredentialError
  same_username : SessionRole → SessionRole → CredentialError
  changed_while_provisioning : SessionRole → CredentialError
  empty_provenance unsafe_record_name incomplete_record other_provenance : CredentialError
  invalid_disposable_state partial_binding incomplete_binding : CredentialError
  reusable_username retained_username changed_record : CredentialError
  foreign_provenance unfinished_signup empty_identity reusable_identity : CredentialError
  subject_bound_elsewhere user_bound_elsewhere subject_changed user_changed : CredentialError
  unbound_target identity_mismatch : CredentialError

-- The tuple of names of `_variable_names`.
pub record VariableNames : Type 0 where
  pub username : String
  pub password : String
  pub state : String

abbrev pub filled : String → Bool
filled s = not (is_empty s)

-- `values.get(name, "").strip()`
abbrev pub stripped : Dict String String → String → String
stripped values name = strip (get_or values name "")

-- `_read_credential_file`, with its error among those of this module
abbrev pub read_values : Option String → Result CredentialError (Dict String String)
read_values file = elim (read_credential_file file) [ ok d ↦ ok d | err e ↦ err (file_error e) ]

abbrev pub ensure_exact_local_target : EnvironmentConfig → Result CredentialError (Unit {0})
ensure_exact_local_target c = raise_if (not (is_exact_local c)) not_exact_local

abbrev pub names_of : BrowserConfig → SessionRole → VariableNames
names_of b primary = record {
  username = b.primary_username_env;
  password = b.primary_password_env;
  state = "BA_PRIMARY_TEST_ACCOUNT_STATE";
}
names_of b secondary = record {
  username = b.secondary_username_env;
  password = b.secondary_password_env;
  state = "BA_SECONDARY_TEST_ACCOUNT_STATE";
}
names_of b admin = record {
  username = b.admin_username_env;
  password = b.admin_password_env;
  state = "BA_ADMIN_TEST_ACCOUNT_STATE";
}

-- `_variable_names`
abbrev pub variable_names : EnvironmentConfig → SessionRole → Result CredentialError VariableNames
variable_names c role = elim c.auth.browser [
  | none ↦ err missing_browser_settings
  | some b ↦ ok (names_of b role)
]

-- The username that a role's variables resolve to. A partial pair in the environment hides the saved
-- one: the role reports it when it is requested.
abbrev pub resolved_username :
    Dict String String → Dict String String → VariableNames → Option String
resolved_username source saved names =
    let external_username = stripped source names.username in
    let external_password = stripped source names.password in
    let saved_username = stripped saved names.username in
    let saved_password = stripped saved names.password in
    if filled external_username && filled external_password
    then some external_username
    else if filled external_username || filled external_password
    then none
    else if is_empty saved_username || is_empty saved_password
    then none
    else some saved_username

-- The loop of `_ensure_distinct_role_username`.
abbrev pub ensure_distinct_from :
    EnvironmentConfig
    → SessionRole
    → String
    → Dict String String
    → Dict String String
    → List SessionRole
    → Result CredentialError (Unit {0})
ensure_distinct_from c role username source saved [] = ok tt
ensure_distinct_from c role username source saved (other ∷ others) =
    let rest = ensure_distinct_from c role username source saved others in
    if other == role then rest else do
      names ← variable_names c other
      raise_if (resolved_username source saved names == some username) (same_username role other)
      rest

abbrev pub saved_values :
    Option String → Option (Dict String String) → Result CredentialError (Dict String String)
saved_values file none = read_values file
saved_values file (some values) = ok values

-- `_ensure_distinct_role_username`
unfoldable pub ensure_distinct_role_username :
    EnvironmentConfig
    → SessionRole
    → String
    → Dict String String
    → Option String
    → Option (Dict String String)
    → Result CredentialError (Unit {0})
ensure_distinct_role_username c role username source file values = do
  saved ← saved_values file values
  ensure_distinct_from c role username source saved (primary ∷ secondary ∷ admin ∷ [])

-- `raw_state`, where it is one of the two that are accepted
abbrev pub saved_state : SessionRole → String → Result CredentialError CredentialState
saved_state role raw =
    if raw == "pending"
    then ok pending
    else if raw == "complete"
    then ok complete
    else err (invalid_state role)

-- The credentials that are in the file, whose values are at hand: it is not read again.
unfoldable pub stored_credentials :
    EnvironmentConfig
    → SessionRole
    → Dict String String
    → Dict String String
    → VariableNames
    → Result CredentialError LocalCredentialRecord
stored_credentials c role source values names = do
  state ← saved_state role (strip (get_or values names.state "complete"))
  let credentials : BrowserLoginCredentials = record {
    username = stripped values names.username;
    password = stripped values names.password;
  }
  ensure_distinct_role_username c role credentials.username source none (some values)
  ok (record { credentials = credentials; state = state })

abbrev pub new_entries : VariableNames → BrowserLoginCredentials → Dict String String
new_entries names credentials =
    insert names.state "pending"
      (insert names.password credentials.password (insert names.username credentials.username []))

-- New credentials, which are written to the file before they are used.
unfoldable pub created_credentials :
    EnvironmentConfig
    → SessionRole
    → Dict String String
    → Option String
    → BrowserLoginCredentials
    → Dict String String
    → VariableNames
    → Result CredentialError (LocalCredentialRecord × Option String)
created_credentials c role source file credentials values names = do
  raise_if (filled (stripped values names.state)) (state_alone role)
  ensure_distinct_role_username c role credentials.username source file (some values)
  ok (
    record { credentials = credentials; state = pending },
    update_credential_file file (new_entries names credentials),
  )

-- The credentials of the file, which are made where it has none.
unfoldable pub file_credentials :
    EnvironmentConfig
    → SessionRole
    → Dict String String
    → Option String
    → BrowserLoginCredentials
    → VariableNames
    → Result CredentialError (LocalCredentialRecord × Option String)
file_credentials c role source file generated names = do
  values ← read_values file
  let has_username = filled (stripped values names.username)
  let has_password = filled (stripped values names.password)
  raise_if (not (has_username == has_password)) (partial_file role)
  if has_username && has_password
      then (do found ← stored_credentials c role source values names; ok (found, file))
      else created_credentials c role source file generated values names

unfoldable pub load_or_create_local_credentials :
    EnvironmentConfig
    → SessionRole
    → Dict String String
    → Option String
    → BrowserLoginCredentials
    → Result CredentialError (LocalCredentialRecord × Option String)
load_or_create_local_credentials c role source file generated = do
  ensure_exact_local_target c
  names ← variable_names c role
  let supplied_username = stripped source names.username
  let supplied_password = stripped source names.password
  raise_if (not (filled supplied_username == filled supplied_password)) (partial_environment role)
  if filled supplied_username && filled supplied_password
      then (do
        ensure_distinct_role_username c role supplied_username source file none
        ok (
          record {
            credentials = record { username = supplied_username; password = supplied_password };
            state = external;
          },
          file,
        ))
      else file_credentials c role source file generated names

unfoldable pub mark_local_credentials_complete :
    EnvironmentConfig
    → SessionRole
    → BrowserLoginCredentials
    → Option String
    → Result CredentialError (Option String)
mark_local_credentials_complete c role credentials file = do
  ensure_exact_local_target c
  names ← variable_names c role
  values ← read_values file
  raise_if
      (not (stripped values names.username == credentials.username)
        || not (stripped values names.password == credentials.password))
      (changed_while_provisioning role)
  ok (update_credential_file file (insert names.state "complete" []))
