-- ===== src/Credentials/Disposable.antt =====
-- local_credentials.py: the disposable account of one run and scenario. As for the accounts of the
-- roles, the functions are given the environment variables, the file and the credentials that would be
-- generated, and return the file as it is afterwards. The sets of reusable identities are lists.
pub mod Found
use budget_analyzer_api_test.Base.{
  Bool, ◌&&◌, ◌||◌, not, List, [], ◌∷◌, Eq, ◌==◌, if◌then◌else◌, Option, none, some, String, any,
  string_eq, nat_eq, bool_eq, option_eq,
}
use budget_analyzer_api_test.Base.Dict.{Dict}
use budget_analyzer_api_test.Base.Result.{Result, ok, err, ◌>>=◌, ◌>>◌, raise_if}
use budget_analyzer_api_test.Base.Text.{strip}
use budget_analyzer_api_test.Config.{EnvironmentConfig}
use budget_analyzer_api_test.Credentials.Line.{is_empty}
use budget_analyzer_api_test.Credentials.File.{update_credential_file}
use budget_analyzer_api_test.Credentials.Local.{
  SessionRole, primary, secondary, admin, session_role_eq, credential_state_eq,
  BrowserLoginCredentials, CredentialError, filled, stripped, read_values,
  ensure_exact_local_target, variable_names, resolved_username,
}
use budget_analyzer_api_test.Base.Prefix.{starts_with, ends_with}
use budget_analyzer_api_test.Credentials.Local.{
  incomplete_record, other_provenance, invalid_disposable_state, partial_binding,
  incomplete_binding, reusable_username, retained_username, changed_record, foreign_provenance,
}
use budget_analyzer_api_test.Credentials.Naming.{
  disposable_record_prefix, disposable_variable_prefix, DisposableVariableNames,
  disposable_variable_names,
}

pub data DisposableState : Type 0 where
  pending complete : DisposableState

pub record DisposableCredentialRecord : Type 0 where
  pub run_id : String
  pub scenario_id : String
  pub credentials : BrowserLoginCredentials
  pub state : DisposableState
  pub subject : Option String
  pub user_id : Option String

disposable_state_dec : Discrete DisposableState
disposable_state_dec = hlevel

instance unfoldable pub disposable_state_eq : Eq DisposableState
unfolding disposable_state_dec
disposable_state_eq = record { dec = disposable_state_dec }

-- The text that the file has for a state.
abbrev pub state_text : DisposableState → String
state_text pending = "pending"
state_text complete = "complete"

abbrev pub saved_disposable_state : String → Result CredentialError DisposableState
saved_disposable_state raw =
    if raw == "pending"
    then ok pending
    else if raw == "complete"
    then ok complete
    else err invalid_disposable_state

-- `value or None`
abbrev pub filled_value : String → Option String
filled_value value = if is_empty value then none else some value

-- A variable of another disposable record has the value.
abbrev pub is_retained : String → String → String → String × String → Bool
is_retained suffix own value (name, saved) =
    starts_with disposable_record_prefix name
    && (ends_with suffix name && (not (name == own) && strip saved == value))

-- The loop over the roles.
abbrev pub ensure_not_reusable :
    EnvironmentConfig
    → String
    → Dict String String
    → Dict String String
    → List SessionRole
    → Result CredentialError (Unit {0})
ensure_not_reusable c username environ values [] = ok tt
ensure_not_reusable c username environ values (role ∷ others) = do
  names ← variable_names c role
  raise_if (resolved_username environ values names == some username) reusable_username
  ensure_not_reusable c username environ values others

-- `_ensure_disposable_username_is_distinct`
unfoldable pub ensure_disposable_username_is_distinct :
    EnvironmentConfig
    → String
    → Dict String String
    → String
    → Dict String String
    → Result CredentialError (Unit {0})
ensure_disposable_username_is_distinct c username environ prefix values = do
  ensure_not_reusable c username environ values (primary ∷ secondary ∷ admin ∷ [])
  raise_if
      (any (is_retained "_USERNAME" (disposable_variable_names prefix).username username) values)
      retained_username

-- `_require_saved_disposable_record`
unfoldable pub require_saved_disposable_record :
    Dict String String
    → DisposableVariableNames
    → DisposableCredentialRecord
    → Result CredentialError (Unit {0})
require_saved_disposable_record values names account =
    raise_if
      (not (stripped values names.run_id == account.run_id)
        || (not (stripped values names.scenario_id == account.scenario_id)
            || (not (stripped values names.username == account.credentials.username)
                || (not (stripped values names.password == account.credentials.password)
                    || not (stripped values names.state == state_text account.state)))))
      changed_record

-- `_require_current_disposable_provenance`
abbrev pub require_current_disposable_provenance :
    DisposableCredentialRecord → String → String → Result CredentialError (Unit {0})
require_current_disposable_provenance account run_id scenario_id =
    raise_if (not (account.run_id == run_id) || not (account.scenario_id == scenario_id))
      foreign_provenance

-- The record that the file has under the names.
unfoldable pub stored_disposable :
    EnvironmentConfig
    → String
    → String
    → Dict String String
    → String
    → Dict String String
    → Result CredentialError DisposableCredentialRecord
stored_disposable c run_id scenario_id environ prefix values = do
  let names = disposable_variable_names prefix
  let stored_run_id = stripped values names.run_id
  let stored_scenario_id = stripped values names.scenario_id
  let username = stripped values names.username
  let password = stripped values names.password
  let subject = stripped values names.subject
  let user_id = stripped values names.user_id
  raise_if
      (is_empty stored_run_id
        || (is_empty stored_scenario_id || (is_empty username || is_empty password)))
      incomplete_record
  raise_if (not (stored_run_id == run_id) || not (stored_scenario_id == scenario_id))
      other_provenance
  state ← saved_disposable_state (stripped values names.state)
  raise_if (not (filled subject == filled user_id)) partial_binding
  raise_if (filled subject && not (state == complete)) incomplete_binding
  ensure_disposable_username_is_distinct c username environ prefix values
  ok (record {
    run_id = run_id;
    scenario_id = scenario_id;
    credentials = record { username = username; password = password };
    state = state;
    subject = filled_value subject;
    user_id = filled_value user_id;
  })

-- `any(current_values)`
abbrev pub has_disposable_record : Dict String String → DisposableVariableNames → Bool
has_disposable_record values names =
    filled (stripped values names.run_id)
    || (filled (stripped values names.scenario_id)
        || (filled (stripped values names.username)
            || (filled (stripped values names.password)
                || (filled (stripped values names.state)
                    || (filled (stripped values names.subject)
                        || filled (stripped values names.user_id))))))

-- The dict that is written for a new account; its names differ in their ends.
abbrev pub disposable_entries :
    String → String → DisposableVariableNames → BrowserLoginCredentials → Dict String String
disposable_entries run_id scenario_id names generated =
    (names.run_id, run_id)
    ∷ (names.scenario_id, scenario_id)
    ∷ (names.username, generated.username)
    ∷ (names.password, generated.password)
    ∷ (names.state, "pending")
    ∷ []

unfoldable pub load_or_create_disposable_credentials :
    EnvironmentConfig
    → String
    → String
    → Dict String String
    → Option String
    → BrowserLoginCredentials
    → Result CredentialError (DisposableCredentialRecord × Option String)
load_or_create_disposable_credentials c run_id scenario_id environ file generated = do
  ensure_exact_local_target c
  prefix ← disposable_variable_prefix run_id scenario_id
  values ← read_values file
  let names = disposable_variable_names prefix
  if has_disposable_record values names
      then (do
        found ← stored_disposable c run_id scenario_id environ prefix values
        ok (found, file))
      else (do
        ensure_disposable_username_is_distinct c generated.username environ prefix values
        ok (
          record {
            run_id = run_id;
            scenario_id = scenario_id;
            credentials = generated;
            state = pending;
            subject = none;
            user_id = none;
          },
          update_credential_file file (disposable_entries run_id scenario_id names generated),
        ))

unfoldable pub mark_disposable_credentials_complete :
    EnvironmentConfig
    → DisposableCredentialRecord
    → Option String
    → Result CredentialError (DisposableCredentialRecord × Option String)
mark_disposable_credentials_complete c account file = do
  ensure_exact_local_target c
  prefix ← disposable_variable_prefix account.run_id account.scenario_id
  let names = disposable_variable_names prefix
  values ← read_values file
  require_saved_disposable_record values names account
  ok (
    record account { state = complete },
    update_credential_file file ((names.state, "complete") ∷ []),
  )
