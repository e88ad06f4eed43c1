-- ===== src/Credentials/Local/Stored.antt =====
-- An account that the credential file holds is found by the next load.
use budget_analyzer_api_test.Base.{
  ◌≡◌, refl, true, false, List, [], ◌∷◌, Option, some, String, string_eq, nat_eq, bool_eq,
  option_eq,
}
use budget_analyzer_api_test.Base.Dict.{Dict, get_or}
use budget_analyzer_api_test.Base.Result.{ok}
use budget_analyzer_api_test.Base.Text.{strip}
use budget_analyzer_api_test.Config.{EnvironmentConfig, BrowserConfig}
use budget_analyzer_api_test.MarkerPolicy.{is_exact_local}
use budget_analyzer_api_test.Credentials.File.{read_credential_file}
use budget_analyzer_api_test.Credentials.Local.{
  SessionRole, primary, secondary, admin, session_role_eq, credential_state_eq,
  BrowserLoginCredentials, LocalCredentialRecord, filled, stripped, read_values, names_of,
  variable_names, ensure_distinct_from, ensure_distinct_role_username, saved_state,
  stored_credentials, file_credentials, load_or_create_local_credentials,
}

abbrev pub roles : List SessionRole
roles = primary ∷ secondary ∷ admin ∷ []

-- What the file and the environment hold where a load finds the account in the file.
pub record IsStored (c : EnvironmentConfig) (b : BrowserConfig) (role : SessionRole)
    (source : Dict String String) (account : LocalCredentialRecord) (file : Option String)
    : Type 0 where
  pub values : Dict String String
  pub exact : is_exact_local c ≡ true
  pub configured : c.auth.browser ≡ some b
  pub no_username : filled (stripped source (names_of b role).username) ≡ false
  pub no_password : filled (stripped source (names_of b role).password) ≡ false
  pub readable : read_credential_file file ≡ ok values
  pub username_found : stripped values (names_of b role).username ≡ account.credentials.username
  pub password_found : stripped values (names_of b role).password ≡ account.credentials.password
  pub username_filled : filled account.credentials.username ≡ true
  pub password_filled : filled account.credentials.password ≡ true
  pub state_found :
      saved_state role (strip (get_or values (names_of b role).state "complete")) ≡ ok account.state
  pub distinct :
      ensure_distinct_from c role account.credentials.username source values roles ≡ ok tt

pub variable_names-configured :
    (c : EnvironmentConfig) (b : BrowserConfig) (role : SessionRole)
    → c.auth.browser ≡ some b
    → variable_names c role ≡ ok (names_of b role)
variable_names-configured c b role h = rw (h, variable_names) refl

pub read_values-readable :
    (file : Option String) (d : Dict String String)
    → read_credential_file file ≡ ok d
    → read_values file ≡ ok d
read_values-readable file d h = rw (h, read_values) refl

module _ (c : EnvironmentConfig) (b : BrowserConfig) (role : SessionRole)
    (source : Dict String String) (account : LocalCredentialRecord) (file : Option String)
    (h : IsStored c b role source account file) where
  stored_lem : stored_credentials c role source h.values (names_of b role) ≡ ok account
  unfolding stored_credentials ensure_distinct_role_username
  stored_lem = rw (h.state_found, h.username_found, h.password_found, h.distinct) refl

  file_lem :
      (generated : BrowserLoginCredentials)
      → file_credentials c role source file generated (names_of b role) ≡ ok (account, file)
  unfolding file_credentials bool_eq
  file_lem generated =
      rw
        (
          read_values-readable file h.values h.readable,
          h.username_found,
          h.password_found,
          h.username_filled,
          h.password_filled,
          stored_lem,
        )
        refl

  pub load-IsStored :
      (generated : BrowserLoginCredentials)
      → load_or_create_local_credentials c role source file generated ≡ ok (account, file)
  unfolding load_or_create_local_credentials bool_eq
  load-IsStored generated =
      rw
        (
          h.exact,
          variable_names-configured c b role h.configured,
          h.no_username,
          h.no_password,
          file_lem generated,
        )
        refl
