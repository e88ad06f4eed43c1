-- ===== src/Credentials/Local/Loaded.antt =====
-- What a load of an account leaves behind.
use budget_analyzer_api_test.Base.{
  ◌≡◌, refl, ap, true, false, ◌&&◌, not, ◌==◌, if◌then◌else◌, Option, none, some, String, string_eq,
  nat_eq, bool_eq, option_eq,
}
use budget_analyzer_api_test.Base.Dict.{Dict, get_or}
use budget_analyzer_api_test.Base.Result.{Result, ok, err, ◌>>◌, raise_if, >>=-eq-ok, ok-injective}
use budget_analyzer_api_test.Base.Text.{strip}
use budget_analyzer_api_test.Config.{EnvironmentConfig, BrowserConfig}
use budget_analyzer_api_test.MarkerPolicy.{is_exact_local}
use budget_analyzer_api_test.Credentials.File.{FileError, read_credential_file}
use budget_analyzer_api_test.Credentials.Local.{
  SessionRole, external, session_role_eq, credential_state_eq, BrowserLoginCredentials,
  LocalCredentialRecord, CredentialError, VariableNames, filled, stripped, read_values, names_of,
  ensure_distinct_from, ensure_distinct_role_username, saved_state, stored_credentials,
  file_credentials, load_or_create_local_credentials, partial_environment, not_exact_local,
  file_error,
}
use budget_analyzer_api_test.Credentials.Local.Stored.{roles, variable_names-configured, IsStored}
use mathlib.Core.Path.{subst}

-- The load of the local target, once its names are known.
abbrev pub load_external :
    EnvironmentConfig
    → SessionRole
    → Dict String String
    → Option String
    → VariableNames
    → Result CredentialError (LocalCredentialRecord × Option String)
load_external c role source file names = do
  ensure_distinct_role_username c role (stripped source names.username) source file none
  ok (
    record {
      credentials = record {
        username = stripped source names.username;
        password = stripped source names.password;
      };
      state = external;
    },
    file,
  )

abbrev pub load_named :
    EnvironmentConfig
    → SessionRole
    → Dict String String
    → Option String
    → BrowserLoginCredentials
    → VariableNames
    → Result CredentialError (LocalCredentialRecord × Option String)
load_named c role source file generated names = do
  raise_if
      (not (filled (stripped source names.username) == filled (stripped source names.password)))
      (partial_environment role)
  if filled (stripped source names.username) && filled (stripped source names.password)
      then load_external c role source file names
      else file_credentials c role source file generated names

pub load_exact :
    (c : EnvironmentConfig) (b : BrowserConfig) (role : SessionRole) (source : Dict String String)
    (file : Option String) (generated : BrowserLoginCredentials)
    → is_exact_local c ≡ true
    → c.auth.browser ≡ some b
    → load_or_create_local_credentials c role source file generated
      ≡ load_named c role source file generated (names_of b role)
unfolding load_or_create_local_credentials
load_exact c b role source file generated e h = rw (e, variable_names-configured c b role h) refl

pub load-not_exact :
    (c : EnvironmentConfig) (role : SessionRole) (source : Dict String String)
    (file : Option String) (generated : BrowserLoginCredentials)
    → is_exact_local c ≡ false
    → load_or_create_local_credentials c role source file generated ≡ err not_exact_local
unfolding load_or_create_local_credentials
load-not_exact c role source file generated e = rw e refl

pub readable-read_values :
    (file : Option String) (d : Dict String String)
    → read_values file ≡ ok d
    → read_credential_file file ≡ ok d
readable-read_values file d h = read (read_credential_file file) h
  where
    read :
        (r : Result FileError (Dict String String))
        → let out : Result CredentialError (Dict String String) = elim r [
          | ok d ↦ ok d
          | err e ↦ err (file_error e)
        ] in
          out ≡ ok d → r ≡ ok d
    read (ok e) h = ap ok (ok-injective e d h)
    read (err e) h = cc

-- What the file holds where its account is taken.
pub taken-IsStored :
    (c : EnvironmentConfig) (b : BrowserConfig) (role : SessionRole) (source d : Dict String String)
    (account : LocalCredentialRecord) (file : Option String)
    → is_exact_local c ≡ true
    → c.auth.browser ≡ some b
    → filled (stripped source (names_of b role).username) ≡ false
    → filled (stripped source (names_of b role).password) ≡ false
    → read_credential_file file ≡ ok d
    → filled (stripped d (names_of b role).username) ≡ true
    → filled (stripped d (names_of b role).password) ≡ true
    → stored_credentials c role source d (names_of b role) ≡ ok account
    → IsStored c b role source account file
unfolding stored_credentials ensure_distinct_role_username
taken-IsStored c b role source d account file exact configured nu np readable fu fp h =
    let names = names_of b role in
    let (state, was, rest) =
      >>=-eq-ok (saved_state role (strip (get_or d names.state "complete"))) _ h in
    let (passed, free, last) =
      >>=-eq-ok (ensure_distinct_from c role (stripped d names.username) source d roles) _ rest in
    subst (λ a. IsStored c b role source a file) (ok-injective _ account last)
      (record {
        values = d;
        exact = exact;
        configured = configured;
        no_username = nu;
        no_password = np;
        readable = readable;
        username_found = refl;
        password_found = refl;
        username_filled = fu;
        password_filled = fp;
        state_found = was;
        distinct = free;
      })
