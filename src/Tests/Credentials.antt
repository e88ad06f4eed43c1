-- ===== src/Tests/Credentials.antt =====
-- The credential file and the accounts of the local target on concrete texts.
use budget_analyzer_api_test.Base.{
  ◌≡◌, refl, ◌≢◌, true, [], ◌∷◌, Option, some, String, nodup, string_eq, nat_eq, bool_eq, option_eq,
}
use budget_analyzer_api_test.Base.Dict.{Dict, lookup}
use budget_analyzer_api_test.Base.Result.{ok}
use budget_analyzer_api_test.Base.Text.{strip}
use budget_analyzer_api_test.Credentials.File.{read_credential_file, update_credential_file}
use budget_analyzer_api_test.Credentials.File.Entries.{found_or}
use budget_analyzer_api_test.Credentials.File.Updated.{all_writable}
use budget_analyzer_api_test.Credentials.File.Saved.{update_credential_file_lem}
use budget_analyzer_api_test.Credentials.Local.{
  primary, admin, pending, session_role_eq, credential_state_eq, BrowserLoginCredentials,
  LocalCredentialRecord, names_of, resolved_username, ensure_distinct_role_username,
  created_credentials, file_credentials, load_or_create_local_credentials,
  mark_local_credentials_complete,
}
use budget_analyzer_api_test.Tests.Environment.{local_config, browser_config}
use budget_analyzer_api_test.Config.{environment_type_eq, auth_mode_eq}
use budget_analyzer_api_test.Credentials.Line.{match_assignment, parse_value}
use budget_analyzer_api_test.Credentials.Local.Names.{all_names}
use budget_analyzer_api_test.Credentials.Local.Kept.{can_keep}
use budget_analyzer_api_test.Credentials.Local.Marked.{finished}
use budget_analyzer_api_test.Credentials.Local.Accounts.{load-load, load-mark}
use budget_analyzer_api_test.Credentials.Local.Distinct.{load-other_role}

abbrev env_file : Option String
env_file = some "# note\nA=1\nB = 'x y'"

abbrev env_values : Dict String String
env_values = ("A", "1") ∷ ("B", "x y") ∷ []

abbrev env_updates : Dict String String
env_updates = ("B", "2") ∷ ("C", "3 4") ∷ []

env_file_read : read_credential_file env_file ≡ ok env_values
unfolding read_credential_file nat_eq match_assignment string_eq parse_value
env_file_read = refl

env_file_updated : update_credential_file env_file env_updates ≡ some "# note\nA=1\nB=2\n\nC=3 4\n"
unfolding update_credential_file nat_eq match_assignment string_eq
env_file_updated = refl

env_updates_fit : all_writable env_updates ≡ true
unfolding parse_value nat_eq string_eq
env_updates_fit = refl

update_credential_file_lem_example :
    (after : Dict String String) × (read_credential_file
        (update_credential_file env_file env_updates)
      ≡ ok after)
    × ((n : String) → lookup n after ≡ found_or (lookup n env_updates) (lookup n env_values))
unfolding string_eq nat_eq
update_credential_file_lem_example =
    update_credential_file_lem env_file env_updates env_values refl refl env_updates_fit
      env_file_read

abbrev pub made : BrowserLoginCredentials
made = record { username = "ba@test.com"; password = "Ba9!x" }

abbrev pub other_made : BrowserLoginCredentials
other_made = record { username = "bb@test.com"; password = "Ba9!y" }

abbrev pub account : LocalCredentialRecord
account = record { credentials = made; state = pending }

abbrev pub before : Option String
before = some "TOKEN=1\n"

abbrev pub after : Option String
after =
    some
      "TOKEN=1\n\nTEST_USER_USERNAME=ba@test.com\nTEST_USER_PASSWORD=Ba9!x\nBA_PRIMARY_TEST_ACCOUNT_STATE=pending\n"

pub made_kept : can_keep browser_config primary made ≡ true
unfolding parse_value nat_eq string_eq strip
made_kept = refl

pub names_apart : nodup (all_names browser_config) ≡ true
unfolding string_eq
names_apart = refl

pub account_loaded :
    load_or_create_local_credentials local_config primary [] before made ≡ ok (account, after)
unfolding load_or_create_local_credentials string_eq nat_eq environment_type_eq bool_eq strip
    file_credentials read_credential_file match_assignment created_credentials
    ensure_distinct_role_username session_role_eq option_eq update_credential_file
account_loaded = refl

load-load_example :
    load_or_create_local_credentials local_config primary [] after other_made ≡ ok (account, after)
unfolding string_eq nat_eq
load-load_example =
    load-load local_config browser_config primary [] before after made account refl names_apart refl
      made_kept account_loaded other_made

load-mark_example :
    (done : Option String) × (mark_local_credentials_complete local_config primary made after
      ≡ ok done)
    × ((other : BrowserLoginCredentials)
        → load_or_create_local_credentials local_config primary [] done other
          ≡ ok (finished account, done))
unfolding string_eq nat_eq
load-mark_example =
    load-mark local_config browser_config primary [] before after made account refl names_apart refl
      made_kept account_loaded refl

admin-primary : admin ≢ primary
admin-primary = λ h. cc

load-other_role_example :
    (d : Dict String String) × (read_credential_file before ≡ ok d)
    × (resolved_username [] d (names_of browser_config admin) ≢ some "ba@test.com")
load-other_role_example =
    load-other_role local_config browser_config primary [] before made refl admin account after
      admin-primary account_loaded
