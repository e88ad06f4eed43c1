-- ===== src/Tests/Disposable.antt =====
-- The disposable account on concrete texts.
use budget_analyzer_api_test.Base.{
  ◌≡◌, refl, List, [], ◌∷◌, Option, none, some, String, string_eq, nat_eq, bool_eq, option_eq,
}
use budget_analyzer_api_test.Base.Dict.{Dict}
use budget_analyzer_api_test.Base.Result.{ok}
use budget_analyzer_api_test.Base.Text.{strip}
use budget_analyzer_api_test.Credentials.File.{read_credential_file, update_credential_file}
use budget_analyzer_api_test.Credentials.Local.{session_role_eq, credential_state_eq, read_values}
use budget_analyzer_api_test.Credentials.Naming.{
  disposable_variable_prefix, disposable_variable_names,
}
use budget_analyzer_api_test.Credentials.Disposable.{
  DisposableState, complete, DisposableCredentialRecord, disposable_state_eq,
  ensure_disposable_username_is_distinct, require_saved_disposable_record, stored_disposable,
  load_or_create_disposable_credentials,
}
use budget_analyzer_api_test.Credentials.Binding.{
  bind_disposable_identity, require_owned_disposable_identity,
}
use budget_analyzer_api_test.Tests.Environment.{local_config, browser_config}
use budget_analyzer_api_test.Config.{environment_type_eq}
use budget_analyzer_api_test.Credentials.Line.{match_assignment, parse_value}
use budget_analyzer_api_test.Credentials.Binding.Owned.{bind-require_owned}
use budget_analyzer_api_test.Credentials.Binding.Unique.{bind-unbound, IsOwnOnly, identity_updates}
use budget_analyzer_api_test.Credentials.Local.{stripped}
use budget_analyzer_api_test.Credentials.File.{read_credential_file}
use budget_analyzer_api_test.Credentials.File.Updated.{all_writable}
use budget_analyzer_api_test.Credentials.Line.{parse_value}
use budget_analyzer_api_test.Base.{true}
use budget_analyzer_api_test.Base.Text.{strip}
use budget_analyzer_api_test.Credentials.Disposable.Found.{
  load_disposable-IsConsistent, IsConsistent,
}

abbrev reusable : List String
reusable = "other" ∷ []

abbrev no_users : List String
no_users = []

abbrev pub target : DisposableState → Option String → Option String → DisposableCredentialRecord
target state subject user_id = record {
  run_id = "run-1";
  scenario_id = "s";
  credentials = record { username = "ba@test.com"; password = "p" };
  state = state;
  subject = subject;
  user_id = user_id;
}

abbrev pub signed_up_text : String
signed_up_text =
    "BA_ADMIN_DEACTIVATION_RUN_1_S_RUN_ID=run-1\nBA_ADMIN_DEACTIVATION_RUN_1_S_SCENARIO_ID=s\nBA_ADMIN_DEACTIVATION_RUN_1_S_USERNAME=ba@test.com\nBA_ADMIN_DEACTIVATION_RUN_1_S_PASSWORD=p\nBA_ADMIN_DEACTIVATION_RUN_1_S_ACCOUNT_STATE=complete\n"

prefix_run : disposable_variable_prefix "run--1" "(s)" ≡ ok "BA_ADMIN_DEACTIVATION_RUN_1_S"
unfolding disposable_variable_prefix nat_eq
prefix_run = refl

target_loaded :
    load_or_create_disposable_credentials local_config "run-1" "s" []
      (some signed_up_text)
      (record { username = "x"; password = "y" })
    ≡ ok (target complete none none, some signed_up_text)
unfolding load_or_create_disposable_credentials string_eq environment_type_eq
    disposable_variable_prefix nat_eq read_credential_file match_assignment strip parse_value
    stored_disposable bool_eq ensure_disposable_username_is_distinct option_eq
target_loaded = refl

load_disposable-IsConsistent_example :
    (values : Dict String String) × (read_values (some signed_up_text) ≡ ok values)
    × IsConsistent browser_config [] values "run-1" "s" (target complete none none)
load_disposable-IsConsistent_example =
    load_disposable-IsConsistent local_config browser_config "run-1" "s" [] (some signed_up_text)
      (record { username = "x"; password = "y" }) (target complete none none) (some signed_up_text)
      refl target_loaded

abbrev bound_text : String
bound_text =
    "BA_ADMIN_DEACTIVATION_RUN_1_S_RUN_ID=run-1\nBA_ADMIN_DEACTIVATION_RUN_1_S_SCENARIO_ID=s\nBA_ADMIN_DEACTIVATION_RUN_1_S_USERNAME=ba@test.com\nBA_ADMIN_DEACTIVATION_RUN_1_S_PASSWORD=p\nBA_ADMIN_DEACTIVATION_RUN_1_S_ACCOUNT_STATE=complete\n\nBA_ADMIN_DEACTIVATION_RUN_1_S_IDP_SUBJECT=sub\nBA_ADMIN_DEACTIVATION_RUN_1_S_USER_ID=7\n"

target_bound :
    bind_disposable_identity local_config
      (target complete none none)
      "run-1"
      "s"
      "sub"
      "7"
      reusable
      no_users
      (some signed_up_text)
    ≡ ok (target complete (some "sub") (some "7"), some bound_text)
unfolding bind_disposable_identity string_eq environment_type_eq disposable_state_eq
    disposable_variable_prefix nat_eq read_credential_file match_assignment
    require_saved_disposable_record strip parse_value update_credential_file
target_bound = refl

bind-require_owned_example :
    require_owned_disposable_identity
      (target complete (some "sub") (some "7"))
      "run-1"
      "s"
      "sub"
      "7"
      reusable
      no_users
    ≡ ok tt
bind-require_owned_example =
    bind-require_owned local_config (target complete none none) "run-1" "s" "sub" "7" reusable
      no_users (some signed_up_text) (target complete (some "sub") (some "7")) (some bound_text)
      target_bound

target_prefix : disposable_variable_prefix "run-1" "s" ≡ ok "BA_ADMIN_DEACTIVATION_RUN_1_S"
unfolding disposable_variable_prefix nat_eq
target_prefix = refl

identity_fits :
    all_writable
      (identity_updates (disposable_variable_names "BA_ADMIN_DEACTIVATION_RUN_1_S") "sub" "7")
    ≡ true
unfolding parse_value nat_eq string_eq
identity_fits = refl

bind-unbound_example :
    (values : Dict String String) × (read_credential_file (some bound_text) ≡ ok values)
    × let names = disposable_variable_names "BA_ADMIN_DEACTIVATION_RUN_1_S" in
      (stripped values names.subject ≡ "sub")
      × (stripped values names.user_id ≡ "7")
      × IsOwnOnly values names "_IDP_SUBJECT" "sub"
      × IsOwnOnly values names "_USER_ID" "7"
unfolding nat_eq strip
bind-unbound_example =
    bind-unbound local_config (target complete none none) (target complete (some "sub") (some "7"))
      "run-1" "s" "sub" "7" "BA_ADMIN_DEACTIVATION_RUN_1_S" reusable no_users (some signed_up_text)
      (some bound_text) target_prefix refl identity_fits refl refl target_bound
