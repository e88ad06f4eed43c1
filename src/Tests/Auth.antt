-- ===== src/Tests/Auth.antt =====
-- Sessions that are acquired, with browsers that fail and that work.
use budget_analyzer_api_test.Base.{
  ℕ, zero, suc, ◌+◌, ◌-◌, ◌≤◌, ◌<◌, ◌≡◌, refl, sym, ◌∙◌, ap, ◌≢◌, ◌↔◌, ◌⊎◌, Bool, true, false, ◌&&◌,
  ◌||◌, not, List, [], ◌∷◌, ◌++◌, map, arith, Eq, ◌==◌, contains, keep, if◌then◌else◌, Option, none,
  some, inl, inr, Bool-cases, Option-cases, String, ◌<>◌, contains-append, contains-keep,
  all-contains, all-ext, any-ext, null-keep-not, null-keep, all-map, any-map, null-map,
  contains-map-keep, all-and, All-map, All-of_contains, all_mono, all_of_contains, ltb, leb, all,
  any, null, nodup, length, All, string_eq, nat_eq, ==_self, eq_of_==, ne_of_==, implies,
  null-append, length-append, bool_eq, option_eq, are_fresh, are_fresh-cons, are_fresh-append,
  nodup-append, are_fresh_union,
}
use budget_analyzer_api_test.Base.Dict.{Dict}
use budget_analyzer_api_test.Base.Result.{ok, err}
use budget_analyzer_api_test.Config.{browser_preprovisioned, environment_type_eq, auth_mode_eq}
use budget_analyzer_api_test.Identity.{Session}
use budget_analyzer_api_test.Credentials.File.{read_credential_file}
use budget_analyzer_api_test.Credentials.Local.{
  primary, session_role_eq, credential_state_eq, BrowserLoginCredentials, read_values,
  load_or_create_local_credentials,
}
use budget_analyzer_api_test.Credentials.Local.Marked.{finished}
use budget_analyzer_api_test.Credentials.Disposable.{
  DisposableCredentialRecord, disposable_state_eq, load_or_create_disposable_credentials,
  mark_disposable_credentials_complete, require_saved_disposable_record,
}
use budget_analyzer_api_test.Credentials.Disposable.Found.{IsConsistent}
use budget_analyzer_api_test.Credentials.Naming.{disposable_variable_prefix}
use budget_analyzer_api_test.Credentials.Disposable
use budget_analyzer_api_test.Auth.{
  browser_failure, account_exists, Browser, login_browser_account, provision, acquire_session,
  acquire_disposable_browser_target,
}
use budget_analyzer_api_test.Tests.Environment.{local_config, production_config, browser_config}
use budget_analyzer_api_test.Tests.Credentials.{
  made, other_made, account, before, after, made_kept, names_apart, account_loaded,
}
use budget_analyzer_api_test.Tests.Disposable.{signed_up_text, target}
use budget_analyzer_api_test.Auth.Retry.{acquire_session-acquire_session}
use budget_analyzer_api_test.Auth.Modes.{production-acquire_session, IsSupplied}
use budget_analyzer_api_test.Auth.Target.{acquire_target-IsConsistent}
use budget_analyzer_api_test.Config.{validate_environment_policy}
use budget_analyzer_api_test.Credentials.Line.{match_assignment, parse_value}

abbrev session : Session
session = record { cookie_name = "BA_SESSION"; cookie_value = "abc" }

abbrev failing : Browser
failing = record {
  login = none;
  login_with_browser = λ c credentials paths. err "no form";
  signup = λ c credentials. account_exists;
}

abbrev working : Browser
working = record {
  login = none;
  login_with_browser = λ c credentials paths. ok session;
  signup = λ c credentials. account_exists;
}

acquire_session-acquire_session_example :
    (acquire_session local_config primary [] before made failing
      ≡ (err (browser_failure "no form"), after))
    × (done : Option String) × (acquire_session local_config primary [] after other_made working
        ≡ (ok session, done))
    × ((later : BrowserLoginCredentials)
        → load_or_create_local_credentials local_config primary [] done later
          ≡ ok (finished account, done))
unfolding provision login_browser_account session_role_eq nat_eq
acquire_session-acquire_session_example =
    acquire_session-acquire_session local_config browser_config primary [] before after made
      other_made account failing working (browser_failure "no form") session refl refl refl
      names_apart refl made_kept account_loaded refl refl refl

abbrev tokens : Dict String String
tokens = ("TEST_USER_SESSION_TOKEN", " abc ") ∷ []

production_valid : validate_environment_policy production_config ≡ ok production_config
unfolding validate_environment_policy environment_type_eq auth_mode_eq
production_valid = refl

production-acquire_session_example :
    ((acquire_session production_config primary tokens before made failing).1 ≡ before)
    × (((acquire_session production_config primary tokens before made failing).0 ≡ ok session)
        ↔ IsSupplied production_config primary tokens session)
production-acquire_session_example =
    production-acquire_session production_config production_config primary tokens before made
      failing session production_valid refl

acquire_target_run :
    (acquire_disposable_browser_target local_config "run-1" "s" []
      (some signed_up_text)
      made
      working).0
    ≡ ok (record { account = target Disposable.complete none none; first_session = session })
unfolding acquire_disposable_browser_target auth_mode_eq load_or_create_disposable_credentials
    string_eq environment_type_eq disposable_variable_prefix nat_eq read_credential_file
    match_assignment budget_analyzer_api_test.Base.Text.strip parse_value
    Disposable.stored_disposable bool_eq Disposable.ensure_disposable_username_is_distinct option_eq
    disposable_state_eq login_browser_account
acquire_target_run = refl

acquire_target-IsConsistent_example :
    ((local_config.auth.mode == browser_preprovisioned
        && (local_config.allow_mutation && local_config.allow_destructive))
      ≡ true)
    × ((target Disposable.complete none none).state ≡ Disposable.complete)
    × (values : Dict String String) × (read_values (some signed_up_text) ≡ ok values)
    × IsConsistent browser_config [] values "run-1" "s" (target Disposable.complete none none)
acquire_target-IsConsistent_example =
    acquire_target-IsConsistent local_config browser_config "run-1" "s" [] (some signed_up_text)
      made working
      (record { account = target Disposable.complete none none; first_session = session }) refl
      acquire_target_run
