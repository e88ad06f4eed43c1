-- ===== src/Auth/Retry.antt =====
-- A session that could not be acquired is acquired later, for the same account.
use budget_analyzer_api_test.Base.{
  ◌≡◌, refl, ◌∙◌, true, Option, some, String, nodup, string_eq, nat_eq, bool_eq, option_eq,
}
use budget_analyzer_api_test.Base.Dict.{Dict}
use budget_analyzer_api_test.Base.Result.{ok, err}
use budget_analyzer_api_test.Config.{
  EnvironmentConfig, BrowserConfig, local, browser_preprovisioned, environment_type_eq,
  auth_mode_eq,
}
use budget_analyzer_api_test.Identity.{Session}
use budget_analyzer_api_test.Credentials.File.{text_of}
use budget_analyzer_api_test.Credentials.File.Text.{has_line_feeds}
use budget_analyzer_api_test.Credentials.Local.{
  SessionRole, pending, session_role_eq, credential_state_eq, BrowserLoginCredentials,
  LocalCredentialRecord, load_or_create_local_credentials, mark_local_credentials_complete,
}
use budget_analyzer_api_test.Credentials.Local.Names.{all_names}
use budget_analyzer_api_test.Credentials.Local.Kept.{can_keep}
use budget_analyzer_api_test.Credentials.Local.Marked.{finished}
use budget_analyzer_api_test.Credentials.Local.Accounts.{load-load, load-mark}
use budget_analyzer_api_test.Credentials.Disposable.{disposable_state_eq}
use budget_analyzer_api_test.Auth.{
  AuthError, Browser, provision, complete_account, acquire_local_session, acquire_browser_session,
  acquire_session,
}

module _ (c : EnvironmentConfig) (b : BrowserConfig) (role : SessionRole)
    (source : Dict String String) (mode : c.auth.mode ≡ browser_preprovisioned)
    (place : c.environment_type ≡ local) (configured : c.auth.browser ≡ some b) where
  acquire-local :
      (file : Option String) (generated : BrowserLoginCredentials) (browser : Browser)
      → acquire_session c role source file generated browser
        ≡ acquire_local_session c role source file generated browser
  unfolding acquire_session acquire_browser_session environment_type_eq
  acquire-local file generated browser =
      simp (acquire_session, acquire_browser_session, mode, place, configured)

  module _ (file after : Option String) (generated : BrowserLoginCredentials)
      (account : LocalCredentialRecord) (waits : account.state ≡ pending)
      (loaded : load_or_create_local_credentials c role source file generated
        ≡ ok (account, after)) where
    acquire-refused :
        (browser : Browser) (e : AuthError)
        → provision browser c role account.credentials ≡ err e
        → acquire_session c role source file generated browser ≡ (err e, after)
    unfolding acquire_local_session credential_state_eq
    acquire-refused browser e refused =
        acquire-local file generated browser
        ∙ rw (acquire_local_session, loaded, waits, refused) refl

    acquire-provisioned :
        (browser : Browser) (session : Session) (final : Option String)
        → provision browser c role account.credentials ≡ ok session
        → mark_local_credentials_complete c role account.credentials after ≡ ok final
        → acquire_session c role source file generated browser ≡ (ok session, final)
    unfolding acquire_local_session credential_state_eq
    acquire-provisioned browser session final given marked =
        acquire-local file generated browser
        ∙ rw (acquire_local_session, loaded, waits, given, complete_account, marked) refl

-- An acquisition that the browser fails can be repeated. In browser mode on the local target, where the
-- account of a role is pending after its load: if the browser neither signs the account up nor logs it
-- in, the acquisition raises the browser's error and leaves the stored account; an acquisition from
-- that file for which the browser gives a session for the same credentials returns that session; and
-- after it the account is loaded as complete, with these credentials. The roles' variables have
-- different names, line feeds are the file's only line boundaries, and the generated credentials can
-- be written to it.
pub acquire_session-acquire_session :
    (c : EnvironmentConfig) (b : BrowserConfig) (role : SessionRole) (source : Dict String String)
    (file stored : Option String) (generated other : BrowserLoginCredentials)
    (account : LocalCredentialRecord) (failing working : Browser) (e : AuthError)
    (session : Session)
    → c.auth.mode ≡ browser_preprovisioned
    → c.environment_type ≡ local
    → c.auth.browser ≡ some b
    → nodup (all_names b) ≡ true
    → has_line_feeds (text_of file) ≡ true
    → can_keep b role generated ≡ true
    → load_or_create_local_credentials c role source file generated ≡ ok (account, stored)
    → account.state ≡ pending
    → provision failing c role account.credentials ≡ err e
    → provision working c role account.credentials ≡ ok session
    → (acquire_session c role source file generated failing ≡ (err e, stored))
      × (final : Option String) × (acquire_session c role source stored other working
          ≡ (ok session, final))
      × ((later : BrowserLoginCredentials)
          → load_or_create_local_credentials c role source final later
            ≡ ok (finished account, final))
acquire_session-acquire_session c b role source file stored generated other account failing working
      e session mode place configured u f k loaded waits refused given =
    let (final, marked, complete) =
      load-mark c b role source file stored generated account configured u f k loaded waits in
    let again =
      load-load c b role source file stored generated account configured u f k loaded other in
    (
      acquire-refused c b role source mode place configured file stored generated account waits
          loaded failing e refused,
      final,
      acquire-provisioned c b role source mode place configured stored stored other account waits
          again working session final given marked,
      complete,
    )
