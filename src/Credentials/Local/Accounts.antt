-- ===== src/Credentials/Local/Accounts.antt =====
-- The accounts of the local target over several calls.
use budget_analyzer_api_test.Base.{
  ◌≡◌, sym, ◌∙◌, true, Option, some, inl, inr, String, nodup, string_eq, nat_eq, bool_eq, option_eq,
}
use budget_analyzer_api_test.Base.Dict.{Dict}
use budget_analyzer_api_test.Base.Result.{ok}
use budget_analyzer_api_test.Config.{EnvironmentConfig, BrowserConfig}
use budget_analyzer_api_test.Credentials.File.{text_of}
use budget_analyzer_api_test.Credentials.File.Text.{has_line_feeds}
use budget_analyzer_api_test.Credentials.Local.{
  SessionRole, external, pending, session_role_eq, credential_state_eq, BrowserLoginCredentials,
  LocalCredentialRecord, load_or_create_local_credentials, mark_local_credentials_complete,
}
use budget_analyzer_api_test.Credentials.Local.Stored.{load-IsStored}
use budget_analyzer_api_test.Credentials.Local.Names.{all_names}
use budget_analyzer_api_test.Credentials.Local.Kept.{can_keep}
use budget_analyzer_api_test.Credentials.Local.Marked.{
  finished, marked_file, marked_file-IsStored, mark_local_credentials_complete-IsStored,
}
use budget_analyzer_api_test.Credentials.Local.Reloaded.{load_sound}

module _ (c : EnvironmentConfig) (b : BrowserConfig) (role : SessionRole)
    (source : Dict String String) (file after : Option String) (generated : BrowserLoginCredentials)
    (account : LocalCredentialRecord) (configured : c.auth.browser ≡ some b)
    (u : nodup (all_names b) ≡ true) (f : has_line_feeds (text_of file) ≡ true)
    (k : can_keep b role generated ≡ true)
    (loaded : load_or_create_local_credentials c role source file generated
      ≡ ok (account, after)) where
  -- An account that was loaded or created is found again: on the file that a load leaves, a load of
  -- the same role in the same environment returns the same account and leaves the file alone, whatever
  -- credentials the generator would make then. The roles' variables have different names, line feeds
  -- are the file's only line boundaries, and the generated credentials can be written to it.
  pub load-load :
      (other : BrowserLoginCredentials)
      → load_or_create_local_credentials c role source after other ≡ ok (account, after)
  load-load other =
      elim (load_sound c b role source file generated configured u f k (account, after) loaded) [
        | inl (state, again) ↦ again other
        | inr (stored, feeds) ↦ load-IsStored c b role source account after stored other
      ]

  -- An account that is pending after a load can be marked complete: marking it succeeds on the file
  -- that the load leaves, and the next load then returns the same credentials as complete. The roles'
  -- variables have different names, line feeds are the file's only line boundaries, and the generated
  -- credentials can be written to it.
  pub load-mark :
      account.state ≡ pending
      → (done : Option String) × (mark_local_credentials_complete c role account.credentials after
          ≡ ok done)
        × ((other : BrowserLoginCredentials)
            → load_or_create_local_credentials c role source done other
              ≡ ok (finished account, done))
  load-mark waits =
      elim (load_sound c b role source file generated configured u f k (account, after) loaded) [
        | inl (state, again) ↦ let wrong : external ≡ pending = sym state ∙ waits in cc
        | inr (stored, feeds) ↦ (
          marked_file c b role source account after u feeds stored,
          mark_local_credentials_complete-IsStored c b role source account after u feeds stored,
          load-IsStored c b role source (finished account)
              (marked_file c b role source account after u feeds stored)
              (marked_file-IsStored c b role source account after u feeds stored),
        )
      ]
