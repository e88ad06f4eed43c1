-- ===== src/Credentials/Local/Marked.antt =====
-- An account of the file is marked complete.
use budget_analyzer_api_test.Base.{
  ◌≡◌, refl, ◌∙◌, ap, Bool, true, false, ◌&&◌, [], arith, ◌==◌, Option, none, some, String, nodup,
  string_eq, nat_eq, ==_self, bool_eq, option_eq,
}
use budget_analyzer_api_test.Base.Dict.{Dict, lookup, insert}
use budget_analyzer_api_test.Base.Result.{ok}
use budget_analyzer_api_test.Config.{EnvironmentConfig, BrowserConfig}
use budget_analyzer_api_test.Credentials.Line.Render.{is_writable}
use budget_analyzer_api_test.Credentials.File.{update_credential_file, text_of}
use budget_analyzer_api_test.Credentials.File.Entries.{found_or}
use budget_analyzer_api_test.Credentials.File.Text.{has_line_feeds}
use budget_analyzer_api_test.Credentials.File.Saved.{update_credential_file_lem}
use budget_analyzer_api_test.Credentials.File.Feeds.{updated_feeds}
use budget_analyzer_api_test.Credentials.Local.{
  SessionRole, complete, session_role_eq, credential_state_eq, LocalCredentialRecord, VariableNames,
  stripped, names_of, mark_local_credentials_complete,
}
use budget_analyzer_api_test.Credentials.Local.Stored.{
  roles, variable_names-configured, IsStored, read_values-readable,
}
use budget_analyzer_api_test.Credentials.Local.Names.{
  all_names, is_name_of, apart_names, other_names, distinct_ext,
}
use budget_analyzer_api_test.Credentials.Local.Kept.{
  state_writable, stripped_ext, state_text, complete_lem,
}

abbrev pub finished : LocalCredentialRecord → LocalCredentialRecord
finished account = record { credentials = account.credentials; state = complete }

abbrev mark : String → Dict String String
mark name = insert name "complete" []

mark-absent : (name n : String) → (n == name) ≡ false → lookup n (mark name) ≡ none
mark-absent name n h = rw h refl

mark-found : (name : String) → lookup name (mark name) ≡ some "complete"
mark-found name = rw (==_self name) refl

one_fits : (one : Bool) → one ≡ true → (one && true) ≡ true
one_fits one h = ground arith

not_named :
    (names : VariableNames) (n : String) → is_name_of names n ≡ false → (n == names.state) ≡ false
not_named names n h = ground arith

module _ (c : EnvironmentConfig) (b : BrowserConfig) (role : SessionRole)
    (source : Dict String String) (account : LocalCredentialRecord) (file : Option String)
    (u : nodup (all_names b) ≡ true) (f : has_line_feeds (text_of file) ≡ true)
    (h : IsStored c b role source account file) where
  abbrev pub marked_file : Option String
  marked_file = update_credential_file file (mark (names_of b role).state)

  pub mark_local_credentials_complete-IsStored :
      mark_local_credentials_complete c role account.credentials file ≡ ok marked_file
  unfolding mark_local_credentials_complete
  mark_local_credentials_complete-IsStored =
      rw
        (
          h.exact,
          variable_names-configured c b role h.configured,
          read_values-readable file h.values h.readable,
          h.username_found,
          h.password_found,
          ==_self account.credentials.username,
          ==_self account.credentials.password,
        )
        refl

  pub marked_file-IsStored : IsStored c b role source (finished account) marked_file
  marked_file-IsStored =
      let names = names_of b role in
      let (up, us, ps) = apart_names b role u in
      let (pending_fits, fits) = state_writable b role in
      let (after, now, found) =
        update_credential_file_lem file (mark names.state) h.values f refl
          (one_fits (is_writable names.state "complete") fits) h.readable in
      let kept : (n : String)
          → (n == names.state) ≡ false
          → stripped after n ≡ stripped h.values n =
        λ n apart.
          stripped_ext after h.values n (
            found n ∙ ap (λ o. found_or o (lookup n h.values)) (mark-absent names.state n apart)) in
      record {
        values = after;
        exact = h.exact;
        configured = h.configured;
        no_username = h.no_username;
        no_password = h.no_password;
        readable = now;
        username_found = kept names.username us ∙ h.username_found;
        password_found = kept names.password ps ∙ h.password_found;
        username_filled = h.username_filled;
        password_filled = h.password_filled;
        state_found =
            state_text after names.state "complete" role complete
              (found names.state
                ∙ ap (λ o. found_or o (lookup names.state h.values)) (mark-found names.state))
              (complete_lem role);
        distinct =
            distinct_ext c b role account.credentials.username source after h.values roles
              h.configured
              (λ o foreign.
                let (one, two) = other_names b role o u foreign in
                (
                  kept (names_of b o).username (not_named names (names_of b o).username one),
                  kept (names_of b o).password (not_named names (names_of b o).password two),
                ))
            ∙ h.distinct;
      }

  pub marked_file_feeds : has_line_feeds (text_of marked_file) ≡ true
  marked_file_feeds =
      let (pending_fits, fits) = state_writable b role in
      updated_feeds file (mark (names_of b role).state) h.values f refl
        (one_fits (is_writable (names_of b role).state "complete") fits) h.readable
