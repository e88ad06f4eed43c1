-- ===== src/Credentials/Local/Distinct.antt =====
-- No two roles have the same username.
use budget_analyzer_api_test.Base.{
  ◌≡◌, refl, sym, ◌∙◌, ◌≢◌, Bool, true, false, ◌&&◌, not, List, [], ◌∷◌, arith, ◌==◌, contains,
  if◌then◌else◌, Option, none, some, inl, inr, Bool-cases, String, string_eq, nat_eq, eq_of_==,
  ne_of_==, bool_eq, option_eq,
}
use budget_analyzer_api_test.Base.Dict.{Dict, get_or}
use budget_analyzer_api_test.Base.Result.{
  Result, ok, err, ◌>>=◌, ◌>>◌, raise_if, >>=-eq-ok, raise_if-then, ok-injective,
}
use budget_analyzer_api_test.Base.Text.{strip}
use budget_analyzer_api_test.Config.{EnvironmentConfig, BrowserConfig}
use budget_analyzer_api_test.MarkerPolicy.{is_exact_local}
use budget_analyzer_api_test.Credentials.File.{read_credential_file}
use budget_analyzer_api_test.Credentials.Local.{
  SessionRole, primary, secondary, admin, session_role_eq, credential_state_eq,
  BrowserLoginCredentials, LocalCredentialRecord, CredentialError, filled, stripped, read_values,
  names_of, resolved_username, ensure_distinct_from, ensure_distinct_role_username, saved_state,
  stored_credentials, created_credentials, file_credentials, load_or_create_local_credentials,
  same_username, not_exact_local,
}
use mathlib.Core.Path.{subst}
use budget_analyzer_api_test.Credentials.Local.Stored.{roles, variable_names-configured}
use budget_analyzer_api_test.Credentials.Local.Loaded.{
  load_exact, load_named, load_external, load-not_exact, readable-read_values,
}

abbrev Loaded : Type 0
Loaded = LocalCredentialRecord × Option String

own_step :
    (c : EnvironmentConfig) (role first : SessionRole) (username : String)
    (source saved : Dict String String) (others : List SessionRole)
    → (first == role) ≡ true
    → ensure_distinct_from c role username source saved (first ∷ others)
      ≡ ensure_distinct_from c role username source saved others
own_step c role first username source saved others h = rw h refl

foreign_step :
    (c : EnvironmentConfig) (b : BrowserConfig) (role first : SessionRole) (username : String)
    (source saved : Dict String String) (others : List SessionRole)
    → c.auth.browser ≡ some b
    → (first == role) ≡ false
    → ensure_distinct_from c role username source saved (first ∷ others) ≡ (
        raise_if
          (resolved_username source saved (names_of b first) == some username)
          (same_username role first)
        >> ensure_distinct_from c role username source saved others)
foreign_step c b role first username source saved others configured h =
    rw (h, variable_names-configured c b first configured) refl

-- No role of the list but its own resolves to a username that passed the check.
others_distinct :
    (c : EnvironmentConfig) (b : BrowserConfig) (role other : SessionRole) (username : String)
    (source saved : Dict String String) (others : List SessionRole)
    → c.auth.browser ≡ some b
    → ensure_distinct_from c role username source saved others ≡ ok tt
    → contains others other ≡ true
    → (other == role) ≡ false
    → (resolved_username source saved (names_of b other) == some username) ≡ false
others_distinct c b role other username source saved [] configured h m d = cc
others_distinct c b role other username source saved (first ∷ others) configured h m d =
    elim (Bool-cases (first == role)) [
      | inl own ↦
          others_distinct c b role other username source saved others configured
            (sym (own_step c role first username source saved others own) ∙ h) (ground arith) d
      | inr foreign ↦
          let (free, rest) =
            raise_if-then (resolved_username source saved (names_of b first) == some username) _ _ (
              sym (foreign_step c b role first username source saved others configured foreign)
              ∙ h) in
          elim (Bool-cases (other == first)) [
            | inl same ↦ rw (eq_of_== other first same) free
            | inr apart ↦
                others_distinct c b role other username source saved others configured rest
                  (ground arith) d
          ]
    ]

pub every_role : (role : SessionRole) → contains roles role ≡ true
unfolding session_role_eq
every_role primary = refl
every_role secondary = refl
every_role admin = refl

module _ (c : EnvironmentConfig) (b : BrowserConfig) (role : SessionRole)
    (source : Dict String String) (file : Option String) (generated : BrowserLoginCredentials)
    (configured : c.auth.browser ≡ some b) where
  -- The check that the username of a loaded account passed.
  abbrev IsChecked : Loaded → Type 0
  IsChecked (account, after) =
      (d : Dict String String) × (read_credential_file file ≡ ok d)
      × (ensure_distinct_from c role account.credentials.username source d roles ≡ ok tt)

  stored-IsChecked :
      (d : Dict String String) (account : LocalCredentialRecord)
      → read_credential_file file ≡ ok d
      → stored_credentials c role source d (names_of b role) ≡ ok account
      → IsChecked (account, file)
  unfolding stored_credentials ensure_distinct_role_username
  stored-IsChecked d account readable h =
      let names = names_of b role in
      let (state, was, rest) =
        >>=-eq-ok (saved_state role (strip (get_or d names.state "complete"))) _ h in
      let (passed, free, last) =
        >>=-eq-ok (ensure_distinct_from c role (stripped d names.username) source d roles) _ rest in
      subst (λ a. IsChecked (a, file)) (ok-injective _ account last) (d, readable, free)

  created-IsChecked :
      (d : Dict String String) (out : Loaded)
      → read_credential_file file ≡ ok d
      → created_credentials c role source file generated d (names_of b role) ≡ ok out
      → IsChecked out
  unfolding created_credentials ensure_distinct_role_username
  created-IsChecked d out readable h =
      let names = names_of b role in
      let (alone, rest) = raise_if-then (filled (stripped d names.state)) _ _ h in
      let (passed, free, last) =
        >>=-eq-ok (ensure_distinct_from c role generated.username source d roles) _ rest in
      subst IsChecked (ok-injective _ out last) (d, readable, free)

  external-IsChecked :
      (out : Loaded) → load_external c role source file (names_of b role) ≡ ok out → IsChecked out
  unfolding ensure_distinct_role_username
  external-IsChecked out h =
      let username = stripped source (names_of b role).username in
      let (passed, free, last) =
        >>=-eq-ok (ensure_distinct_role_username c role username source file none) _ h in
      let (d, read, distinct) = >>=-eq-ok (read_values file) _ free in
      subst IsChecked (ok-injective _ out last) (d, readable-read_values file d read, distinct)

  file-IsChecked :
      (out : Loaded)
      → file_credentials c role source file generated (names_of b role) ≡ ok out
      → IsChecked out
  unfolding file_credentials
  file-IsChecked out h =
      let names = names_of b role in
      let (d, read, rest) = >>=-eq-ok (read_values file) _ h in
      let readable = readable-read_values file d read in
      let has_username = filled (stripped d names.username) in
      let has_password = filled (stripped d names.password) in
      let (whole, last) = raise_if-then (not (has_username == has_password)) _ _ rest in
      branch d readable (has_username && has_password) last
    where
      branch :
          (d : Dict String String)
          → read_credential_file file ≡ ok d
          → (p : Bool)
          → let stored : Result CredentialError Loaded = do
            found ← stored_credentials c role source d (names_of b role)
            ok (found, file)
            in let made = created_credentials c role source file generated d (names_of b role) in
              (if p then stored else made) ≡ ok out → IsChecked out
      branch d readable true h =
          let (found, stored, last) =
            >>=-eq-ok (stored_credentials c role source d (names_of b role)) _ h in
          subst IsChecked (ok-injective (found, file) out last)
            (stored-IsChecked d found readable stored)
      branch d readable false h = created-IsChecked d out readable h

  load-IsChecked :
      (out : Loaded)
      → load_or_create_local_credentials c role source file generated ≡ ok out
      → IsChecked out
  load-IsChecked out h = elim (Bool-cases (is_exact_local c)) [
    | inl exact ↦
        let names = names_of b role in
        let named : load_named c role source file generated names ≡ ok out =
          sym (load_exact c b role source file generated exact configured) ∙ h in
        let (whole, last) =
          raise_if-then
            (not
              (filled (stripped source names.username) == filled (stripped source names.password)))
            _ _ named in
        branch (filled (stripped source names.username) && filled (stripped source names.password))
          last
    | inr other ↦
        let wrong : Path (Result CredentialError Loaded) (err not_exact_local) (ok out) =
          sym (load-not_exact c role source file generated other) ∙ h in
        cc
  ]
    where
      branch :
          (p : Bool)
          → (if p
              then load_external c role source file (names_of b role)
              else file_credentials c role source file generated (names_of b role))
            ≡ ok out
          → IsChecked out
      branch true h = external-IsChecked out h
      branch false h = file-IsChecked out h

  -- The username of a loaded account belongs to its role alone: whether it was supplied, stored or
  -- made, the file that the load read is readable, and the variables of another role do not resolve to
  -- it, in the environment and that file. The configuration has browser settings.
  pub load-other_role :
      (other : SessionRole) (account : LocalCredentialRecord) (after : Option String)
      → other ≢ role
      → load_or_create_local_credentials c role source file generated ≡ ok (account, after)
      → (d : Dict String String) × (read_credential_file file ≡ ok d)
        × (resolved_username source d (names_of b other) ≢ some account.credentials.username)
  load-other_role other account after foreign h =
      let (d, readable, free) = load-IsChecked (account, after) h in
      (
        d,
        readable,
        ne_of_== (resolved_username source d (names_of b other)) (some account.credentials.username)
            (others_distinct c b role other account.credentials.username source d roles configured
              free (every_role other) (ground arith)),
      )
