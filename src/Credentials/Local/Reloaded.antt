-- ===== src/Credentials/Local/Reloaded.antt =====
-- The next load of an account finds what the last one returned.
use budget_analyzer_api_test.Base.{
  ◌≡◌, refl, sym, ◌∙◌, ◌⊎◌, Bool, true, false, ◌&&◌, not, ◌==◌, if◌then◌else◌, Option, none, some,
  inl, inr, Bool-cases, String, nodup, string_eq, nat_eq, bool_eq, option_eq,
}
use budget_analyzer_api_test.Base.Dict.{Dict}
use budget_analyzer_api_test.Base.Result.{
  Result, ok, err, ◌>>=◌, >>=-eq-ok, raise_if-then, ok-injective,
}
use budget_analyzer_api_test.Config.{EnvironmentConfig, BrowserConfig}
use budget_analyzer_api_test.MarkerPolicy.{is_exact_local}
use budget_analyzer_api_test.Credentials.File.{read_credential_file, text_of}
use budget_analyzer_api_test.Credentials.File.Text.{has_line_feeds}
use budget_analyzer_api_test.Credentials.Local.{
  SessionRole, external, session_role_eq, credential_state_eq, BrowserLoginCredentials,
  LocalCredentialRecord, CredentialError, filled, stripped, read_values, names_of,
  ensure_distinct_from, ensure_distinct_role_username, stored_credentials, created_credentials,
  file_credentials, load_or_create_local_credentials, not_exact_local,
}
use mathlib.Core.Path.{subst}
use budget_analyzer_api_test.Credentials.Local.Stored.{roles, IsStored}
use budget_analyzer_api_test.Credentials.Local.Names.{all_names}
use budget_analyzer_api_test.Credentials.Local.Kept.{can_keep, new-IsStored, new_entries_feeds}
use budget_analyzer_api_test.Credentials.Local.Loaded.{
  taken-IsStored, load_exact, load_named, load_external, load-not_exact, readable-read_values,
}

abbrev Loaded : Type 0
Loaded = LocalCredentialRecord × Option String

module _ (c : EnvironmentConfig) (b : BrowserConfig) (role : SessionRole)
    (source : Dict String String) (file : Option String) (generated : BrowserLoginCredentials)
    (configured : c.auth.browser ≡ some b) (u : nodup (all_names b) ≡ true)
    (f : has_line_feeds (text_of file) ≡ true) (k : can_keep b role generated ≡ true) where
  abbrev pub IsKept : Loaded → Type 0
  IsKept (account, after) =
      IsStored c b role source account after × (has_line_feeds (text_of after) ≡ true)

  created-IsKept :
      (d : Dict String String) (out : Loaded)
      → is_exact_local c ≡ true
      → filled (stripped source (names_of b role).username) ≡ false
      → filled (stripped source (names_of b role).password) ≡ false
      → read_credential_file file ≡ ok d
      → created_credentials c role source file generated d (names_of b role) ≡ ok out
      → IsKept out
  unfolding created_credentials ensure_distinct_role_username
  created-IsKept d out exact nu np readable h =
      let names = names_of b role in
      let (alone, rest) = raise_if-then (filled (stripped d names.state)) _ _ h in
      let (passed, free, last) =
        >>=-eq-ok (ensure_distinct_from c role generated.username source d roles) _ rest in
      subst IsKept (ok-injective _ out last) (
        new-IsStored c b role source file u f generated d exact configured nu np readable free k,
        new_entries_feeds c b role source file u f generated d readable k,
      )

  file-IsKept :
      (out : Loaded)
      → is_exact_local c ≡ true
      → filled (stripped source (names_of b role).username) ≡ false
      → filled (stripped source (names_of b role).password) ≡ false
      → file_credentials c role source file generated (names_of b role) ≡ ok out
      → IsKept out
  unfolding file_credentials
  file-IsKept out exact nu np h =
      let names = names_of b role in
      let (d, read, rest) = >>=-eq-ok (read_values file) _ h in
      let readable = readable-read_values file d read in
      let has_username = filled (stripped d names.username) in
      let has_password = filled (stripped d names.password) in
      let (whole, last) = raise_if-then (not (has_username == has_password)) _ _ rest in
      branch d readable has_username has_password refl refl last
    where
      branch :
          (d : Dict String String)
          → read_credential_file file ≡ ok d
          → (p q : Bool) → filled (stripped d (names_of b role).username) ≡ p
          → filled (stripped d (names_of b role).password) ≡ q
          → let stored : Result CredentialError Loaded = do
            found ← stored_credentials c role source d (names_of b role)
            ok (found, file)
            in let made = created_credentials c role source file generated d (names_of b role) in
              (if p && q then stored else made) ≡ ok out → IsKept out
      branch d readable true true hp hq h =
          let (found, stored, last) =
            >>=-eq-ok (stored_credentials c role source d (names_of b role)) _ h in
          subst IsKept (ok-injective (found, file) out last) (
            taken-IsStored c b role source d found file exact configured nu np readable hp hq
                stored,
            f,
          )
      branch d readable true false hp hq h = created-IsKept d out exact nu np readable h
      branch d readable false q hp hq h = created-IsKept d out exact nu np readable h

  abbrev pub IsExternal : Loaded → Type 0
  IsExternal (account, after) =
      (account.state ≡ external)
      × ((other : BrowserLoginCredentials)
          → load_or_create_local_credentials c role source after other ≡ ok (account, after))

  supplied-IsExternal :
      (out : Loaded)
      → is_exact_local c ≡ true
      → filled (stripped source (names_of b role).username) ≡ true
      → filled (stripped source (names_of b role).password) ≡ true
      → load_external c role source file (names_of b role) ≡ ok out
      → IsExternal out
  unfolding bool_eq
  supplied-IsExternal out exact hu hp h =
      let names = names_of b role in
      let (passed, free, last) =
        >>=-eq-ok
          (ensure_distinct_role_username c role (stripped source names.username) source file none) _
          h in
      subst IsExternal (ok-injective _ out last) (
        refl,
        λ other. load_exact c b role source file other exact configured ∙ rw (hu, hp, free) refl,
      )

  pub load_sound :
      (out : Loaded)
      → load_or_create_local_credentials c role source file generated ≡ ok out
      → IsExternal out ⊎ IsKept out
  unfolding bool_eq
  load_sound out h = elim (Bool-cases (is_exact_local c)) [
    | inl exact ↦
        let names = names_of b role in
        let named : load_named c role source file generated names ≡ ok out =
          sym (load_exact c b role source file generated exact configured) ∙ h in
        let (whole, last) =
          raise_if-then
            (not
              (filled (stripped source names.username) == filled (stripped source names.password)))
            _ _ named in
        branch exact (filled (stripped source names.username))
          (filled (stripped source names.password)) refl refl whole last
    | inr other ↦
        let wrong : Path (Result CredentialError Loaded) (err not_exact_local) (ok out) =
          sym (load-not_exact c role source file generated other) ∙ h in
        cc
  ]
    where
      branch :
          is_exact_local c ≡ true
          → (p q : Bool) → filled (stripped source (names_of b role).username) ≡ p
          → filled (stripped source (names_of b role).password) ≡ q
          → not (p == q) ≡ false
          → (if p && q
              then load_external c role source file (names_of b role)
              else file_credentials c role source file generated (names_of b role))
            ≡ ok out
          → IsExternal out ⊎ IsKept out
      branch exact true true hp hq w h = inl (supplied-IsExternal out exact hp hq h)
      branch exact true false hp hq w h = cc
      branch exact false true hp hq w h = cc
      branch exact false false hp hq w h = inr (file-IsKept out exact hp hq h)
