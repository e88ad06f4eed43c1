-- ===== src/Credentials/Disposable/Found.antt =====
-- What holds of every disposable account that is loaded.
use budget_analyzer_api_test.Base.{
  ◌≡◌, refl, sym, ◌∙◌, ap, Bool, true, false, ◌&&◌, ◌||◌, not, List, [], ◌∷◌, arith, ◌==◌, contains,
  if◌then◌else◌, Option, none, some, inl, inr, Bool-cases, String, string_eq, nat_eq, eq_of_==,
  implies, bool_eq, option_eq,
}
use budget_analyzer_api_test.Base.Dict.{Dict}
use budget_analyzer_api_test.Base.Result.{
  Result, ok, ◌>>=◌, ◌>>◌, >>=-eq-ok, raise_if-then, ok-injective,
}
use budget_analyzer_api_test.Config.{EnvironmentConfig, BrowserConfig}
use budget_analyzer_api_test.MarkerPolicy.{is_exact_local}
use budget_analyzer_api_test.Credentials.Line.{is_empty}
use budget_analyzer_api_test.Credentials.File.{update_credential_file}
use budget_analyzer_api_test.Credentials.Local.{
  SessionRole, primary, secondary, admin, session_role_eq, credential_state_eq,
  BrowserLoginCredentials, CredentialError, filled, stripped, read_values, names_of, variable_names,
  resolved_username,
}
use budget_analyzer_api_test.Credentials.Naming.{
  disposable_variable_prefix, disposable_variable_names,
}
use budget_analyzer_api_test.Credentials.Disposable.{
  pending, complete, DisposableCredentialRecord, disposable_state_eq, saved_disposable_state,
  filled_value, ensure_not_reusable, ensure_disposable_username_is_distinct, stored_disposable,
  has_disposable_record, disposable_entries, load_or_create_disposable_credentials,
}
use mathlib.Core.Path.{subst}
use budget_analyzer_api_test.Credentials.Local.Stored.{variable_names-configured}
use budget_analyzer_api_test.Credentials.Local.Distinct.{every_role}

abbrev pub is_bound : Option String → Bool
is_bound none = false
is_bound (some _) = true

-- A disposable account of a run and scenario: its identity is bound as a whole, and only after signup,
-- and its username is none that a role resolves to.
pub record IsConsistent (b : BrowserConfig) (environ values : Dict String String)
    (run_id scenario_id : String) (account : DisposableCredentialRecord) : Type 0 where
  pub same_run : account.run_id ≡ run_id
  pub same_scenario : account.scenario_id ≡ scenario_id
  pub whole : is_bound account.subject ≡ is_bound account.user_id
  pub signed_up : implies (is_bound account.subject) (account.state == complete) ≡ true
  pub distinct :
      (role : SessionRole)
      → (resolved_username environ values (names_of b role) == some account.credentials.username)
        ≡ false

not_reusable :
    (c : EnvironmentConfig) (b : BrowserConfig) (username : String)
    (environ values : Dict String String) (roles : List SessionRole) (role : SessionRole)
    → c.auth.browser ≡ some b
    → ensure_not_reusable c username environ values roles ≡ ok tt
    → contains roles role ≡ true
    → (resolved_username environ values (names_of b role) == some username) ≡ false
not_reusable c b username environ values [] role configured h m = cc
not_reusable c b username environ values (first ∷ others) role configured h m =
    let (names, named, rest) = >>=-eq-ok (variable_names c first) _ h in
    let (free, last) =
      raise_if-then (resolved_username environ values names == some username) _ _ rest in
    let same : names ≡ names_of b first =
      ok-injective names (names_of b first)
        (sym named ∙ variable_names-configured c b first configured) in
    elim (Bool-cases (role == first)) [
      | inl own ↦
          rw (eq_of_== role first own)
            (ap (λ n. resolved_username environ values n == some username) (sym same) ∙ free)
      | inr other ↦
          not_reusable c b username environ values others role configured last (ground arith)
    ]

filled_value-is_bound : (s : String) → is_bound (filled_value s) ≡ filled s
filled_value-is_bound s = elim (Bool-cases (is_empty s)) [
  | inl blank ↦ rw blank refl
  | inr given ↦ rw given refl
]

module _ (c : EnvironmentConfig) (b : BrowserConfig) (run_id scenario_id : String)
    (environ : Dict String String) (prefix : String) (values : Dict String String)
    (configured : c.auth.browser ≡ some b) where
  distinct-ensured :
      (username : String)
      → ensure_disposable_username_is_distinct c username environ prefix values ≡ ok tt
      → (role : SessionRole)
      → (resolved_username environ values (names_of b role) == some username) ≡ false
  unfolding ensure_disposable_username_is_distinct
  distinct-ensured username h role =
      let roles = primary ∷ secondary ∷ admin ∷ [] in
      let (passed, free, rest) =
        >>=-eq-ok (ensure_not_reusable c username environ values roles) _ h in
      not_reusable c b username environ values roles role configured free (every_role role)

  stored-IsConsistent :
      (account : DisposableCredentialRecord)
      → stored_disposable c run_id scenario_id environ prefix values ≡ ok account
      → IsConsistent b environ values run_id scenario_id account
  unfolding stored_disposable bool_eq
  stored-IsConsistent account h =
      let names = disposable_variable_names prefix in
      let (complete_record, h1) =
        raise_if-then
          (is_empty (stripped values names.run_id)
            || (is_empty (stripped values names.scenario_id)
                || (is_empty (stripped values names.username)
                    || is_empty (stripped values names.password))))
          _ _ h in
      let (same, h2) =
        raise_if-then
          (not (stripped values names.run_id == run_id)
            || not (stripped values names.scenario_id == scenario_id))
          _ _ h1 in
      let subject = stripped values names.subject in
      let user_id = stripped values names.user_id in
      let (state, was, h3) =
        >>=-eq-ok (saved_disposable_state (stripped values names.state)) _ h2 in
      let (whole, h4) = raise_if-then (not (filled subject == filled user_id)) _ _ h3 in
      let (signed, h5) = raise_if-then (filled subject && not (state == complete)) _ _ h4 in
      let (free, distinct, last) =
        >>=-eq-ok
          (ensure_disposable_username_is_distinct c (stripped values names.username) environ prefix
            values)
          _ h5 in
      subst (IsConsistent b environ values run_id scenario_id) (ok-injective _ account last)
        (record {
          same_run = refl;
          same_scenario = refl;
          whole =
              filled_value-is_bound subject ∙ ground arith ∙ sym (filled_value-is_bound user_id);
          signed_up =
              ap (λ given. implies given (state == complete)) (filled_value-is_bound subject)
              ∙ ground arith;
          distinct = distinct-ensured (stripped values names.username) distinct;
        })

  created-IsConsistent :
      (generated : BrowserLoginCredentials)
      → ensure_disposable_username_is_distinct c generated.username environ prefix values ≡ ok tt
      → IsConsistent b environ values run_id scenario_id (record {
        run_id = run_id;
        scenario_id = scenario_id;
        credentials = generated;
        state = pending;
        subject = none;
        user_id = none;
      })
  created-IsConsistent generated distinct = record {
    same_run = refl;
    same_scenario = refl;
    whole = refl;
    signed_up = refl;
    distinct = distinct-ensured generated.username distinct;
  }

-- A disposable account that is loaded or created belongs to the run and scenario that were asked for;
-- its subject and its user's id are bound together, and only after signup is complete; and no role's
-- variables, in the environment or in the file that was read, resolve to its username. The
-- configuration has browser settings.
pub load_disposable-IsConsistent :
    (c : EnvironmentConfig) (b : BrowserConfig) (run_id scenario_id : String)
    (environ : Dict String String) (file : Option String) (generated : BrowserLoginCredentials)
    (account : DisposableCredentialRecord) (after : Option String)
    → c.auth.browser ≡ some b
    → load_or_create_disposable_credentials c run_id scenario_id environ file generated
      ≡ ok (account, after)
    → (values : Dict String String) × (read_values file ≡ ok values)
      × IsConsistent b environ values run_id scenario_id account
unfolding load_or_create_disposable_credentials
load_disposable-IsConsistent c b run_id scenario_id environ file generated account after configured
      h =
    let (exact, h1) = raise_if-then (not (is_exact_local c)) _ _ h in
    let (prefix, named, h2) = >>=-eq-ok (disposable_variable_prefix run_id scenario_id) _ h1 in
    let (values, readable, h3) = >>=-eq-ok (read_values file) _ h2 in
    (
      values,
      readable,
      branch prefix values (has_disposable_record values (disposable_variable_names prefix)) h3,
    )
  where
    new : DisposableCredentialRecord
    new = record {
      run_id = run_id;
      scenario_id = scenario_id;
      credentials = generated;
      state = pending;
      subject = none;
      user_id = none;
    }

    branch :
        (prefix : String) (values : Dict String String) (there : Bool)
        → let found : Result CredentialError (DisposableCredentialRecord × Option String) = do
          found ← stored_disposable c run_id scenario_id environ prefix values
          ok (found, file)
          in let made : Result CredentialError (DisposableCredentialRecord × Option String) = do
            ensure_disposable_username_is_distinct c generated.username environ prefix values
            ok (
              new,
              update_credential_file file (
                  disposable_entries run_id scenario_id
                    (disposable_variable_names prefix)
                    generated),
            )
            in (if there then found else made) ≡ ok (account, after)
              → IsConsistent b environ values run_id scenario_id account
    branch prefix values true h =
        let (found, stored, last) =
          >>=-eq-ok (stored_disposable c run_id scenario_id environ prefix values) _ h in
        let same = ap (λ o. o.0) (ok-injective (found, file) (account, after) last) in
        subst (IsConsistent b environ values run_id scenario_id) same
          (stored-IsConsistent c b run_id scenario_id environ prefix values configured found stored)
    branch prefix values false h =
        let (passed, distinct, last) =
          >>=-eq-ok
            (ensure_disposable_username_is_distinct c generated.username environ prefix values) _
            h in
        let same : new ≡ account = ap (λ o. o.0) (ok-injective _ (account, after) last) in
        subst (IsConsistent b environ values run_id scenario_id) same (
          created-IsConsistent c b run_id scenario_id environ prefix values configured generated
            distinct)
