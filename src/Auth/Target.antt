-- ===== src/Auth/Target.antt =====
-- The target of a deactivation.
use budget_analyzer_api_test.Base.{
  ◌≡◌, refl, sym, ◌∙◌, ap, ◌≢◌, Bool, true, false, ◌&&◌, ◌||◌, not, arith, ◌==◌, if◌then◌else◌,
  Option, some, inl, inr, Bool-cases, String, string_eq, nat_eq, eq_of_==, bool_eq, option_eq,
}
use budget_analyzer_api_test.Base.Dict.{Dict}
use budget_analyzer_api_test.Base.Result.{Result, ok, err, >>=-eq-ok, raise_if-then, ok-injective}
use mathlib.Core.Path.{subst}
use budget_analyzer_api_test.Config.{
  EnvironmentConfig, BrowserConfig, browser_preprovisioned, environment_type_eq, auth_mode_eq,
}
use budget_analyzer_api_test.Identity.{Session}
use budget_analyzer_api_test.MarkerPolicy.{is_exact_local}
use budget_analyzer_api_test.Credentials.Local.{
  primary, session_role_eq, credential_state_eq, BrowserLoginCredentials, CredentialError,
  read_values,
}
use budget_analyzer_api_test.Credentials.Disposable.{
  DisposableCredentialRecord, disposable_state_eq, load_or_create_disposable_credentials,
  mark_disposable_credentials_complete, require_saved_disposable_record,
}
use budget_analyzer_api_test.Credentials.Disposable.Found.{
  IsConsistent, load_disposable-IsConsistent,
}
use budget_analyzer_api_test.Credentials.Naming.{
  disposable_variable_prefix, disposable_variable_names,
}
use budget_analyzer_api_test.Credentials.Disposable
use budget_analyzer_api_test.Auth.{
  AuthError, credential_failure, not_browser_mode, not_permitted, Browser, login_browser_account,
  provision, ProvisionedDisposableTarget, complete_target, known_target,
  acquire_disposable_browser_target,
}

abbrev Outcome : Type 0
Outcome = Result AuthError ProvisionedDisposableTarget × Option String

mark-complete :
    (c : EnvironmentConfig) (account : DisposableCredentialRecord) (file : Option String)
    (out : DisposableCredentialRecord × Option String)
    → mark_disposable_credentials_complete c account file ≡ ok out
    → out.0 ≡ record account { state = Disposable.complete }
unfolding mark_disposable_credentials_complete
mark-complete c account file out h =
    let (exact, h1) = raise_if-then (not (is_exact_local c)) _ _ h in
    let (prefix, named, h2) =
      >>=-eq-ok (disposable_variable_prefix account.run_id account.scenario_id) _ h1 in
    let (values, readable, h3) = >>=-eq-ok (read_values file) _ h2 in
    let (passed, saved, h4) =
      >>=-eq-ok (require_saved_disposable_record values (disposable_variable_names prefix) account)
        _ h3 in
    sym (ap (λ o. o.0) (ok-injective _ out h4))

-- The part of the acquisition that follows the checks of the configuration.
abbrev after_checks :
    EnvironmentConfig
    → String
    → String
    → Dict String String
    → Option String
    → BrowserLoginCredentials
    → Browser
    → Outcome
after_checks c run_id scenario_id environ file generated browser =
    elim (load_or_create_disposable_credentials c run_id scenario_id environ file generated) [
      | err e ↦ (err (credential_failure e), file)
      | ok (account, after) ↦
          if account.state == Disposable.complete
          then (
            known_target account (login_browser_account browser c primary account.credentials),
            after,
          )
          else complete_target c account after (provision browser c primary account.credentials)
    ]

raised-ok :
    (e : AuthError) (file : Option String) (target : ProvisionedDisposableTarget) (o : Outcome)
    → o ≡ (err e, file)
    → o.0 ≢ ok target
raised-ok e file target o same h =
    let wrong : Path (Result AuthError ProvisionedDisposableTarget) (err e) (ok target) =
      sym (ap (λ p. p.0) same) ∙ h in
    cc

module _ (c : EnvironmentConfig) (run_id scenario_id : String) (environ : Dict String String)
    (file : Option String) (generated : BrowserLoginCredentials) (browser : Browser)
    (target : ProvisionedDisposableTarget)
    (h : (acquire_disposable_browser_target c run_id scenario_id environ file generated browser).0
      ≡ ok target) where
  abbrev acquired : Outcome
  acquired = acquire_disposable_browser_target c run_id scenario_id environ file generated browser

  in_browser_mode : (c.auth.mode == browser_preprovisioned) ≡ true
  unfolding acquire_disposable_browser_target
  in_browser_mode = elim (Bool-cases (c.auth.mode == browser_preprovisioned)) [
    | inl yes_mode ↦ yes_mode
    | inr other ↦ absurd (raised-ok not_browser_mode file target acquired (rw other refl) h)
  ]

  permitted : (not c.allow_mutation || not c.allow_destructive) ≡ false
  unfolding acquire_disposable_browser_target
  permitted = elim (Bool-cases (not c.allow_mutation || not c.allow_destructive)) [
    | inl refused ↦
        absurd (raised-ok not_permitted file target acquired (rw (in_browser_mode, refused) refl) h)
    | inr may ↦ may
  ]

  checked : acquired ≡ after_checks c run_id scenario_id environ file generated browser
  unfolding acquire_disposable_browser_target
  checked = rw (in_browser_mode, permitted) refl

-- The account of a target is the loaded one, with its signup complete.
abbrev IsTarget : DisposableCredentialRecord → ProvisionedDisposableTarget → Type 0
IsTarget account target = target.account ≡ record account { state = Disposable.complete }

marked-IsTarget :
    (c : EnvironmentConfig) (account : DisposableCredentialRecord) (file : Option String)
    (session : Session) (target : ProvisionedDisposableTarget)
    (r : Result CredentialError (DisposableCredentialRecord × Option String))
    → mark_disposable_credentials_complete c account file ≡ r
    → (let out : Outcome = elim r [
      | err e ↦ (err (credential_failure e), file)
      | ok (completed, after) ↦
          (ok (record { account = completed; first_session = session }), after)
    ] in
        out.0 ≡ ok target)
    → IsTarget account target
marked-IsTarget c account file session target (err e) m h = cc
marked-IsTarget c account file session target (ok (completed, after)) m h =
    ap (λ t. t.account) (sym (ok-injective _ target h))
    ∙ mark-complete c account file (completed, after) m

completed-IsTarget :
    (c : EnvironmentConfig) (account : DisposableCredentialRecord) (file : Option String)
    (target : ProvisionedDisposableTarget) (r : Result AuthError Session)
    → (complete_target c account file r).0 ≡ ok target
    → IsTarget account target
completed-IsTarget c account file target (err e) h = cc
completed-IsTarget c account file target (ok session) h =
    marked-IsTarget c account file session target
      (mark_disposable_credentials_complete c account file) refl h

known-IsTarget :
    (account : DisposableCredentialRecord) (target : ProvisionedDisposableTarget)
    (r : Result AuthError Session)
    → account.state ≡ Disposable.complete
    → known_target account r ≡ ok target
    → IsTarget account target
known-IsTarget account target (err e) s h = cc
known-IsTarget account target (ok session) s h =
    ap (λ t. t.account) (sym (ok-injective _ target h)) ∙ ap (λ x. record account { state = x }) s

completed-IsConsistent :
    (b : BrowserConfig) (environ values : Dict String String) (run_id scenario_id : String)
    (account : DisposableCredentialRecord)
    → IsConsistent b environ values run_id scenario_id account
    → IsConsistent b environ values run_id scenario_id
        (record account { state = Disposable.complete })
unfolding disposable_state_eq
completed-IsConsistent b environ values run_id scenario_id account k = record {
  same_run = k.same_run;
  same_scenario = k.same_scenario;
  whole = k.whole;
  signed_up = ground arith;
  distinct = k.distinct;
}

-- A deactivation target is provisioned for its run only: if the acquisition returns a target, the
-- configuration is in browser mode with both mutation and destructive tests allowed; the target's
-- account belongs to the run and scenario that were asked for, its signup is complete, its identity is
-- bound as a whole if at all, and its username is none that a role's variables resolve to. The
-- configuration has browser settings.
pub acquire_target-IsConsistent :
    (c : EnvironmentConfig) (b : BrowserConfig) (run_id scenario_id : String)
    (environ : Dict String String) (file : Option String) (generated : BrowserLoginCredentials)
    (browser : Browser) (target : ProvisionedDisposableTarget)
    → c.auth.browser ≡ some b
    → (acquire_disposable_browser_target c run_id scenario_id environ file generated browser).0
      ≡ ok target
    → ((c.auth.mode == browser_preprovisioned && (c.allow_mutation && c.allow_destructive)) ≡ true)
      × (target.account.state ≡ Disposable.complete)
      × (values : Dict String String) × (read_values file ≡ ok values)
      × IsConsistent b environ values run_id scenario_id target.account
acquire_target-IsConsistent c b run_id scenario_id environ file generated browser target configured
      h =
    let mode = in_browser_mode c run_id scenario_id environ file generated browser target h in
    let may = permitted c run_id scenario_id environ file generated browser target h in
    let same = checked c run_id scenario_id environ file generated browser target h in
    let (complete, values, readable, consistent) =
      loaded (load_or_create_disposable_credentials c run_id scenario_id environ file generated)
        refl (sym (ap (λ o. o.0) same) ∙ h) in
    (ground arith, complete, values, readable, consistent)
  where
    IsReady : Type 0
    IsReady =
        (target.account.state ≡ Disposable.complete)
        × (values : Dict String String) × (read_values file ≡ ok values)
        × IsConsistent b environ values run_id scenario_id target.account

    ready :
        (account : DisposableCredentialRecord) (after : Option String)
        → load_or_create_disposable_credentials c run_id scenario_id environ file generated
          ≡ ok (account, after)
        → IsTarget account target
        → IsReady
    ready account after l t =
        let (values, readable, consistent) =
          load_disposable-IsConsistent c b run_id scenario_id environ file generated account after
            configured l in
        (
          ap (λ a. a.state) t,
          values,
          readable,
          subst (IsConsistent b environ values run_id scenario_id) (sym t)
              (completed-IsConsistent b environ values run_id scenario_id account consistent),
        )

    branch :
        (account : DisposableCredentialRecord) (after : Option String)
        → load_or_create_disposable_credentials c run_id scenario_id environ file generated
          ≡ ok (account, after)
        → (done : Bool) → account.state == Disposable.complete ≡ done
        → (if done
            then (
              known_target account (login_browser_account browser c primary account.credentials),
              after,
            )
            else complete_target c account after
                (provision browser c primary account.credentials)).0
          ≡ ok target
        → IsReady
    branch account after l true s r = ready account after l (
        known-IsTarget account target (login_browser_account browser c primary account.credentials)
          (eq_of_== account.state Disposable.complete s) r)
    branch account after l false s r = ready account after l (
        completed-IsTarget c account after target (provision browser c primary account.credentials)
          r)

    loaded :
        (r : Result CredentialError (DisposableCredentialRecord × Option String))
        → load_or_create_disposable_credentials c run_id scenario_id environ file generated ≡ r
        → (let out : Outcome = elim r [
          | err e ↦ (err (credential_failure e), file)
          | ok (account, after) ↦
              if account.state == Disposable.complete
              then (
                known_target account (login_browser_account browser c primary account.credentials),
                after,
              )
              else complete_target c account after (provision browser c primary account.credentials)
        ] in
            out.0 ≡ ok target)
        → IsReady
    loaded (err e) l r = cc
    loaded (ok (account, after)) l r =
        branch account after l (account.state == Disposable.complete) refl r
