-- ===== src/Auth/Modes.antt =====
-- Where the sessions of a production run come from.
use budget_analyzer_api_test.Base.{
  ◌≡◌, refl, sym, ◌∙◌, ap, ◌↔◌, true, false, arith, ◌==◌, Option, inl, inr, Bool-cases, String,
  string_eq, nat_eq, eq_of_==, bool_eq, option_eq,
}
use budget_analyzer_api_test.Base.Dict.{Dict}
use budget_analyzer_api_test.Base.Result.{Result, ok, err, >>=-eq-ok, ok-injective}
use budget_analyzer_api_test.Config.{
  EnvironmentConfig, production, supplied_sessions, environment_type_eq, auth_mode_eq,
}
use budget_analyzer_api_test.Identity.{Session}
use budget_analyzer_api_test.Credentials.Line.{is_empty}
use budget_analyzer_api_test.Credentials.Local.{
  SessionRole, session_role_eq, credential_state_eq, BrowserLoginCredentials, stripped, filled,
}
use budget_analyzer_api_test.Credentials.Disposable.{disposable_state_eq}
use budget_analyzer_api_test.Auth.{
  AuthError, missing_secret, Browser, required_secret, session_variable, load_supplied_session,
  acquire_session,
}
use budget_analyzer_api_test.Config.{validate_environment_policy}
use budget_analyzer_api_test.Config.Policy.{validate_environment_policy_iff}

-- A session that the environment supplies: its cookie is the configured one, with the value of the
-- role's variable.
pub record IsSupplied (c : EnvironmentConfig) (role : SessionRole) (source : Dict String String)
    (session : Session) : Type 0 where
  pub name : String
  pub variable : session_variable c role ≡ ok name
  pub given : filled (stripped source name) ≡ true
  pub same :
      session ≡ record { cookie_name = c.session_cookie_name; cookie_value = stripped source name }

required_secret-given :
    (source : Dict String String) (name : String)
    → filled (stripped source name) ≡ true
    → required_secret source name ≡ ok (stripped source name)
required_secret-given source name h =
    let some_value : is_empty (stripped source name) ≡ false = ground arith in rw some_value refl

required_secret-found :
    (source : Dict String String) (name value : String)
    → required_secret source name ≡ ok value
    → (filled (stripped source name) ≡ true) × (stripped source name ≡ value)
required_secret-found source name value h = elim (Bool-cases (is_empty (stripped source name))) [
  | inl blank ↦
      let wrong : Path (Result AuthError String) (err (missing_secret name)) (ok value) =
        sym (rw blank refl) ∙ h in
      cc
  | inr given ↦
      let right : Path (Result AuthError String) (ok (stripped source name)) (ok value) =
        sym (required_secret-given source name (ground arith)) ∙ h in
      (ground arith, ok-injective (stripped source name) value right)
]

load_supplied_session_iff :
    (c : EnvironmentConfig) (role : SessionRole) (source : Dict String String) (session : Session)
    → (load_supplied_session c role source ≡ ok session) ↔ IsSupplied c role source session
unfolding load_supplied_session
load_supplied_session_iff c role source session = (there, back)
  where
    there : load_supplied_session c role source ≡ ok session → IsSupplied c role source session
    there h =
        let (name, variable, rest) = >>=-eq-ok (session_variable c role) _ h in
        let (value, found, last) = >>=-eq-ok (required_secret source name) _ rest in
        let (given, same) = required_secret-found source name value found in
        record {
          name = name;
          variable = variable;
          given = given;
          same =
              sym (ok-injective _ session last)
              ∙ ap
                  (λ v.
                    let s : Session = record {
                      cookie_name = c.session_cookie_name;
                      cookie_value = v;
                    } in
                    s)
                  (sym same);
        }

    back : IsSupplied c role source session → load_supplied_session c role source ≡ ok session
    back s = rw (s.variable, required_secret-given source s.name s.given) (ap ok (sym s.same))

-- In production a session is supplied, never acquired: for a configuration that the policy accepts,
-- whatever the browser would do, the credential file is left alone, and a session is returned exactly
-- where the variable of the role is configured and is not blank; it is that value, stripped, under the
-- configured cookie name.
pub production-acquire_session :
    (c d : EnvironmentConfig) (role : SessionRole) (source : Dict String String)
    (file : Option String) (generated : BrowserLoginCredentials) (browser : Browser)
    (session : Session)
    → validate_environment_policy c ≡ ok d
    → c.environment_type ≡ production
    → ((acquire_session c role source file generated browser).1 ≡ file)
      × (((acquire_session c role source file generated browser).0 ≡ ok session)
          ↔ IsSupplied c role source session)
unfolding acquire_session environment_type_eq auth_mode_eq
production-acquire_session c d role source file generated browser session valid place =
    let allowed = ((validate_environment_policy_iff c d).0 valid).0 in
    let test : (c.environment_type == production) ≡ true = rw place refl in
    let supplied : c.auth.mode ≡ supplied_sessions =
      eq_of_== c.auth.mode supplied_sessions (ground (arith, allowed.supplied)) in
    let same : acquire_session c role source file generated browser
        ≡ (load_supplied_session c role source, file) =
      simp (acquire_session, supplied) in
    let (there, back) = load_supplied_session_iff c role source session in
    (
      ap (λ o. o.1) same,
      (λ h. there (sym (ap (λ o. o.0) same) ∙ h), λ h. ap (λ o. o.0) same ∙ back h),
    )
