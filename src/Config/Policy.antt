-- ===== src/Config/Policy.antt =====
-- Which configurations the policy accepts.
use budget_analyzer_api_test.Base.{
  refl, ne_of_==, ◌≡◌, sym, ◌∙◌, ap, ◌↔◌, true, ◌&&◌, not, arith, ◌==◌, Option, none, some, inl,
  inr, Bool-cases, string_eq, nat_eq, eq_of_==, implies, bool_eq, option_eq,
}
use budget_analyzer_api_test.Base.Result.{ok, ok-injective, >>=-eq-ok}
use mathlib.Core.Path.{subst}
use budget_analyzer_api_test.Config.Fields.{
  Library, validate_non_empty_string, validate_origin, validate_absolute_path,
  validate_supplied_sessions, validate_browser, validate_browser_auth_contract, validate_timeouts,
  validate_fields, model_validate, with_session_mode,
}
use budget_analyzer_api_test.Config.{
  staging, production, AuthMode, supplied_sessions, browser_preprovisioned, EnvironmentConfig,
  is_some, is_none, validate_environment_policy, environment_type_eq, auth_mode_eq,
}

-- The policy: production is read-only with supplied sessions and no browser, staging with supplied
-- sessions has a secondary one, the browser mode has its settings, and destructive tests need
-- mutation.
pub record IsAllowed (c : EnvironmentConfig) : Type 0 where
  pub read_only : implies (c.environment_type == production) (not c.allow_mutation) ≡ true
  pub not_destructive : implies (c.environment_type == production) (not c.allow_destructive) ≡ true
  pub supplied :
      implies (c.environment_type == production) (c.auth.mode == supplied_sessions) ≡ true
  pub no_browser : implies (c.environment_type == production) (is_none c.auth.browser) ≡ true
  pub secondary :
      implies
        (c.environment_type == staging && c.auth.mode == supplied_sessions)
        (is_some c.auth.supplied_sessions.secondary_session_env)
      ≡ true
  pub settings : implies (c.auth.mode == browser_preprovisioned) (is_some c.auth.browser) ≡ true
  pub destructive_mutates : implies c.allow_destructive c.allow_mutation ≡ true

-- The mode that an override asks for.
abbrev pub mode_after : Option AuthMode → AuthMode → AuthMode
mode_after none mode = mode
mode_after (some mode) _ = mode

policy_sound :
    (c d : EnvironmentConfig) → validate_environment_policy c ≡ ok d → IsAllowed c × (c ≡ d)
unfolding validate_environment_policy
policy_sound c d h = (
  record {
    read_only = ground arith;
    not_destructive = ground arith;
    supplied = ground arith;
    no_browser = ground arith;
    secondary = ground arith;
    settings = ground arith;
    destructive_mutates = ground arith;
  },
  ground arith,
)

policy_complete : (c : EnvironmentConfig) → IsAllowed c → validate_environment_policy c ≡ ok c
unfolding validate_environment_policy
policy_complete c a = ground arith

-- A configuration is accepted exactly when the policy allows it, and it is returned unchanged.
pub validate_environment_policy_iff :
    (c d : EnvironmentConfig) → (validate_environment_policy c ≡ ok d) ↔ (IsAllowed c × (c ≡ d))
validate_environment_policy_iff c d = (policy_sound c d, λ h. policy_complete c h.0 ∙ ap ok h.1)

-- What the validators of the fields leave as it was.
pub record IsKept (c d : EnvironmentConfig) : Type 0 where
  pub same_type : d.environment_type ≡ c.environment_type
  pub same_mutation : d.allow_mutation ≡ c.allow_mutation
  pub same_destructive : d.allow_destructive ≡ c.allow_destructive
  pub same_mode : d.auth.mode ≡ c.auth.mode

module _ (python : Library) where
  validate_fields-IsKept : (c d : EnvironmentConfig) → validate_fields python c ≡ ok d → IsKept c d
  unfolding validate_fields
  validate_fields-IsKept c d h =
      let (name, r1, h1) = >>=-eq-ok (validate_non_empty_string python c.name) _ h in
      let (origin, r2, h2) = >>=-eq-ok (validate_origin python c.origin) _ h1 in
      let (api, r3, h3) = >>=-eq-ok (validate_absolute_path python c.api_base_path) _ h2 in
      let (openapi, r4, h4) = >>=-eq-ok (validate_absolute_path python c.openapi_path) _ h3 in
      let (cookie, r5, h5) =
        >>=-eq-ok (validate_non_empty_string python c.session_cookie_name) _ h4 in
      let (sessions, r6, h6) =
        >>=-eq-ok (validate_supplied_sessions python c.auth.supplied_sessions) _ h5 in
      let (browser, r7, h7) = >>=-eq-ok (validate_browser python c.auth.browser) _ h6 in
      let (contract, r8, h8) =
        >>=-eq-ok (validate_browser_auth_contract python c.browser_auth_contract) _ h7 in
      let (timeouts, r9, h9) = >>=-eq-ok (validate_timeouts python c.timeouts) _ h8 in
      subst (IsKept c) (ok-injective _ d h9) (record {
        same_type = refl;
        same_mutation = refl;
        same_destructive = refl;
        same_mode = refl;
      })

  model_validate_lem :
      (c d : EnvironmentConfig) → model_validate python c ≡ ok d → IsAllowed d × IsKept c d
  unfolding model_validate
  model_validate_lem c d h =
      let (fields, valid, rest) = >>=-eq-ok (validate_fields python c) _ h in
      let (allowed, same) = policy_sound fields d rest in
      (subst IsAllowed same allowed, subst (IsKept c) same (validate_fields-IsKept c fields valid))

  -- Where the session mode of an allowed configuration is overridden with success, the configuration
  -- that is returned is allowed too, with the mode that is asked for, and the type and the permissions
  -- that it had. Nothing is said of its other fields, which may be normalised again.
  pub with_session_mode-IsAllowed :
      (c d : EnvironmentConfig) (mode : Option AuthMode)
      → IsAllowed c
      → with_session_mode python c mode ≡ ok d
      → IsAllowed d
        × (d.auth.mode ≡ mode_after mode c.auth.mode)
        × (d.environment_type ≡ c.environment_type)
        × (d.allow_mutation ≡ c.allow_mutation)
        × (d.allow_destructive ≡ c.allow_destructive)
  unfolding with_session_mode
  with_session_mode-IsAllowed c d none a h =
      let e : c ≡ d = ok-injective c d h in
      subst
        (λ x.
          IsAllowed x
          × (x.auth.mode ≡ c.auth.mode)
          × (x.environment_type ≡ c.environment_type)
          × (x.allow_mutation ≡ c.allow_mutation)
          × (x.allow_destructive ≡ c.allow_destructive))
        e (a, refl, refl, refl, refl)
  with_session_mode-IsAllowed c d (some m) a h = elim (Bool-cases (m == c.auth.mode)) [
    | inl same ↦
        let e : c ≡ d = ok-injective c d (rw same at h) in
        subst
          (λ x.
            IsAllowed x
            × (x.auth.mode ≡ m)
            × (x.environment_type ≡ c.environment_type)
            × (x.allow_mutation ≡ c.allow_mutation)
            × (x.allow_destructive ≡ c.allow_destructive))
          e (a, sym (eq_of_== m c.auth.mode same), refl, refl, refl)
    | inr other ↦
        let changed : EnvironmentConfig = record c { auth = record (c.auth) { mode = m } } in
        let (allowed, kept) = model_validate_lem changed d (rw other at h) in
        (allowed, kept.same_mode, kept.same_type, kept.same_mutation, kept.same_destructive)
  ]

  -- The mode of an allowed production configuration cannot be changed: the override is refused, or asks
  -- for the mode that is set and returns the configuration itself.
  pub with_session_mode-production :
      (c d : EnvironmentConfig) (mode : Option AuthMode)
      → IsAllowed c
      → c.environment_type ≡ production
      → with_session_mode python c mode ≡ ok d
      → (d ≡ c) × (mode_after mode c.auth.mode ≡ supplied_sessions)
  unfolding with_session_mode
  with_session_mode-production c d none a p h =
      (sym (ok-injective c d h), ground (arith, a.supplied, p))
  with_session_mode-production c d (some m) a p h =
      let before : c.auth.mode ≡ supplied_sessions = ground (arith, a.supplied, p) in
      elim (Bool-cases (m == c.auth.mode)) [
        | inl same ↦ (sym (ok-injective c d (rw same at h)), eq_of_== m c.auth.mode same ∙ before)
        | inr other ↦
            let (allowed, mode, type, mutation, destructive) =
              with_session_mode-IsAllowed c d (some m) a h in
            let after : d.auth.mode ≡ supplied_sessions =
              ground (arith, allowed.supplied, type, p) in
            let equal : m ≡ c.auth.mode = sym mode ∙ after ∙ sym before in
            absurd (ne_of_== m c.auth.mode other equal)
      ]
