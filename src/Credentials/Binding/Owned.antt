-- ===== src/Credentials/Binding/Owned.antt =====
-- A bound identity is owned by the run and scenario that bound it.
use budget_analyzer_api_test.Base.{
  ◌≡◌, refl, sym, ap, true, false, ◌||◌, not, List, [], ◌∷◌, arith, ◌==◌, contains, Option, some,
  String, string_eq, nat_eq, ==_self, eq_of_==, bool_eq, option_eq,
}
use budget_analyzer_api_test.Base.Dict.{Dict}
use budget_analyzer_api_test.Base.Result.{ok, >>=-eq-ok, raise_if-then, ok-injective}
use budget_analyzer_api_test.Config.{EnvironmentConfig}
use budget_analyzer_api_test.MarkerPolicy.{is_exact_local}
use budget_analyzer_api_test.Credentials.Line.{is_empty}
use budget_analyzer_api_test.Credentials.File.{update_credential_file}
use budget_analyzer_api_test.Credentials.Local.{session_role_eq, credential_state_eq, read_values}
use budget_analyzer_api_test.Credentials.Naming.{
  disposable_variable_prefix, disposable_variable_names,
}
use budget_analyzer_api_test.Credentials.Disposable.{
  complete, DisposableCredentialRecord, disposable_state_eq, require_saved_disposable_record,
}
use budget_analyzer_api_test.Credentials.Binding.{
  ensure_unbound, is_changed, bind_disposable_identity, require_owned_disposable_identity,
}
use mathlib.Core.Path.{subst⁻¹}

module _ (c : EnvironmentConfig) (account : DisposableCredentialRecord)
    (run_id scenario_id subject user_id : String) (subjects user_ids : List String)
    (file : Option String) where
  -- Where the identity is bound: the checks that were passed, and what is returned.
  pub record IsBound (out : DisposableCredentialRecord × Option String) : Type 0 where
    pub prefix : String
    pub values : Dict String String
    pub run_same : (account.run_id == run_id) ≡ true
    pub scenario_same : (account.scenario_id == scenario_id) ≡ true
    pub signed_up : account.state ≡ complete
    pub given : (is_empty subject || is_empty user_id) ≡ false
    pub not_reusable : (contains subjects subject || contains user_ids user_id) ≡ false
    pub named : disposable_variable_prefix account.run_id account.scenario_id ≡ ok prefix
    pub readable : read_values file ≡ ok values
    pub unbound : ensure_unbound (disposable_variable_names prefix) subject user_id values ≡ ok tt
    pub bound :
        out.0 ≡ record account { state = complete; subject = some subject; user_id = some user_id }
    pub written :
        out.1
        ≡ update_credential_file file (
            ((disposable_variable_names prefix).subject, subject)
            ∷ ((disposable_variable_names prefix).user_id, user_id)
            ∷ [])

  pub bind-IsBound :
      (out : DisposableCredentialRecord × Option String)
      → bind_disposable_identity c account run_id scenario_id subject user_id subjects user_ids file
        ≡ ok out
      → IsBound out
  unfolding bind_disposable_identity
  bind-IsBound out h =
      let (exact, h1) = raise_if-then (not (is_exact_local c)) _ _ h in
      let (same, h2) =
        raise_if-then (not (account.run_id == run_id) || not (account.scenario_id == scenario_id)) _
          _ h1 in
      let (signed, h3) = raise_if-then (not (account.state == complete)) _ _ h2 in
      let (given, h4) = raise_if-then (is_empty subject || is_empty user_id) _ _ h3 in
      let (reusable, h5) =
        raise_if-then (contains subjects subject || contains user_ids user_id) _ _ h4 in
      let (prefix, named, h6) =
        >>=-eq-ok (disposable_variable_prefix account.run_id account.scenario_id) _ h5 in
      let names = disposable_variable_names prefix in
      let (values, readable, h7) = >>=-eq-ok (read_values file) _ h6 in
      let (saved, kept, h8) =
        >>=-eq-ok (require_saved_disposable_record values names account) _ h7 in
      let (free, unbound, h9) = >>=-eq-ok (ensure_unbound names subject user_id values) _ h8 in
      let (subject_same, h10) = raise_if-then (is_changed account.subject subject) _ _ h9 in
      let (user_same, h11) = raise_if-then (is_changed account.user_id user_id) _ _ h10 in
      let returned = ok-injective _ out h11 in
      record {
        prefix = prefix;
        values = values;
        run_same = ground arith;
        scenario_same = ground arith;
        signed_up = eq_of_== account.state complete (ground arith);
        given = given;
        not_reusable = reusable;
        named = named;
        readable = readable;
        unbound = unbound;
        bound = sym (ap (λ o. o.0) returned);
        written = sym (ap (λ o. o.1) returned);
      }

  -- An identity that was bound is owned: the account that binding returns passes the ownership check
  -- for the same run, scenario, subject, user and reusable identities.
  pub bind-require_owned :
      (bound : DisposableCredentialRecord) (after : Option String)
      → bind_disposable_identity c account run_id scenario_id subject user_id subjects user_ids file
        ≡ ok (bound, after)
      → require_owned_disposable_identity bound run_id scenario_id subject user_id subjects user_ids
        ≡ ok tt
  unfolding require_owned_disposable_identity disposable_state_eq
  bind-require_owned bound after h =
      let b = bind-IsBound (bound, after) h in
      subst⁻¹
        (λ a.
          require_owned_disposable_identity a run_id scenario_id subject user_id subjects user_ids
          ≡ ok tt)
        b.bound
        (rw (b.run_same, b.scenario_same, ==_self subject, ==_self user_id, b.not_reusable) refl)
