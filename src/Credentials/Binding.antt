-- ===== src/Credentials/Binding.antt =====
-- local_credentials.py: the identity of a disposable account, which is bound once its signup is
-- complete and is checked before the account is deactivated.
pub mod Owned
pub mod Unique
use budget_analyzer_api_test.Base.{
  Bool, false, ◌||◌, not, List, [], ◌∷◌, ◌==◌, contains, Option, none, some, String, string_eq,
  nat_eq, bool_eq, option_eq,
}
use budget_analyzer_api_test.Base.Dict.{Dict}
use budget_analyzer_api_test.Base.Result.{Result, ok, err, ◌>>=◌, ◌>>◌, raise_if}
use budget_analyzer_api_test.Config.{EnvironmentConfig}
use budget_analyzer_api_test.Credentials.Line.{is_empty}
use budget_analyzer_api_test.Credentials.File.{update_credential_file}
use budget_analyzer_api_test.Credentials.Local.{
  CredentialError, read_values, ensure_exact_local_target,
}
use budget_analyzer_api_test.Credentials.Local.{
  unfinished_signup, empty_identity, reusable_identity, subject_bound_elsewhere,
  user_bound_elsewhere, subject_changed, user_changed, unbound_target, identity_mismatch,
}
use budget_analyzer_api_test.Credentials.Naming.{
  disposable_variable_prefix, DisposableVariableNames, disposable_variable_names,
}
use budget_analyzer_api_test.Credentials.Disposable.{
  complete, DisposableCredentialRecord, disposable_state_eq, is_retained,
  require_saved_disposable_record, require_current_disposable_provenance,
}

-- The loop of `bind_disposable_identity` over the variables of the file.
abbrev pub ensure_unbound :
    DisposableVariableNames
    → String
    → String
    → Dict String String
    → Result CredentialError (Unit {0})
ensure_unbound names subject user_id [] = ok tt
ensure_unbound names subject user_id (variable ∷ variables) = do
  raise_if (is_retained "_IDP_SUBJECT" names.subject subject variable) subject_bound_elsewhere
  raise_if (is_retained "_USER_ID" names.user_id user_id variable) user_bound_elsewhere
  ensure_unbound names subject user_id variables

-- `bound is not None and bound != value`
abbrev pub is_changed : Option String → String → Bool
is_changed none value = false
is_changed (some bound) value = not (bound == value)

unfoldable pub bind_disposable_identity :
    EnvironmentConfig
    → DisposableCredentialRecord
    → String
    → String
    → String
    → String
    → List String
    → List String
    → Option String
    → Result CredentialError (DisposableCredentialRecord × Option String)
bind_disposable_identity c account run_id scenario_id subject user_id subjects user_ids file = do
  ensure_exact_local_target c
  require_current_disposable_provenance account run_id scenario_id
  raise_if (not (account.state == complete)) unfinished_signup
  raise_if (is_empty subject || is_empty user_id) empty_identity
  raise_if (contains subjects subject || contains user_ids user_id) reusable_identity
  prefix ← disposable_variable_prefix account.run_id account.scenario_id
  let names = disposable_variable_names prefix
  values ← read_values file
  require_saved_disposable_record values names account
  ensure_unbound names subject user_id values
  raise_if (is_changed account.subject subject) subject_changed
  raise_if (is_changed account.user_id user_id) user_changed
  ok (
    record account { state = complete; subject = some subject; user_id = some user_id },
    update_credential_file file ((names.subject, subject) ∷ (names.user_id, user_id) ∷ []),
  )

-- The subject and the user that an account is bound to, where both are there.
abbrev pub binding : DisposableCredentialRecord → Option (String × String)
binding account = elim account.subject [
  | none ↦ none
  | some subject ↦ elim account.user_id [ none ↦ none | some user_id ↦ some (subject, user_id) ]
]

unfoldable pub require_owned_disposable_identity :
    DisposableCredentialRecord
    → String
    → String
    → String
    → String
    → List String
    → List String
    → Result CredentialError (Unit {0})
require_owned_disposable_identity account run_id scenario_id subject user_id subjects user_ids = do
  require_current_disposable_provenance account run_id scenario_id
  raise_if (not (account.state == complete)) unbound_target
  elim (binding account) [
    | none ↦ err unbound_target
    | some (bound, user) ↦ do
      raise_if (not (bound == subject) || not (user == user_id)) identity_mismatch
      raise_if (contains subjects subject || contains user_ids user_id) reusable_identity
  ]
