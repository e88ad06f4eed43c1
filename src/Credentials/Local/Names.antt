-- ===== src/Credentials/Local/Names.antt =====
-- The names of the variables of different roles.
use budget_analyzer_api_test.Base.{
  ◌≡◌, refl, ◌∙◌, Bool, true, false, ◌||◌, List, [], ◌∷◌, arith, ◌==◌, if◌then◌else◌, none, some,
  inl, inr, Bool-cases, String, nodup, string_eq, nat_eq, bool_eq, option_eq,
}
use budget_analyzer_api_test.Base.Dict.{Dict, lookup, insert, lookup-insert}
use budget_analyzer_api_test.Config.{EnvironmentConfig, BrowserConfig}
use budget_analyzer_api_test.Credentials.Local.{
  SessionRole, primary, secondary, admin, session_role_eq, credential_state_eq,
  BrowserLoginCredentials, VariableNames, stripped, names_of, resolved_username,
  ensure_distinct_from, new_entries,
}
use budget_analyzer_api_test.Credentials.Local.Stored.{variable_names-configured}

-- The names of every role's username and password, and of its state.
abbrev pub all_names : BrowserConfig → List String
all_names b =
    b.primary_username_env ∷ b.primary_password_env ∷ b.secondary_username_env
    ∷ b.secondary_password_env ∷ b.admin_username_env ∷ b.admin_password_env
    ∷ "BA_PRIMARY_TEST_ACCOUNT_STATE" ∷ "BA_SECONDARY_TEST_ACCOUNT_STATE"
    ∷ "BA_ADMIN_TEST_ACCOUNT_STATE" ∷ []

abbrev pub is_name_of : VariableNames → String → Bool
is_name_of names n = n == names.username || n == names.password || n == names.state

pub apart_names :
    (b : BrowserConfig) (role : SessionRole)
    → nodup (all_names b) ≡ true
    → let names = names_of b role in
      ((names.username == names.password) ≡ false)
      × ((names.username == names.state) ≡ false)
      × ((names.password == names.state) ≡ false)
apart_names b primary u = ground arith
apart_names b secondary u = ground arith
apart_names b admin u = ground arith

pub other_names :
    (b : BrowserConfig) (role other : SessionRole)
    → nodup (all_names b) ≡ true
    → (other == role) ≡ false
    → (is_name_of (names_of b role) (names_of b other).username ≡ false)
      × (is_name_of (names_of b role) (names_of b other).password ≡ false)
unfolding session_role_eq
other_names b primary primary u d = cc
other_names b primary secondary u d = ground arith
other_names b primary admin u d = ground arith
other_names b secondary primary u d = ground arith
other_names b secondary secondary u d = cc
other_names b secondary admin u d = ground arith
other_names b admin primary u d = ground arith
other_names b admin secondary u d = ground arith
other_names b admin admin u d = cc

lookup-new_entries :
    (names : VariableNames) (made : BrowserLoginCredentials) (n : String)
    → lookup n (new_entries names made) ≡ (
        if n == names.state
        then some "pending"
        else if n == names.password
        then some made.password
        else if n == names.username
        then some made.username
        else none)
lookup-new_entries names made n =
    let one = insert names.username made.username [] in
    let two = insert names.password made.password one in
    rw (lookup-insert n names.state "pending" two, lookup-insert n names.password made.password one)
      refl

-- What is found under the names of new credentials, and under no other name.
pub new_entries_lem :
    (b : BrowserConfig) (role : SessionRole) (made : BrowserLoginCredentials)
    → nodup (all_names b) ≡ true
    → let names = names_of b role in
      let new = new_entries names made in
      (lookup names.username new ≡ some made.username)
      × (lookup names.password new ≡ some made.password)
      × (lookup names.state new ≡ some "pending")
      × ((n : String) → is_name_of names n ≡ false → lookup n new ≡ none)
new_entries_lem b role made u =
    let names = names_of b role in
    let apart = apart_names b role u in
    (
      lookup-new_entries names made names.username ∙ ground (arith, apart),
      lookup-new_entries names made names.password ∙ ground (arith, apart),
      lookup-new_entries names made names.state ∙ ground arith,
      λ n h. lookup-new_entries names made n ∙ ground arith,
    )

-- Whether a username is taken depends on the variables of the other roles only.
pub distinct_ext :
    (c : EnvironmentConfig) (b : BrowserConfig) (role : SessionRole) (username : String)
    (source v w : Dict String String) (others : List SessionRole)
    → c.auth.browser ≡ some b
    → ((other : SessionRole)
        → (other == role) ≡ false
        → (stripped v (names_of b other).username ≡ stripped w (names_of b other).username)
          × (stripped v (names_of b other).password ≡ stripped w (names_of b other).password))
    → ensure_distinct_from c role username source v others
      ≡ ensure_distinct_from c role username source w others
distinct_ext c b role username source v w [] h same = refl
distinct_ext c b role username source v w (other ∷ others) h same =
    let rest = distinct_ext c b role username source v w others h same in
    elim (Bool-cases (other == role)) [
      | inl own ↦ rw own rest
      | inr foreign ↦
          let (one, two) = same other foreign in
          rw (foreign, variable_names-configured c b other h, resolved_username, one, two, rest)
            refl
    ]
