-- ===== src/Identity.antt =====
-- src/api_tests/session.py and session_gateway_assertions.py: which sessions and identities the tests
-- accept.
pub mod Requirements
use budget_analyzer_api_test.Base.{
  ℕ, zero, suc, ◌+◌, ◌-◌, ◌≤◌, ◌<◌, ◌≡◌, refl, sym, ◌∙◌, ap, ◌≢◌, ◌↔◌, ◌⊎◌, Bool, true, false, ◌&&◌,
  ◌||◌, not, List, [], ◌∷◌, ◌++◌, map, arith, Eq, ◌==◌, contains, keep, if◌then◌else◌, Option, none,
  some, inl, inr, Bool-cases, Option-cases, String, ◌<>◌, contains-append, contains-keep,
  all-contains, all-ext, any-ext, null-keep-not, null-keep, all-map, any-map, null-map,
  contains-map-keep, all-and, All-map, All-of_contains, all_mono, all_of_contains, ltb, leb, all,
  any, null, nodup, length, All, string_eq, nat_eq, ==_self, eq_of_==, ne_of_==, implies,
  null-append, length-append, bool_eq, option_eq, are_fresh, are_fresh-cons, are_fresh-append,
  nodup-append, are_fresh_union,
}
use budget_analyzer_api_test.Base.Dict.{
  Dict, keys, lookup, get_or, insert, lookup-insert, contains-keys-insert, lookup-eq-none_iff,
  lookup-tabulate, keys-tabulate, length-insert, are_new, are_new-insert,
}
use budget_analyzer_api_test.Base.Sort.{
  sorted, contains-sorted, mem-sorted, sorted-All, sorted_perm, length-sorted, null-sorted,
  all-sorted, any-sorted,
}
use budget_analyzer_api_test.Base.Result.{
  Result, ok, err, ◌>>=◌, ◌>>◌, raise_if, >>=-eq-ok, raise_if-eq-ok, raise_if-then, ok-injective,
}
use budget_analyzer_api_test.Base.Text.{text_le}

pub record Session : Type 0 where
  pub cookie_name : String
  pub cookie_value : String

-- Roles and permissions are sets, used through membership only.
pub record AuthenticatedIdentity : Type 0 where
  pub subject : String
  pub roles : List String
  pub permissions : List String
  pub display_name : Option String
  pub email : Option String

pub data IdentityError : Type 0 where
  indistinct_sessions : IdentityError
  missing_user_role unexpected_admin_role : IdentityError
  promotion_required : String → IdentityError
  missing_both_roles admin_without_user : IdentityError
  missing_permissions : List String → IdentityError
  indistinct_identities : String → String → IdentityError

unfoldable pub ensure_distinct_sessions : Session → Session → Result IdentityError (Unit {0})
ensure_distinct_sessions primary secondary =
    raise_if
      (primary.cookie_name == secondary.cookie_name
        && primary.cookie_value == secondary.cookie_value)
      indistinct_sessions

abbrev pub required_admin_permissions : List String
required_admin_permissions =
    "transactions:read:any" ∷ "users:read" ∷ "users:write" ∷ "statementformats:read:any"
    ∷ "statementformats:write:any" ∷ []

unfoldable pub require_normal_identity : AuthenticatedIdentity → Result IdentityError (Unit {0})
require_normal_identity identity = do
  raise_if (not (contains identity.roles "USER")) missing_user_role
  raise_if (contains identity.roles "ADMIN") unexpected_admin_role

-- The two errors for an identity without the role ADMIN.
abbrev not_admin : AuthenticatedIdentity → IdentityError
not_admin identity =
    if contains identity.roles "USER"
    then promotion_required identity.subject
    else missing_both_roles

unfoldable pub require_admin_identity : AuthenticatedIdentity → Result IdentityError (Unit {0})
unfolding sorted
require_admin_identity identity = do
  raise_if (not (contains identity.roles "ADMIN")) (not_admin identity)
  raise_if (not (contains identity.roles "USER")) admin_without_user
  let missing =
      sorted text_le (keep (λ p. not (contains identity.permissions p)) required_admin_permissions)
  raise_if (not (null missing)) (missing_permissions missing)

-- The loop of `ensure_distinct_identities`; `subjects` maps a subject to its label.
unfoldable pub add_subjects :
    List (String × AuthenticatedIdentity) → Dict String String → Result IdentityError (Unit {0})
add_subjects [] subjects = ok tt
add_subjects ((label, identity) ∷ rest) subjects = elim (lookup identity.subject subjects) [
  | some existing_label ↦ err (indistinct_identities existing_label label)
  | none ↦ add_subjects rest (insert identity.subject label subjects)
]

unfoldable pub ensure_distinct_identities :
    List (String × AuthenticatedIdentity) → Result IdentityError (Unit {0})
unfolding add_subjects
ensure_distinct_identities identities = add_subjects identities []
