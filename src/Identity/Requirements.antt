-- ===== src/Identity/Requirements.antt =====
-- Which identities pass the requirements.
use budget_analyzer_api_test.Base.{
  ◌≡◌, refl, ◌↔◌, Bool, true, ◌&&◌, not, List, [], ◌∷◌, arith, contains, keep, String,
  null-keep-not, all, nodup, string_eq, nat_eq, bool_eq, option_eq,
}
use budget_analyzer_api_test.Base.Dict.{Dict, insert, lookup-eq-none_iff, are_new, are_new-insert}
use budget_analyzer_api_test.Base.Sort.{null-sorted}
use budget_analyzer_api_test.Base.Result.{ok}
use budget_analyzer_api_test.Base.Text.{text_le}
use budget_analyzer_api_test.Identity.{
  AuthenticatedIdentity, required_admin_permissions, require_normal_identity,
  require_admin_identity, add_subjects, ensure_distinct_identities,
}

abbrev pub subjects_of : List (String × AuthenticatedIdentity) → List String
subjects_of [] = []
subjects_of ((label, identity) ∷ rest) = identity.subject ∷ subjects_of rest

abbrev pub has_role : AuthenticatedIdentity → String → Bool
has_role identity role = contains identity.roles role

-- An identity with both roles and every permission of an administrator.
abbrev pub is_admin : AuthenticatedIdentity → Bool
is_admin identity =
    has_role identity "ADMIN"
    && has_role identity "USER"
    && all (contains identity.permissions) required_admin_permissions

require_admin_lem :
    (identity : AuthenticatedIdentity)
    → (require_admin_identity identity ≡ ok tt) ↔ (is_admin identity ≡ true)
unfolding require_admin_identity
require_admin_lem identity =
    let absent = keep (λ p. not (contains identity.permissions p)) required_admin_permissions in
    ground (
      arith,
      null-sorted text_le absent,
      null-keep-not (contains identity.permissions) required_admin_permissions,
    )

require_normal_lem :
    (identity : AuthenticatedIdentity)
    → (require_normal_identity identity ≡ ok tt)
      ↔ ((has_role identity "USER" && not (has_role identity "ADMIN")) ≡ true)
unfolding require_normal_identity
require_normal_lem identity = ground arith

-- An identity is accepted as a normal one exactly when it has the role USER and not ADMIN, as an
-- administrator exactly when it has both and every required permission, and never as both.
pub identity_requirements :
    (identity : AuthenticatedIdentity)
    → ((require_normal_identity identity ≡ ok tt)
        ↔ ((has_role identity "USER" && not (has_role identity "ADMIN")) ≡ true))
      × ((require_admin_identity identity ≡ ok tt) ↔ (is_admin identity ≡ true))
      × ¬ ((require_normal_identity identity ≡ ok tt) × (require_admin_identity identity ≡ ok tt))
identity_requirements identity =
    let normal = require_normal_lem identity in
    let admin = require_admin_lem identity in
    (normal, admin, λ h. ground (arith, normal.0 h.0, admin.0 h.1))

add_subjects_sound :
    (identities : List (String × AuthenticatedIdentity)) (subjects : Dict String String)
    → add_subjects identities subjects ≡ ok tt
    → (nodup (subjects_of identities) ≡ true) × (are_new subjects (subjects_of identities) ≡ true)
unfolding add_subjects
add_subjects_sound [] subjects h = (refl, refl)
add_subjects_sound ((label, identity) ∷ rest) subjects h = ground (
  arith,
  add_subjects_sound rest (insert identity.subject label subjects),
  are_new-insert identity.subject label subjects (subjects_of rest),
  lookup-eq-none_iff identity.subject subjects,
)

add_subjects_complete :
    (identities : List (String × AuthenticatedIdentity)) (subjects : Dict String String)
    → nodup (subjects_of identities) ≡ true
    → are_new subjects (subjects_of identities) ≡ true
    → add_subjects identities subjects ≡ ok tt
unfolding add_subjects
add_subjects_complete [] subjects u n = refl
add_subjects_complete ((label, identity) ∷ rest) subjects u n = ground (
  arith,
  add_subjects_complete rest (insert identity.subject label subjects),
  are_new-insert identity.subject label subjects (subjects_of rest),
  lookup-eq-none_iff identity.subject subjects,
)

nothing_known : (is : List String) → are_new {V = String} [] is ≡ true
nothing_known [] = refl
nothing_known (i ∷ is) = nothing_known is

-- Labelled identities are accepted as distinct exactly when no two of them have the same subject.
pub ensure_distinct_identities_iff :
    (identities : List (String × AuthenticatedIdentity))
    → (ensure_distinct_identities identities ≡ ok tt) ↔ (nodup (subjects_of identities) ≡ true)
unfolding ensure_distinct_identities
ensure_distinct_identities_iff identities = (
  λ h. (add_subjects_sound identities [] h).0,
  λ u. add_subjects_complete identities [] u (nothing_known (subjects_of identities)),
)
