-- ===== src/Client/Policies.antt =====
-- At most one rate policy applies to a request.
use budget_analyzer_api_test.Base.{
  ◌≡◌, refl, ◌∙◌, ap, Bool, true, false, ◌&&◌, ◌||◌, arith, ◌==◌, some, inl, inr, Bool-cases,
  String, all, string_eq, nat_eq, eq_of_==, implies, bool_eq, option_eq,
}
use budget_analyzer_api_test.Base.Prefix.{
  starts_with, prefixes_compare, starts_with_self, starts_with-append,
}
use budget_analyzer_api_test.Client.{
  PublicRatePolicy, policy_name_eq, in_family, matches, public_rate_policies,
  classify_public_rate_policy,
}

in_family_lem :
    (path family : String) → in_family path family ≡ true → starts_with family path ≡ true
in_family_lem path family h = elim (Bool-cases (path == family)) [
  | inl same ↦ ap (λ s. starts_with family s) (eq_of_== path family same) ∙ starts_with_self family
  | inr other ↦ starts_with-append family "/" path (ground arith)
]

-- Families of which neither is a prefix of the other have no path in common.
families_apart :
    (path f g : String)
    → (starts_with f g || starts_with g f) ≡ false
    → (in_family path f && in_family path g) ≡ false
families_apart path f g h =
    ground (arith, in_family_lem path f, in_family_lem path g, prefixes_compare f g path)

abbrev both : String → String → String → Bool
both path f g = in_family path f && in_family path g

-- The families of different policies have no path in common.
policies_apart :
    (path : String)
    → (both path "/oauth2" "/login/oauth2" ≡ false)
      × (both path "/oauth2" "/auth" ≡ false)
      × (both path "/oauth2" "/logout" ≡ false)
      × (both path "/oauth2" "/api" ≡ false)
      × (both path "/login/oauth2" "/auth" ≡ false)
      × (both path "/login/oauth2" "/logout" ≡ false)
      × (both path "/login/oauth2" "/api" ≡ false)
      × (both path "/auth" "/api" ≡ false)
      × (both path "/logout" "/api" ≡ false)
unfolding nat_eq
policies_apart path = (
  families_apart path "/oauth2" "/login/oauth2" refl,
  families_apart path "/oauth2" "/auth" refl,
  families_apart path "/oauth2" "/logout" refl,
  families_apart path "/oauth2" "/api" refl,
  families_apart path "/login/oauth2" "/auth" refl,
  families_apart path "/login/oauth2" "/logout" refl,
  families_apart path "/login/oauth2" "/api" refl,
  families_apart path "/auth" "/api" refl,
  families_apart path "/logout" "/api" refl,
)

-- The policy that is found matches the target's path, and every policy that matches it is that one.
pub classify_public_rate_policy_lem :
    (url_path : String → String) (request_target : String) (policy : PublicRatePolicy)
    → classify_public_rate_policy url_path request_target ≡ some policy
    → (matches policy (url_path request_target) ≡ true)
      × (all
            (λ q. implies (matches q (url_path request_target)) (q.name == policy.name))
            public_rate_policies
          ≡ true)
unfolding classify_public_rate_policy
classify_public_rate_policy_lem url_path request_target policy h =
    let path = url_path request_target in ground (arith, policies_apart path)
