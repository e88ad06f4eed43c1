-- ===== src/Tests/Requests.antt =====
-- Pacing of a short run of requests, and identities.
use budget_analyzer_api_test.Base.{
  ◌+◌, ◌≤◌, ◌≡◌, refl, ◌↔◌, true, ◌&&◌, not, List, [], ◌∷◌, ◌==◌, none, some, String, all, nodup,
  string_eq, nat_eq, implies, bool_eq, option_eq,
}
use budget_analyzer_api_test.Base.Result.{ok}
use budget_analyzer_api_test.Base.{◌*◌}
use budget_analyzer_api_test.Client.{
  api_requests, matches, public_rate_policies, api_rate_policy, session_operations_rate_policy,
  RequestPacer, request_pacer, Reading, delay, wait, GatewayRequestPacing, pacer_of, policy_name_eq,
  classify_public_rate_policy,
}
use budget_analyzer_api_test.Client.Paces.{
  wait_all, sleeps_enough, longest_delay, wait_rate, wait_delay, Call, gateway_wait_all,
  readings_under, gateway-pacer_of,
}
use budget_analyzer_api_test.Client.Policies.{classify_public_rate_policy_lem}
use budget_analyzer_api_test.Identity.{
  AuthenticatedIdentity, require_normal_identity, require_admin_identity,
  ensure_distinct_identities,
}
use budget_analyzer_api_test.Identity.Requirements.{
  has_role, is_admin, subjects_of, identity_requirements, ensure_distinct_identities_iff,
}

abbrev api_pacer : RequestPacer
api_pacer = record { minimum_interval = 125; next_request_at = none }

pacer_runs :
    (request_pacer 80 ≡ ok api_pacer)
    × (request_pacer 8 ≡ ok (record { minimum_interval = 1250; next_request_at = none }))
unfolding request_pacer nat_eq
pacer_runs = (refl, refl)

abbrev first : Reading
first = record { now = 1000; released = 1000 }

-- The second request sleeps 100 ms.
abbrev second : Reading
second = record { now = 1025; released = 1125 }

delay_runs : delay (wait api_pacer first) 1025 ≡ 100
unfolding delay wait
delay_runs = refl

sleeps : sleeps_enough api_pacer (first ∷ second ∷ []) ≡ true
unfolding delay wait
sleeps = refl

wait_rate_example : 1000 + 1 * 125 ≤ 1125
wait_rate_example = wait_rate api_pacer first (second ∷ []) sleeps

wait_delay_example : longest_delay api_pacer (first ∷ second ∷ []) ≤ 125
wait_delay_example = wait_delay api_pacer first (second ∷ []) refl refl

abbrev pacing : GatewayRequestPacing
pacing = record {
  login_initiation_pacer = record { minimum_interval = 1250; next_request_at = none };
  login_completion_pacer = record { minimum_interval = 625; next_request_at = none };
  session_operations_pacer = record { minimum_interval = 250; next_request_at = none };
  api_requests_pacer = api_pacer;
}

-- The path of a target without a query.
abbrev same_path : String → String
same_path target = target

classify_runs :
    (classify_public_rate_policy same_path "/api/v1/views" ≡ some api_rate_policy)
    × (classify_public_rate_policy same_path "/logout" ≡ some session_operations_rate_policy)
    × (classify_public_rate_policy same_path "/apis" ≡ none)
unfolding classify_public_rate_policy string_eq nat_eq
classify_runs = (refl, refl, refl)

classify_public_rate_policy_lem_example :
    (matches api_rate_policy "/api/v1/views" ≡ true)
    × (all (λ q. implies (matches q "/api/v1/views") (q.name == api_requests)) public_rate_policies
        ≡ true)
classify_public_rate_policy_lem_example =
    classify_public_rate_policy_lem same_path "/api/v1/views" api_rate_policy classify_runs.0

abbrev calls : List Call
calls = ("/api/v1/views", first) ∷ ("/logout", first) ∷ ("/api/v1/users", second) ∷ []

gateway-pacer_of_example :
    pacer_of (gateway_wait_all same_path pacing calls) api_requests
    ≡ wait_all api_pacer (readings_under same_path api_requests calls)
gateway-pacer_of_example = gateway-pacer_of same_path pacing api_requests calls

gateway_run : readings_under same_path api_requests calls ≡ first ∷ second ∷ []
unfolding classify_public_rate_policy string_eq nat_eq policy_name_eq
gateway_run = refl

abbrev user : AuthenticatedIdentity
user = record {
  subject = "auth0|user";
  roles = "USER" ∷ [];
  permissions = "views:read" ∷ [];
  display_name = none;
  email = none;
}

abbrev admin : AuthenticatedIdentity
admin = record {
  subject = "auth0|admin";
  roles = "USER" ∷ "ADMIN" ∷ [];
  permissions =
      "users:read" ∷ "users:write" ∷ "transactions:read:any" ∷ "statementformats:read:any"
      ∷ "statementformats:write:any" ∷ [];
  display_name = none;
  email = none;
}

identity_runs :
    (require_normal_identity user ≡ ok tt)
    × (require_admin_identity admin ≡ ok tt)
    × (ensure_distinct_identities (("primary", user) ∷ ("admin", admin) ∷ []) ≡ ok tt)
unfolding require_normal_identity require_admin_identity ensure_distinct_identities string_eq
identity_runs = (refl, refl, refl)

identity_requirements_example :
    ((require_normal_identity admin ≡ ok tt)
      ↔ ((has_role admin "USER" && not (has_role admin "ADMIN")) ≡ true))
    × ((require_admin_identity admin ≡ ok tt) ↔ (is_admin admin ≡ true))
    × ¬ ((require_normal_identity admin ≡ ok tt) × (require_admin_identity admin ≡ ok tt))
identity_requirements_example = identity_requirements admin

ensure_distinct_identities_iff_example :
    (ensure_distinct_identities (("primary", user) ∷ ("admin", admin) ∷ []) ≡ ok tt)
    ↔ (nodup (subjects_of (("primary", user) ∷ ("admin", admin) ∷ [])) ≡ true)
ensure_distinct_identities_iff_example =
    ensure_distinct_identities_iff (("primary", user) ∷ ("admin", admin) ∷ [])
