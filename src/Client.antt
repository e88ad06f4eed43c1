-- ===== src/Client.antt =====
-- src/api_tests/client.py: the pacing of public requests. Times are whole milliseconds in place of
-- floating-point seconds, and rates are tenths of a request per second, for which all intervals of the
-- file are exact. A call of `time.monotonic` is a reading that the model is given.
pub mod Paces
pub mod Policies
use budget_analyzer_api_test.Base.{
  ℕ, zero, suc, ◌+◌, ◌-◌, ◌≤◌, ◌<◌, ◌≡◌, refl, sym, ◌∙◌, ap, ◌≢◌, ◌↔◌, ◌⊎◌, Bool, true, false, ◌&&◌,
  ◌||◌, not, List, [], ◌∷◌, ◌++◌, map, arith, Eq, ◌==◌, contains, keep, if◌then◌else◌, Option, none,
  some, inl, inr, Bool-cases, Option-cases, String, ◌<>◌, contains-append, contains-keep,
  all-contains, all-ext, any-ext, null-keep-not, null-keep, all-map, any-map, null-map,
  contains-map-keep, all-and, All-map, All-of_contains, all_mono, all_of_contains, ltb, leb, all,
  any, null, nodup, length, All, string_eq, nat_eq, ==_self, eq_of_==, ne_of_==, implies,
  null-append, length-append, bool_eq, option_eq, are_fresh, are_fresh-cons, are_fresh-append,
  nodup-append, are_fresh_union,
}
use budget_analyzer_api_test.Base.Dict.{
  Dict, keys, lookup, get_or, insert, lookup-insert, contains-keys-insert, lookup-eq-none_iff,
  lookup-tabulate, keys-tabulate, length-insert, are_new, are_new-insert,
}
use budget_analyzer_api_test.Base.Sort.{
  sorted, contains-sorted, mem-sorted, sorted-All, sorted_perm, length-sorted, null-sorted,
  all-sorted, any-sorted,
}
use budget_analyzer_api_test.Base.Result.{
  Result, ok, err, ◌>>=◌, ◌>>◌, raise_if, >>=-eq-ok, raise_if-eq-ok, raise_if-then, ok-injective,
}
use budget_analyzer_api_test.Base.{max}
use Prim.Native.Nat.{◌/◌}
use budget_analyzer_api_test.Base.Prefix.{starts_with}

pub data PublicRatePolicyName : Type 0 where
  login_initiation login_completion session_operations api_requests : PublicRatePolicyName

policy_name_dec : Discrete PublicRatePolicyName
policy_name_dec = hlevel

instance unfoldable pub policy_name_eq : Eq PublicRatePolicyName
unfolding policy_name_dec
policy_name_eq = record { dec = policy_name_dec }

pub record PublicRatePolicy : Type 0 where
  pub name : PublicRatePolicyName
  pub path_families : List String
  pub requests_per_second : ℕ

-- `path == family or path.startswith(f"{family}/")`
abbrev pub in_family : String → String → Bool
in_family path family = path == family || starts_with (family <> "/") path

-- `PublicRatePolicy.matches`, at the path that `urlsplit` finds
abbrev pub matches : PublicRatePolicy → String → Bool
matches policy path = any (in_family path) policy.path_families

abbrev pub login_initiation_rate_policy : PublicRatePolicy
login_initiation_rate_policy = record {
  name = login_initiation;
  path_families = "/oauth2" ∷ [];
  requests_per_second = 8;
}

abbrev pub login_completion_rate_policy : PublicRatePolicy
login_completion_rate_policy = record {
  name = login_completion;
  path_families = "/login/oauth2" ∷ [];
  requests_per_second = 16;
}

abbrev pub session_operations_rate_policy : PublicRatePolicy
session_operations_rate_policy = record {
  name = session_operations;
  path_families = "/auth" ∷ "/logout" ∷ [];
  requests_per_second = 40;
}

abbrev pub api_rate_policy : PublicRatePolicy
api_rate_policy = record {
  name = api_requests;
  path_families = "/api" ∷ [];
  requests_per_second = 80;
}

abbrev pub public_rate_policies : List PublicRatePolicy
public_rate_policies =
    login_initiation_rate_policy ∷ login_completion_rate_policy ∷ session_operations_rate_policy
    ∷ api_rate_policy ∷ []

-- `next((policy for policy in policies if policy.matches(path)), None)`
abbrev pub first_match : List PublicRatePolicy → String → Option PublicRatePolicy
first_match [] path = none
first_match (policy ∷ policies) path =
    if matches policy path then some policy else first_match policies path

pub record RequestPacer : Type 0 where
  pub minimum_interval : ℕ
  pub next_request_at : Option ℕ

pub data PacerError : Type 0 where
  rate_not_positive : PacerError

-- `RequestPacer.__init__`, at a rate that divides the milliseconds of ten seconds
unfoldable pub request_pacer : ℕ → Result PacerError RequestPacer
request_pacer requests_per_second = do
  raise_if (requests_per_second == 0) rate_not_positive
  ok (record { minimum_interval = 10000 / requests_per_second; next_request_at = none })

-- The two readings of the clock in one call of `wait`.
pub record Reading : Type 0 where
  pub now : ℕ
  pub released : ℕ

-- `max(now, self._next_request_at)`, and `now` before the first request
abbrev pub request_at : RequestPacer → ℕ → ℕ
request_at p now = elim p.next_request_at [ none ↦ now | some next ↦ max now next ]

-- What `wait` sleeps. The difference is of a later time from an earlier one.
unfoldable pub delay : RequestPacer → ℕ → ℕ
delay p now = request_at p now - now

-- `RequestPacer.wait`, whose lock lets one call at a time run
unfoldable pub wait : RequestPacer → Reading → RequestPacer
wait p r = record p { next_request_at = some (r.released + p.minimum_interval) }

pub record GatewayRequestPacing : Type 0 where
  pub login_initiation_pacer : RequestPacer
  pub login_completion_pacer : RequestPacer
  pub session_operations_pacer : RequestPacer
  pub api_requests_pacer : RequestPacer

abbrev pub pacer_of : GatewayRequestPacing → PublicRatePolicyName → RequestPacer
pacer_of g login_initiation = g.login_initiation_pacer
pacer_of g login_completion = g.login_completion_pacer
pacer_of g session_operations = g.session_operations_pacer
pacer_of g api_requests = g.api_requests_pacer

abbrev pub with_pacer :
    GatewayRequestPacing → PublicRatePolicyName → RequestPacer → GatewayRequestPacing
with_pacer g login_initiation p = record g { login_initiation_pacer = p }
with_pacer g login_completion p = record g { login_completion_pacer = p }
with_pacer g session_operations p = record g { session_operations_pacer = p }
with_pacer g api_requests p = record g { api_requests_pacer = p }

-- `url_path` is the path that `urllib.parse.urlsplit` finds in a request target.
module _ (url_path : String → String) where
  unfoldable pub classify_public_rate_policy : String → Option PublicRatePolicy
  classify_public_rate_policy request_target =
      first_match public_rate_policies (url_path request_target)

  -- `GatewayRequestPacing.wait`
  unfoldable pub gateway_wait : GatewayRequestPacing → String → Reading → GatewayRequestPacing
  unfolding wait classify_public_rate_policy
  gateway_wait g request_target r = elim (classify_public_rate_policy request_target) [
    | none ↦ g
    | some policy ↦ with_pacer g policy.name (wait (pacer_of g policy.name) r)
  ]
