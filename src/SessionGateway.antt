-- ===== src/SessionGateway.antt =====
-- src/api_tests/session_gateway_inventory.py: the inventory of Session Gateway routes and cases.
pub mod Load
pub mod Validate
pub mod Report
use budget_analyzer_api_test.Base.{
  ℕ, zero, suc, ◌+◌, ◌-◌, ◌≤◌, ◌<◌, ◌≡◌, refl, sym, ◌∙◌, ap, ◌≢◌, ◌↔◌, ◌⊎◌, Bool, true, false, ◌&&◌,
  ◌||◌, not, List, [], ◌∷◌, ◌++◌, map, arith, Eq, ◌==◌, contains, keep, if◌then◌else◌, Option, none,
  some, inl, inr, Bool-cases, Option-cases, String, ◌<>◌, contains-append, contains-keep,
  all-contains, all-ext, any-ext, null-keep-not, null-keep, all-map, any-map, null-map,
  contains-map-keep, all-and, All-map, All-of_contains, all_mono, all_of_contains, ltb, leb, all,
  any, null, nodup, length, All, string_eq, nat_eq, ==_self, eq_of_==, ne_of_==, implies,
  null-append, length-append, bool_eq, option_eq,
}
use budget_analyzer_api_test.Base.Dict.{
  Dict, keys, lookup, get_or, insert, lookup-insert, contains-keys-insert, lookup-eq-none_iff,
  lookup-tabulate, keys-tabulate, length-insert, are_new, are_new-insert,
}
use budget_analyzer_api_test.Base.Sort.{
  sorted, contains-sorted, mem-sorted, sorted-All, sorted_perm, length-sorted, null-sorted,
  all-sorted, any-sorted,
}
use budget_analyzer_api_test.Base.Result.{
  Result, ok, err, ◌>>=◌, ◌>>◌, raise_if, >>=-eq-ok, raise_if-eq-ok, raise_if-then, ok-injective,
}
use budget_analyzer_api_test.OpenApi.{HttpMethod, get, post, put, patch, delete}

pub data RouteOwner : Type 0 where
  controller spring_security actuator springdoc : RouteOwner

pub data RouteExposure : Type 0 where
  public mesh_internal deployment_operational development_only : RouteExposure

pub data InventoryStatus : Type 0 where
  covered deferred untestable : InventoryStatus

exposure_dec : Discrete RouteExposure
exposure_dec = hlevel

instance unfoldable pub exposure_eq : Eq RouteExposure
unfolding exposure_dec
exposure_eq = record { dec = exposure_dec }

inventory_status_dec : Discrete InventoryStatus
inventory_status_dec = hlevel

instance unfoldable pub inventory_status_eq : Eq InventoryStatus
unfolding inventory_status_dec
inventory_status_eq = record { dec = inventory_status_dec }

pub record SessionGatewayIndirectProof : Type 0 where
  pub scenario : String
  pub prerequisite : String
  pub limitation : String

pub record SessionGatewayCase : Type 0 where
  pub case_id : String
  pub behavior : String
  pub status : InventoryStatus
  pub reason : Option String
  pub prerequisite : Option String
  pub boundary : Option String
  pub optional_indirect_proof : Option SessionGatewayIndirectProof

pub record SessionGatewayRoute : Type 0 where
  pub method : HttpMethod
  pub path : String
  pub owner : RouteOwner
  pub exposure : RouteExposure
  pub openapi_operation_id : Option String
  pub cases : List SessionGatewayCase

-- The names that the inventory file uses.
abbrev pub owner_of : String → Option RouteOwner
owner_of s =
    if s == "controller"
    then some controller
    else if s == "spring_security"
    then some spring_security
    else if s == "actuator"
    then some actuator
    else if s == "springdoc"
    then some springdoc
    else none

abbrev pub exposure_of : String → Option RouteExposure
exposure_of s =
    if s == "public"
    then some public
    else if s == "mesh_internal"
    then some mesh_internal
    else if s == "deployment_operational"
    then some deployment_operational
    else if s == "development_only"
    then some development_only
    else none

abbrev pub status_of : String → Option InventoryStatus
status_of s =
    if s == "covered"
    then some covered
    else if s == "deferred"
    then some deferred
    else if s == "untestable"
    then some untestable
    else none

abbrev pub method_of : String → Option HttpMethod
method_of s =
    if s == "GET"
    then some get
    else if s == "POST"
    then some post
    else if s == "PUT"
    then some put
    else if s == "PATCH"
    then some patch
    else if s == "DELETE"
    then some delete
    else none
