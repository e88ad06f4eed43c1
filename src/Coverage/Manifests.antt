-- ===== src/Coverage/Manifests.antt =====
-- The manifests of deferred operations and deferred 403 responses: coverage.py
-- `load_deferred_admin_operations` and openapi.py `load_forbidden_response_deferrals`, on the parsed
-- YAML. A method or reason that is not text is refused as unsupported.
pub mod Entries
pub mod Loaded
use budget_analyzer_api_test.Base.{
  ℕ, zero, suc, ◌+◌, ◌-◌, ◌≤◌, ◌<◌, ◌≡◌, refl, sym, ◌∙◌, ap, ◌≢◌, ◌↔◌, ◌⊎◌, Bool, true, false, ◌&&◌,
  ◌||◌, not, List, [], ◌∷◌, ◌++◌, map, arith, Eq, ◌==◌, contains, keep, if◌then◌else◌, Option, none,
  some, inl, inr, Bool-cases, Option-cases, String, ◌<>◌, contains-append, contains-keep,
  all-contains, all-ext, any-ext, null-keep-not, null-keep, all-map, any-map, null-map,
  contains-map-keep, all-and, All-map, All-of_contains, all_mono, all_of_contains, ltb, leb, all,
  any, null, nodup, length, All, string_eq, nat_eq, ==_self, eq_of_==, ne_of_==, implies,
  null-append, length-append, bool_eq, option_eq, are_fresh, are_fresh-cons, are_fresh-append,
  nodup-append, are_fresh_union,
}
use budget_analyzer_api_test.Base.Dict.{
  Dict, keys, lookup, get_or, insert, lookup-insert, contains-keys-insert, lookup-eq-none_iff,
  lookup-tabulate, keys-tabulate, length-insert, are_new, are_new-insert,
}
use budget_analyzer_api_test.Base.Sort.{
  sorted, contains-sorted, mem-sorted, sorted-All, sorted_perm, length-sorted, null-sorted,
  all-sorted, any-sorted,
}
use budget_analyzer_api_test.Base.Result.{
  Result, ok, err, ◌>>=◌, ◌>>◌, raise_if, >>=-eq-ok, raise_if-eq-ok, raise_if-then, ok-injective,
}
use budget_analyzer_api_test.Coverage.Types.{DeferredAdminOperation}
use budget_analyzer_api_test.Coverage.Forbidden.{
  ForbiddenResponseDeferral, DeferralReason, no_restricted_normal_user_scenario,
  admin_identity_and_safety_plan_required, global_mutation_not_authorized,
}
use budget_analyzer_api_test.OpenApi.{HttpMethod}
use budget_analyzer_api_test.OpenApi.Document.{
  Json, Members, Items, text, array, object, no_items, item, field, as_object,
}
use budget_analyzer_api_test.SessionGateway.{method_of}
use budget_analyzer_api_test.SessionGateway.Load.{non_empty_text, named, rooted_text, as_list}

pub data ManifestError : Type 0 where
  not_a_mapping no_list entry_not_mapping missing_operation_id : ManifestError
  unsupported_method invalid_path unsupported_reason : ManifestError

abbrev pub require : {A : Type 0} → ManifestError → Option A → Result ManifestError A
require e none = err e
require e (some a) = ok a

-- `FORBIDDEN_RESPONSE_DEFERRAL_REASONS`
abbrev pub reason_of : String → Option DeferralReason
reason_of s =
    if s == "no_restricted_normal_user_scenario"
    then some no_restricted_normal_user_scenario
    else if s == "admin_identity_and_safety_plan_required"
    then some admin_identity_and_safety_plan_required
    else if s == "global_mutation_not_authorized"
    then some global_mutation_not_authorized
    else none

-- The fields that the entries of both manifests have.
unfoldable pub read_operation_fields : Members → Result ManifestError (String × HttpMethod × String)
read_operation_fields raw = do
  operation_id ← require missing_operation_id (non_empty_text (field raw "operationId"))
  method ← require unsupported_method (named method_of (field raw "method"))
  path ← require invalid_path (rooted_text (field raw "path"))
  ok (operation_id, method, path)

unfoldable pub load_deferred : Json → Result ManifestError DeferredAdminOperation
unfolding read_operation_fields
load_deferred value = do
  raw ← require entry_not_mapping (as_object value)
  fields ← read_operation_fields raw
  ok (record { operation_id = fields.0; method = fields.1; path = fields.2 })

unfoldable pub load_deferral : Json → Result ManifestError ForbiddenResponseDeferral
unfolding read_operation_fields
load_deferral value = do
  raw ← require entry_not_mapping (as_object value)
  fields ← read_operation_fields raw
  reason ← require unsupported_reason (named reason_of (field raw "reason"))
  ok (record { operation_id = fields.0; method = fields.1; path = fields.2; reason = reason })

module _ {A : Type 0} (load : Json → Result ManifestError A) where
  unfoldable pub load_each : Items → Result ManifestError (List A)
  load_each no_items = ok []
  load_each (item value rest) = do first ← load value; others ← load_each rest; ok (first ∷ others)

  unfoldable pub load_manifest : String → Json → Result ManifestError (List A)
  unfolding load_each
  load_manifest list_name manifest = do
    raw ← require not_a_mapping (as_object manifest)
    items ← require no_list (as_list (field raw list_name))
    load_each items

unfoldable pub load_deferred_admin_operations :
    Json → Result ManifestError (List DeferredAdminOperation)
unfolding load_manifest load_deferred
load_deferred_admin_operations manifest =
    load_manifest load_deferred "deferred_admin_operations" manifest

unfoldable pub load_forbidden_response_deferrals :
    Json → Result ManifestError (List ForbiddenResponseDeferral)
unfolding load_manifest load_deferral
load_forbidden_response_deferrals manifest =
    load_manifest load_deferral "deferred_forbidden_responses" manifest
