-- ===== src/OpenApi/Requests.antt =====
-- src/api_tests/openapi.py: the operations that document a response, and the markers of a request.
pub mod Documented
use budget_analyzer_api_test.Base.{
  ℕ, zero, suc, ◌+◌, ◌-◌, ◌≤◌, ◌<◌, ◌≡◌, refl, sym, ◌∙◌, ap, ◌≢◌, ◌↔◌, ◌⊎◌, Bool, true, false, ◌&&◌,
  ◌||◌, not, List, [], ◌∷◌, ◌++◌, map, arith, Eq, ◌==◌, contains, keep, if◌then◌else◌, Option, none,
  some, inl, inr, Bool-cases, Option-cases, String, ◌<>◌, contains-append, contains-keep,
  all-contains, all-ext, any-ext, null-keep-not, null-keep, all-map, any-map, null-map,
  contains-map-keep, all-and, All-map, All-of_contains, all_mono, all_of_contains, ltb, leb, all,
  any, null, nodup, length, All, string_eq, nat_eq, ==_self, eq_of_==, ne_of_==, implies,
  null-append, length-append, bool_eq, option_eq, are_fresh, are_fresh-cons, are_fresh-append,
  nodup-append, are_fresh_union,
}
use budget_analyzer_api_test.Base.Dict.{
  Dict, keys, lookup, get_or, insert, lookup-insert, contains-keys-insert, lookup-eq-none_iff,
  lookup-tabulate, keys-tabulate, length-insert, are_new, are_new-insert,
}
use budget_analyzer_api_test.Base.Sort.{
  sorted, contains-sorted, mem-sorted, sorted-All, sorted_perm, length-sorted, null-sorted,
  all-sorted, any-sorted,
}
use budget_analyzer_api_test.Base.Result.{
  Result, ok, err, ◌>>=◌, ◌>>◌, raise_if, >>=-eq-ok, raise_if-eq-ok, raise_if-then, ok-injective,
}
use budget_analyzer_api_test.OpenApi.{
  OpenApiContractKey, HttpMethod, get, delete, method_eq, OpenApiOperation, row_le,
}
use budget_analyzer_api_test.OpenApi.Document.{
  Json, Members, field, member_names, as_object, OpenApiOperationEntry, DocumentError,
  validated_operation_entries,
}

-- `_documents_response`
abbrev pub documents_response : Members → String → Bool
documents_response operation status_key = elim (as_object (field operation "responses")) [
  | none ↦ false
  | some responses ↦ contains (member_names responses) status_key
]

-- `_operation_sort_key`, compared
abbrev pub sorts_before : OpenApiOperation → OpenApiOperation → Bool
sorts_before a b = row_le (a.path, a.method, a.operation_id) (b.path, b.method, b.operation_id)

-- The comprehension over the entries.
abbrev pub documenting : String → List OpenApiOperationEntry → List OpenApiOperation
documenting status_key es =
    map (λ e. e.operation) (keep (λ e. documents_response e.raw_operation status_key) es)

-- The status is given as text.
unfoldable pub operations_documenting_response :
    OpenApiContractKey → Members → String → Result DocumentError (List OpenApiOperation)
unfolding validated_operation_entries sorted
operations_documenting_response contract openapi_doc status_key = do
  entries ← validated_operation_entries contract openapi_doc
  ok (sorted sorts_before (documenting status_key entries))

-- `OpenApiRequestCase`
pub record OpenApiRequestCase : Type 0 where
  pub operation_id : String
  pub method : HttpMethod
  pub path : String
  pub contract : OpenApiContractKey

pub data RequestSafetyMarker : Type 0 where
  readonly production_safe mutation destructive : RequestSafetyMarker

safety_marker_dec : Discrete RequestSafetyMarker
safety_marker_dec = hlevel

instance unfoldable pub safety_marker_eq : Eq RequestSafetyMarker
unfolding safety_marker_dec
safety_marker_eq = record { dec = safety_marker_dec }

-- `_DESTRUCTIVE_UNAUTHENTICATED_OPERATION_IDS`
abbrev pub destructive_operation_ids : List String
destructive_operation_ids =
    "batchImportTransactions" ∷ "bulkDeleteTransactions" ∷ "deactivateUser" ∷ "deleteTransaction"
    ∷ "deleteView" ∷ "hideFormat" ∷ "importLatestExchangeRates" ∷ "updateViewTransactions" ∷ []

unfoldable pub unauthenticated_request_safety_markers :
    OpenApiRequestCase → List RequestSafetyMarker
unauthenticated_request_safety_markers c =
    if c.method == get
    then readonly ∷ production_safe ∷ []
    else if c.method == delete || contains destructive_operation_ids c.operation_id
    then mutation ∷ destructive ∷ []
    else mutation ∷ []
