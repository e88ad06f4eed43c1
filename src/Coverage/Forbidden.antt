-- ===== src/Coverage/Forbidden.antt =====
-- `build_forbidden_response_coverage`: every documented 403 response is either exercised by a test
-- or deferred with a reason.
pub mod Accounted
pub mod Report
pub mod Rows
use budget_analyzer_api_test.Base.{
  ℕ, zero, suc, ◌+◌, ◌-◌, ◌≤◌, ◌<◌, ◌≡◌, refl, sym, ◌∙◌, ap, ◌≢◌, ◌↔◌, ◌⊎◌, Bool, true, false, ◌&&◌,
  ◌||◌, not, List, [], ◌∷◌, ◌++◌, map, arith, Eq, ◌==◌, contains, keep, if◌then◌else◌, Option, none,
  some, inl, inr, Bool-cases, Option-cases, String, ◌<>◌, contains-append, contains-keep,
  all-contains, all-ext, any-ext, null-keep-not, null-keep, all-map, any-map, null-map,
  contains-map-keep, all-and, ltb, leb, all, any, null, nodup, length, All, string_eq, nat_eq,
  ==_self, eq_of_==, null-append, length-append, bool_eq, option_eq,
}
use budget_analyzer_api_test.Base.Dict.{
  Dict, keys, lookup, get_or, insert, lookup-insert, contains-keys-insert, lookup-eq-none_iff,
  lookup-tabulate, keys-tabulate,
}
use budget_analyzer_api_test.Base.Sort.{
  sorted, contains-sorted, mem-sorted, sorted-All, sorted_perm, length-sorted, null-sorted,
  all-sorted, any-sorted,
}
use budget_analyzer_api_test.Base.Result.{
  Result, ok, err, ◌>>=◌, ◌>>◌, raise_if, >>=-eq-ok, raise_if-eq-ok,
}
use budget_analyzer_api_test.Base.Text.{text_le}
use budget_analyzer_api_test.OpenApi.{OpenApiOperation, HttpMethod, method_eq}
use budget_analyzer_api_test.Coverage.Types.{MarkerCounts, no_markers}
use budget_analyzer_api_test.Coverage.Operations.{operation_le}

-- `ForbiddenResponseDeferralReason`
pub data DeferralReason : Type 0 where
  no_restricted_normal_user_scenario : DeferralReason
  admin_identity_and_safety_plan_required : DeferralReason
  global_mutation_not_authorized : DeferralReason

pub record ForbiddenResponseDeferral : Type 0 where
  pub operation_id : String
  pub method : HttpMethod
  pub path : String
  pub reason : DeferralReason

pub data ForbiddenStatus : Type 0 where
  covered deferred : ForbiddenStatus

pub record ForbiddenResponseCoverage : Type 0 where
  pub operation_id : String
  pub method : HttpMethod
  pub path : String
  pub status : ForbiddenStatus
  pub marker_count : ℕ
  pub placeholder_marker_count : ℕ
  pub deferral_reason : Option DeferralReason

forbidden_status_dec : Discrete ForbiddenStatus
forbidden_status_dec = hlevel

instance unfoldable pub forbidden_status_eq : Eq ForbiddenStatus
unfolding forbidden_status_dec
forbidden_status_eq = record { dec = forbidden_status_dec }

-- The `ValueError`s, with what their messages name.
pub data ForbiddenError : Type 0 where
  duplicate_operations : ForbiddenError
  unrecognized_markers : List String → ForbiddenError
  placeholder_only : List String → ForbiddenError
  duplicate_deferral : String → ForbiddenError
  absent_deferral : ForbiddenResponseDeferral → ForbiddenError
  stale_deferral : ForbiddenResponseDeferral → OpenApiOperation → ForbiddenError
  overlapping : List String → ForbiddenError
  unaccounted : List String → ForbiddenError

-- `{operation.operation_id: operation for operation in operations}`
unfoldable pub index_by_id :
    List OpenApiOperation → Dict String OpenApiOperation → Dict String OpenApiOperation
index_by_id [] by_id = by_id
index_by_id (o ∷ os) by_id = index_by_id os (insert o.operation_id o by_id)

-- The ids whose counts pass a test.
abbrev pub ids_where : (MarkerCounts → Bool) → Dict String MarkerCounts → List String
ids_where p [] = []
ids_where p ((i, counts) ∷ d) = let rest = ids_where p d in if p counts then i ∷ rest else rest

abbrev pub only_placeholders : MarkerCounts → Bool
only_placeholders c = ltb 0 c.marker_count && c.marker_count == c.placeholder_marker_count

abbrev pub is_executable : MarkerCounts → Bool
is_executable c = ltb c.placeholder_marker_count c.marker_count

-- The loop that fills `deferrals_by_id`.
unfoldable pub index_deferrals :
    Dict String OpenApiOperation
    → List ForbiddenResponseDeferral
    → Dict String ForbiddenResponseDeferral
    → Result ForbiddenError (Dict String ForbiddenResponseDeferral)
index_deferrals by_id [] deferrals = ok deferrals
index_deferrals by_id (d ∷ ds) deferrals = do
  raise_if (contains (keys deferrals) d.operation_id) (duplicate_deferral d.operation_id)
  elim (lookup d.operation_id by_id) [
    | none ↦ err (absent_deferral d)
    | some operation ↦
        if operation.method == d.method && operation.path == d.path
        then index_deferrals by_id ds (insert d.operation_id d deferrals)
        else err (stale_deferral d operation)
  ]

abbrev pub status_of : Option ForbiddenResponseDeferral → ForbiddenStatus
status_of none = covered
status_of (some d) = deferred

abbrev pub reason_of : Option ForbiddenResponseDeferral → Option DeferralReason
reason_of none = none
reason_of (some d) = some d.reason

unfoldable pub forbidden_row :
    Dict String MarkerCounts
    → Dict String ForbiddenResponseDeferral
    → OpenApiOperation
    → ForbiddenResponseCoverage
forbidden_row marker_counts deferrals o =
    let counts = get_or marker_counts o.operation_id no_markers in
    let row_deferral = lookup o.operation_id deferrals in
    record {
      operation_id = o.operation_id;
      method = o.method;
      path = o.path;
      status = status_of row_deferral;
      marker_count = counts.marker_count;
      placeholder_marker_count = counts.placeholder_marker_count;
      deferral_reason = reason_of row_deferral;
    }

-- The checks on the markers, before the deferrals are read.
unfoldable pub check_markers :
    List OpenApiOperation → Dict String MarkerCounts → Result ForbiddenError (Unit {0})
check_markers operations marker_counts = do
  let by_id = index_by_id operations []
  raise_if (not (length by_id == length operations)) duplicate_operations
  let unknown = sorted text_le (keep (λ i. not (contains (keys by_id) i)) (keys marker_counts))
  raise_if (not (null unknown)) (unrecognized_markers unknown)
  let idle = sorted text_le (ids_where only_placeholders marker_counts)
  raise_if (not (null idle)) (placeholder_only idle)

-- The checks that every documented response is accounted for once.
unfoldable pub check_accounted :
    Dict String OpenApiOperation → List String → List String → Result ForbiddenError (Unit {0})
check_accounted by_id executable_ids deferred_ids = do
  let overlap = sorted text_le (keep (contains deferred_ids) executable_ids)
  raise_if (not (null overlap)) (overlapping overlap)
  let missing =
      sorted text_le
        (keep (λ i. not (contains executable_ids i) && not (contains deferred_ids i)) (keys by_id))
  raise_if (not (null missing)) (unaccounted missing)

unfoldable pub build_forbidden_response_coverage :
    List OpenApiOperation
    → List ForbiddenResponseDeferral
    → Dict String MarkerCounts
    → Result ForbiddenError (List ForbiddenResponseCoverage)
unfolding index_by_id index_deferrals forbidden_row check_markers check_accounted sorted
build_forbidden_response_coverage operations deferral_list marker_counts = do
  check_markers operations marker_counts
  let by_id = index_by_id operations []
  deferrals ← index_deferrals by_id deferral_list []
  check_accounted by_id (ids_where is_executable marker_counts) (keys deferrals)
  ok (map (forbidden_row marker_counts deferrals) (sorted operation_le operations))
