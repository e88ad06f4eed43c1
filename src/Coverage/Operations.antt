-- ===== src/Coverage/Operations.antt =====
-- `build_operation_coverage` and the validation that comes before it.
pub mod Inventory
pub mod Rows
use budget_analyzer_api_test.Base.{
  ℕ, String, Bool, true, false, List, [], ◌∷◌, map, null, not, none, some, Option, ◌&&◌, ◌||◌, ◌==◌,
  string_eq, contains, keep, if◌then◌else◌, nat_eq,
}
use budget_analyzer_api_test.Base.Dict.{Dict, keys, lookup, get_or, insert}
use budget_analyzer_api_test.Base.Result.{Result, ok, err, ◌>>=◌, ◌>>◌, raise_if}
use budget_analyzer_api_test.Base.Sort.{sorted}
use budget_analyzer_api_test.OpenApi.{
  OpenApiOperation, unified, method_eq, contract_eq, row_le, HttpMethod,
}
use budget_analyzer_api_test.Coverage.Types.{
  CoverageSource, CoverageStatus, covered, placeholder, missing, deferred, DeferredAdminOperation,
  MarkerCounts, no_markers, OperationKey, key_eq, key_le, OperationCoverage, status_eq,
}

-- The `ValueError`s, with what their messages name.
pub data InventoryError : Type 0 where
  duplicate_operation : OpenApiOperation → OpenApiOperation → InventoryError
  unrecognized_markers : List OperationKey → InventoryError
  duplicate_deferred : String → InventoryError
  absent_deferred : DeferredAdminOperation → InventoryError
  stale_deferred : DeferredAdminOperation → OpenApiOperation → InventoryError

unfoldable pub key_of : OpenApiOperation → OperationKey
key_of operation = record { contract = operation.contract; operation_id = operation.operation_id }

-- The first loop of `_validate_inventory`: the operations by key.
unfoldable pub index_operations :
    List OpenApiOperation
    → Dict OperationKey OpenApiOperation
    → Result InventoryError (Dict OperationKey OpenApiOperation)
index_operations [] by_key = ok by_key
index_operations (operation ∷ operations) by_key = elim (lookup (key_of operation) by_key) [
  | some previous ↦ err (duplicate_operation previous operation)
  | none ↦ index_operations operations (insert (key_of operation) operation by_key)
]

-- The keys of `marker_counts` that are no operation's.
abbrev pub unrecognized :
    Dict OperationKey MarkerCounts → Dict OperationKey OpenApiOperation → List OperationKey
unrecognized marker_counts by_key =
    sorted key_le (keep (λ k. not (contains (keys by_key) k)) (keys marker_counts))

abbrev pub deferred_key : DeferredAdminOperation → OperationKey
deferred_key d = record { contract = unified; operation_id = d.operation_id }

-- The loop over the deferred operations, with the set of the ids seen.
unfoldable pub check_deferred :
    List DeferredAdminOperation
    → List String
    → Dict OperationKey OpenApiOperation
    → Result InventoryError (Unit {0})
check_deferred [] seen by_key = ok tt
check_deferred (d ∷ ds) seen by_key = do
  raise_if (contains seen d.operation_id) (duplicate_deferred d.operation_id)
  elim (lookup (deferred_key d) by_key) [
    | none ↦ err (absent_deferred d)
    | some matching ↦
        if matching.method == d.method && matching.path == d.path
        then check_deferred ds (d.operation_id ∷ seen) by_key
        else err (stale_deferred d matching)
  ]

unfoldable pub validate_inventory :
    List OpenApiOperation
    → List DeferredAdminOperation
    → Dict OperationKey MarkerCounts
    → Result InventoryError (Unit {0})
unfolding index_operations check_deferred sorted
validate_inventory operations deferred_admin marker_counts = do
  by_key ← index_operations operations []
  let unknown = unrecognized marker_counts by_key
  raise_if (not (null unknown)) (unrecognized_markers unknown)
  check_deferred deferred_admin [] by_key

-- `_coverage_status`
unfoldable pub coverage_status : Bool → MarkerCounts → CoverageStatus
coverage_status deferred_admin counts =
    if deferred_admin
    then deferred
    else if counts.marker_count == 0
    then missing
    else if counts.placeholder_marker_count == counts.marker_count
    then placeholder
    else covered

abbrev pub ids_of : List DeferredAdminOperation → List String
ids_of ds = map (λ d. d.operation_id) ds

-- The row of one operation.
unfoldable pub coverage_row :
    List DeferredAdminOperation
    → Dict OperationKey MarkerCounts
    → CoverageSource
    → OpenApiOperation
    → OperationCoverage
unfolding coverage_status
coverage_row deferred_list marker_counts source operation =
    let counts = get_or marker_counts (key_of operation) no_markers in
    let deferred_admin =
      operation.contract == unified && contains (ids_of deferred_list) operation.operation_id in
    record {
      contract = operation.contract;
      operation_id = operation.operation_id;
      method = operation.method;
      path = operation.path;
      source = source;
      deferred_admin = deferred_admin;
      marker_count = counts.marker_count;
      placeholder_marker_count = counts.placeholder_marker_count;
      status = coverage_status deferred_admin counts;
    }

abbrev pub operation_le : OpenApiOperation → OpenApiOperation → Bool
operation_le a b = row_le (a.path, a.method, a.operation_id) (b.path, b.method, b.operation_id)

unfoldable pub build_operation_coverage :
    List OpenApiOperation
    → List DeferredAdminOperation
    → Dict OperationKey MarkerCounts
    → CoverageSource
    → Result InventoryError (List OperationCoverage)
unfolding validate_inventory coverage_row sorted
build_operation_coverage operations deferred_admin marker_counts source = do
  validate_inventory operations deferred_admin marker_counts
  ok (map (coverage_row deferred_admin marker_counts source) (sorted operation_le operations))

-- `missing_operation_ids` and `placeholder_operation_ids`
abbrev pub ids_with : CoverageStatus → List OperationCoverage → List String
ids_with status rows = map (λ row. row.operation_id) (keep (λ row. row.status == status) rows)

unfoldable pub missing_operation_ids : List OperationCoverage → List String
missing_operation_ids coverage = ids_with missing coverage

unfoldable pub placeholder_operation_ids : List OperationCoverage → List String
placeholder_operation_ids coverage = ids_with placeholder coverage
