-- ===== src/Coverage/Operations/Rows.antt =====
-- What the coverage rows say of the operations and of the markers on the tests.
use budget_analyzer_api_test.Base.{
  ◌≡◌, refl, sym, ◌∙◌, ap, Bool, true, false, ◌&&◌, ◌||◌, not, List, [], ◌∷◌, map, arith, ◌==◌,
  contains, keep, if◌then◌else◌, String, all-ext, any-ext, null-keep, all-map, any-map, null-map,
  contains-map-keep, all-and, ltb, all, any, null, string_eq, nat_eq, bool_eq, option_eq,
}
use budget_analyzer_api_test.Base.Sort.{sorted, all-sorted, any-sorted}
use budget_analyzer_api_test.Base.Result.{ok, >>=-eq-ok}
use mathlib.Core.Path.{ap₂}
use budget_analyzer_api_test.OpenApi.{OpenApiOperation, unified, method_eq, contract_eq}
use budget_analyzer_api_test.Coverage.Types.{
  CoverageSource, CoverageStatus, covered, placeholder, missing, deferred, DeferredAdminOperation,
  OperationKey, key_eq, OperationCoverage, status_eq,
}
use budget_analyzer_api_test.Coverage.Markers.{Marker, entry_of, build_marker_counts}
use budget_analyzer_api_test.Coverage.Markers.Counts.{
  tally, placeholder_tally, placeholder_tally-le-tally, build_marker_counts-tally,
}
use budget_analyzer_api_test.Coverage.Operations.{
  key_of, validate_inventory, coverage_row, ids_of, operation_le, ids_with,
  build_operation_coverage, missing_operation_ids, placeholder_operation_ids,
}

-- A test that is no placeholder carries the operation's marker.
abbrev pub has_real_test : OperationKey → List (OperationKey × Bool) → Bool
has_real_test k ms = any (λ m. k == m.0 && not m.1) ms

abbrev pub has_test : OperationKey → List (OperationKey × Bool) → Bool
has_test k ms = any (λ m. k == m.0) ms

has_test-tally :
    (k : OperationKey) (ms : List (OperationKey × Bool)) → has_test k ms ≡ ltb 0 (tally k ms)
has_test-tally k [] = ground arith
has_test-tally k ((j, p) ∷ ms) = ground (arith, has_test-tally k ms)

has_real_test-tally :
    (k : OperationKey) (ms : List (OperationKey × Bool))
    → has_real_test k ms ≡ ltb (placeholder_tally k ms) (tally k ms)
has_real_test-tally k [] = ground arith
has_real_test-tally k ((j, true) ∷ ms) = ground (arith, has_real_test-tally k ms)
has_real_test-tally k ((j, false) ∷ ms) =
    ground (arith, has_real_test-tally k ms, placeholder_tally-le-tally k ms)

-- The status that the markers give an operation.
abbrev pub status_from : Bool → Bool → Bool → CoverageStatus
status_from is_deferred tested really_tested =
    if is_deferred
    then deferred
    else if really_tested
    then covered
    else if tested
    then placeholder
    else missing

abbrev pub is_deferred : List DeferredAdminOperation → OpenApiOperation → Bool
is_deferred ds o = o.contract == unified && contains (ids_of ds) o.operation_id

module _ (ds : List DeferredAdminOperation) (markers : List Marker) (source : CoverageSource) where
  abbrev entries : List (OperationKey × Bool)
  entries = map entry_of markers

  row-status :
      (o : OpenApiOperation)
      → (coverage_row ds (build_marker_counts markers) source o).status
        ≡ status_from
            (is_deferred ds o)
            (has_test (key_of o) entries)
            (has_real_test (key_of o) entries)
  unfolding coverage_row
  row-status o = ground (
    arith,
    build_marker_counts-tally markers (key_of o),
    has_test-tally (key_of o) entries,
    has_real_test-tally (key_of o) entries,
    placeholder_tally-le-tally (key_of o) entries,
  )

  abbrev row : OpenApiOperation → OperationCoverage
  row = coverage_row ds (build_marker_counts markers) source

  row-missing :
      (o : OpenApiOperation)
      → ((row o).status == missing) ≡ (not (is_deferred ds o) && not (has_test (key_of o) entries))
  unfolding status_eq
  row-missing o = ground (
    arith,
    row-status o,
    has_test-tally (key_of o) entries,
    has_real_test-tally (key_of o) entries,
    placeholder_tally-le-tally (key_of o) entries,
  )

  row-placeholder :
      (o : OpenApiOperation)
      → ((row o).status == placeholder) ≡ (
          not (is_deferred ds o)
          && has_test (key_of o) entries
          && not (has_real_test (key_of o) entries))
  unfolding status_eq
  row-placeholder o = ground (arith, row-status o)

  row-gate :
      (o : OpenApiOperation)
      → (not ((row o).status == missing) && not ((row o).status == placeholder))
        ≡ (is_deferred ds o || has_real_test (key_of o) entries)
  row-gate o = ground (
    arith,
    row-missing o,
    row-placeholder o,
    has_test-tally (key_of o) entries,
    has_real_test-tally (key_of o) entries,
    placeholder_tally-le-tally (key_of o) entries,
  )

  row-id : (o : OpenApiOperation) → (row o).operation_id ≡ o.operation_id
  unfolding coverage_row
  row-id o = refl

module _ (operations : List OpenApiOperation) (ds : List DeferredAdminOperation)
    (markers : List Marker) (source : CoverageSource) (rows : List OperationCoverage)
    (built : build_operation_coverage operations ds (build_marker_counts markers) source
      ≡ ok rows) where
  rows_lem : rows ≡ map (row ds markers source) (sorted operation_le operations)
  unfolding build_operation_coverage
  rows_lem =
      let (_, _, e) =
        >>=-eq-ok (validate_inventory operations ds (build_marker_counts markers)) _ built in
      sym (ground (arith, e))

  any-rows :
      (p : OperationCoverage → Bool)
      → any p rows ≡ any (λ o. p (row ds markers source o)) operations
  any-rows p =
      ap (any p) rows_lem
      ∙ any-map (row ds markers source) p (sorted operation_le operations)
      ∙ any-sorted operation_le (λ o. p (row ds markers source o)) operations

  all-rows :
      (p : OperationCoverage → Bool)
      → all p rows ≡ all (λ o. p (row ds markers source o)) operations
  all-rows p =
      ap (all p) rows_lem
      ∙ all-map (row ds markers source) p (sorted operation_le operations)
      ∙ all-sorted operation_le (λ o. p (row ds markers source o)) operations

  null-ids : (s : CoverageStatus) → null (ids_with s rows) ≡ all (λ r. not (r.status == s)) rows
  null-ids s =
      null-map (λ (r : OperationCoverage). r.operation_id) (keep (λ r. r.status == s) rows)
      ∙ null-keep (λ r. r.status == s) rows

  -- In a report that is built, an id is missing exactly when some operation with that id is neither
  -- deferred nor marked by any test.
  pub contains-missing_operation_ids :
      (i : String)
      → contains (missing_operation_ids rows) i
        ≡ any
            (λ o.
              i == o.operation_id
              && (not (is_deferred ds o) && not (has_test (key_of o) (map entry_of markers))))
            operations
  unfolding missing_operation_ids
  contains-missing_operation_ids i =
      contains-map-keep (λ (r : OperationCoverage). r.operation_id) (λ r. r.status == missing) rows
        i
      ∙ any-rows (λ r. i == r.operation_id && r.status == missing)
      ∙ any-ext
          (λ o.
            i == (row ds markers source o).operation_id
            && (row ds markers source o).status == missing)
          (λ o.
            i == o.operation_id
            && (not (is_deferred ds o) && not (has_test (key_of o) (map entry_of markers))))
          operations (λ o. rw (row-id ds markers source o, row-missing ds markers source o) refl)

  -- In a report that is built, nothing is missing or a placeholder exactly when every operation is
  -- deferred or has the marker of a test that is no placeholder.
  pub coverage_gate :
      (null (missing_operation_ids rows) && null (placeholder_operation_ids rows))
      ≡ all (λ o. is_deferred ds o || has_real_test (key_of o) (map entry_of markers)) operations
  unfolding missing_operation_ids placeholder_operation_ids
  coverage_gate =
      ap₂ ◌&&◌ (null-ids missing) (null-ids placeholder)
      ∙ all-and (λ r. not (r.status == missing)) (λ r. not (r.status == placeholder)) rows
      ∙ all-rows (λ r. not (r.status == missing) && not (r.status == placeholder))
      ∙ all-ext
          (λ o.
            not ((row ds markers source o).status == missing)
            && not ((row ds markers source o).status == placeholder))
          (λ o. is_deferred ds o || has_real_test (key_of o) (map entry_of markers)) operations
          (λ o. row-gate ds markers source o)
