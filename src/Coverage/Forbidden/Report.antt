-- ===== src/Coverage/Forbidden/Report.antt =====
-- What an accepted forbidden-response report guarantees.
use budget_analyzer_api_test.Base.{
  refl, ◌≡◌, sym, Bool, true, ◌&&◌, ◌||◌, not, List, [], map, arith, ◌==◌, contains, keep, String,
  all-contains, all-ext, null-keep-not, null-keep, All-of_contains, all_mono, all_of_contains, all,
  any, null, nodup, length, All, string_eq, nat_eq, bool_eq, option_eq,
}
use mathlib.Core.Path.{subst⁻¹}
use mathlib.Core.List.{Perm}
use budget_analyzer_api_test.Base.Dict.{Dict, keys, lookup, lookup-eq-none_iff}
use budget_analyzer_api_test.Base.Sort.{sorted, sorted_perm, sorted-All, null-sorted}
use budget_analyzer_api_test.Base.Result.{ok, >>=-eq-ok, raise_if-eq-ok, raise_if-then}
use budget_analyzer_api_test.Base.Text.{text_le}
use budget_analyzer_api_test.OpenApi.{OpenApiOperation, method_eq}
use budget_analyzer_api_test.Coverage.Types.{MarkerCounts}
use budget_analyzer_api_test.Coverage.Operations.{operation_le}
use budget_analyzer_api_test.Coverage.Forbidden.{
  ForbiddenResponseDeferral, covered, ForbiddenResponseCoverage, index_by_id, ids_where,
  only_placeholders, is_executable, index_deferrals, reason_of, forbidden_row, check_markers,
  check_accounted, build_forbidden_response_coverage, forbidden_status_eq,
}
use budget_analyzer_api_test.Coverage.Forbidden.Accounted.{
  operation_ids, deferral_ids, contains-index_by_id, index_by_id-nodup, find_deferral, is_named_by,
  index_by_id-names, names_operation, index_deferrals-keys, index_deferrals-current,
  index_deferrals-lookup,
}
use budget_analyzer_api_test.Coverage.Forbidden.Rows.{
  has_evidence, IsRow, AreRows, AreRows-map, row_counted,
}

abbrev pub differ : Bool → Bool → Bool
differ a b = not (a == b)

module _ (operations : List OpenApiOperation) (marker_counts : Dict String MarkerCounts) where
  pub check_markers_sound :
      check_markers operations marker_counts ≡ ok tt
      → (nodup (operation_ids operations) ≡ true)
        × (all (contains (operation_ids operations)) (keys marker_counts) ≡ true)
        × (null (ids_where only_placeholders marker_counts) ≡ true)
  unfolding check_markers
  check_markers_sound h =
      let by_id = index_by_id operations [] in
      let (same, rest) = raise_if-then (not (length by_id == length operations)) _ _ h in
      let (known, last) =
        raise_if-then
          (not (
            null (sorted text_le (keep (λ i. not (contains (keys by_id) i)) (keys marker_counts)))))
          _ _ rest in
      let idle =
        raise_if-eq-ok (not (null (sorted text_le (ids_where only_placeholders marker_counts)))) _
          last in
      (
        index_by_id-nodup operations [] (ground arith),
        ground (
          arith,
          known,
          null-sorted text_le (keep (λ i. not (contains (keys by_id) i)) (keys marker_counts)),
          null-keep-not (contains (keys by_id)) (keys marker_counts),
          all-ext (contains (keys by_id)) (contains (operation_ids operations)) (keys marker_counts)
              (λ i. ground (arith, contains-index_by_id operations [] i)),
        ),
        ground (arith, idle, null-sorted text_le (ids_where only_placeholders marker_counts)),
      )

abbrev is_accounted : List String → List String → String → Bool
is_accounted executable_ids deferred_ids i = contains executable_ids i || contains deferred_ids i

check_accounted_sound :
    (by_id : Dict String OpenApiOperation) (executable_ids deferred_ids : List String)
    → check_accounted by_id executable_ids deferred_ids ≡ ok tt
    → (all (λ i. not (contains deferred_ids i)) executable_ids ≡ true)
      × (all (is_accounted executable_ids deferred_ids) (keys by_id) ≡ true)
unfolding check_accounted
check_accounted_sound by_id executable_ids deferred_ids h =
    let missing =
      keep (λ i. not (contains executable_ids i) && not (contains deferred_ids i)) (keys by_id) in
    let (apart, rest) =
      raise_if-then (not (null (sorted text_le (keep (contains deferred_ids) executable_ids)))) _ _
        h in
    let none_left = raise_if-eq-ok (not (null (sorted text_le missing))) _ rest in
    (
      ground (
        arith,
        apart,
        null-sorted text_le (keep (contains deferred_ids) executable_ids),
        null-keep (contains deferred_ids) executable_ids,
      ),
      ground (
        arith,
        none_left,
        null-sorted text_le missing,
        null-keep (λ i. not (contains executable_ids i) && not (contains deferred_ids i))
            (keys by_id),
        all-ext (λ i. not (not (contains executable_ids i) && not (contains deferred_ids i)))
            (is_accounted executable_ids deferred_ids) (keys by_id) (λ i. ground arith),
      ),
    )

-- An accepted report: the operation ids are distinct, markers name operations and none is only a
-- placeholder; the deferrals are distinct and name operations with their methods and paths; each
-- operation has either evidence or a deferral, never both.
pub record IsReport (operations : List OpenApiOperation) (ds : List ForbiddenResponseDeferral)
    (marker_counts : Dict String MarkerCounts) : Type 0 where
  pub distinct : nodup (operation_ids operations) ≡ true
  pub recognized : all (contains (operation_ids operations)) (keys marker_counts) ≡ true
  pub no_idle : null (ids_where only_placeholders marker_counts) ≡ true
  pub distinct_deferrals : nodup (deferral_ids ds) ≡ true
  pub current : all (λ d. any (is_named_by d) operations) ds ≡ true
  pub partition :
      all
        (λ i. differ (has_evidence marker_counts i) (contains (deferral_ids ds) i))
        (operation_ids operations)
      ≡ true

module _ (operations : List OpenApiOperation) (ds : List ForbiddenResponseDeferral)
    (marker_counts : Dict String MarkerCounts) (rows : List ForbiddenResponseCoverage)
    (built : build_forbidden_response_coverage operations ds marker_counts ≡ ok rows) where
  by_id_all : Dict String OpenApiOperation
  by_id_all = index_by_id operations []

  -- The steps of the build that succeeded.
  build_steps :
      (check_markers operations marker_counts ≡ ok tt)
      × ((found : Dict String ForbiddenResponseDeferral) × (index_deferrals by_id_all ds []
            ≡ ok found)
          × (check_accounted by_id_all (ids_where is_executable marker_counts) (keys found) ≡ ok tt)
          × (rows ≡ map (forbidden_row marker_counts found) (sorted operation_le operations)))
  unfolding build_forbidden_response_coverage by_id_all
  build_steps =
      let (_, checked, rest) = >>=-eq-ok (check_markers operations marker_counts) _ built in
      let (found, indexed, more) =
        >>=-eq-ok (index_deferrals (index_by_id operations []) ds []) _ rest in
      let (_, accounted, last) =
        >>=-eq-ok
          (check_accounted (index_by_id operations []) (ids_where is_executable marker_counts)
            (keys found))
          _ more in
      (checked, (found, indexed, accounted, sym (ground (arith, last))))

  -- Building a report succeeds only on consistent input in which each documented operation has either
  -- evidence or a deferral, and never both.
  pub forbidden-IsReport : IsReport operations ds marker_counts
  unfolding by_id_all
  forbidden-IsReport =
      let (checked, (found, indexed, accounted, _)) = build_steps in
      let (distinct, recognized, no_idle) = check_markers_sound operations marker_counts checked in
      let (distinct_deferrals, matched) = index_deferrals-current by_id_all ds [] found indexed in
      let (apart, complete) =
        check_accounted_sound by_id_all (ids_where is_executable marker_counts) (keys found)
          accounted in
      record {
        distinct = distinct;
        recognized = recognized;
        no_idle = no_idle;
        distinct_deferrals = distinct_deferrals;
        current =
            all_mono (λ d. names_operation d (lookup d.operation_id by_id_all))
              (λ d. any (is_named_by d) operations)
              (λ d h. ground (arith, index_by_id-names operations [] d h)) ds matched;
        partition =
            all_of_contains
              (λ i. differ (has_evidence marker_counts i) (contains (deferral_ids ds) i))
              (operation_ids operations)
              (λ i m. ground (
                arith,
                index_deferrals-keys by_id_all ds [] found i indexed,
                contains-index_by_id operations [] i,
                all-contains (λ j. not (contains (keys found) j))
                    (ids_where is_executable marker_counts) i apart,
                all-contains (is_accounted (ids_where is_executable marker_counts) (keys found))
                    (keys by_id_all) i complete,
              ));
      }

  -- A report that is built has one row for each documented operation: with the operation's id, method and path, the counts of its markers (zero where it has
  -- none), covered exactly when a test that is no placeholder exercises its response, and with the
  -- reason of its deferral, if it has one.
  pub forbidden_rows :
      (os : List OpenApiOperation) × Perm os operations × AreRows ds marker_counts os rows
  unfolding by_id_all forbidden_row forbidden_status_eq
  forbidden_rows =
      let (_, (found, indexed, _, e)) = build_steps in
      let row : OpenApiOperation → ForbiddenResponseCoverage = forbidden_row marker_counts found in
      let each : All (λ o. IsRow ds marker_counts o (row o)) operations =
        All-of_contains (λ (o : OpenApiOperation). o.operation_id)
          (λ o. IsRow ds marker_counts o (row o)) operations
          (λ o m.
            let (status, reason) : ((row o).status == covered
                  ≡ has_evidence marker_counts o.operation_id)
                × ((row o).deferral_reason ≡ reason_of (find_deferral o.operation_id ds)) =
              ground (
                arith,
                index_deferrals-lookup by_id_all ds [] found o.operation_id indexed,
                index_deferrals-keys by_id_all ds [] found o.operation_id indexed,
                lookup-eq-none_iff o.operation_id found,
                all-contains
                    (λ i. differ (has_evidence marker_counts i) (contains (deferral_ids ds) i))
                    (operation_ids operations) o.operation_id forbidden-IsReport.partition m,
              ) in
            (refl, refl, refl, row_counted marker_counts found o, status, reason)) in
      (
        sorted operation_le operations,
        sorted_perm operation_le operations,
        subst⁻¹ (AreRows ds marker_counts (sorted operation_le operations)) e (
            AreRows-map ds marker_counts row (sorted operation_le operations)
              (sorted-All operation_le (λ o. IsRow ds marker_counts o (row o)) operations each)),
      )
