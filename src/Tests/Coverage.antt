-- ===== src/Tests/Coverage.antt =====
-- coverage.py on a small contract.
use mathlib.Core.List.{Perm}
use budget_analyzer_api_test.Base.{
  ◌≤◌, ◌≡◌, refl, ◌≢◌, ◌↔◌, true, false, ◌&&◌, ◌||◌, not, List, [], ◌∷◌, map, ◌==◌, contains, some,
  String, ltb, all, any, null, string_eq, nat_eq, bool_eq, option_eq,
}
use budget_analyzer_api_test.Base.Dict.{Dict, keys, get_or}
use budget_analyzer_api_test.Base.Result.{ok, err}
use budget_analyzer_api_test.OpenApi.{
  OpenApiOperation, unified, session_gateway, get, post, method_eq, contract_eq,
}
use budget_analyzer_api_test.Coverage.Types.{
  snapshot, DeferredAdminOperation, MarkerCounts, no_markers, OperationKey, OperationCoverage,
  key_eq, status_eq,
}
use budget_analyzer_api_test.Coverage.Markers.{Marker, entry_of, build_marker_counts}
use budget_analyzer_api_test.Coverage.Markers.Counts.{
  tally, placeholder_tally, build_marker_counts-tally,
}
use budget_analyzer_api_test.Coverage.Operations.{
  key_of, validate_inventory, build_operation_coverage, missing_operation_ids,
  placeholder_operation_ids,
}
use budget_analyzer_api_test.Coverage.Operations.Inventory.{IsConsistent, validate_inventory_iff}
use budget_analyzer_api_test.Coverage.Operations.Rows.{
  coverage_gate, contains-missing_operation_ids, is_deferred, has_test, has_real_test,
}
use budget_analyzer_api_test.Coverage.Forbidden.{
  ForbiddenResponseDeferral, ForbiddenResponseCoverage, global_mutation_not_authorized,
  build_forbidden_response_coverage,
}
use budget_analyzer_api_test.Coverage.Forbidden.Rows.{AreRows}
use budget_analyzer_api_test.Coverage.Forbidden.Report.{
  IsReport, forbidden-IsReport, forbidden_rows,
}
use budget_analyzer_api_test.Coverage.Source.{
  collect_openapi_markers, openapi_marker_operation, forbidden_response_marker_operation,
}
use budget_analyzer_api_test.Coverage.Source.Decorators.{
  plain_decorator, contract_decorator, forbidden_decorator, pytest_marker, IsOpenapiMarker,
  openapi_marker_operation_iff, forbidden_response_marker_iff,
}

coverage_code : Unit {0}
unfolding build_operation_coverage build_marker_counts build_forbidden_response_coverage key_of
    string_eq method_eq contract_eq key_eq status_eq nat_eq missing_operation_ids
    placeholder_operation_ids collect_openapi_markers
coverage_code = tt

abbrev list_things : OpenApiOperation
list_things = record {
  contract = unified;
  operation_id = "listThings";
  method = get;
  path = "/v1/things";
}

abbrev make_thing : OpenApiOperation
make_thing = record {
  contract = unified;
  operation_id = "makeThing";
  method = post;
  path = "/v1/things";
}

abbrev logout : OpenApiOperation
logout = record {
  contract = session_gateway;
  operation_id = "logout";
  method = get;
  path = "/logout";
}

abbrev operations : List OpenApiOperation
operations = list_things ∷ make_thing ∷ logout ∷ []

abbrev deferred : List DeferredAdminOperation
deferred = record { operation_id = "makeThing"; method = post; path = "/v1/things" } ∷ []

abbrev markers : List Marker
markers =
    (unified, "listThings", false)
    ∷ (session_gateway, "logout", true)
    ∷ (session_gateway, "logout", false)
    ∷ []

abbrev logout_key : OperationKey
logout_key = record { contract = session_gateway; operation_id = "logout" }

counts_test :
    build_marker_counts markers
    ≡ (logout_key, record { marker_count = 2; placeholder_marker_count = 1 })
      ∷ (
        record { contract = unified; operation_id = "listThings" },
        record { marker_count = 1; placeholder_marker_count = 0 },
      )
      ∷ []
unfolding coverage_code
counts_test = refl

rows : List OperationCoverage
unfolding coverage_code
rows = elim (build_operation_coverage operations deferred (build_marker_counts markers) snapshot) [
  | ok found ↦ found
  | err _ ↦ []
]

rows_built :
    build_operation_coverage operations deferred (build_marker_counts markers) snapshot ≡ ok rows
unfolding rows
rows_built = refl

build_marker_counts-tally_example :
    let found = get_or (build_marker_counts markers) logout_key no_markers in
    (found.marker_count ≡ tally logout_key (map entry_of markers))
    × (found.placeholder_marker_count ≡ placeholder_tally logout_key (map entry_of markers))
    × (found.placeholder_marker_count ≤ found.marker_count)
    × (contains (keys (build_marker_counts markers)) logout_key ≡ ltb 0 found.marker_count)
build_marker_counts-tally_example = build_marker_counts-tally markers logout_key

validate_inventory_iff_example :
    (validate_inventory operations deferred (build_marker_counts markers) ≡ ok tt)
    ↔ IsConsistent operations deferred (build_marker_counts markers)
validate_inventory_iff_example =
    validate_inventory_iff operations deferred (build_marker_counts markers)

contains-missing_operation_ids_example :
    contains (missing_operation_ids rows) "listThings"
    ≡ any
        (λ o.
          "listThings" == o.operation_id
          && (not (is_deferred deferred o) && not (has_test (key_of o) (map entry_of markers))))
        operations
contains-missing_operation_ids_example =
    contains-missing_operation_ids operations deferred markers snapshot rows rows_built "listThings"

coverage_gate_example :
    (null (missing_operation_ids rows) && null (placeholder_operation_ids rows))
    ≡ all
        (λ o. is_deferred deferred o || has_real_test (key_of o) (map entry_of markers))
        operations
coverage_gate_example = coverage_gate operations deferred markers snapshot rows rows_built

gate_test : (null (missing_operation_ids rows) && null (placeholder_operation_ids rows)) ≡ true
unfolding rows
gate_test = refl

abbrev forbidden_deferrals : List ForbiddenResponseDeferral
forbidden_deferrals =
    record {
      operation_id = "makeThing";
      method = post;
      path = "/v1/things";
      reason = global_mutation_not_authorized;
    }
    ∷ []

abbrev documented : List OpenApiOperation
documented = list_things ∷ make_thing ∷ []

abbrev evidence : Dict String MarkerCounts
evidence = ("listThings", record { marker_count = 2; placeholder_marker_count = 1 }) ∷ []

forbidden : List ForbiddenResponseCoverage
unfolding coverage_code
forbidden = elim (build_forbidden_response_coverage documented forbidden_deferrals evidence) [
  | ok found ↦ found
  | err _ ↦ []
]

forbidden_built :
    build_forbidden_response_coverage documented forbidden_deferrals evidence ≡ ok forbidden
unfolding forbidden
forbidden_built = refl

forbidden-IsReport_example : IsReport documented forbidden_deferrals evidence
forbidden-IsReport_example =
    forbidden-IsReport documented forbidden_deferrals evidence forbidden forbidden_built

forbidden_rows_example :
    (os : List OpenApiOperation) × Perm os documented
    × AreRows forbidden_deferrals evidence os forbidden
forbidden_rows_example =
    forbidden_rows documented forbidden_deferrals evidence forbidden forbidden_built

collect_test :
    collect_openapi_markers (
      (plain_decorator "listThings" ∷ pytest_marker "placeholder" ∷ [])
      ∷ (contract_decorator logout_key ∷ [])
      ∷ [])
    ≡ ok (
        (logout_key, record { marker_count = 1; placeholder_marker_count = 0 })
        ∷ (
          record { contract = unified; operation_id = "listThings" },
          record { marker_count = 1; placeholder_marker_count = 1 },
        )
        ∷ [])
unfolding coverage_code
collect_test = refl

openapi_marker_operation_iff_example :
    (openapi_marker_operation (contract_decorator logout_key) ≡ ok (some logout_key))
    ↔ IsOpenapiMarker (contract_decorator logout_key) logout_key
openapi_marker_operation_iff_example =
    openapi_marker_operation_iff (contract_decorator logout_key) logout_key

forbidden_response_marker_iff_example :
    (forbidden_response_marker_operation (forbidden_decorator "listThings")
      ≡ ok (some "listThings"))
    ↔ ((forbidden_decorator "listThings" ≡ forbidden_decorator "listThings")
        × (◌≢◌ {A = String} "listThings" ""))
forbidden_response_marker_iff_example =
    forbidden_response_marker_iff (forbidden_decorator "listThings") "listThings"
