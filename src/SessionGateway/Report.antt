-- ===== src/SessionGateway/Report.antt =====
-- session_gateway_inventory.py: `build_session_gateway_coverage_report`.
pub mod Claims
pub mod Counts
use budget_analyzer_api_test.Base.{
  ℕ, zero, suc, ◌+◌, ◌-◌, ◌≤◌, ◌<◌, ◌≡◌, refl, sym, ◌∙◌, ap, ◌≢◌, ◌↔◌, ◌⊎◌, Bool, true, false, ◌&&◌,
  ◌||◌, not, List, [], ◌∷◌, ◌++◌, map, arith, Eq, ◌==◌, contains, keep, if◌then◌else◌, Option, none,
  some, inl, inr, Bool-cases, Option-cases, String, ◌<>◌, contains-append, contains-keep,
  all-contains, all-ext, any-ext, null-keep-not, null-keep, all-map, any-map, null-map,
  contains-map-keep, all-and, All-map, All-of_contains, all_mono, all_of_contains, ltb, leb, all,
  any, null, nodup, length, All, string_eq, nat_eq, ==_self, eq_of_==, ne_of_==, implies,
  null-append, length-append, bool_eq, option_eq, are_fresh, are_fresh-cons, are_fresh-append,
  nodup-append, are_fresh_union,
}
use budget_analyzer_api_test.Base.Dict.{
  Dict, keys, lookup, get_or, insert, lookup-insert, contains-keys-insert, lookup-eq-none_iff,
  lookup-tabulate, keys-tabulate, length-insert, are_new, are_new-insert,
}
use budget_analyzer_api_test.Base.Sort.{
  sorted, contains-sorted, mem-sorted, sorted-All, sorted_perm, length-sorted, null-sorted,
  all-sorted, any-sorted,
}
use budget_analyzer_api_test.Base.Result.{
  Result, ok, err, ◌>>=◌, ◌>>◌, raise_if, >>=-eq-ok, raise_if-eq-ok, raise_if-then, ok-injective,
}
use budget_analyzer_api_test.Base.Text.{text_le}
use budget_analyzer_api_test.OpenApi.{HttpMethod, session_gateway, contract_eq}
use budget_analyzer_api_test.Coverage.Types.{CoverageStatus, OperationCoverage, status_eq}
use budget_analyzer_api_test.Coverage.Types as CoverageTypes
use budget_analyzer_api_test.SessionGateway.{
  InventoryStatus, covered, deferred, untestable, inventory_status_eq,
}
use budget_analyzer_api_test.SessionGateway.Validate.{SessionGatewayCaseCoverage, route_key_eq}

pub record OperationCoverageClassification : Type 0 where
  pub status : CoverageStatus
  pub count : ℕ
  pub ids : List String

pub record ScenarioCoverageClassification : Type 0 where
  pub status : InventoryStatus
  pub count : ℕ
  pub ids : List String

pub record SessionGatewayOperationCoverageReport : Type 0 where
  pub classifications : List OperationCoverageClassification
  pub rows : List OperationCoverage

pub record SessionGatewayScenarioCoverageReport : Type 0 where
  pub route_count : ℕ
  pub classifications : List ScenarioCoverageClassification
  pub rows : List SessionGatewayCaseCoverage

pub record SessionGatewayCoverageClaims : Type 0 where
  pub all_known_inbound_routes_inventoried : Bool
  pub all_currently_executable_public_cases_covered : Bool
  pub full_session_gateway_behavior_coverage : Bool
  pub uncovered_executable_case_ids : List String

pub record SessionGatewayCoverageReport : Type 0 where
  pub claims : SessionGatewayCoverageClaims
  pub operation_coverage : SessionGatewayOperationCoverageReport
  pub scenario_coverage : SessionGatewayScenarioCoverageReport

pub data ReportError : Type 0 where
  no_operations no_scenarios : ReportError
  wrong_contracts : List String → ReportError

-- `_operation_classification`
unfoldable pub operation_classification :
    List OperationCoverage → CoverageStatus → OperationCoverageClassification
unfolding sorted
operation_classification operations status =
    let ids =
      sorted text_le (map (λ o. o.operation_id) (keep (λ o. o.status == status) operations)) in
    record { status = status; count = length ids; ids = ids }

-- `_scenario_classification`
unfoldable pub scenario_classification :
    List SessionGatewayCaseCoverage → InventoryStatus → ScenarioCoverageClassification
unfolding sorted
scenario_classification scenarios status =
    let ids = sorted text_le (map (λ c. c.case_id) (keep (λ c. c.status == status) scenarios)) in
    record { status = status; count = length ids; ids = ids }

-- `_OPERATION_STATUSES` and `_SCENARIO_STATUSES`
abbrev pub operation_statuses : List CoverageStatus
operation_statuses =
    CoverageTypes.covered ∷ CoverageTypes.deferred ∷ CoverageTypes.missing
    ∷ CoverageTypes.placeholder ∷ []

abbrev pub scenario_statuses : List InventoryStatus
scenario_statuses = covered ∷ deferred ∷ untestable ∷ []

-- A row that a test should exercise, and none does.
abbrev pub is_uncovered : SessionGatewayCaseCoverage → Bool
is_uncovered c = c.status == covered && c.test_marker_count == 0

-- The set of the rows' routes, as a list without repetitions.
abbrev pub distinct_routes : List SessionGatewayCaseCoverage → List (HttpMethod × String)
distinct_routes [] = []
distinct_routes (c ∷ cs) =
    let rest = distinct_routes cs in
    if contains rest (c.method, c.path) then rest else (c.method, c.path) ∷ rest

unfoldable pub coverage_claims :
    List OperationCoverage → List SessionGatewayCaseCoverage → SessionGatewayCoverageClaims
unfolding sorted
coverage_claims operations scenarios =
    let uncovered = sorted text_le (map (λ c. c.case_id) (keep is_uncovered scenarios)) in
    record {
      all_known_inbound_routes_inventoried = true;
      all_currently_executable_public_cases_covered = null uncovered;
      full_session_gateway_behavior_coverage =
          null uncovered
          && all (λ o. o.status == CoverageTypes.covered) operations
          && all (λ c. c.status == covered) scenarios;
      uncovered_executable_case_ids = uncovered;
    }

unfoldable pub build_session_gateway_coverage_report :
    List OperationCoverage
    → List SessionGatewayCaseCoverage
    → Result ReportError SessionGatewayCoverageReport
unfolding operation_classification scenario_classification coverage_claims sorted
build_session_gateway_coverage_report operations scenarios = do
  raise_if (null operations) no_operations
  raise_if (null scenarios) no_scenarios
  let wrong =
      sorted text_le
        (map (λ o. o.operation_id) (keep (λ o. not (o.contract == session_gateway)) operations))
  raise_if (not (null wrong)) (wrong_contracts wrong)
  ok (record {
    claims = coverage_claims operations scenarios;
    operation_coverage = record {
      classifications = map (operation_classification operations) operation_statuses;
      rows = operations;
    };
    scenario_coverage = record {
      route_count = length (distinct_routes scenarios);
      classifications = map (scenario_classification scenarios) scenario_statuses;
      rows = scenarios;
    };
  })
