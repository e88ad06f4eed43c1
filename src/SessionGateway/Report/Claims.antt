-- ===== src/SessionGateway/Report/Claims.antt =====
-- What a Session Gateway coverage report claims.
use budget_analyzer_api_test.Base.{
  ◌≡◌, refl, sym, ◌∙◌, ap, Bool, true, ◌&&◌, not, List, [], ◌∷◌, map, arith, ◌==◌, contains, keep,
  String, null-keep-not, null-keep, null-map, contains-map-keep, ltb, all, any, null, length, All,
  string_eq, nat_eq, implies, bool_eq, option_eq,
}
use mathlib.Core.Path.{subst⁻¹}
use budget_analyzer_api_test.Base.Sort.{sorted, mem-sorted, null-sorted}
use budget_analyzer_api_test.Base.Result.{ok, raise_if-then, ok-injective}
use budget_analyzer_api_test.Base.Text.{text_le}
use budget_analyzer_api_test.OpenApi.{session_gateway, contract_eq}
use budget_analyzer_api_test.Coverage.Types.{CoverageStatus, OperationCoverage, status_eq}
use budget_analyzer_api_test.Coverage.Types as CoverageTypes
use budget_analyzer_api_test.SessionGateway.{covered, deferred, untestable, inventory_status_eq}
use budget_analyzer_api_test.SessionGateway.Validate.{SessionGatewayCaseCoverage, route_key_eq}
use budget_analyzer_api_test.SessionGateway.Report.{
  SessionGatewayCoverageReport, coverage_claims, is_uncovered,
  build_session_gateway_coverage_report,
}
use budget_analyzer_api_test.SessionGateway.Report.Counts.{
  sum, IsOperationCount, IsScenarioCount, operations_counted_lem, scenarios_counted_lem,
  classified_operation, classified_scenario,
}

-- The case has its status and a test that exercises it.
abbrev pub is_exercised : SessionGatewayCaseCoverage → Bool
is_exercised c = c.status == covered && ltb 0 c.test_marker_count

executable_lem :
    (scenarios : List SessionGatewayCaseCoverage)
    → all (λ c. not (is_uncovered c)) scenarios
      ≡ all (λ c. implies (c.status == covered) (ltb 0 c.test_marker_count)) scenarios
executable_lem [] = refl
executable_lem (c ∷ cs) = ground (arith, executable_lem cs)

full_lem :
    (scenarios : List SessionGatewayCaseCoverage)
    → (all (λ c. not (is_uncovered c)) scenarios && all (λ c. c.status == covered) scenarios)
      ≡ all is_exercised scenarios
full_lem [] = refl
full_lem (c ∷ cs) = ground (arith, full_lem cs)

-- What a report says of its rows.
pub record IsHonest (operations : List OperationCoverage)
    (scenarios : List SessionGatewayCaseCoverage) (report : SessionGatewayCoverageReport)
    : Type 0 where
  pub one_contract : all (λ o. o.contract == session_gateway) operations ≡ true
  pub operation_statuses_named :
      map (λ c. c.status) report.operation_coverage.classifications
      ≡ CoverageTypes.covered ∷ CoverageTypes.deferred ∷ CoverageTypes.missing
        ∷ CoverageTypes.placeholder ∷ []
  pub scenario_statuses_named :
      map (λ c. c.status) report.scenario_coverage.classifications
      ≡ covered ∷ deferred ∷ untestable ∷ []
  pub operations_classified :
      All (IsOperationCount operations) report.operation_coverage.classifications
  pub scenarios_classified :
      All (IsScenarioCount scenarios) report.scenario_coverage.classifications
  pub rows_reported : report.operation_coverage.rows ≡ operations
  pub scenarios_reported : report.scenario_coverage.rows ≡ scenarios
  pub operations_counted :
      sum (map (λ c. c.count) report.operation_coverage.classifications) ≡ length operations
  pub scenarios_counted :
      sum (map (λ c. c.count) report.scenario_coverage.classifications) ≡ length scenarios
  pub executable :
      report.claims.all_currently_executable_public_cases_covered
      ≡ all (λ c. implies (c.status == covered) (ltb 0 c.test_marker_count)) scenarios
  pub full :
      report.claims.full_session_gateway_behavior_coverage
      ≡ (all (λ o. o.status == CoverageTypes.covered) operations && all is_exercised scenarios)
  pub uncovered :
      (i : String)
      → contains report.claims.uncovered_executable_case_ids i
        ≡ any (λ c. i == c.case_id && is_uncovered c) scenarios

module _ (operations : List OperationCoverage) (scenarios : List SessionGatewayCaseCoverage) where
  null_uncovered :
      null (
        sorted text_le
          (map (λ (c : SessionGatewayCaseCoverage). c.case_id) (keep is_uncovered scenarios)))
      ≡ all (λ c. not (is_uncovered c)) scenarios
  null_uncovered = ground (
    arith,
    null-sorted text_le
        (map (λ (c : SessionGatewayCaseCoverage). c.case_id) (keep is_uncovered scenarios)),
    null-map (λ (c : SessionGatewayCaseCoverage). c.case_id) (keep is_uncovered scenarios),
    null-keep is_uncovered scenarios,
  )

  -- A report is honest about its rows: all operations are of the Session Gateway contract; the
  -- classifications are those of the four operation statuses and the three scenario statuses, each
  -- with the number and the ids of the rows that have its status, and the numbers add up to all rows;
  -- the rows are those given; the executable cases are claimed
  -- covered exactly when each covered case has a test, full coverage is claimed exactly when all
  -- operations are covered and all cases are covered by tests, and the uncovered ids are those of the
  -- covered cases without a test.
  pub report-IsHonest :
      (report : SessionGatewayCoverageReport)
      → build_session_gateway_coverage_report operations scenarios ≡ ok report
      → IsHonest operations scenarios report
  unfolding build_session_gateway_coverage_report coverage_claims
  report-IsHonest report h =
      let (_, step1) = raise_if-then (null operations) _ _ h in
      let (_, step2) = raise_if-then (null scenarios) _ _ step1 in
      let others =
        map (λ (o : OperationCoverage). o.operation_id)
          (keep (λ (o : OperationCoverage). not (o.contract == session_gateway)) operations) in
      let (own, done) = raise_if-then (not (null (sorted text_le others))) _ _ step2 in
      let same = sym (ok-injective _ _ done) in
      record {
        one_contract = ground (
          arith,
          own,
          null-sorted text_le others,
          null-map (λ (o : OperationCoverage). o.operation_id)
              (keep (λ (o : OperationCoverage). not (o.contract == session_gateway)) operations),
          null-keep-not (λ (o : OperationCoverage). o.contract == session_gateway) operations,
        );
        operation_statuses_named =
            ap (λ r. map (λ c. c.status) r.operation_coverage.classifications) same ∙ refl;
        scenario_statuses_named =
            ap (λ r. map (λ c. c.status) r.scenario_coverage.classifications) same ∙ refl;
        operations_classified =
            subst⁻¹ (λ r. All (IsOperationCount operations) r.operation_coverage.classifications)
              same
              (
                classified_operation operations CoverageTypes.covered,
                (
                  classified_operation operations CoverageTypes.deferred,
                  (
                    classified_operation operations CoverageTypes.missing,
                    (classified_operation operations CoverageTypes.placeholder, tt),
                  ),
                ),
              );
        scenarios_classified =
            subst⁻¹ (λ r. All (IsScenarioCount scenarios) r.scenario_coverage.classifications) same
              (
                classified_scenario scenarios covered,
                (
                  classified_scenario scenarios deferred,
                  (classified_scenario scenarios untestable, tt),
                ),
              );
        rows_reported = ap (λ r. r.operation_coverage.rows) same;
        scenarios_reported = ap (λ r. r.scenario_coverage.rows) same;
        operations_counted =
            ap (λ r. sum (map (λ c. c.count) r.operation_coverage.classifications)) same
            ∙ operations_counted_lem operations;
        scenarios_counted =
            ap (λ r. sum (map (λ c. c.count) r.scenario_coverage.classifications)) same
            ∙ scenarios_counted_lem scenarios;
        executable =
            ap (λ r. r.claims.all_currently_executable_public_cases_covered) same
            ∙ null_uncovered
            ∙ executable_lem scenarios;
        full =
            ap (λ r. r.claims.full_session_gateway_behavior_coverage) same
            ∙ ground (arith, null_uncovered, full_lem scenarios);
        uncovered = λ i.
            ap (λ r. contains r.claims.uncovered_executable_case_ids i) same
            ∙ mem-sorted text_le
                (map (λ (c : SessionGatewayCaseCoverage). c.case_id) (keep is_uncovered scenarios))
                i
            ∙ contains-map-keep (λ (c : SessionGatewayCaseCoverage). c.case_id) is_uncovered
                scenarios i;
      }
