-- ===== src/SessionGateway/Report/Counts.antt =====
-- The classifications of a Session Gateway coverage report count its rows.
use budget_analyzer_api_test.Base.{
  ℕ, ◌+◌, ◌≡◌, refl, ◌∙◌, Bool, ◌&&◌, List, [], ◌∷◌, map, arith, ◌==◌, contains, keep,
  if◌then◌else◌, String, contains-map-keep, any, length, string_eq, nat_eq, bool_eq, option_eq,
}
use budget_analyzer_api_test.Base.Sort.{sorted, mem-sorted, length-sorted}
use budget_analyzer_api_test.Base.Text.{text_le}
use budget_analyzer_api_test.OpenApi.{contract_eq}
use budget_analyzer_api_test.Coverage.Types.{CoverageStatus, OperationCoverage, status_eq}
use budget_analyzer_api_test.Coverage.Types as CoverageTypes
use budget_analyzer_api_test.SessionGateway.{
  InventoryStatus, covered, deferred, untestable, inventory_status_eq,
}
use budget_analyzer_api_test.SessionGateway.Validate.{SessionGatewayCaseCoverage, route_key_eq}
use budget_analyzer_api_test.SessionGateway.Report.{
  OperationCoverageClassification, ScenarioCoverageClassification, operation_classification,
  scenario_classification, operation_statuses, scenario_statuses,
}

abbrev pub sum : List ℕ → ℕ
sum [] = 0
sum (n ∷ ns) = n + sum ns

length-map : {A B : Type 0} (f : A → B) (xs : List A) → length (map f xs) ≡ length xs
length-map f [] = refl
length-map f (x ∷ xs) = ground (arith, length-map f xs)

length-ids :
    {A : Type 0} (f : A → String) (p : A → Bool) (xs : List A)
    → length (sorted text_le (map f (keep p xs))) ≡ length (keep p xs)
length-ids f p xs = length-sorted text_le (map f (keep p xs)) ∙ length-map f (keep p xs)

abbrev unit_of : Bool → ℕ
unit_of b = if b then 1 else 0

-- Every row has exactly one status.
one_status :
    (s : CoverageStatus)
    → unit_of (s == CoverageTypes.covered)
        + (unit_of (s == CoverageTypes.deferred)
            + (unit_of (s == CoverageTypes.missing) + unit_of (s == CoverageTypes.placeholder)))
      ≡ 1
unfolding status_eq
one_status CoverageTypes.covered = refl
one_status CoverageTypes.deferred = refl
one_status CoverageTypes.missing = refl
one_status CoverageTypes.placeholder = refl

one_scenario_status :
    (s : InventoryStatus)
    → unit_of (s == covered) + (unit_of (s == deferred) + unit_of (s == untestable)) ≡ 1
unfolding inventory_status_eq
one_scenario_status covered = refl
one_scenario_status deferred = refl
one_scenario_status untestable = refl

abbrev with_status : CoverageStatus → List OperationCoverage → ℕ
with_status s rows = length (keep (λ o. o.status == s) rows)

operations_partition :
    (rows : List OperationCoverage)
    → with_status CoverageTypes.covered rows
        + (with_status CoverageTypes.deferred rows
            + (with_status CoverageTypes.missing rows + with_status CoverageTypes.placeholder rows))
      ≡ length rows
operations_partition [] = refl
operations_partition (o ∷ rows) = ground (arith, one_status o.status, operations_partition rows)

abbrev with_scenario_status : InventoryStatus → List SessionGatewayCaseCoverage → ℕ
with_scenario_status s rows = length (keep (λ c. c.status == s) rows)

scenarios_partition :
    (rows : List SessionGatewayCaseCoverage)
    → with_scenario_status covered rows
        + (with_scenario_status deferred rows + with_scenario_status untestable rows)
      ≡ length rows
scenarios_partition [] = refl
scenarios_partition (c ∷ rows) =
    ground (arith, one_scenario_status c.status, scenarios_partition rows)

operation_count :
    (rows : List OperationCoverage) (s : CoverageStatus)
    → (operation_classification rows s).count ≡ with_status s rows
unfolding operation_classification
operation_count rows s =
    length-ids (λ (o : OperationCoverage). o.operation_id) (λ o. o.status == s) rows

scenario_count :
    (rows : List SessionGatewayCaseCoverage) (s : InventoryStatus)
    → (scenario_classification rows s).count ≡ with_scenario_status s rows
unfolding scenario_classification
scenario_count rows s =
    length-ids (λ (c : SessionGatewayCaseCoverage). c.case_id) (λ c. c.status == s) rows

pub operations_counted_lem :
    (rows : List OperationCoverage)
    → sum (map (λ c. c.count) (map (operation_classification rows) operation_statuses))
      ≡ length rows
operations_counted_lem rows =
    rw
      (
        operation_count rows CoverageTypes.covered,
        operation_count rows CoverageTypes.deferred,
        operation_count rows CoverageTypes.missing,
        operation_count rows CoverageTypes.placeholder,
      )
      (omega (arith, operations_partition rows))

pub scenarios_counted_lem :
    (rows : List SessionGatewayCaseCoverage)
    → sum (map (λ c. c.count) (map (scenario_classification rows) scenario_statuses)) ≡ length rows
scenarios_counted_lem rows =
    rw (scenario_count rows covered, scenario_count rows deferred, scenario_count rows untestable)
      (omega (arith, scenarios_partition rows))

-- An operation's classification counts and lists the rows that have its status.
abbrev pub IsOperationCount : List OperationCoverage → OperationCoverageClassification → Type 0
IsOperationCount rows c =
    (c.count ≡ length (keep (λ o. o.status == c.status) rows))
    × ((i : String)
        → contains c.ids i ≡ any (λ o. i == o.operation_id && o.status == c.status) rows)

abbrev pub IsScenarioCount :
    List SessionGatewayCaseCoverage → ScenarioCoverageClassification → Type 0
IsScenarioCount rows c =
    (c.count ≡ length (keep (λ o. o.status == c.status) rows))
    × ((i : String) → contains c.ids i ≡ any (λ o. i == o.case_id && o.status == c.status) rows)

pub classified_operation :
    (rows : List OperationCoverage) (s : CoverageStatus)
    → IsOperationCount rows (operation_classification rows s)
unfolding operation_classification
classified_operation rows s = (
  operation_count rows s,
  λ i.
      mem-sorted text_le
        (map (λ (o : OperationCoverage). o.operation_id) (keep (λ o. o.status == s) rows)) i
      ∙ contains-map-keep (λ (o : OperationCoverage). o.operation_id) (λ o. o.status == s) rows i,
)

pub classified_scenario :
    (rows : List SessionGatewayCaseCoverage) (s : InventoryStatus)
    → IsScenarioCount rows (scenario_classification rows s)
unfolding scenario_classification
classified_scenario rows s = (
  scenario_count rows s,
  λ i.
      mem-sorted text_le
        (map (λ (c : SessionGatewayCaseCoverage). c.case_id) (keep (λ c. c.status == s) rows)) i
      ∙ contains-map-keep (λ (c : SessionGatewayCaseCoverage). c.case_id) (λ c. c.status == s) rows
          i,
)
