-- ===== src/Tests/Gateway.antt =====
-- The Session Gateway inventory on a contract with one operation.
use budget_analyzer_api_test.Base.{
  ℕ, ◌≡◌, refl, ◌↔◌, true, false, List, [], ◌∷◌, none, some, String, all, nodup, string_eq, nat_eq,
  bool_eq, option_eq,
}
use budget_analyzer_api_test.Base.Dict.{Dict}
use budget_analyzer_api_test.Base.Sort.{sorted}
use budget_analyzer_api_test.Base.Result.{ok, err}
use budget_analyzer_api_test.Base.Text.{strip}
use budget_analyzer_api_test.OpenApi.{
  OpenApiOperation, session_gateway, get, method_eq, contract_eq,
}
use budget_analyzer_api_test.OpenApi.Document.{
  Json, Members, text, array, object, no_items, item, no_members, member, field, filled_text,
  OpenApiOperationEntry, iter_operations, validated_operation_entries,
}
use budget_analyzer_api_test.OpenApi.Document.Entries.{
  IsReading, documented, validated_operation_entries_iff,
}
use budget_analyzer_api_test.Coverage.Types.{OperationCoverage, snapshot, status_eq}
use budget_analyzer_api_test.Coverage.Types as CoverageTypes
use budget_analyzer_api_test.SessionGateway as SG
use budget_analyzer_api_test.SessionGateway.{
  SessionGatewayCase, SessionGatewayRoute, controller, public, mesh_internal, covered, untestable,
  exposure_eq, inventory_status_eq,
}
use budget_analyzer_api_test.SessionGateway.Load.{
  load_session_gateway_inventory, deferred_needs_reason,
}
use budget_analyzer_api_test.SessionGateway.Load.Classified.{well_formed, all_case_ids}
use budget_analyzer_api_test.SessionGateway.Load.Routes.{load_session_gateway_inventory_lem}
use budget_analyzer_api_test.SessionGateway.Validate.{
  SessionGatewayCaseCoverage, validate_session_gateway_inventory, route_key_eq, not_public,
}
use budget_analyzer_api_test.SessionGateway.Validate.Inventoried.{
  IsInventoried, session_gateway-IsInventoried,
}
use budget_analyzer_api_test.SessionGateway.Report.{
  SessionGatewayCoverageReport, build_session_gateway_coverage_report,
}
use budget_analyzer_api_test.SessionGateway.Report.Claims.{IsHonest, report-IsHonest}

abbrev raw_logout : Members
raw_logout = member "operationId" (text "logout") no_members

abbrev paths : Members
paths = member "/logout" (object (member "get" (object raw_logout) no_members)) no_members

abbrev document : Members
document = member "openapi" (text "3.1.0") (member "paths" (object paths) no_members)

abbrev logout_operation : OpenApiOperation
logout_operation = record {
  contract = session_gateway;
  operation_id = "logout";
  method = get;
  path = "/logout";
}

abbrev entries : List OpenApiOperationEntry
entries =
    record {
      operation = logout_operation;
      path_item = member "get" (object raw_logout) no_members;
      raw_operation = raw_logout;
    }
    ∷ []

entries_run : validated_operation_entries session_gateway document ≡ ok entries
unfolding validated_operation_entries string_eq strip filled_text nat_eq
entries_run = refl

validated_operation_entries_iff_example :
    (validated_operation_entries session_gateway document ≡ ok entries) ↔ (
      (read : Members) × (field document "paths" ≡ object read)
      × IsReading session_gateway (documented read) entries)
validated_operation_entries_iff_example =
    validated_operation_entries_iff session_gateway document entries

abbrev raw_case : String → Members → Json
raw_case status notes = object (
    member "id" (text "logout-redirect")
      (member "behavior" (text "redirects") (member "status" (text status) notes)))

abbrev raw_inventory : Json → Json
raw_inventory one_case = object (
    member "routes"
      (array (
        item
          (object (
            member "method" (text "GET") (
              member "path" (text "/logout") (
                member "owner" (text "controller") (
                  member "exposure" (text "public") (
                    member "openapi_operation_id" (text "logout")
                      (member "cases" (array (item one_case no_items)) no_members)))))))
          no_items))
      no_members)

abbrev logout_case : SessionGatewayCase
logout_case = record {
  case_id = "logout-redirect";
  behavior = "redirects";
  status = covered;
  reason = none;
  prerequisite = none;
  boundary = none;
  optional_indirect_proof = none;
}

abbrev logout_route : SessionGatewayRoute
logout_route = record {
  method = get;
  path = "/logout";
  owner = controller;
  exposure = public;
  openapi_operation_id = some "logout";
  cases = logout_case ∷ [];
}

load_run :
    (load_session_gateway_inventory (raw_inventory (raw_case "covered" no_members))
      ≡ ok (logout_route ∷ []))
    × (load_session_gateway_inventory (raw_inventory (raw_case "deferred" no_members))
        ≡ err deferred_needs_reason)
unfolding load_session_gateway_inventory string_eq strip nat_eq
load_run = (refl, refl)

load_session_gateway_inventory_lem_example :
    (all well_formed (logout_route ∷ []) ≡ true) × (nodup (all_case_ids (logout_route ∷ [])) ≡ true)
load_session_gateway_inventory_lem_example =
    load_session_gateway_inventory_lem (raw_inventory (raw_case "covered" no_members))
      (logout_route ∷ []) load_run.0

abbrev marker_counts : Dict String ℕ
marker_counts = ("logout-redirect", 2) ∷ []

abbrev logout_row : SessionGatewayCaseCoverage
logout_row = record {
  case_id = "logout-redirect";
  method = get;
  path = "/logout";
  owner = controller;
  exposure = public;
  openapi_operation_id = some "logout";
  behavior = "redirects";
  status = covered;
  test_marker_count = 2;
  reason = none;
  prerequisite = none;
  boundary = none;
  optional_indirect_proof = none;
}

abbrev internal_route : SessionGatewayRoute
internal_route = record logout_route { exposure = mesh_internal }

validate_run :
    (validate_session_gateway_inventory (logout_route ∷ []) document marker_counts
      ≡ ok (logout_row ∷ []))
    × (validate_session_gateway_inventory (internal_route ∷ []) document marker_counts
        ≡ err (not_public logout_case))
unfolding validate_session_gateway_inventory string_eq strip method_eq exposure_eq
    inventory_status_eq route_key_eq filled_text nat_eq
validate_run = (refl, refl)

session_gateway-IsInventoried_example :
    (operations : List OpenApiOperation) × (iter_operations session_gateway document
      ≡ ok operations)
    × IsInventoried (logout_route ∷ []) operations marker_counts (logout_row ∷ [])
session_gateway-IsInventoried_example =
    session_gateway-IsInventoried (logout_route ∷ []) marker_counts (logout_row ∷ []) document
      validate_run.0

abbrev operation_row : OperationCoverage
operation_row = record {
  contract = session_gateway;
  operation_id = "logout";
  method = get;
  path = "/logout";
  source = snapshot;
  deferred_admin = false;
  marker_count = 2;
  placeholder_marker_count = 0;
  status = CoverageTypes.covered;
}

abbrev report : SessionGatewayCoverageReport
report = record {
  claims = record {
    all_known_inbound_routes_inventoried = true;
    all_currently_executable_public_cases_covered = true;
    full_session_gateway_behavior_coverage = true;
    uncovered_executable_case_ids = [];
  };
  operation_coverage = record {
    classifications =
        record { status = CoverageTypes.covered; count = 1; ids = "logout" ∷ [] }
        ∷ record { status = CoverageTypes.deferred; count = 0; ids = [] }
        ∷ record { status = CoverageTypes.missing; count = 0; ids = [] }
        ∷ record { status = CoverageTypes.placeholder; count = 0; ids = [] }
        ∷ [];
    rows = operation_row ∷ [];
  };
  scenario_coverage = record {
    route_count = 1;
    classifications =
        record { status = covered; count = 1; ids = "logout-redirect" ∷ [] }
        ∷ record { status = SG.deferred; count = 0; ids = [] }
        ∷ record { status = untestable; count = 0; ids = [] }
        ∷ [];
    rows = logout_row ∷ [];
  };
}

report_run :
    build_session_gateway_coverage_report (operation_row ∷ []) (logout_row ∷ []) ≡ ok report
unfolding build_session_gateway_coverage_report status_eq contract_eq inventory_status_eq nat_eq
    route_key_eq sorted
report_run = refl

report-IsHonest_example : IsHonest (operation_row ∷ []) (logout_row ∷ []) report
report-IsHonest_example = report-IsHonest (operation_row ∷ []) (logout_row ∷ []) report report_run
