-- ===== src/Tests/Documents.antt =====
-- Drift between two small contract documents, and the manifests of deferrals.
use budget_analyzer_api_test.Base.{
  ◌≡◌, refl, ◌&&◌, ◌||◌, not, contains, any, map, ◌==◌, List, [], ◌∷◌, none, String, null,
  string_eq, nat_eq, bool_eq, option_eq,
}
use budget_analyzer_api_test.Base.Dict.{Dict}
use budget_analyzer_api_test.Base.Result.{ok, err}
use budget_analyzer_api_test.OpenApi.{get, delete, method_eq}
use budget_analyzer_api_test.OpenApi.Document.{
  Json, Members, text, number, array, object, no_items, item, no_members, member,
}
use budget_analyzer_api_test.OpenApi.Drift.{
  json_eq, OpenApiDifference, OperationContract, operation_contracts, component_schemas, added,
  compare_openapi_documents,
}
use budget_analyzer_api_test.OpenApi.Drift.Agreement.{
  same_operations, same_schemas, compare_openapi_documents_lem,
}
use budget_analyzer_api_test.Coverage.Types.{DeferredAdminOperation}
use budget_analyzer_api_test.Coverage.Forbidden.{
  ForbiddenResponseDeferral, global_mutation_not_authorized,
}
use budget_analyzer_api_test.Coverage.Manifests.{
  load_deferred_admin_operations, load_forbidden_response_deferrals, invalid_path,
}
use budget_analyzer_api_test.Coverage.Manifests.Loaded.{
  IsManifest, IsDeferred, IsDeferral, load_deferred_admin_operations_lem,
  load_forbidden_response_deferrals_lem,
}
use budget_analyzer_api_test.OpenApi.{OpenApiOperation, unified, put}
use budget_analyzer_api_test.OpenApi.Document.{filled_text}
use budget_analyzer_api_test.Base.Text.{strip}
use budget_analyzer_api_test.OpenApi.Document.Entries.{documented}
use budget_analyzer_api_test.OpenApi.Document.{field}
use budget_analyzer_api_test.OpenApi.Requests.{
  operations_documenting_response, OpenApiRequestCase, readonly, production_safe, mutation,
  destructive, safety_marker_eq, destructive_operation_ids, unauthenticated_request_safety_markers,
}
use budget_analyzer_api_test.OpenApi.Requests.Documented.{
  is_documenting, operations_documenting_response_lem, safety_markers_lem,
}

abbrev document_with : Json → Members → Members
document_with responses schemas =
    member "paths"
      (object (
        member "/v1/views"
          (object (
            member "get"
              (object
                (member "operationId" (text "listViews") (member "responses" responses no_members)))
              no_members))
          no_members))
      (member "components" (object (member "schemas" (object schemas) no_members)) no_members)

abbrev responses : Json
responses = object (member "200" (text "ok") (member "401" (text "no") no_members))

-- The same responses in another order.
abbrev reordered : Json
reordered = object (member "401" (text "no") (member "200" (text "ok") no_members))

abbrev baseline : Members
baseline = document_with responses no_members

abbrev live : Members
live = document_with reordered (member "View" (number "1") no_members)

abbrev differences : List OpenApiDifference
differences =
    record { location = "components.schemas.View"; change = added; baseline = none; live = none }
    ∷ []

drift_runs :
    (compare_openapi_documents baseline live ≡ ok differences)
    × (compare_openapi_documents baseline (document_with reordered no_members) ≡ ok [])
unfolding compare_openapi_documents json_eq string_eq nat_eq
drift_runs = (refl, refl)

compare_openapi_documents_lem_example :
    (b l : Dict String OperationContract) × (schemas live_schemas : Members) × (operation_contracts
        baseline
      ≡ ok b)
    × (operation_contracts live ≡ ok l)
    × (component_schemas baseline ≡ ok schemas)
    × (component_schemas live ≡ ok live_schemas)
    × (null differences ≡ (same_operations b l && same_schemas schemas live_schemas))
compare_openapi_documents_lem_example =
    compare_openapi_documents_lem baseline live differences drift_runs.0

-- A manifest with one entry.
abbrev manifest_with : String → String → Members → Json
manifest_with list_name path more = object (
    member list_name
      (array (
        item
          (object (
            member "operationId" (text "listUsers")
              (member "method" (text "GET") (member "path" (text path) more))))
          no_items))
      no_members)

abbrev deferred_operation : DeferredAdminOperation
deferred_operation = record { operation_id = "listUsers"; method = get; path = "/v1/users" }

abbrev deferral : ForbiddenResponseDeferral
deferral = record {
  operation_id = "listUsers";
  method = get;
  path = "/v1/users";
  reason = global_mutation_not_authorized;
}

abbrev deferred_manifest : Json
deferred_manifest = manifest_with "deferred_admin_operations" "/v1/users" no_members

abbrev deferral_manifest : Json
deferral_manifest =
    manifest_with "deferred_forbidden_responses" "/v1/users"
      (member "reason" (text "global_mutation_not_authorized") no_members)

manifest_runs :
    (load_deferred_admin_operations deferred_manifest ≡ ok (deferred_operation ∷ []))
    × (load_deferred_admin_operations (manifest_with "deferred_admin_operations" "users" no_members)
        ≡ err invalid_path)
    × (load_forbidden_response_deferrals deferral_manifest ≡ ok (deferral ∷ []))
unfolding load_deferred_admin_operations load_forbidden_response_deferrals string_eq nat_eq
manifest_runs = (refl, refl, refl)

load_deferred_admin_operations_lem_example :
    IsManifest IsDeferred "deferred_admin_operations" deferred_manifest (deferred_operation ∷ [])
load_deferred_admin_operations_lem_example =
    load_deferred_admin_operations_lem deferred_manifest (deferred_operation ∷ []) manifest_runs.0

load_forbidden_response_deferrals_lem_example :
    IsManifest IsDeferral "deferred_forbidden_responses" deferral_manifest (deferral ∷ [])
load_forbidden_response_deferrals_lem_example =
    load_forbidden_response_deferrals_lem deferral_manifest (deferral ∷ []) manifest_runs.2

abbrev list_views : OpenApiOperation
list_views = record {
  contract = unified;
  operation_id = "listViews";
  method = get;
  path = "/v1/views";
}

documenting_runs :
    (operations_documenting_response unified baseline "401" ≡ ok (list_views ∷ []))
    × (operations_documenting_response unified baseline "403" ≡ ok [])
unfolding operations_documenting_response filled_text strip string_eq nat_eq
documenting_runs = (refl, refl)

operations_documenting_response_lem_example :
    (paths : Members) × (field baseline "paths" ≡ object paths)
    × ((i : String)
        → contains (map (λ (o : OpenApiOperation). o.operation_id) (list_views ∷ [])) i
          ≡ any (is_documenting i "401") (documented paths))
operations_documenting_response_lem_example =
    operations_documenting_response_lem unified "401" baseline (list_views ∷ []) documenting_runs.0

abbrev hide_format : OpenApiRequestCase
hide_format = record {
  operation_id = "hideFormat";
  method = put;
  path = "/v1/formats/1";
  contract = unified;
}

safety_markers_lem_example :
    let markers = unauthenticated_request_safety_markers hide_format in
    (contains markers readonly ≡ (put == get))
    × (contains markers production_safe ≡ (put == get))
    × (contains markers mutation ≡ not (put == get))
    × (contains markers destructive
        ≡ (not (put == get) && (put == delete || contains destructive_operation_ids "hideFormat")))
safety_markers_lem_example = safety_markers_lem hide_format
