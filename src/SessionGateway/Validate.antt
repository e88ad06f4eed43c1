-- ===== src/SessionGateway/Validate.antt =====
-- session_gateway_inventory.py: validating the inventory against the contract document and the
-- markers of the tests.
pub mod Inventoried
pub mod Routes
use budget_analyzer_api_test.Base.{
  ℕ, zero, suc, ◌+◌, ◌-◌, ◌≤◌, ◌<◌, ◌≡◌, refl, sym, ◌∙◌, ap, ◌≢◌, ◌↔◌, ◌⊎◌, Bool, true, false, ◌&&◌,
  ◌||◌, not, List, [], ◌∷◌, ◌++◌, map, arith, Eq, ◌==◌, contains, keep, if◌then◌else◌, Option, none,
  some, inl, inr, Bool-cases, Option-cases, String, ◌<>◌, contains-append, contains-keep,
  all-contains, all-ext, any-ext, null-keep-not, null-keep, all-map, any-map, null-map,
  contains-map-keep, all-and, All-map, All-of_contains, all_mono, all_of_contains, ltb, leb, all,
  any, null, nodup, length, All, string_eq, string_dec, nat_eq, ==_self, eq_of_==, ne_of_==,
  implies, null-append, length-append, bool_eq, option_eq,
}
use budget_analyzer_api_test.Base.Dict.{
  Dict, keys, lookup, get_or, insert, lookup-insert, contains-keys-insert, lookup-eq-none_iff,
  lookup-tabulate, keys-tabulate, length-insert, are_new, are_new-insert,
}
use budget_analyzer_api_test.Base.Sort.{
  sorted, contains-sorted, mem-sorted, sorted-All, sorted_perm, length-sorted, null-sorted,
  all-sorted, any-sorted,
}
use budget_analyzer_api_test.Base.Result.{
  Result, ok, err, ◌>>=◌, ◌>>◌, raise_if, >>=-eq-ok, raise_if-eq-ok, raise_if-then, ok-injective,
}
use budget_analyzer_api_test.Base.Text.{text_le}
use budget_analyzer_api_test.Config.{is_some, is_none}
use budget_analyzer_api_test.OpenApi.{
  HttpMethod, OpenApiOperation, session_gateway, get, method_eq, row_le,
}
use budget_analyzer_api_test.OpenApi.Document.{
  Json, Members, null_value, boolean, number, text, array, object, field, member_names, as_object,
  as_text, DocumentError, iter_operations,
}
use budget_analyzer_api_test.Coverage.Forbidden.{index_by_id}
use budget_analyzer_api_test.SessionGateway.{
  RouteOwner, RouteExposure, InventoryStatus, covered, deferred, untestable, public, exposure_eq,
  inventory_status_eq, SessionGatewayIndirectProof, SessionGatewayCase, SessionGatewayRoute,
}

-- `SessionGatewayCaseCoverage`, whose contract is always the Session Gateway's
pub record SessionGatewayCaseCoverage : Type 0 where
  pub case_id : String
  pub method : HttpMethod
  pub path : String
  pub owner : RouteOwner
  pub exposure : RouteExposure
  pub openapi_operation_id : Option String
  pub behavior : String
  pub status : InventoryStatus
  pub test_marker_count : ℕ
  pub reason : Option String
  pub prerequisite : Option String
  pub boundary : Option String
  pub optional_indirect_proof : Option SessionGatewayIndirectProof

pub data SessionGatewayError : Type 0 where
  document_error : DocumentError → SessionGatewayError
  unknown_markers noncovered_markers missing_operations : List String → SessionGatewayError
  duplicate_route absent_operation : SessionGatewayRoute → SessionGatewayError
  stale_route : SessionGatewayRoute → OpenApiOperation → SessionGatewayError
  duplicate_operation_id : String → SessionGatewayError
  not_public : SessionGatewayCase → SessionGatewayError

abbrev pub RouteKey : Type 0
RouteKey = HttpMethod × String

abbrev pub route_key : SessionGatewayRoute → RouteKey
route_key r = (r.method, r.path)

route_key_dec : Discrete (HttpMethod × String)
route_key_dec = hlevel string_dec

instance unfoldable pub route_key_eq : Eq (HttpMethod × String)
unfolding route_key_dec
route_key_eq = record { dec = route_key_dec }

-- `{case.case_id: case for route in route_list for case in route.cases}`
unfoldable pub index_cases :
    List SessionGatewayCase → Dict String SessionGatewayCase → Dict String SessionGatewayCase
index_cases [] known = known
index_cases (c ∷ cs) known = index_cases cs (insert c.case_id c known)

unfoldable pub known_cases :
    List SessionGatewayRoute → Dict String SessionGatewayCase → Dict String SessionGatewayCase
unfolding index_cases
known_cases [] known = known
known_cases (r ∷ rs) known = known_cases rs (index_cases r.cases known)

abbrev pub is_covered : Option SessionGatewayCase → Bool
is_covered none = false
is_covered (some c) = c.status == covered

-- The two checks on the markers.
unfoldable pub check_case_markers :
    List SessionGatewayRoute → Dict String ℕ → Result SessionGatewayError (Unit {0})
unfolding known_cases sorted
check_case_markers routes marker_counts = do
  let known = known_cases routes []
  let unknown = sorted text_le (keep (λ i. not (contains (keys known) i)) (keys marker_counts))
  raise_if (not (null unknown)) (unknown_markers unknown)
  let noncovered =
      sorted text_le (keep (λ i. not (is_covered (lookup i known))) (keys marker_counts))
  raise_if (not (null noncovered)) (noncovered_markers noncovered)

abbrev pub must_be_public : SessionGatewayRoute → SessionGatewayCase → Bool
must_be_public r c = (c.status == covered || c.status == deferred) && not (r.exposure == public)

abbrev pub case_row :
    Dict String ℕ → SessionGatewayRoute → SessionGatewayCase → SessionGatewayCaseCoverage
case_row marker_counts r c = record {
  case_id = c.case_id;
  method = r.method;
  path = r.path;
  owner = r.owner;
  exposure = r.exposure;
  openapi_operation_id = r.openapi_operation_id;
  behavior = c.behavior;
  status = c.status;
  test_marker_count = get_or marker_counts c.case_id 0;
  reason = c.reason;
  prerequisite = c.prerequisite;
  boundary = c.boundary;
  optional_indirect_proof = c.optional_indirect_proof;
}

unfoldable pub case_rows :
    Dict String ℕ
    → SessionGatewayRoute
    → List SessionGatewayCase
    → Result SessionGatewayError (List SessionGatewayCaseCoverage)
case_rows marker_counts r [] = ok []
case_rows marker_counts r (c ∷ cs) = do
  raise_if (must_be_public r c) (not_public c)
  rest ← case_rows marker_counts r cs
  ok (case_row marker_counts r c ∷ rest)

-- The check of a route's operation; the result is the seen operation ids.
unfoldable pub check_operation :
    Dict String OpenApiOperation
    → SessionGatewayRoute
    → List String
    → Option String
    → Result SessionGatewayError (List String)
check_operation by_id r seen none = ok seen
check_operation by_id r seen (some i) = elim (lookup i by_id) [
  | none ↦ err (absent_operation r)
  | some operation ↦
      if r.method == operation.method && r.path == operation.path
      then if contains seen i then err (duplicate_operation_id i) else ok (i ∷ seen)
      else err (stale_route r operation)
]

-- The loop over the routes: the operation ids seen at its end, and the rows.
unfoldable pub check_routes :
    Dict String OpenApiOperation
    → Dict String ℕ
    → List SessionGatewayRoute
    → List String
    → List RouteKey
    → Result SessionGatewayError (List String × List SessionGatewayCaseCoverage)
unfolding check_operation case_rows
check_routes by_id marker_counts [] seen seen_keys = ok (seen, [])
check_routes by_id marker_counts (r ∷ rs) seen seen_keys = do
  raise_if (contains seen_keys (route_key r)) (duplicate_route r)
  seen_now ← check_operation by_id r seen r.openapi_operation_id
  rows ← case_rows marker_counts r r.cases
  later ← check_routes by_id marker_counts rs seen_now (route_key r ∷ seen_keys)
  ok (later.0, rows ++ later.1)

abbrev pub row_before : SessionGatewayCaseCoverage → SessionGatewayCaseCoverage → Bool
row_before a b = row_le (a.path, a.method, a.case_id) (b.path, b.method, b.case_id)

-- The operations of the document; its errors are raised as they are.
abbrev pub lift_document :
    Result DocumentError (List OpenApiOperation)
    → Result SessionGatewayError (List OpenApiOperation)
lift_document (ok operations) = ok operations
lift_document (err e) = err (document_error e)

unfoldable pub validate_routes :
    List SessionGatewayRoute
    → List OpenApiOperation
    → Dict String ℕ
    → Result SessionGatewayError (List SessionGatewayCaseCoverage)
unfolding check_case_markers index_by_id check_routes sorted
validate_routes routes operations marker_counts = do
  let by_id = index_by_id operations []
  check_case_markers routes marker_counts
  found ← check_routes by_id marker_counts routes [] []
  let missing = sorted text_le (keep (λ i. not (contains found.0 i)) (keys by_id))
  raise_if (not (null missing)) (missing_operations missing)
  ok (sorted row_before found.1)

-- `validate_session_gateway_inventory`; no counts are an empty dict.
unfoldable pub validate_session_gateway_inventory :
    List SessionGatewayRoute
    → Members
    → Dict String ℕ
    → Result SessionGatewayError (List SessionGatewayCaseCoverage)
unfolding validate_routes iter_operations
validate_session_gateway_inventory routes openapi_doc marker_counts = do
  operations ← lift_document (iter_operations session_gateway openapi_doc)
  validate_routes routes operations marker_counts

pub data ContractError : Type 0 where
  contract_document : DocumentError → ContractError
  no_logout : ContractError
  not_an_object : String → ContractError
  no_302 stale_200 location_schema : ContractError

-- `_mapping`
unfoldable pub mapping : Json → String → Result ContractError Members
mapping (object members) what = ok members
mapping _ what = err (not_an_object what)

abbrev pub is_logout : Option OpenApiOperation → Bool
is_logout none = false
is_logout (some o) = o.method == get && o.path == "/logout"

abbrev pub has_text : Json → String → Bool
has_text (text s) expected = s == expected
has_text _ expected = false

-- The checks of the documented redirect.
unfoldable pub check_logout_responses : Members → Result ContractError (Unit {0})
unfolding mapping
check_logout_responses responses = do
  raise_if (not (contains (member_names responses) "302")) no_302
  raise_if (contains (member_names responses) "200") stale_200
  response ← mapping (field responses "302") "302"
  headers ← mapping (field response "headers") "headers"
  location ← mapping (field headers "Location") "Location"
  schema ← mapping (field location "schema") "schema"
  raise_if
      (not (has_text (field schema "type") "string")
        || not (has_text (field schema "format") "uri"))
      location_schema

abbrev pub lift_contract :
    Result DocumentError (List OpenApiOperation) → Result ContractError (List OpenApiOperation)
lift_contract (ok operations) = ok operations
lift_contract (err e) = err (contract_document e)

-- `validate_session_gateway_contract`
unfoldable pub validate_session_gateway_contract : Members → Result ContractError (Unit {0})
unfolding index_by_id iter_operations check_logout_responses mapping
validate_session_gateway_contract openapi_doc = do
  operations ← lift_contract (iter_operations session_gateway openapi_doc)
  raise_if (not (is_logout (lookup "logout" (index_by_id operations [])))) no_logout
  paths ← mapping (field openapi_doc "paths") "paths"
  logout_path ← mapping (field paths "/logout") "/logout"
  logout_operation ← mapping (field logout_path "get") "get"
  responses ← mapping (field logout_operation "responses") "responses"
  check_logout_responses responses
