-- ===== src/SessionGateway/Load.antt =====
-- session_gateway_inventory.py: reading the inventory from the parsed YAML file. A value tested for
-- membership in a set of names is hashable text in every accepted file; one that is not text is
-- refused here as an unsupported value.
pub mod Classified
pub mod Routes
use budget_analyzer_api_test.Base.{
  ℕ, zero, suc, ◌+◌, ◌-◌, ◌≤◌, ◌<◌, ◌≡◌, refl, sym, ◌∙◌, ap, ◌≢◌, ◌↔◌, ◌⊎◌, Bool, true, false, ◌&&◌,
  ◌||◌, not, List, [], ◌∷◌, ◌++◌, map, arith, Eq, ◌==◌, contains, keep, if◌then◌else◌, Option, none,
  some, inl, inr, Bool-cases, Option-cases, String, ◌<>◌, contains-append, contains-keep,
  all-contains, all-ext, any-ext, null-keep-not, null-keep, all-map, any-map, null-map,
  contains-map-keep, all-and, All-map, All-of_contains, all_mono, all_of_contains, ltb, leb, all,
  any, null, nodup, length, All, string_eq, nat_eq, ==_self, eq_of_==, ne_of_==, implies,
  null-append, length-append, bool_eq, option_eq,
}
use budget_analyzer_api_test.Base.Dict.{
  Dict, keys, lookup, get_or, insert, lookup-insert, contains-keys-insert, lookup-eq-none_iff,
  lookup-tabulate, keys-tabulate, length-insert, are_new, are_new-insert,
}
use budget_analyzer_api_test.Base.Sort.{
  sorted, contains-sorted, mem-sorted, sorted-All, sorted_perm, length-sorted, null-sorted,
  all-sorted, any-sorted,
}
use budget_analyzer_api_test.Base.Result.{
  Result, ok, err, ◌>>=◌, ◌>>◌, raise_if, >>=-eq-ok, raise_if-eq-ok, raise_if-then, ok-injective,
}
use budget_analyzer_api_test.Base.Text.{text_le, strip, starts_with_slash}
use budget_analyzer_api_test.Config.{is_some, is_none}
use budget_analyzer_api_test.OpenApi.{HttpMethod}
use budget_analyzer_api_test.OpenApi.Document.{
  Json, Items, Members, null_value, boolean, number, text, array, object, no_items, item,
  no_members, member, field, member_names, as_object, as_text, filled_text,
}
use budget_analyzer_api_test.SessionGateway.{
  RouteOwner, RouteExposure, InventoryStatus, covered, deferred, untestable, inventory_status_eq,
  SessionGatewayIndirectProof, SessionGatewayCase, SessionGatewayRoute, owner_of, exposure_of,
  status_of, method_of,
}

pub data LoadError : Type 0 where
  not_a_mapping no_routes : LoadError
  route_not_mapping unsupported_method invalid_path unsupported_owner : LoadError
  unsupported_exposure invalid_operation_id no_cases : LoadError
  case_not_mapping missing_case_id missing_behavior unsupported_status : LoadError
  invalid_reason invalid_prerequisite invalid_boundary : LoadError
  covered_declares_deferral : LoadError
  deferred_needs_reason deferred_declares_boundary : LoadError
  untestable_needs_reason untestable_declares_prerequisite : LoadError
  proof_not_untestable proof_not_mapping : LoadError
  proof_unknown_fields : List String → LoadError
  proof_requires : String → LoadError
  duplicate_case_id : String → LoadError

-- `isinstance(value, str) and value`
abbrev pub non_empty_text : Json → Option String
non_empty_text (text s) = if s == "" then none else some s
non_empty_text _ = none

-- A value by its name in a fixed set.
abbrev pub named : {A : Type 0} → (String → Option A) → Json → Option A
named name_of (text s) = name_of s
named name_of _ = none

-- `value is not None and (not isinstance(value, str) or not value.strip())` is refused.
unfoldable pub optional_text : LoadError → Json → Result LoadError (Option String)
unfolding filled_text
optional_text e null_value = ok none
optional_text e value = elim (filled_text value) [ none ↦ err e | some s ↦ ok (some s) ]

-- The same for a text that may be any but the empty one.
unfoldable pub optional_id : Json → Result LoadError (Option String)
optional_id null_value = ok none
optional_id value = elim (non_empty_text value) [
  | none ↦ err invalid_operation_id
  | some s ↦ ok (some s)
]

abbrev pub require : {A : Type 0} → LoadError → Option A → Result LoadError A
require e none = err e
require e (some a) = ok a

abbrev pub classification_checks :
    InventoryStatus → Option String → Option String → Option String → Result LoadError (Unit {0})
classification_checks covered reason prerequisite boundary =
    raise_if (is_some reason || is_some prerequisite || is_some boundary) covered_declares_deferral
classification_checks deferred reason prerequisite boundary = do
  raise_if (is_none reason || is_none prerequisite) deferred_needs_reason
  raise_if (is_some boundary) deferred_declares_boundary
classification_checks untestable reason prerequisite boundary = do
  raise_if (is_none reason || is_none boundary) untestable_needs_reason
  raise_if (is_some prerequisite) untestable_declares_prerequisite

-- `_validate_classification`
unfoldable pub validate_classification :
    InventoryStatus
    → Option String
    → Option String
    → Option String
    → Bool
    → Result LoadError (Unit {0})
validate_classification status reason prerequisite boundary has_proof = do
  classification_checks status reason prerequisite boundary
  raise_if (has_proof && not (status == untestable)) proof_not_untestable

abbrev pub proof_fields : List String
proof_fields = "limitation" ∷ "prerequisite" ∷ "scenario" ∷ []

unfoldable pub load_proof_members : Members → Result LoadError SessionGatewayIndirectProof
unfolding filled_text sorted
load_proof_members raw = do
  let extra = sorted text_le (keep (λ k. not (contains proof_fields k)) (member_names raw))
  raise_if (not (null extra)) (proof_unknown_fields extra)
  limitation ← require (proof_requires "limitation") (filled_text (field raw "limitation"))
  prerequisite ← require (proof_requires "prerequisite") (filled_text (field raw "prerequisite"))
  scenario ← require (proof_requires "scenario") (filled_text (field raw "scenario"))
  ok (record { scenario = scenario; prerequisite = prerequisite; limitation = limitation })

-- `_load_optional_indirect_proof`
unfoldable pub load_optional_indirect_proof :
    Json → Result LoadError (Option SessionGatewayIndirectProof)
unfolding load_proof_members
load_optional_indirect_proof null_value = ok none
load_optional_indirect_proof (object raw) = load_proof_members raw >>= (λ proof. ok (some proof))
load_optional_indirect_proof _ = err proof_not_mapping

abbrev pub is_present : Json → Bool
is_present null_value = false
is_present _ = true

unfoldable pub load_case_members : Members → Result LoadError SessionGatewayCase
unfolding optional_text validate_classification load_optional_indirect_proof
load_case_members raw = do
  case_id ← require missing_case_id (non_empty_text (field raw "id"))
  behavior ← require missing_behavior (non_empty_text (field raw "behavior"))
  status ← require unsupported_status (named status_of (field raw "status"))
  reason ← optional_text invalid_reason (field raw "reason")
  prerequisite ← optional_text invalid_prerequisite (field raw "prerequisite")
  boundary ← optional_text invalid_boundary (field raw "boundary")
  validate_classification status reason prerequisite boundary
      (is_present (field raw "optional_indirect_proof"))
  proof ← load_optional_indirect_proof (field raw "optional_indirect_proof")
  ok (record {
    case_id = case_id;
    behavior = behavior;
    status = status;
    reason = reason;
    prerequisite = prerequisite;
    boundary = boundary;
    optional_indirect_proof = proof;
  })

-- `_load_case`
unfoldable pub load_case : Json → Result LoadError SessionGatewayCase
unfolding load_case_members
load_case (object raw) = load_case_members raw
load_case _ = err case_not_mapping

unfoldable pub load_cases : Items → Result LoadError (List SessionGatewayCase)
unfolding load_case
load_cases no_items = ok []
load_cases (item raw rest) = do first ← load_case raw; others ← load_cases rest; ok (first ∷ others)

-- `isinstance(path, str) and path.startswith("/")`
abbrev pub rooted_text : Json → Option String
rooted_text (text s) = if starts_with_slash s then some s else none
rooted_text _ = none

-- `isinstance(raw_cases, list) and raw_cases`
abbrev pub filled_list : Json → Option Items
filled_list (array (item first rest)) = some (item first rest)
filled_list _ = none

unfoldable pub load_route_members : Members → Result LoadError SessionGatewayRoute
unfolding load_cases optional_id
load_route_members raw = do
  method ← require unsupported_method (named method_of (field raw "method"))
  path ← require invalid_path (rooted_text (field raw "path"))
  owner ← require unsupported_owner (named owner_of (field raw "owner"))
  exposure ← require unsupported_exposure (named exposure_of (field raw "exposure"))
  operation_id ← optional_id (field raw "openapi_operation_id")
  raw_cases ← require no_cases (filled_list (field raw "cases"))
  cases ← load_cases raw_cases
  ok (record {
    method = method;
    path = path;
    owner = owner;
    exposure = exposure;
    openapi_operation_id = operation_id;
    cases = cases;
  })

-- `_load_route`
unfoldable pub load_route : Json → Result LoadError SessionGatewayRoute
unfolding load_route_members
load_route (object raw) = load_route_members raw
load_route _ = err route_not_mapping

-- The case ids of a route are added one at a time; a known one is refused.
unfoldable pub add_case_ids : List SessionGatewayCase → List String → Result LoadError (List String)
add_case_ids [] seen = ok seen
add_case_ids (c ∷ cs) seen = do
  raise_if (contains seen c.case_id) (duplicate_case_id c.case_id)
  add_case_ids cs (c.case_id ∷ seen)

unfoldable pub load_routes : Items → List String → Result LoadError (List SessionGatewayRoute)
unfolding load_route add_case_ids
load_routes no_items seen = ok []
load_routes (item raw rest) seen = do
  route ← load_route raw
  seen_now ← add_case_ids route.cases seen
  others ← load_routes rest seen_now
  ok (route ∷ others)

abbrev pub as_list : Json → Option Items
as_list (array is) = some is
as_list _ = none

-- `load_session_gateway_inventory`, on the parsed file
unfoldable pub load_session_gateway_inventory : Json → Result LoadError (List SessionGatewayRoute)
unfolding load_routes
load_session_gateway_inventory raw_inventory = do
  inventory ← require not_a_mapping (as_object raw_inventory)
  raw_routes ← require no_routes (as_list (field inventory "routes"))
  load_routes raw_routes []
