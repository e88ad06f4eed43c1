-- ===== src/OpenApi/Drift.antt =====
-- src/api_tests/openapi_drift.py: the structural differences of two contract documents.
pub mod Agreement
use budget_analyzer_api_test.Base.{
  ℕ, zero, suc, ◌+◌, ◌-◌, ◌≤◌, ◌<◌, ◌≡◌, refl, sym, ◌∙◌, ap, ◌≢◌, ◌↔◌, ◌⊎◌, Bool, true, false, ◌&&◌,
  ◌||◌, not, List, [], ◌∷◌, ◌++◌, map, arith, Eq, ◌==◌, contains, keep, if◌then◌else◌, Option, none,
  some, inl, inr, Bool-cases, Option-cases, String, ◌<>◌, contains-append, contains-keep,
  all-contains, all-ext, any-ext, null-keep-not, null-keep, all-map, any-map, null-map,
  contains-map-keep, all-and, All-map, All-of_contains, all_mono, all_of_contains, ltb, leb, all,
  any, null, nodup, length, All, string_eq, nat_eq, ==_self, eq_of_==, ne_of_==, implies,
  null-append, length-append, bool_eq, option_eq, are_fresh, are_fresh-cons, are_fresh-append,
  nodup-append, are_fresh_union,
}
use budget_analyzer_api_test.Base.Dict.{
  Dict, keys, lookup, get_or, insert, lookup-insert, contains-keys-insert, lookup-eq-none_iff,
  lookup-tabulate, keys-tabulate, length-insert, are_new, are_new-insert,
}
use budget_analyzer_api_test.Base.Sort.{
  sorted, contains-sorted, mem-sorted, sorted-All, sorted_perm, length-sorted, null-sorted,
  all-sorted, any-sorted,
}
use budget_analyzer_api_test.Base.Result.{
  Result, ok, err, ◌>>=◌, ◌>>◌, raise_if, >>=-eq-ok, raise_if-eq-ok, raise_if-then, ok-injective,
}
use budget_analyzer_api_test.Base.Text.{text_le}
use budget_analyzer_api_test.OpenApi.{HttpMethod, method_text}
use budget_analyzer_api_test.OpenApi.Document.{
  Json, Items, Members, null_value, boolean, number, text, array, object, no_items, item,
  no_members, member, field, member_names, as_object, Candidate, candidates,
}

-- `True == 1` and `False == 0`
abbrev pub truth_number : Bool → String
truth_number true = "1"
truth_number false = "0"

-- `a == b` on JSON values: dicts are equal whatever the order of their members, and a number is equal
-- to every other of its value.
unfoldable mutual
  unfolding string_eq bool_eq nat_eq

  pub json_eq : Json → Json → Bool
  json_eq null_value null_value = true
  json_eq (boolean a) (boolean b) = a == b
  json_eq (boolean a) (number n) = truth_number a == n
  json_eq (number m) (boolean b) = m == truth_number b
  json_eq (number m) (number n) = m == n
  json_eq (text s) (text t) = s == t
  json_eq (array a) (array b) = items_eq a b
  json_eq (object a) (object b) =
      length (member_names a) == length (member_names b) && members_in a b
  json_eq _ _ = false

  pub items_eq : Items → Items → Bool
  items_eq no_items no_items = true
  items_eq (item a as') (item b bs) = json_eq a b && items_eq as' bs
  items_eq _ _ = false

  pub members_in : Members → Members → Bool
  members_in no_members b = true
  members_in (member key value rest) b =
      contains (member_names b) key && json_eq value (field b key) && members_in rest b

pub data DriftChange : Type 0 where
  added removed changed : DriftChange

pub record OpenApiDifference : Type 0 where
  pub location : String
  pub change : DriftChange
  pub baseline : Option String
  pub live : Option String

pub record OperationContract : Type 0 where
  pub method : HttpMethod
  pub path : String
  pub parameters : Json
  pub request_body : Json
  pub responses : Json

pub data DriftError : Type 0 where
  no_paths components_not_object schemas_not_object : DriftError
  operation_not_object missing_operation_id : HttpMethod → String → DriftError
  duplicate_operation_id : String → DriftError

-- `members.get("parameters", [])`
abbrev pub parameters_of : Members → Json
parameters_of members =
    if contains (member_names members) "parameters"
    then field members "parameters"
    else array no_items

-- `isinstance(value, str) and value`
abbrev pub operation_id_of : Json → Option String
operation_id_of (text s) = if s == "" then none else some s
operation_id_of _ = none

abbrev pub contract_of : Candidate → Members → OperationContract
contract_of c raw = record {
  method = c.method;
  path = c.path;
  parameters = array (item (parameters_of c.path_item) (item (parameters_of raw) no_items));
  request_body = field raw "requestBody";
  responses = field raw "responses";
}

unfoldable pub read_contracts :
    List Candidate
    → Dict String OperationContract
    → Result DriftError (Dict String OperationContract)
read_contracts [] contracts = ok contracts
read_contracts (c ∷ cs) contracts = elim (as_object c.value) [
  | none ↦ err (operation_not_object c.method c.path)
  | some raw ↦ elim (operation_id_of (field raw "operationId")) [
    | none ↦ err (missing_operation_id c.method c.path)
    | some i ↦
        let next = read_contracts cs (insert i (contract_of c raw) contracts) in
        if contains (keys contracts) i then err (duplicate_operation_id i) else next
  ]
]

-- `_operation_contracts`
unfoldable pub operation_contracts : Members → Result DriftError (Dict String OperationContract)
unfolding read_contracts candidates
operation_contracts document = elim (as_object (field document "paths")) [
  | none ↦ err no_paths
  | some paths ↦ read_contracts (candidates paths) []
]

-- A mapping that may be missing, which is then empty.
abbrev pub optional_object : DriftError → Json → Result DriftError Members
optional_object e null_value = ok no_members
optional_object e (object members) = ok members
optional_object e _ = err e

-- `_component_schemas`
unfoldable pub component_schemas : Members → Result DriftError Members
component_schemas document = do
  components ← optional_object components_not_object (field document "components")
  optional_object schemas_not_object (field components "schemas")

abbrev pub rendered : OperationContract → String
rendered c = method_text c.method <> (" " <> c.path)

-- `_append_scalar_change` and `_append_structural_change`: what they append
unfoldable pub scalar_change : String → String → String → List OpenApiDifference
scalar_change location baseline live =
    if baseline == live
    then []
    else record {
      location = location;
      change = changed;
      baseline = some baseline;
      live = some live;
    }
      ∷ []

abbrev pub bare : String → DriftChange → OpenApiDifference
bare location change = record { location = location; change = change; baseline = none; live = none }

unfoldable pub structural_change : String → Json → Json → List OpenApiDifference
structural_change location baseline live =
    if json_eq baseline live then [] else bare location changed ∷ []

-- The five comparisons of an operation that both documents have.
unfoldable pub operation_changes :
    String → OperationContract → OperationContract → List OpenApiDifference
unfolding scalar_change structural_change
operation_changes i b l =
    let at = "operations." <> i in
    scalar_change (at <> ".method") (method_text b.method) (method_text l.method)
    ++ (scalar_change (at <> ".path") b.path l.path
        ++ (structural_change (at <> ".parameters") b.parameters l.parameters
            ++ (structural_change (at <> ".requestBody") b.request_body l.request_body
                ++ structural_change (at <> ".responses") b.responses l.responses)))

abbrev pub removed_operation : String → Option OperationContract → OpenApiDifference
removed_operation i o = record {
  location = "operations." <> i;
  change = removed;
  baseline = elim o [ none ↦ none | some c ↦ some (rendered c) ];
  live = none;
}

abbrev pub added_operation : String → Option OperationContract → OpenApiDifference
added_operation i o = record {
  location = "operations." <> i;
  change = added;
  baseline = none;
  live = elim o [ none ↦ none | some c ↦ some (rendered c) ];
}

abbrev pub common_changes :
    String → Option OperationContract → Option OperationContract → List OpenApiDifference
common_changes i (some b) (some l) = operation_changes i b l
common_changes i _ _ = []

-- The loop that extends the list for every key.
abbrev pub gather : (String → List OpenApiDifference) → List String → List OpenApiDifference
gather f [] = []
gather f (i ∷ is) = f i ++ gather f is

-- `sorted(a - b)` and `sorted(a & b)`
abbrev pub only_in : List String → List String → List String
only_in a b = sorted text_le (keep (λ i. not (contains b i)) a)

abbrev pub in_both : List String → List String → List String
in_both a b = sorted text_le (keep (contains b) a)

unfoldable pub operation_differences :
    Dict String OperationContract → Dict String OperationContract → List OpenApiDifference
unfolding operation_changes sorted
operation_differences b l =
    map (λ i. removed_operation i (lookup i b)) (only_in (keys b) (keys l))
    ++ (map (λ i. added_operation i (lookup i l)) (only_in (keys l) (keys b))
        ++ gather (λ i. common_changes i (lookup i b) (lookup i l)) (in_both (keys b) (keys l)))

abbrev pub schema_location : String → String
schema_location name = "components.schemas." <> name

-- `_append_schema_differences`
unfoldable pub schema_differences : Members → Members → List OpenApiDifference
unfolding structural_change sorted
schema_differences b l =
    map (λ n. bare (schema_location n) removed) (only_in (member_names b) (member_names l))
    ++ (map (λ n. bare (schema_location n) added) (only_in (member_names l) (member_names b))
        ++ gather (λ n. structural_change (schema_location n) (field b n) (field l n))
            (in_both (member_names b) (member_names l)))

unfoldable pub compare_openapi_documents :
    Members → Members → Result DriftError (List OpenApiDifference)
unfolding operation_contracts component_schemas operation_differences schema_differences
compare_openapi_documents baseline live = do
  b ← operation_contracts baseline
  l ← operation_contracts live
  schemas ← component_schemas baseline
  live_schemas ← component_schemas live
  ok (operation_differences b l ++ schema_differences schemas live_schemas)
