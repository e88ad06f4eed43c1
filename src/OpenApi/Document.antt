-- ===== src/OpenApi/Document.antt =====
-- src/api_tests/openapi.py: JSON values and the operations that a contract document lists.
pub mod Entries
use budget_analyzer_api_test.Base.{
  ℕ, zero, suc, ◌+◌, ◌-◌, ◌≤◌, ◌<◌, ◌≡◌, refl, sym, ◌∙◌, ap, ◌≢◌, ◌↔◌, ◌⊎◌, Bool, true, false, ◌&&◌,
  ◌||◌, not, List, [], ◌∷◌, ◌++◌, map, arith, Eq, ◌==◌, contains, keep, if◌then◌else◌, Option, none,
  some, inl, inr, Bool-cases, Option-cases, String, ◌<>◌, contains-append, contains-keep,
  all-contains, all-ext, any-ext, null-keep-not, null-keep, all-map, any-map, null-map,
  contains-map-keep, all-and, All-map, All-of_contains, all_mono, all_of_contains, ltb, leb, all,
  any, null, nodup, length, All, string_eq, nat_eq, ==_self, eq_of_==, ne_of_==, implies,
  null-append, length-append, bool_eq, option_eq,
}
use budget_analyzer_api_test.Base.Dict.{
  Dict, keys, lookup, get_or, insert, lookup-insert, contains-keys-insert, lookup-eq-none_iff,
  lookup-tabulate, keys-tabulate, length-insert,
}
use budget_analyzer_api_test.Base.Sort.{
  sorted, contains-sorted, mem-sorted, sorted-All, sorted_perm, length-sorted, null-sorted,
  all-sorted, any-sorted,
}
use budget_analyzer_api_test.Base.Result.{
  Result, ok, err, ◌>>=◌, ◌>>◌, raise_if, >>=-eq-ok, raise_if-eq-ok, raise_if-then, ok-injective,
}
use budget_analyzer_api_test.Base.Text.{strip}
use budget_analyzer_api_test.OpenApi.{
  OpenApiContractKey, HttpMethod, get, post, put, patch, delete, OpenApiOperation,
}

-- `JsonValue`, also for parsed YAML. A number is the canonical decimal text of its value. An object's members
-- are in the order of the document, and its keys are distinct, since it is a parsed dict.
mutual
  pub data Json : Type 0 where
    null_value : Json
    boolean : Bool → Json
    number text : String → Json
    array : Items → Json
    object : Members → Json

  pub data Items : Type 0 where
    no_items : Items
    item : Json → Items → Items

  pub data Members : Type 0 where
    no_members : Members
    member : String → Json → Members → Members

-- `value.get(key)`, where a missing member is None.
abbrev pub field : Members → String → Json
field no_members key = null_value
field (member k value rest) key = if key == k then value else field rest key

abbrev pub member_names : Members → List String
member_names no_members = []
member_names (member k _ rest) = k ∷ member_names rest

-- The members of a dict, for a value that is one.
abbrev pub as_object : Json → Option Members
as_object (object members) = some members
as_object _ = none

abbrev pub as_text : Json → Option String
as_text (text s) = some s
as_text _ = none

-- `isinstance(value, str) and value.strip()`
unfoldable pub filled_text : Json → Option String
unfolding strip
filled_text (text s) = if strip s == "" then none else some s
filled_text _ = none

-- A method name in `HTTP_METHODS`, normalised as `_normalize_method` does.
abbrev pub method_of : String → Option HttpMethod
method_of key =
    if key == "get"
    then some get
    else if key == "post"
    then some post
    else if key == "put"
    then some put
    else if key == "patch"
    then some patch
    else if key == "delete"
    then some delete
    else none

-- `_OpenApiOperationEntry`
pub record OpenApiOperationEntry : Type 0 where
  pub operation : OpenApiOperation
  pub path_item : Members
  pub raw_operation : Members

pub data DocumentError : Type 0 where
  no_paths : DocumentError
  operation_not_object missing_operation_id : HttpMethod → String → DocumentError
  duplicate_operation_id : OpenApiOperation → OpenApiOperation → DocumentError

-- A member of a path item that the loops reach with a supported method.
pub record Candidate : Type 0 where
  pub path : String
  pub path_item : Members
  pub method : HttpMethod
  pub value : Json

unfoldable pub path_candidates : String → Members → Members → List Candidate
path_candidates path whole no_members = []
path_candidates path whole (member key value rest) =
    let later = path_candidates path whole rest in
    elim (method_of key) [
      | none ↦ later
      | some method ↦
          record { path = path; path_item = whole; method = method; value = value } ∷ later
    ]

-- The members that the two nested loops treat, in their order.
unfoldable pub candidates : Members → List Candidate
unfolding path_candidates
candidates no_members = []
candidates (member path value rest) = elim (as_object value) [
  | none ↦ candidates rest
  | some members ↦ path_candidates path members members ++ candidates rest
]

module _ (contract : OpenApiContractKey) where
  unfoldable pub read_entry : Candidate → Result DocumentError OpenApiOperationEntry
  read_entry c = elim (as_object c.value) [
    | none ↦ err (operation_not_object c.method c.path)
    | some raw ↦ elim (filled_text (field raw "operationId")) [
      | none ↦ err (missing_operation_id c.method c.path)
      | some operation_id ↦ ok (record {
        operation = record {
          contract = contract;
          operation_id = operation_id;
          method = c.method;
          path = c.path;
        };
        path_item = c.path_item;
        raw_operation = raw;
      })
    ]
  ]

  -- The bodies of the loops; `by_id` is `operations_by_id`.
  unfoldable pub read_entries :
      List Candidate
      → Dict String OpenApiOperation
      → Result DocumentError (List OpenApiOperationEntry)
  unfolding read_entry
  read_entries [] by_id = ok []
  read_entries (c ∷ cs) by_id = do
    entry ← read_entry c
    elim (lookup entry.operation.operation_id by_id) [
      | some previous ↦ err (duplicate_operation_id previous entry.operation)
      | none ↦ do
        rest ← read_entries cs (insert entry.operation.operation_id entry.operation by_id)
        ok (entry ∷ rest)
    ]

  unfoldable pub read_paths : Json → Result DocumentError (List OpenApiOperationEntry)
  unfolding read_entries candidates
  read_paths (object paths) = read_entries (candidates paths) []
  read_paths _ = err no_paths

  -- `_validated_operation_entries`
  unfoldable pub validated_operation_entries :
      Members → Result DocumentError (List OpenApiOperationEntry)
  unfolding read_paths
  validated_operation_entries document = read_paths (field document "paths")

  -- `iter_operations`, consumed whole
  unfoldable pub iter_operations : Members → Result DocumentError (List OpenApiOperation)
  unfolding validated_operation_entries
  iter_operations document = do
    entries ← validated_operation_entries document
    ok (map (λ e. e.operation) entries)
