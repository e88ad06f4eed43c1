-- ===== src/OpenApi/Requests/Documented.antt =====
-- Which operations document a response, and what the markers of a request say.
use budget_analyzer_api_test.Base.{
  Bool, false, none, some, All, ◌≡◌, refl, sym, ◌∙◌, ap, ◌&&◌, ◌||◌, not, List, [], ◌∷◌, map, arith,
  ◌==◌, contains, inl, inr, Bool-cases, String, any, string_eq, nat_eq, bool_eq, option_eq,
}
use budget_analyzer_api_test.Base.Sort.{contains-sorted}
use budget_analyzer_api_test.Base.Result.{ok, >>=-eq-ok, ok-injective}
use budget_analyzer_api_test.OpenApi.{OpenApiContractKey, get, delete, method_eq, OpenApiOperation}
use budget_analyzer_api_test.OpenApi.Document.{
  Json, null_value, boolean, number, text, array, object, no_members, member, field, filled_text,
  as_object, member_names, Candidate, Members, OpenApiOperationEntry, validated_operation_entries,
}
use budget_analyzer_api_test.OpenApi.Document.Entries.{
  IsNamed, candidate_of, documented, validated_operation_entries_iff,
}
use budget_analyzer_api_test.OpenApi.Requests.{
  documents_response, sorts_before, documenting, operations_documenting_response,
  OpenApiRequestCase, readonly, production_safe, mutation, destructive, safety_marker_eq,
  destructive_operation_ids, unauthenticated_request_safety_markers,
}

-- The status is a name among the members of an operation's responses.
abbrev pub has_member : String → Members → Bool
has_member name no_members = false
has_member name (member key value rest) = name == key || has_member name rest

abbrev pub lists_status : String → Json → Bool
lists_status status (object responses) = has_member status responses
lists_status status null_value = false
lists_status status (boolean b) = false
lists_status status (number n) = false
lists_status status (text s) = false
lists_status status (array items) = false

abbrev pub field_is : String → Json → Bool
field_is i (text s) = i == s
field_is i null_value = false
field_is i (boolean b) = false
field_is i (number n) = false
field_is i (array items) = false
field_is i (object ms) = false

-- The member of a path item is an operation with the id, which lists the status.
abbrev pub is_documenting : String → String → Candidate → Bool
is_documenting i status c = elim c.value [
  | object raw ↦ field_is i (field raw "operationId") && lists_status status (field raw "responses")
  | _ ↦ false
]

has_member-names :
    (name : String) (ms : Members) → contains (member_names ms) name ≡ has_member name ms
has_member-names name no_members = refl
has_member-names name (member key value rest) = ground (arith, has_member-names name rest)

documents_response-lists_status :
    (raw : Members) (status : String)
    → documents_response raw status ≡ lists_status status (field raw "responses")
documents_response-lists_status raw status = listed (field raw "responses")
  where
    listed :
        (value : Json)
        → (let out : Bool = elim (as_object value) [
          | none ↦ false
          | some responses ↦ contains (member_names responses) status
        ] in
            out)
          ≡ lists_status status value
    listed (object responses) = has_member-names status responses
    listed null_value = refl
    listed (boolean b) = refl
    listed (number n) = refl
    listed (text s) = refl
    listed (array items) = refl

named_field :
    (value : Json) (i j : String) → filled_text value ≡ some j → field_is i value ≡ (i == j)
unfolding filled_text
named_field (text s) i j h = ground arith
named_field null_value i j h = cc
named_field (boolean b) i j h = cc
named_field (number n) i j h = cc
named_field (array items) i j h = cc
named_field (object ms) i j h = cc

module _ (contract : OpenApiContractKey) (status_key : String) where
  contains-documenting :
      (es : List OpenApiOperationEntry) (i : String)
      → All (IsNamed contract) es
      → contains (map (λ (o : OpenApiOperation). o.operation_id) (documenting status_key es)) i
        ≡ any (is_documenting i status_key) (map candidate_of es)
  contains-documenting [] i h = refl
  contains-documenting (e ∷ es) i ((id_named, _), h) = ground (
    arith,
    documents_response-lists_status e.raw_operation status_key,
    named_field (field e.raw_operation "operationId") i e.operation.operation_id id_named,
    contains-documenting es i h,
  )

  -- An operation is found for a status exactly when the document has it: where the search succeeds,
  -- the document's paths are an object, and an id is found exactly when a member of a path item that
  -- is named as a method has that `operationId` and has the status among its `responses`.
  pub operations_documenting_response_lem :
      (openapi_doc : Members) (found : List OpenApiOperation)
      → operations_documenting_response contract openapi_doc status_key ≡ ok found
      → (paths : Members) × (field openapi_doc "paths" ≡ object paths)
        × ((i : String)
            → contains (map (λ o. o.operation_id) found) i
              ≡ any (is_documenting i status_key) (documented paths))
  unfolding operations_documenting_response
  operations_documenting_response_lem openapi_doc found h =
      let (es, read, done) = >>=-eq-ok (validated_operation_entries contract openapi_doc) _ h in
      let (paths, is_object, reading) =
        (validated_operation_entries_iff contract openapi_doc es).0 read in
      (
        paths,
        is_object,
        λ i.
            ap (λ (os : List OpenApiOperation). contains (map (λ o. o.operation_id) os) i)
              (sym (ok-injective _ _ done))
            ∙ contains-sorted sorts_before (λ (o : OpenApiOperation). o.operation_id)
                (documenting status_key es) i
            ∙ contains-documenting es i reading.named
            ∙ ap (any (is_documenting i status_key)) reading.whole,
      )

-- A request is marked read-only, and safe for production, exactly when its method is GET; every other
-- one is marked as a mutation, and as destructive exactly when it deletes or is listed as destructive.
pub safety_markers_lem :
    (c : OpenApiRequestCase)
    → let markers = unauthenticated_request_safety_markers c in
      (contains markers readonly ≡ (c.method == get))
      × (contains markers production_safe ≡ (c.method == get))
      × (contains markers mutation ≡ not (c.method == get))
      × (contains markers destructive ≡ (
          not (c.method == get)
          && (c.method == delete || contains destructive_operation_ids c.operation_id)))
unfolding unauthenticated_request_safety_markers safety_marker_eq
safety_markers_lem c = elim (Bool-cases (c.method == get)) [
  | inl safe ↦ rw safe (refl, refl, refl, refl)
  | inr unsafe ↦
      elim (Bool-cases (c.method == delete || contains destructive_operation_ids c.operation_id)) [
        | inl listed ↦ rw (unsafe, listed) (refl, refl, refl, refl)
        | inr other ↦ rw (unsafe, other) (refl, refl, refl, refl)
      ]
]
