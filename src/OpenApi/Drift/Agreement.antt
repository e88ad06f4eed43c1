-- ===== src/OpenApi/Drift/Agreement.antt =====
-- When two contract documents have no differences.
use budget_analyzer_api_test.Base.{
  ◌≡◌, refl, sym, ◌∙◌, ap, Bool, true, ◌&&◌, not, List, [], ◌∷◌, ◌++◌, arith, ◌==◌, contains, keep,
  Option, none, some, String, all-ext, null-keep-not, null-map, all, null, string_eq, nat_eq,
  null-append, bool_eq, option_eq,
}
use budget_analyzer_api_test.Base.Dict.{Dict, keys, lookup}
use budget_analyzer_api_test.Base.Sort.{null-sorted, all-sorted}
use budget_analyzer_api_test.Base.Result.{ok, >>=-eq-ok, ok-injective}
use budget_analyzer_api_test.Base.Text.{text_le}
use budget_analyzer_api_test.OpenApi.{method_text}
use budget_analyzer_api_test.OpenApi.Document.{Json, Members, field, member_names}
use budget_analyzer_api_test.OpenApi.Drift.{
  json_eq, OpenApiDifference, OperationContract, operation_contracts, component_schemas,
  removed_operation, added_operation, removed, added, scalar_change, structural_change,
  operation_changes, common_changes, gather, only_in, in_both, bare, schema_location,
  operation_differences, schema_differences, compare_openapi_documents,
}

-- The five compared parts are the same.
abbrev pub same_contract : OperationContract → OperationContract → Bool
same_contract b l =
    method_text b.method == method_text l.method
    && b.path == l.path
    && json_eq b.parameters l.parameters
    && json_eq b.request_body l.request_body
    && json_eq b.responses l.responses

-- Two entries are the same, if both are there.
abbrev pub agree : Option OperationContract → Option OperationContract → Bool
agree (some b) (some l) = same_contract b l
agree _ _ = true

abbrev pub same_names : List String → List String → Bool
same_names a b = all (contains b) a && all (contains a) b

abbrev pub same_operations : Dict String OperationContract → Dict String OperationContract → Bool
same_operations b l =
    same_names (keys b) (keys l) && all (λ i. agree (lookup i b) (lookup i l)) (keys b)

abbrev pub same_schemas : Members → Members → Bool
same_schemas b l =
    same_names (member_names b) (member_names l)
    && all (λ n. json_eq (field b n) (field l n)) (member_names b)

null-only_in : (a b : List String) → null (only_in a b) ≡ all (contains b) a
null-only_in a b =
    ground
      (arith, null-sorted text_le (keep (λ i. not (contains b i)) a), null-keep-not (contains b) a)

null-gather :
    (f : String → List OpenApiDifference) (is : List String)
    → null (gather f is) ≡ all (λ i. null (f i)) is
null-gather f [] = refl
null-gather f (i ∷ is) = ground (arith, null-append (f i) (gather f is), null-gather f is)

-- Over the common names, where all names are common.
all-keep : (p q : String → Bool) (is : List String) → all q is ≡ true → all p (keep q is) ≡ all p is
all-keep p q [] h = refl
all-keep p q (i ∷ is) h = ground (arith, all-keep p q is)

null-in_both :
    (f : String → List OpenApiDifference) (a b : List String)
    → all (contains b) a ≡ true
    → null (gather f (in_both a b)) ≡ all (λ i. null (f i)) a
null-in_both f a b h =
    null-gather f (in_both a b)
    ∙ all-sorted text_le (λ i. null (f i)) (keep (contains b) a)
    ∙ all-keep (λ i. null (f i)) (contains b) a h

null-operation_changes :
    (i : String) (b l : OperationContract) → null (operation_changes i b l) ≡ same_contract b l
unfolding operation_changes scalar_change structural_change
null-operation_changes i b l = ground arith

null-common_changes :
    (i : String) (b l : Option OperationContract) → null (common_changes i b l) ≡ agree b l
null-common_changes i none l = refl
null-common_changes i (some b) none = refl
null-common_changes i (some b) (some l) = null-operation_changes i b l

-- Three lists of differences, of which the last one is read where the first two are empty.
null-three :
    (removals additions changes : List OpenApiDifference) (r a c : Bool)
    → null removals ≡ r
    → null additions ≡ a
    → (r ≡ true → null changes ≡ c)
    → null (removals ++ (additions ++ changes)) ≡ ((r && a) && c)
null-three removals additions changes r a c hr ha hc =
    ground (arith, null-append removals (additions ++ changes), null-append additions changes, hc)

null-operation_differences :
    (b l : Dict String OperationContract) → null (operation_differences b l) ≡ same_operations b l
unfolding operation_differences
null-operation_differences b l =
    null-three _ _ _ (all (contains (keys l)) (keys b)) (all (contains (keys b)) (keys l))
      (all (λ i. agree (lookup i b) (lookup i l)) (keys b))
      (null-map (λ i. removed_operation i (lookup i b)) (only_in (keys b) (keys l))
        ∙ null-only_in (keys b) (keys l))
      (null-map (λ i. added_operation i (lookup i l)) (only_in (keys l) (keys b))
        ∙ null-only_in (keys l) (keys b))
      (λ h.
        null-in_both (λ i. common_changes i (lookup i b) (lookup i l)) (keys b) (keys l) h
        ∙ all-ext (λ i. null (common_changes i (lookup i b) (lookup i l)))
            (λ i. agree (lookup i b) (lookup i l)) (keys b)
            (λ i. null-common_changes i (lookup i b) (lookup i l)))

null-structural_change :
    (location : String) (b l : Json) → null (structural_change location b l) ≡ json_eq b l
unfolding structural_change
null-structural_change location b l = ground arith

null-schema_differences : (b l : Members) → null (schema_differences b l) ≡ same_schemas b l
unfolding schema_differences
null-schema_differences b l =
    null-three _ _ _ (all (contains (member_names l)) (member_names b))
      (all (contains (member_names b)) (member_names l))
      (all (λ n. json_eq (field b n) (field l n)) (member_names b))
      (null-map (λ n. bare (schema_location n) removed) (only_in (member_names b) (member_names l))
        ∙ null-only_in (member_names b) (member_names l))
      (null-map (λ n. bare (schema_location n) added) (only_in (member_names l) (member_names b))
        ∙ null-only_in (member_names l) (member_names b))
      (λ h.
        null-in_both (λ n. structural_change (schema_location n) (field b n) (field l n))
          (member_names b) (member_names l) h
        ∙ all-ext (λ n. null (structural_change (schema_location n) (field b n) (field l n)))
            (λ n. json_eq (field b n) (field l n)) (member_names b)
            (λ n. null-structural_change (schema_location n) (field b n) (field l n)))

-- A comparison that returns has read the operations and the schemas of both documents, and it reports no
-- difference exactly when both have the same operation ids and schema names, the operations agree in
-- method, path, parameters, request body and responses, and the schemas are equal.
pub compare_openapi_documents_lem :
    (baseline live : Members) (differences : List OpenApiDifference)
    → compare_openapi_documents baseline live ≡ ok differences
    → (b l : Dict String OperationContract) × (schemas live_schemas : Members)
      × (operation_contracts baseline ≡ ok b)
      × (operation_contracts live ≡ ok l)
      × (component_schemas baseline ≡ ok schemas)
      × (component_schemas live ≡ ok live_schemas)
      × (null differences ≡ (same_operations b l && same_schemas schemas live_schemas))
unfolding compare_openapi_documents
compare_openapi_documents_lem baseline live differences h =
    let (b, read1, step1) = >>=-eq-ok (operation_contracts baseline) _ h in
    let (l, read2, step2) = >>=-eq-ok (operation_contracts live) _ step1 in
    let (schemas, read3, step3) = >>=-eq-ok (component_schemas baseline) _ step2 in
    let (live_schemas, read4, done) = >>=-eq-ok (component_schemas live) _ step3 in
    (
      b,
      l,
      schemas,
      live_schemas,
      read1,
      read2,
      read3,
      read4,
      ap null (sym (ok-injective _ _ done))
          ∙ null-append (operation_differences b l) (schema_differences schemas live_schemas)
          ∙ ground
              (arith, null-operation_differences b l, null-schema_differences schemas live_schemas),
    )
