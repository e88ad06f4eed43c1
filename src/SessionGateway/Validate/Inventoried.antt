-- ===== src/SessionGateway/Validate/Inventoried.antt =====
-- What an accepted Session Gateway inventory says of the contract and the tests.
use budget_analyzer_api_test.Base.{
  ℕ, ◌≡◌, refl, sym, ◌∙◌, ap, Bool, true, ◌&&◌, ◌||◌, not, List, [], ◌∷◌, ◌++◌, map, arith, ◌==◌,
  contains, keep, Option, none, some, String, all-contains, null-keep-not, all-map, all_mono,
  all_of_contains, all, any, null, nodup, string_eq, nat_eq, bool_eq, option_eq,
}
use budget_analyzer_api_test.Base.Dict.{Dict, keys, lookup, insert, lookup-insert}
use budget_analyzer_api_test.Base.Sort.{sorted, null-sorted}
use budget_analyzer_api_test.Base.Result.{
  Result, ok, err, >>=-eq-ok, raise_if-eq-ok, raise_if-then, ok-injective,
}
use budget_analyzer_api_test.Base.Text.{text_le}
use budget_analyzer_api_test.OpenApi.{OpenApiOperation, session_gateway, method_eq}
use budget_analyzer_api_test.OpenApi.Document.{Members, DocumentError, iter_operations}
use budget_analyzer_api_test.Coverage.Forbidden.{index_by_id}
use budget_analyzer_api_test.Coverage.Forbidden.Accounted.{operation_ids, contains-index_by_id}
use budget_analyzer_api_test.SessionGateway.{
  covered, exposure_eq, inventory_status_eq, SessionGatewayCase, SessionGatewayRoute,
}
use budget_analyzer_api_test.SessionGateway.Validate.{
  SessionGatewayCaseCoverage, route_key, route_key_eq, index_cases, known_cases, is_covered,
  check_case_markers, check_routes, row_before, validate_routes, lift_document,
  validate_session_gateway_inventory,
}
use budget_analyzer_api_test.SessionGateway.Validate.Routes.{
  named_ids, all_cases, all_rows, matches, is_current, only_public, is_covered_case, fits,
  is_indexed, check_routes_lem, lookup-index_by_id,
}

-- An inventory that agrees with the contract and the tests, and its rows.
pub record IsInventoried (routes : List SessionGatewayRoute) (operations : List OpenApiOperation)
    (marker_counts : Dict String ℕ) (rows : List SessionGatewayCaseCoverage) : Type 0 where
  pub distinct_routes : nodup (map route_key routes) ≡ true
  pub distinct_operations : nodup (named_ids routes) ≡ true
  pub current : all (is_current operations) routes ≡ true
  pub every_operation : all (λ o. contains (named_ids routes) o.operation_id) operations ≡ true
  pub public_cases : all only_public routes ≡ true
  pub marked : all (is_covered_case routes) (keys marker_counts) ≡ true
  pub all_in_order : rows ≡ sorted row_before (all_rows marker_counts routes)

module _ (i : String) where
  abbrev covers : SessionGatewayCase → Bool
  covers c = i == c.case_id && c.status == covered

  any-append :
      (cs ds : List SessionGatewayCase) → any covers (cs ++ ds) ≡ (any covers cs || any covers ds)
  any-append [] ds = refl
  any-append (c ∷ cs) ds = ground (arith, any-append cs ds)

  lookup-index_cases :
      (cs : List SessionGatewayCase) (known : Dict String SessionGatewayCase)
      → is_covered (lookup i (index_cases cs known)) ≡ true
      → (any covers cs || is_covered (lookup i known)) ≡ true
  unfolding index_cases
  lookup-index_cases [] known h = h
  lookup-index_cases (c ∷ cs) known h =
      ground
        (arith, lookup-index_cases cs (insert c.case_id c known), lookup-insert i c.case_id c known)

  lookup-known_cases :
      (rs : List SessionGatewayRoute) (known : Dict String SessionGatewayCase)
      → is_covered (lookup i (known_cases rs known)) ≡ true
      → (any covers (all_cases rs) || is_covered (lookup i known)) ≡ true
  unfolding known_cases
  lookup-known_cases [] known h = h
  lookup-known_cases (r ∷ rs) known h = ground (
    arith,
    lookup-known_cases rs (index_cases r.cases known),
    lookup-index_cases r.cases known,
    any-append r.cases (all_cases rs),
  )

check_case_markers_lem :
    (routes : List SessionGatewayRoute) (marker_counts : Dict String ℕ)
    → check_case_markers routes marker_counts ≡ ok tt
    → all (is_covered_case routes) (keys marker_counts) ≡ true
unfolding check_case_markers
check_case_markers_lem routes marker_counts h =
    let known = known_cases routes [] in
    let found : String → Bool = λ i. is_covered (lookup i known) in
    let (_, rest) =
      raise_if-then
        (not
          (null (sorted text_le (keep (λ i. not (contains (keys known) i)) (keys marker_counts)))))
        _ _ h in
    let idle =
      raise_if-eq-ok (not (null (sorted text_le (keep (λ i. not (found i)) (keys marker_counts)))))
        _ rest in
    all_mono found (is_covered_case routes)
      (λ i c. ground (arith, lookup-known_cases i routes [] c)) (keys marker_counts)
      (ground (
        arith,
        idle,
        null-sorted text_le (keep (λ i. not (found i)) (keys marker_counts)),
        null-keep-not found (keys marker_counts),
      ))

current_of_id :
    (operations : List OpenApiOperation) (r : SessionGatewayRoute) (o : Option String)
    → elim o [ none ↦ true | some i ↦ fits r (lookup i (index_by_id operations [])) ] ≡ true
    → elim o [ none ↦ true | some i ↦ any (matches r i) operations ] ≡ true
current_of_id operations r none h = refl
current_of_id operations r (some i) h = ground (arith, lookup-index_by_id operations [] r i h)

lift_document_lem :
    (found : Result DocumentError (List OpenApiOperation)) (operations : List OpenApiOperation)
    → lift_document found ≡ ok operations
    → found ≡ ok operations
lift_document_lem (ok os) operations h = ground arith
lift_document_lem (err e) operations h = cc

module _ (routes : List SessionGatewayRoute) (marker_counts : Dict String ℕ)
    (rows : List SessionGatewayCaseCoverage) where
  validate_routes_lem :
      (operations : List OpenApiOperation)
      → validate_routes routes operations marker_counts ≡ ok rows
      → IsInventoried routes operations marker_counts rows
  unfolding validate_routes
  validate_routes_lem operations h =
      let by_id = index_by_id operations [] in
      let (_, marked, step1) = >>=-eq-ok (check_case_markers routes marker_counts) _ h in
      let ((last, listed), passed, step2) =
        >>=-eq-ok (check_routes by_id marker_counts routes [] []) _ step1 in
      let (complete, done) =
        raise_if-then (not (null (sorted text_le (keep (λ i. not (contains last i)) (keys by_id)))))
          _ _ step2 in
      let r = check_routes_lem by_id marker_counts routes [] [] last listed passed in
      let known : all (contains last) (keys by_id) ≡ true = ground (
        arith,
        complete,
        null-sorted text_le (keep (λ i. not (contains last i)) (keys by_id)),
        null-keep-not (contains last) (keys by_id),
      ) in
      record {
        distinct_routes = r.keys_distinct;
        distinct_operations = r.ids_distinct;
        current =
            all_mono (is_indexed by_id) (is_current operations)
              (λ a. current_of_id operations a a.openapi_operation_id) routes r.all_indexed;
        every_operation =
            sym (
              all-map (λ (o : OpenApiOperation). o.operation_id) (contains (named_ids routes))
                operations)
            ∙ all_of_contains (contains (named_ids routes)) (operation_ids operations) (λ i m.
              ground (
                arith,
                all-contains (contains last) (keys by_id) i known,
                contains-index_by_id operations [] i,
                r.ids_seen i,
                m,
              ));
        public_cases = r.all_public;
        marked = check_case_markers_lem routes marker_counts marked;
        all_in_order = sym (ok-injective _ _ done) ∙ ap (sorted row_before) r.rows_listed;
      }

  -- An inventory is accepted only if the document's operations can be read, the routes are distinct and
  -- name each operation once, with its method and path, only public routes have covered or deferred
  -- cases, and every marked case is covered; the rows are then those of all cases, in order, each with
  -- the count of its markers.
  pub session_gateway-IsInventoried :
      (openapi_doc : Members)
      → validate_session_gateway_inventory routes openapi_doc marker_counts ≡ ok rows
      → (operations : List OpenApiOperation) × (iter_operations session_gateway openapi_doc
          ≡ ok operations)
        × IsInventoried routes operations marker_counts rows
  unfolding validate_session_gateway_inventory
  session_gateway-IsInventoried openapi_doc h =
      let (operations, lifted, rest) =
        >>=-eq-ok (lift_document (iter_operations session_gateway openapi_doc)) _ h in
      (operations, lift_document_lem _ operations lifted, validate_routes_lem operations rest)
