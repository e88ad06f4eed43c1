-- ===== src/SessionGateway/Validate/Routes.antt =====
-- The pass over the routes of a Session Gateway inventory.
use budget_analyzer_api_test.Base.{
  ℕ, ◌≡◌, refl, sym, ◌∙◌, ap, Bool, true, false, ◌&&◌, ◌||◌, not, List, [], ◌∷◌, ◌++◌, map, arith,
  ◌==◌, contains, Option, none, some, String, all, any, nodup, string_eq, nat_eq, bool_eq,
  option_eq, are_fresh, are_fresh-cons,
}
use budget_analyzer_api_test.Base.Dict.{Dict, lookup, insert, lookup-insert}
use budget_analyzer_api_test.Base.Result.{ok, >>=-eq-ok, raise_if-then, ok-injective}
use budget_analyzer_api_test.OpenApi.{OpenApiOperation, method_eq}
use budget_analyzer_api_test.Coverage.Forbidden.{index_by_id}
use budget_analyzer_api_test.SessionGateway.{
  covered, exposure_eq, inventory_status_eq, SessionGatewayCase, SessionGatewayRoute,
}
use budget_analyzer_api_test.SessionGateway.Validate.{
  SessionGatewayCaseCoverage, RouteKey, route_key, route_key_eq, must_be_public, case_row,
  case_rows, check_operation, check_routes,
}

-- The operation ids of a route, none or one.
abbrev pub ids_named : Option String → List String
ids_named none = []
ids_named (some i) = i ∷ []

-- The operation ids that the routes name.
abbrev pub named_ids : List SessionGatewayRoute → List String
named_ids [] = []
named_ids (r ∷ rs) = ids_named r.openapi_operation_id ++ named_ids rs

abbrev pub all_cases : List SessionGatewayRoute → List SessionGatewayCase
all_cases [] = []
all_cases (r ∷ rs) = r.cases ++ all_cases rs

module _ (marker_counts : Dict String ℕ) where
  abbrev pub all_rows : List SessionGatewayRoute → List SessionGatewayCaseCoverage
  all_rows [] = []
  all_rows (r ∷ rs) = map (case_row marker_counts r) r.cases ++ all_rows rs

abbrev pub matches : SessionGatewayRoute → String → OpenApiOperation → Bool
matches r i o = i == o.operation_id && r.method == o.method && r.path == o.path

-- The operation that a route names, if it names one, is listed with the route's method and path.
abbrev pub is_current : List OpenApiOperation → SessionGatewayRoute → Bool
is_current os r = elim r.openapi_operation_id [ none ↦ true | some i ↦ any (matches r i) os ]

abbrev pub only_public : SessionGatewayRoute → Bool
only_public r = all (λ c. not (must_be_public r c)) r.cases

abbrev pub is_covered_case : List SessionGatewayRoute → String → Bool
is_covered_case routes i = any (λ c. i == c.case_id && c.status == covered) (all_cases routes)

abbrev pub fits : SessionGatewayRoute → Option OpenApiOperation → Bool
fits r none = false
fits r (some o) = r.method == o.method && r.path == o.path

case_rows_lem :
    (marker_counts : Dict String ℕ) (r : SessionGatewayRoute) (cs : List SessionGatewayCase)
    (rows : List SessionGatewayCaseCoverage)
    → case_rows marker_counts r cs ≡ ok rows
    → (rows ≡ map (case_row marker_counts r) cs) × (all (λ c. not (must_be_public r c)) cs ≡ true)
unfolding case_rows
case_rows_lem marker_counts r [] rows h = (ground arith, refl)
case_rows_lem marker_counts r (c ∷ cs) rows h =
    let (open_case, later) = raise_if-then (must_be_public r c) _ _ h in
    let (rest, found, done) = >>=-eq-ok (case_rows marker_counts r cs) _ later in
    let (same, public_rest) = case_rows_lem marker_counts r cs rest found in
    (sym (ok-injective _ _ done) ∙ ap (λ rs. case_row marker_counts r c ∷ rs) same, ground arith)

pub lookup-index_by_id :
    (os : List OpenApiOperation) (acc : Dict String OpenApiOperation) (r : SessionGatewayRoute)
    (i : String)
    → fits r (lookup i (index_by_id os acc)) ≡ true
    → (any (matches r i) os || fits r (lookup i acc)) ≡ true
unfolding index_by_id
lookup-index_by_id [] acc r i h = h
lookup-index_by_id (o ∷ os) acc r i h = ground (
  arith,
  lookup-index_by_id os (insert o.operation_id o acc) r i,
  lookup-insert i o.operation_id o acc,
)

module _ (by_id : Dict String OpenApiOperation) where
  abbrev pub is_indexed : SessionGatewayRoute → Bool
  is_indexed r = elim r.openapi_operation_id [ none ↦ true | some i ↦ fits r (lookup i by_id) ]

  check_operation_lem :
      (r : SessionGatewayRoute) (seen seen_now : List String) (o : Option String)
      → check_operation by_id r seen o ≡ ok seen_now
      → (elim o [ none ↦ true | some i ↦ fits r (lookup i by_id) && not (contains seen i) ] ≡ true)
        × (seen_now ≡ ids_named o ++ seen)
  unfolding check_operation
  check_operation_lem r seen seen_now none h = (refl, ground arith)
  check_operation_lem r seen seen_now (some i) h = (ground arith, ground arith)

  ids_step :
      (r : SessionGatewayRoute) (o : Option String) (seen seen_now ids last : List String)
      → elim o [ none ↦ true | some i ↦ fits r (lookup i by_id) && not (contains seen i) ] ≡ true
      → seen_now ≡ ids_named o ++ seen
      → nodup ids ≡ true
      → are_fresh seen_now ids ≡ true
      → ((i : String) → contains last i ≡ (contains ids i || contains seen_now i))
      → (nodup (ids_named o ++ ids) ≡ true)
        × (are_fresh seen (ids_named o ++ ids) ≡ true)
        × ((i : String) → contains last i ≡ (contains (ids_named o ++ ids) i || contains seen i))
  ids_step r none seen seen_now ids last fine now distinct new found =
      (ground arith, ground (arith, now), λ i. ground (arith, found i, now))
  ids_step r (some j) seen seen_now ids last fine now distinct new found =
      let split = are_fresh-cons seen j ids in
      (
        ground (arith, split, now),
        ground (arith, split, now),
        λ i. ground (arith, found i, ap (λ js. contains js i) now),
      )

  indexed_step :
      (r : SessionGatewayRoute) (o : Option String) (seen : List String)
      → elim o [ none ↦ true | some i ↦ fits r (lookup i by_id) && not (contains seen i) ] ≡ true
      → elim o [ none ↦ true | some i ↦ fits r (lookup i by_id) ] ≡ true
  indexed_step r none seen fine = refl
  indexed_step r (some i) seen fine = ground arith

  -- What one pass over the routes establishes.
  pub record IsChecked (marker_counts : Dict String ℕ) (rs : List SessionGatewayRoute)
      (seen : List String) (seen_keys : List RouteKey) (last : List String)
      (rows : List SessionGatewayCaseCoverage) : Type 0 where
    pub keys_distinct : nodup (map route_key rs) ≡ true
    pub keys_fresh : are_fresh seen_keys (map route_key rs) ≡ true
    pub ids_distinct : nodup (named_ids rs) ≡ true
    pub ids_fresh : are_fresh seen (named_ids rs) ≡ true
    pub all_indexed : all is_indexed rs ≡ true
    pub all_public : all only_public rs ≡ true
    pub ids_seen : (i : String) → contains last i ≡ (contains (named_ids rs) i || contains seen i)
    pub rows_listed : rows ≡ all_rows marker_counts rs

  pub check_routes_lem :
      (marker_counts : Dict String ℕ) (rs : List SessionGatewayRoute) (seen : List String)
      (seen_keys : List RouteKey) (last : List String) (rows : List SessionGatewayCaseCoverage)
      → check_routes by_id marker_counts rs seen seen_keys ≡ ok (last, rows)
      → IsChecked marker_counts rs seen seen_keys last rows
  unfolding check_routes
  check_routes_lem marker_counts [] seen seen_keys last rows h = record {
    keys_distinct = refl;
    keys_fresh = refl;
    ids_distinct = refl;
    ids_fresh = refl;
    all_indexed = refl;
    all_public = refl;
    ids_seen = λ i. ground arith;
    rows_listed = ground arith;
  }
  check_routes_lem marker_counts (r ∷ rs) seen seen_keys last rows h =
      let (new_route, step1) = raise_if-then (contains seen_keys (route_key r)) _ _ h in
      let (seen_now, checked, step2) =
        >>=-eq-ok (check_operation by_id r seen r.openapi_operation_id) _ step1 in
      let (own, listed, step3) = >>=-eq-ok (case_rows marker_counts r r.cases) _ step2 in
      let ((after, later), passed, done) =
        >>=-eq-ok (check_routes by_id marker_counts rs seen_now (route_key r ∷ seen_keys)) _
          step3 in
      let rest =
        check_routes_lem marker_counts rs seen_now (route_key r ∷ seen_keys) after later passed in
      let (own_rows, own_public) = case_rows_lem marker_counts r r.cases own listed in
      let (current, now) = check_operation_lem r seen seen_now r.openapi_operation_id checked in
      let (ids1, ids2, ids3) =
        ids_step r r.openapi_operation_id seen seen_now (named_ids rs) after current now
          rest.ids_distinct rest.ids_fresh rest.ids_seen in
      let ended : Path (List String × List SessionGatewayCaseCoverage) (after, own ++ later)
          (last, rows) =
        ok-injective _ _ done in
      let fresh_keys = are_fresh-cons seen_keys (route_key r) (map route_key rs) in
      record {
        keys_distinct = ground (arith, fresh_keys, rest.keys_fresh, rest.keys_distinct);
        keys_fresh = ground (arith, fresh_keys, rest.keys_fresh, new_route);
        ids_distinct = ids1;
        ids_fresh = ids2;
        all_indexed =
            ground (arith, indexed_step r r.openapi_operation_id seen current, rest.all_indexed);
        all_public = ground (arith, own_public, rest.all_public);
        ids_seen = λ i. sym (ap (λ p. contains p.0 i) ended) ∙ ids3 i;
        rows_listed =
            sym (ap (λ p. p.1) ended)
            ∙ ap (λ own_list. own_list ++ later) own_rows
            ∙ ap (λ l. map (case_row marker_counts r) r.cases ++ l) rest.rows_listed;
      }
