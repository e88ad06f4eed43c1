-- ===== src/SessionGateway/Load/Routes.antt =====
-- What an inventory file that loads contains.
use budget_analyzer_api_test.Base.{
  ◌≡◌, refl, sym, ◌∙◌, ap, true, List, [], ◌∷◌, arith, String, all, nodup, string_eq, nat_eq,
  bool_eq, option_eq, are_fresh, are_fresh-append, nodup-append, are_fresh_union,
}
use budget_analyzer_api_test.Base.Result.{ok, >>=-eq-ok, ok-injective}
use budget_analyzer_api_test.OpenApi.Document.{Json, Items, no_items, item, field, as_object}
use budget_analyzer_api_test.SessionGateway.{SessionGatewayRoute}
use budget_analyzer_api_test.SessionGateway.Load.{
  load_route, add_case_ids, load_routes, load_session_gateway_inventory, require, as_list,
  not_a_mapping, no_routes,
}
use budget_analyzer_api_test.SessionGateway.Load.Classified.{
  well_formed, case_ids, all_case_ids, load_route_lem, add_case_ids_lem,
}

load_routes_lem :
    (raw : Items) (seen : List String) (rs : List SessionGatewayRoute)
    → load_routes raw seen ≡ ok rs
    → (all well_formed rs ≡ true)
      × (nodup (all_case_ids rs) ≡ true)
      × (are_fresh seen (all_case_ids rs) ≡ true)
unfolding load_routes
load_routes_lem no_items seen [] h = (refl, refl, refl)
load_routes_lem no_items seen (r ∷ rs) h = cc
load_routes_lem (item raw rest) seen rs h =
    let (route, loaded, step1) = >>=-eq-ok (load_route raw) _ h in
    let (seen_now, added, step2) = >>=-eq-ok (add_case_ids route.cases seen) _ step1 in
    let (others, later, done) = >>=-eq-ok (load_routes rest seen_now) _ step2 in
    let (own_distinct, own_fresh, found) = add_case_ids_lem route.cases seen seen_now added in
    let (formed, distinct, fresh) = load_routes_lem rest seen_now others later in
    let own = case_ids route.cases in
    let (apart, new) = are_fresh_union seen_now own seen (all_case_ids others) found fresh in
    let result : route ∷ others ≡ rs = ok-injective _ _ done in
    (
      ap (all well_formed) (sym result) ∙ ground (arith, load_route_lem raw route loaded, formed),
      ap (λ l. nodup (all_case_ids l)) (sym result)
          ∙ nodup-append own (all_case_ids others) own_distinct distinct apart,
      ap (λ l. are_fresh seen (all_case_ids l)) (sym result)
          ∙ ground (arith, are_fresh-append seen own (all_case_ids others), own_fresh, new),
    )

-- An inventory that loads has well-formed routes only: a path from the root, at least one case, and
-- for each case the notes that its status asks for and no others, with an indirect proof only where it
-- is untestable. No case id occurs twice in the whole inventory.
pub load_session_gateway_inventory_lem :
    (raw_inventory : Json) (routes : List SessionGatewayRoute)
    → load_session_gateway_inventory raw_inventory ≡ ok routes
    → (all well_formed routes ≡ true) × (nodup (all_case_ids routes) ≡ true)
unfolding load_session_gateway_inventory
load_session_gateway_inventory_lem raw_inventory routes h =
    let (inventory, _, step1) = >>=-eq-ok (require not_a_mapping (as_object raw_inventory)) _ h in
    let (raw_routes, _, done) =
      >>=-eq-ok (require no_routes (as_list (field inventory "routes"))) _ step1 in
    let found = load_routes_lem raw_routes [] routes done in (found.0, found.1)
