-- ===== src/SessionGateway/Load/Classified.antt =====
-- What the loaded inventory satisfies.
use budget_analyzer_api_test.Base.{
  ◌≡◌, refl, sym, ◌∙◌, ap, Bool, true, false, ◌&&◌, ◌||◌, not, List, [], ◌∷◌, ◌++◌, map, arith,
  ◌==◌, contains, Option, none, some, String, all, null, nodup, string_eq, nat_eq, implies, bool_eq,
  option_eq, are_fresh, are_fresh-cons,
}
use budget_analyzer_api_test.Base.Result.{ok, >>=-eq-ok, raise_if-then, ok-injective}
use budget_analyzer_api_test.Base.Text.{starts_with_slash}
use budget_analyzer_api_test.Config.{is_some, is_none}
use budget_analyzer_api_test.OpenApi.Document.{
  Json, Items, Members, null_value, boolean, number, text, array, object, no_items, item, field,
}
use budget_analyzer_api_test.SessionGateway.{
  covered, deferred, untestable, inventory_status_eq, InventoryStatus, SessionGatewayCase,
  SessionGatewayRoute, SessionGatewayIndirectProof, status_of, owner_of, exposure_of, method_of,
}
use budget_analyzer_api_test.SessionGateway.Load.{
  LoadError, missing_case_id, missing_behavior, unsupported_status, invalid_reason,
  invalid_prerequisite, invalid_boundary, unsupported_method, invalid_path, unsupported_owner,
  unsupported_exposure, no_cases, non_empty_text, named, rooted_text, validate_classification,
  load_optional_indirect_proof, is_present, load_case_members, load_case, load_cases,
  load_route_members, load_route, add_case_ids, require, filled_list, optional_text, optional_id,
}

-- Which notes a case of each status has.
abbrev pub well_classified : SessionGatewayCase → Bool
well_classified c =
    implies (c.status == covered) (is_none c.reason && is_none c.prerequisite && is_none c.boundary)
    && implies (c.status == deferred)
        (is_some c.reason && is_some c.prerequisite && is_none c.boundary)
    && implies (c.status == untestable)
        (is_some c.reason && is_none c.prerequisite && is_some c.boundary)
    && implies (is_some c.optional_indirect_proof) (c.status == untestable)

abbrev pub well_formed : SessionGatewayRoute → Bool
well_formed r = starts_with_slash r.path && not (null r.cases) && all well_classified r.cases

abbrev pub case_ids : List SessionGatewayCase → List String
case_ids cs = map (λ c. c.case_id) cs

abbrev pub all_case_ids : List SessionGatewayRoute → List String
all_case_ids [] = []
all_case_ids (r ∷ rs) = case_ids r.cases ++ all_case_ids rs

classification_lem :
    (status : InventoryStatus) (reason prerequisite boundary : Option String) (has_proof : Bool)
    → validate_classification status reason prerequisite boundary has_proof ≡ ok tt
    → (implies (status == covered) (is_none reason && is_none prerequisite && is_none boundary)
        && implies (status == deferred) (is_some reason && is_some prerequisite && is_none boundary)
        && implies
            (status == untestable)
            (is_some reason && is_none prerequisite && is_some boundary)
        && implies has_proof (status == untestable))
      ≡ true
unfolding validate_classification inventory_status_eq
classification_lem covered reason prerequisite boundary has_proof h = ground arith
classification_lem deferred reason prerequisite boundary has_proof h = ground arith
classification_lem untestable reason prerequisite boundary has_proof h = ground arith

proof_lem :
    (value : Json) (proof : Option SessionGatewayIndirectProof)
    → load_optional_indirect_proof value ≡ ok proof
    → is_some proof ≡ is_present value
unfolding load_optional_indirect_proof
proof_lem null_value proof h = ground arith
proof_lem (boolean b) proof h = cc
proof_lem (number s) proof h = cc
proof_lem (text s) proof h = cc
proof_lem (array is) proof h = cc
proof_lem (object raw) proof h = ground arith

require-eq-ok :
    {A : Type 0} (e : LoadError) (o : Option A) (a : A) → require e o ≡ ok a → o ≡ some a
require-eq-ok e none a h = cc
require-eq-ok e (some b) a h = ap some (ok-injective b a h)

load_case_members_lem :
    (raw : Members) (c : SessionGatewayCase)
    → load_case_members raw ≡ ok c
    → well_classified c ≡ true
unfolding load_case_members
load_case_members_lem raw c h =
    let has_proof = is_present (field raw "optional_indirect_proof") in
    let (case_id, _, step1) =
      >>=-eq-ok (require missing_case_id (non_empty_text (field raw "id"))) _ h in
    let (behavior, _, step2) =
      >>=-eq-ok (require missing_behavior (non_empty_text (field raw "behavior"))) _ step1 in
    let (status, _, step3) =
      >>=-eq-ok (require unsupported_status (named status_of (field raw "status"))) _ step2 in
    let (reason, _, step4) =
      >>=-eq-ok (optional_text invalid_reason (field raw "reason")) _ step3 in
    let (prerequisite, _, step5) =
      >>=-eq-ok (optional_text invalid_prerequisite (field raw "prerequisite")) _ step4 in
    let (boundary, _, step6) =
      >>=-eq-ok (optional_text invalid_boundary (field raw "boundary")) _ step5 in
    let (_, classified, step7) =
      >>=-eq-ok (validate_classification status reason prerequisite boundary has_proof) _ step6 in
    let (proof, loaded, done) =
      >>=-eq-ok (load_optional_indirect_proof (field raw "optional_indirect_proof")) _ step7 in
    ap well_classified (sym (ok-injective _ _ done))
    ∙ ground (
      arith,
      classification_lem status reason prerequisite boundary has_proof classified,
      proof_lem (field raw "optional_indirect_proof") proof loaded,
    )

load_case_lem :
    (value : Json) (c : SessionGatewayCase) → load_case value ≡ ok c → well_classified c ≡ true
unfolding load_case
load_case_lem (object raw) c h = load_case_members_lem raw c h
load_case_lem null_value c h = cc
load_case_lem (boolean b) c h = cc
load_case_lem (number s) c h = cc
load_case_lem (text s) c h = cc
load_case_lem (array is) c h = cc

load_cases_lem :
    (raw : Items) (cs : List SessionGatewayCase)
    → load_cases raw ≡ ok cs
    → all well_classified cs ≡ true
unfolding load_cases
load_cases_lem no_items cs h = ground arith
load_cases_lem (item raw rest) cs h =
    let (first, found, more) = >>=-eq-ok (load_case raw) _ h in
    let (others, later, done) = >>=-eq-ok (load_cases rest) _ more in
    ap (all well_classified) (sym (ok-injective _ _ done))
    ∙ ground (arith, load_case_lem raw first found, load_cases_lem rest others later)

has_items : Items → Bool
has_items no_items = false
has_items (item _ _) = true

filled_list_lem : (value : Json) (is : Items) → filled_list value ≡ some is → has_items is ≡ true
unfolding has_items
filled_list_lem (array no_items) is h = cc
filled_list_lem (array (item first rest)) is h = ground arith
filled_list_lem null_value is h = cc
filled_list_lem (boolean b) is h = cc
filled_list_lem (number s) is h = cc
filled_list_lem (text s) is h = cc
filled_list_lem (object ms) is h = cc

load_cases-filled :
    (is : Items) (cs : List SessionGatewayCase)
    → has_items is ≡ true
    → load_cases is ≡ ok cs
    → null cs ≡ false
unfolding load_cases has_items
load_cases-filled no_items cs h loaded = cc
load_cases-filled (item raw rest) cs h loaded = ground arith

rooted_text_lem :
    (value : Json) (path : String) → rooted_text value ≡ some path → starts_with_slash path ≡ true
rooted_text_lem (text s) path h = ground arith
rooted_text_lem null_value path h = cc
rooted_text_lem (boolean b) path h = cc
rooted_text_lem (number s) path h = cc
rooted_text_lem (array is) path h = cc
rooted_text_lem (object ms) path h = cc

load_route_members_lem :
    (raw : Members) (r : SessionGatewayRoute) → load_route_members raw ≡ ok r → well_formed r ≡ true
unfolding load_route_members
load_route_members_lem raw r h =
    let (method, _, step1) =
      >>=-eq-ok (require unsupported_method (named method_of (field raw "method"))) _ h in
    let (path, rooted, step2) =
      >>=-eq-ok (require invalid_path (rooted_text (field raw "path"))) _ step1 in
    let (owner, _, step3) =
      >>=-eq-ok (require unsupported_owner (named owner_of (field raw "owner"))) _ step2 in
    let (exposure, _, step4) =
      >>=-eq-ok (require unsupported_exposure (named exposure_of (field raw "exposure"))) _ step3 in
    let (operation_id, _, step5) =
      >>=-eq-ok (optional_id (field raw "openapi_operation_id")) _ step4 in
    let (raw_cases, filled, step6) =
      >>=-eq-ok (require no_cases (filled_list (field raw "cases"))) _ step5 in
    let (cases, loaded, done) = >>=-eq-ok (load_cases raw_cases) _ step6 in
    let has_slash =
      rooted_text_lem (field raw "path") path
        (require-eq-ok invalid_path (rooted_text (field raw "path")) path rooted) in
    let full =
      filled_list_lem (field raw "cases") raw_cases
        (require-eq-ok no_cases (filled_list (field raw "cases")) raw_cases filled) in
    ap well_formed (sym (ok-injective _ _ done))
    ∙ ground (
      arith,
      has_slash,
      load_cases-filled raw_cases cases full loaded,
      load_cases_lem raw_cases cases loaded,
    )

pub load_route_lem :
    (value : Json) (r : SessionGatewayRoute) → load_route value ≡ ok r → well_formed r ≡ true
unfolding load_route
load_route_lem (object raw) r h = load_route_members_lem raw r h
load_route_lem null_value r h = cc
load_route_lem (boolean b) r h = cc
load_route_lem (number s) r h = cc
load_route_lem (text s) r h = cc
load_route_lem (array is) r h = cc

pub add_case_ids_lem :
    (cs : List SessionGatewayCase) (seen seen_now : List String)
    → add_case_ids cs seen ≡ ok seen_now
    → (nodup (case_ids cs) ≡ true)
      × (are_fresh seen (case_ids cs) ≡ true)
      × ((i : String) → contains seen_now i ≡ (contains (case_ids cs) i || contains seen i))
unfolding add_case_ids
add_case_ids_lem [] seen seen_now h = (refl, refl, λ i. ground arith)
add_case_ids_lem (c ∷ cs) seen seen_now h =
    let (new, rest) = raise_if-then (contains seen c.case_id) _ _ h in
    let (distinct, fresh, found) = add_case_ids_lem cs (c.case_id ∷ seen) seen_now rest in
    let split = are_fresh-cons seen c.case_id (case_ids cs) in
    (ground (arith, split), ground (arith, split), λ i. ground (arith, found i))
