-- ===== src/Coverage/Source.antt =====
-- coverage.py: reading the markers from the decorators of the test functions. Parsing the files into
-- syntax trees and listing them is left to Python's `ast` and `pathlib`: the model starts at the
-- decorated functions of each file, in the order of `ast.walk`.
pub mod Decorators
use budget_analyzer_api_test.Base.{
  ℕ, zero, suc, ◌+◌, ◌-◌, ◌≤◌, ◌<◌, ◌≡◌, refl, sym, ◌∙◌, ap, ◌≢◌, ◌↔◌, ◌⊎◌, Bool, true, false, ◌&&◌,
  ◌||◌, not, List, [], ◌∷◌, ◌++◌, map, arith, Eq, ◌==◌, contains, keep, if◌then◌else◌, Option, none,
  some, inl, inr, Bool-cases, Option-cases, String, ◌<>◌, contains-append, contains-keep,
  all-contains, all-ext, any-ext, null-keep-not, null-keep, all-map, any-map, null-map,
  contains-map-keep, all-and, All-map, All-of_contains, all_mono, ltb, leb, all, any, null, nodup,
  length, All, string_eq, nat_eq, ==_self, eq_of_==, ne_of_==, null-append, length-append, bool_eq,
  option_eq,
}
use budget_analyzer_api_test.Base.Dict.{
  Dict, keys, lookup, get_or, insert, lookup-insert, contains-keys-insert, lookup-eq-none_iff,
  lookup-tabulate, keys-tabulate, length-insert,
}
use budget_analyzer_api_test.Base.Sort.{
  sorted, contains-sorted, mem-sorted, sorted-All, sorted_perm, length-sorted, null-sorted,
  all-sorted, any-sorted,
}
use budget_analyzer_api_test.Base.Result.{
  Result, ok, err, ◌>>=◌, ◌>>◌, raise_if, >>=-eq-ok, raise_if-eq-ok, raise_if-then,
}
use budget_analyzer_api_test.Base.Text.{text_le}
use budget_analyzer_api_test.OpenApi.{OpenApiContractKey, unified, session_gateway, contract_text}
use budget_analyzer_api_test.Coverage.Types.{MarkerCounts, OperationKey, key_eq}
use budget_analyzer_api_test.Coverage.Markers.{Marker, build_marker_counts, count_up, counts_by}

-- The part of `ast.expr` that decorators are tested against. `text` is a `Constant` that holds a
-- string, `constant` one that holds another value, and `other` any further expression.
mutual
  pub data Expr : Type 0 where
    identifier : String → Expr
    attribute : Expr → String → Expr
    call : Expr → Args → Keywords → Expr
    text : String → Expr
    constant other : Expr

  pub data Args : Type 0 where
    no_args : Args
    arg : Expr → Args → Args

  pub data Keywords : Type 0 where
    no_keywords : Keywords
    -- `**mapping` has no name.
    keyword : Option String → Expr → Keywords → Keywords

-- The `ValueError`s of the three readers.
pub data MarkerError : Type 0 where
  argument_count keyword_arguments : MarkerError
  id_not_text contract_not_text contract_unknown empty_id : MarkerError

-- `_is_pytest_marker`
unfoldable pub is_pytest_marker : Expr → String → Bool
is_pytest_marker (attribute (attribute (identifier pytest) mark) attr) marker_name =
    attr == marker_name && mark == "mark" && pytest == "pytest"
is_pytest_marker _ marker_name = false

abbrev pub contract_of : String → Result MarkerError OpenApiContractKey
contract_of s =
    if s == "unified"
    then ok unified
    else if s == "session_gateway"
    then ok session_gateway
    else err contract_unknown

-- The value of a string literal.
abbrev pub text_of : Expr → Option String
text_of (text s) = some s
text_of _ = none

abbrev pub only_argument : Args → Option Expr
only_argument (arg e no_args) = some e
only_argument _ = none

abbrev pub no_keyword_arguments : Keywords → Bool
no_keyword_arguments no_keywords = true
no_keyword_arguments (keyword _ _ _) = false

abbrev pub is_contract : Option String → Bool
is_contract none = false
is_contract (some name) = name == "contract"

-- The contract that the keywords name, `unified` where there are none.
unfoldable pub read_contract : Keywords → Result MarkerError OpenApiContractKey
read_contract no_keywords = ok unified
read_contract (keyword name value rest) =
    if is_contract name && no_keyword_arguments rest
    then elim (text_of value) [ none ↦ err contract_not_text | some s ↦ contract_of s ]
    else err keyword_arguments

-- The one positional argument, which must be a string literal.
unfoldable pub read_id : Args → Result MarkerError String
read_id args = elim (only_argument args) [
  | none ↦ err argument_count
  | some e ↦ elim (text_of e) [ none ↦ err id_not_text | some s ↦ ok s ]
]

unfoldable pub read_operation : Args → Keywords → Result MarkerError OperationKey
unfolding read_contract read_id
read_operation args keywords = do
  operation_id ← read_id args
  contract ← read_contract keywords
  ok (record { contract = contract; operation_id = operation_id })

-- `_openapi_marker_operation`
unfoldable pub openapi_marker_operation : Expr → Result MarkerError (Option OperationKey)
unfolding is_pytest_marker read_operation
openapi_marker_operation (call func args keywords) =
    if is_pytest_marker func "openapi"
    then read_operation args keywords >>= (λ k. ok (some k))
    else ok none
openapi_marker_operation _ = ok none

-- The check `len(node.args) != 1 or node.keywords`, and the non-empty string literal.
unfoldable pub read_only_id : Args → Keywords → Result MarkerError String
unfolding read_id
read_only_id args keywords = do
  raise_if (not (no_keyword_arguments keywords)) argument_count
  marker_id ← read_id args
  raise_if (marker_id == "") empty_id
  ok marker_id

abbrev marker_id : String → Expr → Result MarkerError (Option String)
marker_id marker_name (call func args keywords) =
    if is_pytest_marker func marker_name
    then read_only_id args keywords >>= (λ i. ok (some i))
    else ok none
marker_id marker_name _ = ok none

-- `_session_gateway_case_marker`
unfoldable pub session_gateway_case_marker : Expr → Result MarkerError (Option String)
unfolding is_pytest_marker read_only_id
session_gateway_case_marker node = marker_id "session_gateway_case" node

-- `_forbidden_response_marker_operation`
unfoldable pub forbidden_response_marker_operation : Expr → Result MarkerError (Option String)
unfolding is_pytest_marker read_only_id
forbidden_response_marker_operation node = marker_id "forbidden_response" node

module _ {A : Type 0} (read : Expr → Result MarkerError (Option A)) where
  abbrev pub cons_found : Option A → List A → List A
  cons_found none rest = rest
  cons_found (some a) rest = a ∷ rest

  -- The comprehension over the decorators of one function.
  unfoldable pub read_decorators : List Expr → Result MarkerError (List A)
  read_decorators [] = ok []
  read_decorators (d ∷ ds) = do
    found ← read d
    rest ← read_decorators ds
    ok (cons_found found rest)

-- A function's placeholder marker. Only a decorator that is no call counts.
abbrev pub is_placeholder : List Expr → Bool
is_placeholder ds = any (λ d. is_pytest_marker d "placeholder") ds

abbrev pub with_flag : {A : Type 0} → Bool → List A → List (A × Bool)
with_flag flag [] = []
with_flag flag (a ∷ as') = (a, flag) ∷ with_flag flag as'

-- The markers of all functions, each with its function's placeholder flag.
module _ {A : Type 0} (read : Expr → Result MarkerError (Option A)) where
  unfoldable pub collect_markers : List (List Expr) → Result MarkerError (List (A × Bool))
  unfolding read_decorators is_pytest_marker
  collect_markers [] = ok []
  collect_markers (decorators ∷ functions) = do
    found ← read_decorators read decorators
    rest ← collect_markers functions
    ok (with_flag (is_placeholder decorators) found ++ rest)

abbrev marker_of : OperationKey × Bool → Marker
marker_of (key, flag) = (key.contract, key.operation_id, flag)

-- `collect_openapi_markers_from_tests`, over the functions of all files
unfoldable pub collect_openapi_markers :
    List (List Expr) → Result MarkerError (Dict OperationKey MarkerCounts)
unfolding collect_markers openapi_marker_operation build_marker_counts
collect_openapi_markers functions = do
  markers ← collect_markers openapi_marker_operation functions
  ok (build_marker_counts (map marker_of markers))

-- `collect_forbidden_response_markers_from_tests`
unfoldable pub collect_forbidden_response_markers :
    List (List Expr) → Result MarkerError (Dict String MarkerCounts)
unfolding collect_markers forbidden_response_marker_operation counts_by
collect_forbidden_response_markers functions = do
  markers ← collect_markers forbidden_response_marker_operation functions
  ok (counts_by text_le markers)

abbrev count_ids : List (String × Bool) → Dict String ℕ → Dict String ℕ
count_ids [] counts = counts
count_ids ((case_id, _) ∷ rest) counts = count_ids rest (count_up case_id counts)

-- `collect_session_gateway_case_markers_from_tests`: the counter, sorted by case id.
unfoldable pub collect_session_gateway_case_markers :
    List (List Expr) → Result MarkerError (Dict String ℕ)
unfolding collect_markers session_gateway_case_marker sorted
collect_session_gateway_case_markers functions = do
  markers ← collect_markers session_gateway_case_marker functions
  let counts = count_ids markers []
  ok (map (λ i. (i, get_or counts i 0)) (sorted text_le (keys counts)))
