-- ===== src/Coverage/Source/Decorators.antt =====
-- Which decorators are markers: what the readers accept, and what they refuse.
use budget_analyzer_api_test.Base.{
  ◌≡◌, refl, ◌∙◌, ap, ◌≢◌, ◌↔◌, ◌⊎◌, true, not, arith, ◌==◌, Option, none, some, inl, inr,
  Option-cases, String, string_eq, nat_eq, ==_self, ne_of_==, bool_eq, option_eq,
}
use budget_analyzer_api_test.Base.Result.{ok, >>=-eq-ok, raise_if-then, ok-injective}
use mathlib.Core.Path.{subst}
use budget_analyzer_api_test.OpenApi.{OpenApiContractKey, unified, session_gateway, contract_text}
use budget_analyzer_api_test.Coverage.Types.{OperationKey}
use budget_analyzer_api_test.Coverage.Source.{
  Expr, identifier, attribute, call, text, Args, no_args, arg, Keywords, no_keywords, keyword,
  is_pytest_marker, contract_of, text_of, only_argument, no_keyword_arguments, is_contract,
  read_contract, read_id, read_operation, openapi_marker_operation, read_only_id,
  forbidden_response_marker_operation,
}

-- `pytest.mark.<name>`
abbrev pub pytest_marker : String → Expr
pytest_marker name = attribute (attribute (identifier "pytest") "mark") name

abbrev pub single : String → Args
single s = arg (text s) no_args

-- `@pytest.mark.openapi("<id>")`, and the same with `contract="<contract>"`
abbrev pub plain_decorator : String → Expr
plain_decorator i = call (pytest_marker "openapi") (single i) no_keywords

abbrev pub contract_decorator : OperationKey → Expr
contract_decorator k =
    call (pytest_marker "openapi") (single k.operation_id)
      (keyword (some "contract") (text (contract_text k.contract)) no_keywords)

is_pytest_marker_sound :
    (e : Expr) (name : String) → is_pytest_marker e name ≡ true → e ≡ pytest_marker name
unfolding is_pytest_marker
is_pytest_marker_sound (attribute (attribute (identifier p) m) a) name h = ground arith
is_pytest_marker_sound _ name h = cc

is_pytest_marker_complete : (name : String) → is_pytest_marker (pytest_marker name) name ≡ true
unfolding is_pytest_marker
is_pytest_marker_complete name = ground arith

text_of_sound : (e : Expr) (s : String) → text_of e ≡ some s → e ≡ text s
text_of_sound (text t) s h = ground arith
text_of_sound _ s h = cc

only_argument_sound : (a : Args) (e : Expr) → only_argument a ≡ some e → a ≡ arg e no_args
only_argument_sound (arg x no_args) e h = ground arith
only_argument_sound _ e h = cc

read_id_sound : (a : Args) (i : String) → read_id a ≡ ok i → a ≡ single i
unfolding read_id
read_id_sound a i h = elim (Option-cases (only_argument a)) [
  | inl missing ↦ cc (rw (missing, read_id) at h)
  | inr (e, found) ↦ elim (Option-cases (text_of e)) [
    | inl unread ↦ ground (arith, found, unread)
    | inr (s, read) ↦
        ground (arith, only_argument_sound a e found, text_of_sound e s read, found, read)
  ]
]

contract_of_sound :
    (s : String) (c : OpenApiContractKey) → contract_of s ≡ ok c → s ≡ contract_text c
contract_of_sound s c h = ground arith

no_keyword_arguments_sound : (k : Keywords) → no_keyword_arguments k ≡ true → k ≡ no_keywords
no_keyword_arguments_sound no_keywords h = refl
no_keyword_arguments_sound (keyword _ _ _) h = cc

is_contract_sound : (n : Option String) → is_contract n ≡ true → n ≡ some "contract"
is_contract_sound none h = cc
is_contract_sound (some n) h = ground arith

read_contract_sound :
    (k : Keywords) (c : OpenApiContractKey)
    → read_contract k ≡ ok c
    → ((k ≡ no_keywords) × (c ≡ unified))
      ⊎ (k ≡ keyword (some "contract") (text (contract_text c)) no_keywords)
unfolding read_contract
read_contract_sound no_keywords c h = inl (refl, ground arith)
read_contract_sound (keyword n e rest) c h = elim (Option-cases (text_of e)) [
  | inl unread ↦ ground (arith, unread)
  | inr (s, read) ↦ inr (
      ground (
        arith,
        text_of_sound e s read,
        read,
        is_contract_sound n,
        no_keyword_arguments_sound rest,
        contract_of_sound s c,
      ))
]

-- The two forms of the marker of an operation.
abbrev pub IsOpenapiMarker : Expr → OperationKey → Type 0
IsOpenapiMarker node k =
    ((node ≡ plain_decorator k.operation_id) × (k.contract ≡ unified))
    ⊎ (node ≡ contract_decorator k)

read_operation_sound :
    (a : Args) (ks : Keywords) (k : OperationKey)
    → read_operation a ks ≡ ok k
    → (a ≡ single k.operation_id)
      × (((ks ≡ no_keywords) × (k.contract ≡ unified))
          ⊎ (ks ≡ keyword (some "contract") (text (contract_text k.contract)) no_keywords))
unfolding read_operation
read_operation_sound a ks k h =
    let (i, read, rest) = >>=-eq-ok (read_id a) _ h in
    let (c, kept, last) = >>=-eq-ok (read_contract ks) _ rest in
    let made : OperationKey = record { contract = c; operation_id = i } in
    let same : made ≡ k = ok-injective made k last in
    let named : i ≡ k.operation_id = ap (λ (x : OperationKey). x.operation_id) same in
    let under : c ≡ k.contract = ap (λ (x : OperationKey). x.contract) same in
    (
      read_id_sound a i read ∙ ap single named,
      subst
          (λ x.
            ((ks ≡ no_keywords) × (x ≡ unified))
            ⊎ (ks ≡ keyword (some "contract") (text (contract_text x)) no_keywords))
          under (read_contract_sound ks c kept),
    )

openapi_sound :
    (node : Expr) (k : OperationKey)
    → openapi_marker_operation node ≡ ok (some k)
    → IsOpenapiMarker node k
unfolding openapi_marker_operation
openapi_sound (call f a ks) k h =
    ground (arith, is_pytest_marker_sound f "openapi", read_operation_sound a ks k)
openapi_sound _ k h = cc

openapi-plain :
    (i : String)
    → openapi_marker_operation (plain_decorator i)
      ≡ ok (some (record { contract = unified; operation_id = i }))
unfolding openapi_marker_operation
openapi-plain i = rw (is_pytest_marker_complete "openapi")

contract_of-contract_text : (c : OpenApiContractKey) → contract_of (contract_text c) ≡ ok c
unfolding string_eq
contract_of-contract_text unified = refl
contract_of-contract_text session_gateway = refl

openapi-contract :
    (k : OperationKey) → openapi_marker_operation (contract_decorator k) ≡ ok (some k)
unfolding openapi_marker_operation
openapi-contract k = ground (
  arith,
  is_pytest_marker_complete "openapi",
  contract_of-contract_text k.contract,
  ==_self {A = String} "contract",
)

openapi_complete :
    (node : Expr) (k : OperationKey)
    → IsOpenapiMarker node k
    → openapi_marker_operation node ≡ ok (some k)
openapi_complete node k (inl (e, c)) = ground (arith, openapi-plain k.operation_id)
openapi_complete node k (inr e) = rw e (openapi-contract k)

-- A decorator is read as the marker of an operation exactly when it is `pytest.mark.openapi` called
-- with the operation's id alone, for the unified contract, or with the contract's name as well.
pub openapi_marker_operation_iff :
    (node : Expr) (k : OperationKey)
    → (openapi_marker_operation node ≡ ok (some k)) ↔ IsOpenapiMarker node k
openapi_marker_operation_iff node k = (openapi_sound node k, openapi_complete node k)

-- `pytest.mark.forbidden_response("<id>")`
abbrev pub forbidden_decorator : String → Expr
forbidden_decorator i = call (pytest_marker "forbidden_response") (single i) no_keywords

read_only_id_sound :
    (a : Args) (ks : Keywords) (i : String)
    → read_only_id a ks ≡ ok i
    → (a ≡ single i) × (ks ≡ no_keywords) × (i ≢ "")
unfolding read_only_id
read_only_id_sound a ks i h =
    let (bare, rest) = raise_if-then (not (no_keyword_arguments ks)) _ _ h in
    let (j, read, more) = >>=-eq-ok (read_id a) _ rest in
    let (filled, last) = raise_if-then (j == "") _ _ more in
    let same : j ≡ i = ok-injective j i last in
    (
      read_id_sound a j read ∙ ap single same,
      no_keyword_arguments_sound ks (ground arith),
      λ e. ne_of_== j "" filled (same ∙ e),
    )

forbidden_sound :
    (node : Expr) (i : String)
    → forbidden_response_marker_operation node ≡ ok (some i)
    → (node ≡ forbidden_decorator i) × (i ≢ "")
unfolding forbidden_response_marker_operation
forbidden_sound (call f a ks) i h =
    ground (arith, is_pytest_marker_sound f "forbidden_response", read_only_id_sound a ks i)
forbidden_sound _ i h = cc

forbidden_complete :
    (i : String)
    → i ≢ ""
    → forbidden_response_marker_operation (forbidden_decorator i) ≡ ok (some i)
unfolding forbidden_response_marker_operation
forbidden_complete i filled = ground (arith, is_pytest_marker_complete "forbidden_response")

-- A decorator is read as the forbidden-response marker of an operation exactly when it is
-- `pytest.mark.forbidden_response` called with the operation's id alone, and the id is not empty.
pub forbidden_response_marker_iff :
    (node : Expr) (i : String)
    → (forbidden_response_marker_operation node ≡ ok (some i))
      ↔ ((node ≡ forbidden_decorator i) × (i ≢ ""))
forbidden_response_marker_iff node i =
    (forbidden_sound node i, λ h. rw (h.0) (forbidden_complete i h.1))
