-- ===== src/OpenApi.antt =====
-- src/api_tests/openapi.py: the values that the other components exchange.
pub mod Document
pub mod Drift
pub mod Requests
use Prim.Native.String.{String}
use budget_analyzer_api_test.Base.{Eq, Bool, ◌==◌, string_eq, if◌then◌else◌}
use budget_analyzer_api_test.Base.Text.{text_le}

-- `OpenApiContractKey`
pub data OpenApiContractKey : Type 0 where
  unified session_gateway : OpenApiContractKey

pub data HttpMethod : Type 0 where
  get post put patch delete : HttpMethod

abbrev pub contract_text : OpenApiContractKey → String
contract_text unified = "unified"
contract_text session_gateway = "session_gateway"

abbrev pub method_text : HttpMethod → String
method_text get = "GET"
method_text post = "POST"
method_text put = "PUT"
method_text patch = "PATCH"
method_text delete = "DELETE"

pub record OpenApiOperation : Type 0 where
  pub contract : OpenApiContractKey
  pub operation_id : String
  pub method : HttpMethod
  pub path : String

contract_dec : Discrete OpenApiContractKey
contract_dec = hlevel

method_dec : Discrete HttpMethod
method_dec = hlevel

instance unfoldable pub contract_eq : Eq OpenApiContractKey
unfolding contract_dec
contract_eq = record { dec = contract_dec }

instance unfoldable pub method_eq : Eq HttpMethod
unfolding method_dec
method_eq = record { dec = method_dec }

-- The order of the tuples (path, method, operation id) that every report sorts by.
abbrev pub row_le : String × HttpMethod × String → String × HttpMethod × String → Bool
row_le (p, m, i) (q, n, j) =
    if p == q
    then if method_text m == method_text n
      then text_le i j
      else text_le (method_text m) (method_text n)
    else text_le p q
