-- ===== src/Coverage/Types.antt =====
-- The records of coverage.py.
use budget_analyzer_api_test.Base.{ℕ, String, Bool, Eq, ◌==◌, string_eq, string_dec, if◌then◌else◌}
use budget_analyzer_api_test.Base.Text.{text_le}
use budget_analyzer_api_test.OpenApi.{HttpMethod, OpenApiContractKey, contract_text}

pub data CoverageSource : Type 0 where
  live snapshot : CoverageSource

pub data CoverageStatus : Type 0 where
  covered placeholder missing deferred : CoverageStatus

pub record DeferredAdminOperation : Type 0 where
  pub operation_id : String
  pub method : HttpMethod
  pub path : String

pub record MarkerCounts : Type 0 where
  pub marker_count : ℕ
  pub placeholder_marker_count : ℕ

-- `MarkerCounts()`
abbrev pub no_markers : MarkerCounts
no_markers = record { marker_count = 0; placeholder_marker_count = 0 }

pub record OperationKey : Type 0 where
  pub contract : OpenApiContractKey
  pub operation_id : String

key_dec : Discrete OperationKey
key_dec = hlevel string_dec

instance unfoldable pub key_eq : Eq OperationKey
unfolding key_dec string_dec
key_eq = record { dec = key_dec }

-- The order of a dataclass with `order=True`: field by field.
abbrev pub key_le : OperationKey → OperationKey → Bool
key_le a b =
    if contract_text a.contract == contract_text b.contract
    then text_le a.operation_id b.operation_id
    else text_le (contract_text a.contract) (contract_text b.contract)

pub record OperationCoverage : Type 0 where
  pub contract : OpenApiContractKey
  pub operation_id : String
  pub method : HttpMethod
  pub path : String
  pub source : CoverageSource
  pub deferred_admin : Bool
  pub marker_count : ℕ
  pub placeholder_marker_count : ℕ
  pub status : CoverageStatus

status_dec : Discrete CoverageStatus
status_dec = hlevel

instance unfoldable pub status_eq : Eq CoverageStatus
unfolding status_dec
status_eq = record { dec = status_dec }
