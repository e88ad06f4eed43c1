-- ===== src/Coverage/Manifests/Entries.antt =====
-- What the fields of an entry of a manifest of deferred operations state.
use budget_analyzer_api_test.Base.{
  ◌≡◌, ap, true, false, arith, ◌==◌, Option, none, some, String, string_eq, nat_eq, bool_eq,
  option_eq,
}
use budget_analyzer_api_test.Base.Result.{ok, >>=-eq-ok, ok-injective}
use budget_analyzer_api_test.Base.Text.{starts_with_slash}
use budget_analyzer_api_test.Coverage.Forbidden.{
  DeferralReason, no_restricted_normal_user_scenario, admin_identity_and_safety_plan_required,
  global_mutation_not_authorized,
}
use mathlib.Core.Path.{subst}
use budget_analyzer_api_test.OpenApi.{HttpMethod, get, post, put, patch, delete}
use budget_analyzer_api_test.OpenApi.Document.{
  Json, Members, Items, null_value, boolean, number, text, array, object, field, as_object,
}
use budget_analyzer_api_test.SessionGateway.{method_of}
use budget_analyzer_api_test.SessionGateway.Load.{non_empty_text, named, rooted_text, as_list}
use budget_analyzer_api_test.Coverage.Manifests.{
  ManifestError, require, missing_operation_id, unsupported_method, invalid_path, reason_of,
  read_operation_fields,
}

pub require-eq-ok :
    {A : Type 0} (e : ManifestError) (o : Option A) (a : A) → require e o ≡ ok a → o ≡ some a
require-eq-ok e none a h = cc
require-eq-ok e (some b) a h = ap some (ok-injective b a h)

-- The names that the manifests have for methods and reasons.
abbrev pub method_name : HttpMethod → String
method_name get = "GET"
method_name post = "POST"
method_name put = "PUT"
method_name patch = "PATCH"
method_name delete = "DELETE"

abbrev pub reason_name : DeferralReason → String
reason_name no_restricted_normal_user_scenario = "no_restricted_normal_user_scenario"
reason_name admin_identity_and_safety_plan_required = "admin_identity_and_safety_plan_required"
reason_name global_mutation_not_authorized = "global_mutation_not_authorized"

method_name-method_of : (s : String) (m : HttpMethod) → method_of s ≡ some m → s ≡ method_name m
method_name-method_of s get h = ground arith
method_name-method_of s post h = ground arith
method_name-method_of s put h = ground arith
method_name-method_of s patch h = ground arith
method_name-method_of s delete h = ground arith

pub reason_name-reason_of :
    (s : String) (r : DeferralReason) → reason_of s ≡ some r → s ≡ reason_name r
reason_name-reason_of s no_restricted_normal_user_scenario h = ground arith
reason_name-reason_of s admin_identity_and_safety_plan_required h = ground arith
reason_name-reason_of s global_mutation_not_authorized h = ground arith

-- An entry of a manifest is an object that states the operation's fields.
pub record IsEntry (value : Json) (operation_id : String) (method : HttpMethod) (path : String)
    : Type 0 where
  pub raw : Members
  pub whole : value ≡ object raw
  pub id_stated : field raw "operationId" ≡ text operation_id
  pub id_filled : (operation_id == "") ≡ false
  pub method_stated : field raw "method" ≡ text (method_name method)
  pub path_stated : field raw "path" ≡ text path
  pub path_rooted : starts_with_slash path ≡ true

non_empty_lem :
    (value : Json) (s : String)
    → non_empty_text value ≡ some s
    → (value ≡ text s) × ((s == "") ≡ false)
non_empty_lem (text t) s h = ground arith
non_empty_lem null_value s h = cc
non_empty_lem (boolean b) s h = cc
non_empty_lem (number n) s h = cc
non_empty_lem (array is) s h = cc
non_empty_lem (object ms) s h = cc

rooted_lem :
    (value : Json) (s : String)
    → rooted_text value ≡ some s
    → (value ≡ text s) × (starts_with_slash s ≡ true)
rooted_lem (text t) s h = ground arith
rooted_lem null_value s h = cc
rooted_lem (boolean b) s h = cc
rooted_lem (number n) s h = cc
rooted_lem (array is) s h = cc
rooted_lem (object ms) s h = cc

pub named_lem :
    {A : Type 0} (name_of : String → Option A) (name : A → String) (value : Json) (a : A)
    → ((s : String) (b : A) → name_of s ≡ some b → s ≡ name b)
    → named name_of value ≡ some a
    → value ≡ text (name a)
named_lem name_of name (text s) a known h = ap text (known s a h)
named_lem name_of name null_value a known h = cc
named_lem name_of name (boolean b) a known h = cc
named_lem name_of name (number n) a known h = cc
named_lem name_of name (array is) a known h = cc
named_lem name_of name (object ms) a known h = cc

pub object_lem : (value : Json) (raw : Members) → as_object value ≡ some raw → value ≡ object raw
object_lem (object ms) raw h = ground arith
object_lem null_value raw h = cc
object_lem (boolean b) raw h = cc
object_lem (number n) raw h = cc
object_lem (array is) raw h = cc
object_lem (text s) raw h = cc

pub array_lem : (value : Json) (items : Items) → as_list value ≡ some items → value ≡ array items
array_lem (array is) items h = ground arith
array_lem null_value items h = cc
array_lem (boolean b) items h = cc
array_lem (number n) items h = cc
array_lem (object ms) items h = cc
array_lem (text s) items h = cc

pub read_operation_fields-IsEntry :
    (value : Json) (raw : Members) (fields : String × HttpMethod × String)
    → value ≡ object raw
    → read_operation_fields raw ≡ ok fields
    → IsEntry value fields.0 fields.1 fields.2
unfolding read_operation_fields
read_operation_fields-IsEntry value raw fields v h =
    let (operation_id, read1, step1) =
      >>=-eq-ok (require missing_operation_id (non_empty_text (field raw "operationId"))) _ h in
    let (method, read2, step2) =
      >>=-eq-ok (require unsupported_method (named method_of (field raw "method"))) _ step1 in
    let (path, read3, done) =
      >>=-eq-ok (require invalid_path (rooted_text (field raw "path"))) _ step2 in
    let same : Path (String × HttpMethod × String) (operation_id, method, path) fields =
      ok-injective _ _ done in
    let (id_text, id_filled) = non_empty_lem (field raw "operationId") operation_id (
      require-eq-ok missing_operation_id (non_empty_text (field raw "operationId")) operation_id
        read1) in
    let (path_text, path_rooted) =
      rooted_lem (field raw "path") path
        (require-eq-ok invalid_path (rooted_text (field raw "path")) path read3) in
    subst (λ (t : String × HttpMethod × String). IsEntry value t.0 t.1 t.2) same
      (record {
        raw = raw;
        whole = v;
        id_stated = id_text;
        id_filled = id_filled;
        method_stated =
            named_lem method_of method_name (field raw "method") method method_name-method_of (
              require-eq-ok unsupported_method (named method_of (field raw "method")) method read2);
        path_stated = path_text;
        path_rooted = path_rooted;
      })
