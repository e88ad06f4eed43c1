-- ===== src/Coverage/Manifests/Loaded.antt =====
-- What a loaded manifest holds.
use budget_analyzer_api_test.Base.{
  ◌≡◌, ◌∙◌, ap, List, [], ◌∷◌, String, string_eq, nat_eq, bool_eq, option_eq,
}
use budget_analyzer_api_test.Base.Result.{Result, ok, >>=-eq-ok, ok-injective}
use budget_analyzer_api_test.Coverage.Forbidden.{ForbiddenResponseDeferral}
use budget_analyzer_api_test.Coverage.Types.{DeferredAdminOperation}
use mathlib.Core.Path.{subst}
use budget_analyzer_api_test.OpenApi.Document.{
  Json, Members, Items, null_value, text, array, object, no_items, item, field, as_object,
}
use budget_analyzer_api_test.SessionGateway.Load.{named, as_list}
use budget_analyzer_api_test.Coverage.Manifests.{
  ManifestError, require, unsupported_reason, entry_not_mapping, not_a_mapping, no_list, reason_of,
  read_operation_fields, load_deferred, load_deferral, load_each, load_manifest,
  load_deferred_admin_operations, load_forbidden_response_deferrals,
}
use budget_analyzer_api_test.Coverage.Manifests.Entries.{
  require-eq-ok, reason_name, IsEntry, named_lem, object_lem, array_lem, reason_name-reason_of,
  read_operation_fields-IsEntry,
}

-- What is loaded from an entry of either manifest.
abbrev pub IsDeferred : Json → DeferredAdminOperation → Type 0
IsDeferred value d = IsEntry value d.operation_id d.method d.path

abbrev pub reason_field : Json → Json
reason_field (object raw) = field raw "reason"
reason_field _ = null_value

abbrev pub IsDeferral : Json → ForbiddenResponseDeferral → Type 0
IsDeferral value d =
    IsEntry value d.operation_id d.method d.path
    × (reason_field value ≡ text (reason_name d.reason))

load_deferred-IsDeferred :
    (value : Json) (d : DeferredAdminOperation) → load_deferred value ≡ ok d → IsDeferred value d
unfolding load_deferred
load_deferred-IsDeferred value d h =
    let (raw, found, step1) = >>=-eq-ok (require entry_not_mapping (as_object value)) _ h in
    let (fields, read, done) = >>=-eq-ok (read_operation_fields raw) _ step1 in
    let whole =
      object_lem value raw (require-eq-ok entry_not_mapping (as_object value) raw found) in
    subst (IsDeferred value) (ok-injective _ _ done)
      (read_operation_fields-IsEntry value raw fields whole read)

load_deferral-IsDeferral :
    (value : Json) (d : ForbiddenResponseDeferral) → load_deferral value ≡ ok d → IsDeferral value d
unfolding load_deferral
load_deferral-IsDeferral value d h =
    let (raw, found, step1) = >>=-eq-ok (require entry_not_mapping (as_object value)) _ h in
    let (fields, read, step2) = >>=-eq-ok (read_operation_fields raw) _ step1 in
    let (reason, known, done) =
      >>=-eq-ok (require unsupported_reason (named reason_of (field raw "reason"))) _ step2 in
    let whole =
      object_lem value raw (require-eq-ok entry_not_mapping (as_object value) raw found) in
    subst (IsDeferral value) (ok-injective _ _ done) (
      read_operation_fields-IsEntry value raw fields whole read,
      ap reason_field whole
          ∙ named_lem reason_of reason_name (field raw "reason") reason reason_name-reason_of (
              require-eq-ok unsupported_reason (named reason_of (field raw "reason")) reason known),
    )

-- The loaded values are those of the entries, in their order.
abbrev pub AreLoaded : {A : Type 0} → (Json → A → Type 0) → Items → List A → Type 0
AreLoaded P no_items [] = Unit
AreLoaded P no_items (a ∷ as') = ⊥
AreLoaded P (item value rest) [] = ⊥
AreLoaded P (item value rest) (a ∷ as') = P value a × AreLoaded P rest as'

-- The manifest is an object with the named list, whose entries are the loaded values.
pub record IsManifest {A : Type 0} (P : Json → A → Type 0) (list_name : String) (manifest : Json)
    (loaded : List A) : Type 0 where
  pub raw : Members
  pub items : Items
  pub whole : manifest ≡ object raw
  pub listed : field raw list_name ≡ array items
  pub entries : AreLoaded P items loaded

module _ {A : Type 0} (load : Json → Result ManifestError A) (P : Json → A → Type 0)
    (step : (value : Json) (a : A) → load value ≡ ok a → P value a) where
  load_each-AreLoaded :
      (items : Items) (as' : List A) → load_each load items ≡ ok as' → AreLoaded P items as'
  unfolding load_each
  load_each-AreLoaded no_items [] h = tt
  load_each-AreLoaded no_items (a ∷ as') h = cc
  load_each-AreLoaded (item value rest) as' h =
      let (first, loaded, more) = >>=-eq-ok (load value) _ h in
      let (others, later, done) = >>=-eq-ok (load_each load rest) _ more in
      subst (AreLoaded P (item value rest)) (ok-injective _ _ done)
        (step value first loaded, load_each-AreLoaded rest others later)

  load_manifest-IsManifest :
      (list_name : String) (manifest : Json) (as' : List A)
      → load_manifest load list_name manifest ≡ ok as'
      → IsManifest P list_name manifest as'
  unfolding load_manifest
  load_manifest-IsManifest list_name manifest as' h =
      let (raw, found, step1) = >>=-eq-ok (require not_a_mapping (as_object manifest)) _ h in
      let (items, listed, loaded) =
        >>=-eq-ok (require no_list (as_list (field raw list_name))) _ step1 in
      record {
        raw = raw;
        items = items;
        whole =
            object_lem manifest raw (require-eq-ok not_a_mapping (as_object manifest) raw found);
        listed =
            array_lem (field raw list_name) items
              (require-eq-ok no_list (as_list (field raw list_name)) items listed);
        entries = load_each-AreLoaded items as' loaded;
      }

-- Where a manifest of deferred operations is loaded, it is an object whose list
-- `deferred_admin_operations` has one entry for each loaded operation, in their order: an object whose
-- `operationId` is the operation's id, which is not empty, whose `method` is the name of its method,
-- and whose `path` is its path, which starts at the root.
pub load_deferred_admin_operations_lem :
    (manifest : Json) (ds : List DeferredAdminOperation)
    → load_deferred_admin_operations manifest ≡ ok ds
    → IsManifest IsDeferred "deferred_admin_operations" manifest ds
unfolding load_deferred_admin_operations
load_deferred_admin_operations_lem manifest ds h =
    load_manifest-IsManifest load_deferred IsDeferred load_deferred-IsDeferred
      "deferred_admin_operations" manifest ds h

-- Where a manifest of deferred 403 responses is loaded, it is an object whose list
-- `deferred_forbidden_responses` has one entry for each loaded deferral, in their order: an object
-- whose `operationId` is the deferral's id, which is not empty, whose `method` is the name of its
-- method, whose `path` is its path, which starts at the root, and whose `reason` is the name of its
-- reason.
pub load_forbidden_response_deferrals_lem :
    (manifest : Json) (ds : List ForbiddenResponseDeferral)
    → load_forbidden_response_deferrals manifest ≡ ok ds
    → IsManifest IsDeferral "deferred_forbidden_responses" manifest ds
unfolding load_forbidden_response_deferrals
load_forbidden_response_deferrals_lem manifest ds h =
    load_manifest-IsManifest load_deferral IsDeferral load_deferral-IsDeferral
      "deferred_forbidden_responses" manifest ds h
