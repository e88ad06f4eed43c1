-- ===== src/Coverage/Operations/Inventory.antt =====
-- When `validate_inventory` accepts.
use budget_analyzer_api_test.Base.{
  ◌≡◌, refl, ◌∙◌, ap, ◌↔◌, Bool, true, false, ◌&&◌, ◌||◌, not, List, [], ◌∷◌, map, arith, ◌==◌,
  contains, keep, if◌then◌else◌, Option, none, some, String, all-ext, null-keep-not, all, null,
  nodup, string_eq, nat_eq, bool_eq, option_eq,
}
use budget_analyzer_api_test.Base.Dict.{
  Dict, keys, lookup, insert, lookup-insert, contains-keys-insert, lookup-eq-none_iff,
}
use budget_analyzer_api_test.Base.Sort.{null-sorted}
use budget_analyzer_api_test.Base.Result.{ok, >>=-eq-ok, raise_if-then}
use budget_analyzer_api_test.OpenApi.{OpenApiOperation, method_eq, contract_eq}
use budget_analyzer_api_test.Coverage.Types.{
  DeferredAdminOperation, MarkerCounts, OperationKey, key_eq, key_le,
}
use budget_analyzer_api_test.Coverage.Operations.{
  key_of, index_operations, unrecognized, deferred_key, check_deferred, validate_inventory, ids_of,
}

-- The operation with a key, as a list is searched.
abbrev pub find_operation : OperationKey → List OpenApiOperation → Option OpenApiOperation
find_operation k [] = none
find_operation k (o ∷ os) = if k == key_of o then some o else find_operation k os

abbrev pub operation_keys : List OpenApiOperation → List OperationKey
operation_keys os = map key_of os

-- A key that is indexed before is no key of the rest.
index-fresh :
    (os : List OpenApiOperation) (acc d : Dict OperationKey OpenApiOperation) (k : OperationKey)
    → index_operations os acc ≡ ok d
    → contains (keys acc) k ≡ true
    → contains (operation_keys os) k ≡ false
unfolding index_operations
index-fresh [] acc d k h m = refl
index-fresh (o ∷ os) acc d k h m = ground (
  arith,
  index-fresh os (insert (key_of o) o acc) d k,
  contains-keys-insert k (key_of o) o acc,
  lookup-eq-none_iff (key_of o) acc,
)

index-nodup :
    (os : List OpenApiOperation) (acc d : Dict OperationKey OpenApiOperation)
    → index_operations os acc ≡ ok d
    → nodup (operation_keys os) ≡ true
unfolding index_operations
index-nodup [] acc d h = refl
index-nodup (o ∷ os) acc d h = ground (
  arith,
  index-nodup os (insert (key_of o) o acc) d,
  index-fresh os (insert (key_of o) o acc) d (key_of o),
  contains-keys-insert (key_of o) (key_of o) o acc,
)

find-absent :
    (os : List OpenApiOperation) (k : OperationKey)
    → contains (operation_keys os) k ≡ false
    → find_operation k os ≡ none
find-absent [] k h = refl
find-absent (o ∷ os) k h = ground (arith, find-absent os k)

abbrev pub found_first : Option OpenApiOperation → Option OpenApiOperation → Option OpenApiOperation
found_first none later = later
found_first (some o) later = some o

index-lookup :
    (os : List OpenApiOperation) (acc d : Dict OperationKey OpenApiOperation) (k : OperationKey)
    → index_operations os acc ≡ ok d
    → lookup k d ≡ found_first (find_operation k os) (lookup k acc)
unfolding index_operations
index-lookup [] acc d k h = ground arith
index-lookup (o ∷ os) acc d k h = ground (
  arith,
  index-lookup os (insert (key_of o) o acc) d k,
  lookup-insert k (key_of o) o acc,
  index-fresh os (insert (key_of o) o acc) d (key_of o),
  contains-keys-insert (key_of o) (key_of o) o acc,
  find-absent os k,
)

fresh-insert :
    (ks : List OperationKey) (k : OperationKey) (o : OpenApiOperation)
    (acc : Dict OperationKey OpenApiOperation)
    → contains ks k ≡ false
    → all (λ j. not (contains (keys acc) j)) ks ≡ true
    → all (λ j. not (contains (keys (insert k o acc)) j)) ks ≡ true
fresh-insert [] k o acc h f = refl
fresh-insert (j ∷ ks) k o acc h f =
    ground (arith, fresh-insert ks k o acc, contains-keys-insert j k o acc)

index_complete :
    (os : List OpenApiOperation) (acc : Dict OperationKey OpenApiOperation)
    → nodup (operation_keys os) ≡ true
    → all (λ k. not (contains (keys acc) k)) (operation_keys os) ≡ true
    → (d : Dict OperationKey OpenApiOperation) × (index_operations os acc ≡ ok d)
unfolding index_operations
index_complete [] acc u f = (acc, refl)
index_complete (o ∷ os) acc u f =
    let absent : lookup (key_of o) acc ≡ none = ground (arith, lookup-eq-none_iff (key_of o) acc) in
    rw (absent, index_operations)
      (index_complete os (insert (key_of o) o acc) (ground arith)
        (fresh-insert (operation_keys os) (key_of o) o acc (ground arith) (ground arith)))

-- An indexed operation has the deferral's method and path.
abbrev pub agrees : DeferredAdminOperation → Option OpenApiOperation → Bool
agrees d none = false
agrees d (some o) = o.method == d.method && o.path == d.path

abbrev unseen : List String → List String → Bool
unseen seen ids = all (λ i. not (contains seen i)) ids

unseen-cons :
    (seen ids : List String) (x : String)
    → unseen (x ∷ seen) ids ≡ (not (contains ids x) && unseen seen ids)
unseen-cons seen [] x = refl
unseen-cons seen (i ∷ ids) x = ground (arith, unseen-cons seen ids x)

module _ (by_key : Dict OperationKey OpenApiOperation) where
  abbrev indexed : DeferredAdminOperation → Bool
  indexed d = agrees d (lookup (deferred_key d) by_key)

  check_deferred_sound :
      (ds : List DeferredAdminOperation) (seen : List String)
      → check_deferred ds seen by_key ≡ ok tt
      → (nodup (ids_of ds) ≡ true) × (unseen seen (ids_of ds) ≡ true) × (all indexed ds ≡ true)
  unfolding check_deferred
  check_deferred_sound [] seen h = (refl, refl, refl)
  check_deferred_sound (d ∷ ds) seen h = ground (
    arith,
    check_deferred_sound ds (d.operation_id ∷ seen),
    unseen-cons seen (ids_of ds) d.operation_id,
  )

  check_deferred_complete :
      (ds : List DeferredAdminOperation) (seen : List String)
      → nodup (ids_of ds) ≡ true
      → unseen seen (ids_of ds) ≡ true
      → all indexed ds ≡ true
      → check_deferred ds seen by_key ≡ ok tt
  unfolding check_deferred
  check_deferred_complete [] seen u f m = refl
  check_deferred_complete (d ∷ ds) seen u f m = ground (
    arith,
    check_deferred_complete ds (d.operation_id ∷ seen),
    unseen-cons seen (ids_of ds) d.operation_id,
  )

-- The inventory is in order: operation keys are distinct, every counted marker names an operation,
-- deferred ids are distinct, and each names a unified operation with its method and path.
pub record IsConsistent (operations : List OpenApiOperation) (ds : List DeferredAdminOperation)
    (marker_counts : Dict OperationKey MarkerCounts) : Type 0 where
  pub distinct : nodup (operation_keys operations) ≡ true
  pub recognized : all (contains (operation_keys operations)) (keys marker_counts) ≡ true
  pub distinct_deferred : nodup (ids_of ds) ≡ true
  pub current : all (λ d. agrees d (find_operation (deferred_key d) operations)) ds ≡ true

index-keys :
    (os : List OpenApiOperation) (acc d : Dict OperationKey OpenApiOperation) (k : OperationKey)
    → index_operations os acc ≡ ok d
    → contains (keys d) k ≡ (contains (operation_keys os) k || contains (keys acc) k)
unfolding index_operations
index-keys [] acc d k h = ground arith
index-keys (o ∷ os) acc d k h =
    ground
      (arith, index-keys os (insert (key_of o) o acc) d k, contains-keys-insert k (key_of o) o acc)

module _ (operations : List OpenApiOperation) (by_key : Dict OperationKey OpenApiOperation)
    (indexed_by : index_operations operations [] ≡ ok by_key) where
  null-unrecognized :
      (marker_counts : Dict OperationKey MarkerCounts)
      → null (unrecognized marker_counts by_key)
        ≡ all (contains (operation_keys operations)) (keys marker_counts)
  null-unrecognized marker_counts =
      null-sorted key_le (keep (λ k. not (contains (keys by_key) k)) (keys marker_counts))
      ∙ null-keep-not (contains (keys by_key)) (keys marker_counts)
      ∙ all-ext (contains (keys by_key)) (contains (operation_keys operations)) (keys marker_counts)
          (λ k. ground (arith, index-keys operations [] by_key k indexed_by))

  all-indexed :
      (ds : List DeferredAdminOperation)
      → all (λ d. agrees d (lookup (deferred_key d) by_key)) ds
        ≡ all (λ d. agrees d (find_operation (deferred_key d) operations)) ds
  all-indexed ds =
      all-ext (λ d. agrees d (lookup (deferred_key d) by_key))
        (λ d. agrees d (find_operation (deferred_key d) operations)) ds
        (λ d.
          ap (agrees d)
            (ground (arith, index-lookup operations [] by_key (deferred_key d) indexed_by)))

unseen-nil : (ids : List String) → unseen [] ids ≡ true
unseen-nil [] = refl
unseen-nil (i ∷ ids) = unseen-nil ids

validate_sound :
    (operations : List OpenApiOperation) (ds : List DeferredAdminOperation)
    (marker_counts : Dict OperationKey MarkerCounts)
    → validate_inventory operations ds marker_counts ≡ ok tt
    → IsConsistent operations ds marker_counts
unfolding validate_inventory
validate_sound operations ds marker_counts h =
    let (by_key, e, rest) = >>=-eq-ok (index_operations operations []) _ h in
    let (known, checked) =
      raise_if-then (not (null (unrecognized marker_counts by_key))) _ _ rest in
    let (distinct, _, matched) = check_deferred_sound by_key ds [] checked in
    record {
      distinct = index-nodup operations [] by_key e;
      recognized = ground (arith, null-unrecognized operations by_key e marker_counts, known);
      distinct_deferred = distinct;
      current = rw (← all-indexed operations by_key e ds) matched;
    }

nothing-seen : (ks : List OperationKey) → all (λ k. not (contains [] k)) ks ≡ true
nothing-seen [] = refl
nothing-seen (k ∷ ks) = nothing-seen ks

validate_complete :
    (operations : List OpenApiOperation) (ds : List DeferredAdminOperation)
    (marker_counts : Dict OperationKey MarkerCounts)
    → IsConsistent operations ds marker_counts
    → validate_inventory operations ds marker_counts ≡ ok tt
unfolding validate_inventory
validate_complete operations ds marker_counts c =
    let (by_key, e) =
      index_complete operations [] c.distinct (nothing-seen (operation_keys operations)) in
    rw (e, null-unrecognized operations by_key e marker_counts, c.recognized)
      (check_deferred_complete by_key ds [] c.distinct_deferred (unseen-nil (ids_of ds))
        (rw (all-indexed operations by_key e ds) c.current))

-- The inventory is accepted exactly when it is consistent: the operations' keys are distinct, every
-- counted marker names an operation, and the deferred ids are distinct and name unified operations
-- with their methods and paths.
pub validate_inventory_iff :
    (operations : List OpenApiOperation) (ds : List DeferredAdminOperation)
    (marker_counts : Dict OperationKey MarkerCounts)
    → (validate_inventory operations ds marker_counts ≡ ok tt)
      ↔ IsConsistent operations ds marker_counts
validate_inventory_iff operations ds marker_counts =
    (validate_sound operations ds marker_counts, validate_complete operations ds marker_counts)
