-- ===== src/Coverage/Forbidden/Accounted.antt =====
-- Which responses the forbidden-response report counts as covered and which as deferred.
use budget_analyzer_api_test.Base.{
  ◌+◌, ◌≤◌, ◌≡◌, refl, Bool, true, false, ◌&&◌, ◌||◌, List, [], ◌∷◌, map, arith, ◌==◌, contains,
  if◌then◌else◌, Option, none, some, String, all, any, nodup, length, string_eq, nat_eq, bool_eq,
  option_eq,
}
use budget_analyzer_api_test.Base.Dict.{
  Dict, keys, lookup, insert, lookup-insert, contains-keys-insert, length-insert,
}
use budget_analyzer_api_test.Base.Result.{ok}
use budget_analyzer_api_test.OpenApi.{OpenApiOperation, method_eq}
use budget_analyzer_api_test.Coverage.Forbidden.{
  ForbiddenResponseDeferral, index_by_id, index_deferrals,
}

abbrev pub operation_ids : List OpenApiOperation → List String
operation_ids os = map (λ o. o.operation_id) os

abbrev pub deferral_ids : List ForbiddenResponseDeferral → List String
deferral_ids ds = map (λ d. d.operation_id) ds

pub contains-index_by_id :
    (os : List OpenApiOperation) (acc : Dict String OpenApiOperation) (i : String)
    → contains (keys (index_by_id os acc)) i
      ≡ (contains (operation_ids os) i || contains (keys acc) i)
unfolding index_by_id
contains-index_by_id [] acc i = refl
contains-index_by_id (o ∷ os) acc i = ground (
  arith,
  contains-index_by_id os (insert o.operation_id o acc) i,
  contains-keys-insert i o.operation_id o acc,
)

length-index_by_id :
    (os : List OpenApiOperation) (acc : Dict String OpenApiOperation)
    → length (index_by_id os acc) ≤ length os + length acc
unfolding index_by_id
length-index_by_id [] acc = omega arith
length-index_by_id (o ∷ os) acc =
    ground (
      arith,
      length-index_by_id os (insert o.operation_id o acc),
      length-insert o.operation_id o acc,
    )

-- No id is lost only if the ids are distinct, and new to the dict.
index_by_id-fresh :
    (os : List OpenApiOperation) (acc : Dict String OpenApiOperation) (i : String)
    → length (index_by_id os acc) ≡ length os + length acc
    → contains (keys acc) i ≡ true
    → contains (operation_ids os) i ≡ false
unfolding index_by_id
index_by_id-fresh [] acc i h m = refl
index_by_id-fresh (o ∷ os) acc i h m = ground (
  arith,
  index_by_id-fresh os (insert o.operation_id o acc) i,
  length-index_by_id os (insert o.operation_id o acc),
  length-insert o.operation_id o acc,
  contains-keys-insert i o.operation_id o acc,
)

pub index_by_id-nodup :
    (os : List OpenApiOperation) (acc : Dict String OpenApiOperation)
    → length (index_by_id os acc) ≡ length os + length acc
    → nodup (operation_ids os) ≡ true
unfolding index_by_id
index_by_id-nodup [] acc h = refl
index_by_id-nodup (o ∷ os) acc h = ground (
  arith,
  index_by_id-nodup os (insert o.operation_id o acc),
  index_by_id-fresh os (insert o.operation_id o acc) o.operation_id,
  length-index_by_id os (insert o.operation_id o acc),
  length-insert o.operation_id o acc,
  contains-keys-insert o.operation_id o.operation_id o acc,
)

-- The deferral of an operation id, as the manifest lists it.
abbrev pub find_deferral :
    String → List ForbiddenResponseDeferral → Option ForbiddenResponseDeferral
find_deferral i [] = none
find_deferral i (d ∷ ds) = if i == d.operation_id then some d else find_deferral i ds

abbrev first_deferral :
    Option ForbiddenResponseDeferral
    → Option ForbiddenResponseDeferral
    → Option ForbiddenResponseDeferral
first_deferral none later = later
first_deferral (some d) later = some d

abbrev pub names_operation : ForbiddenResponseDeferral → Option OpenApiOperation → Bool
names_operation d none = false
names_operation d (some o) = o.method == d.method && o.path == d.path

pub find_deferral-absent :
    (ds : List ForbiddenResponseDeferral) (i : String)
    → contains (deferral_ids ds) i ≡ false
    → find_deferral i ds ≡ none
find_deferral-absent [] i h = refl
find_deferral-absent (d ∷ ds) i h = ground (arith, find_deferral-absent ds i)

module _ (by_id : Dict String OpenApiOperation) where
  pub index_deferrals-keys :
      (ds : List ForbiddenResponseDeferral) (acc found : Dict String ForbiddenResponseDeferral)
      (i : String)
      → index_deferrals by_id ds acc ≡ ok found
      → contains (keys found) i ≡ (contains (deferral_ids ds) i || contains (keys acc) i)
  unfolding index_deferrals
  index_deferrals-keys [] acc found i h = ground arith
  index_deferrals-keys (d ∷ ds) acc found i h = ground (
    arith,
    index_deferrals-keys ds (insert d.operation_id d acc) found i,
    contains-keys-insert i d.operation_id d acc,
  )

  index_deferrals-fresh :
      (ds : List ForbiddenResponseDeferral) (acc found : Dict String ForbiddenResponseDeferral)
      (i : String)
      → index_deferrals by_id ds acc ≡ ok found
      → contains (keys acc) i ≡ true
      → contains (deferral_ids ds) i ≡ false
  unfolding index_deferrals
  index_deferrals-fresh [] acc found i h m = refl
  index_deferrals-fresh (d ∷ ds) acc found i h m = ground (
    arith,
    index_deferrals-fresh ds (insert d.operation_id d acc) found i,
    contains-keys-insert i d.operation_id d acc,
  )

  pub index_deferrals-current :
      (ds : List ForbiddenResponseDeferral) (acc found : Dict String ForbiddenResponseDeferral)
      → index_deferrals by_id ds acc ≡ ok found
      → (nodup (deferral_ids ds) ≡ true)
        × (all (λ d. names_operation d (lookup d.operation_id by_id)) ds ≡ true)
  unfolding index_deferrals
  index_deferrals-current [] acc found h = (refl, refl)
  index_deferrals-current (d ∷ ds) acc found h = ground (
    arith,
    index_deferrals-current ds (insert d.operation_id d acc) found,
    index_deferrals-fresh ds (insert d.operation_id d acc) found d.operation_id,
    contains-keys-insert d.operation_id d.operation_id d acc,
  )

  pub index_deferrals-lookup :
      (ds : List ForbiddenResponseDeferral) (acc found : Dict String ForbiddenResponseDeferral)
      (i : String)
      → index_deferrals by_id ds acc ≡ ok found
      → lookup i found ≡ first_deferral (find_deferral i ds) (lookup i acc)
  unfolding index_deferrals
  index_deferrals-lookup [] acc found i h = ground arith
  index_deferrals-lookup (d ∷ ds) acc found i h = ground (
    arith,
    index_deferrals-lookup ds (insert d.operation_id d acc) found i,
    index_deferrals-fresh ds (insert d.operation_id d acc) found i,
    lookup-insert i d.operation_id d acc,
    contains-keys-insert i d.operation_id d acc,
    find_deferral-absent ds i,
  )

-- The operation that a deferral names: its id, method and path.
abbrev pub is_named_by : ForbiddenResponseDeferral → OpenApiOperation → Bool
is_named_by d o = o.operation_id == d.operation_id && o.method == d.method && o.path == d.path

pub index_by_id-names :
    (os : List OpenApiOperation) (acc : Dict String OpenApiOperation)
    (d : ForbiddenResponseDeferral)
    → names_operation d (lookup d.operation_id (index_by_id os acc)) ≡ true
    → (any (is_named_by d) os || names_operation d (lookup d.operation_id acc)) ≡ true
unfolding index_by_id
index_by_id-names [] acc d h = h
index_by_id-names (o ∷ os) acc d h = ground (
  arith,
  index_by_id-names os (insert o.operation_id o acc) d,
  lookup-insert d.operation_id o.operation_id o acc,
)
