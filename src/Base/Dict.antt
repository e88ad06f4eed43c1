-- ===== src/Base/Dict.antt =====
-- Dicts in insertion order, as association lists.
use Prim.Native.Nat.{suc}
use mathlib.Core.Path.{◌≡◌, refl}
use mathlib.Core.Logic.{◌↔◌}
use mathlib.Core.Bool.{Bool, false, not, ◌||◌, ◌&&◌}
use mathlib.Core.Option.{Option, none, some}
use mathlib.Core.List.{List, [], ◌∷◌, map}
use native.Mathlib.Omega.{arith}
use budget_analyzer_api_test.Base.Equality.{Eq, ◌==◌, if◌then◌else◌}
use budget_analyzer_api_test.Base.Lists.{contains, length, all}

abbrev pub Dict {ℓ κ} : Type ℓ → Type κ → Type (ℓ ⊔ κ)
Dict K V = List (K × V)

abbrev pub keys {ℓ κ} : {K : Type ℓ} {V : Type κ} → Dict K V → List K
keys [] = []
keys ((k, _) ∷ d) = k ∷ keys d

module _ {ℓ κ} {K : Type ℓ} {V : Type κ} ⦃e : Eq K⦄ where
  -- `d.get(k)`
  abbrev pub lookup : K → Dict K V → Option V
  lookup k [] = none
  lookup k ((j, v) ∷ d) = if k == j then some v else lookup k d

  -- `d.get(k, default)`
  abbrev pub get_or : Dict K V → K → V → V
  get_or d k v = elim (lookup k d) [ none ↦ v | some w ↦ w ]

  -- `d[k] = v`
  abbrev pub insert : K → V → Dict K V → Dict K V
  insert k v [] = (k, v) ∷ []
  insert k v ((j, w) ∷ d) = if k == j then (k, v) ∷ d else (j, w) ∷ insert k v d

  pub lookup-insert :
      (j k : K) (v : V) (d : Dict K V)
      → lookup j (insert k v d) ≡ (if j == k then some v else lookup j d)
  lookup-insert j k v [] = refl
  lookup-insert j k v (_ ∷ d) = ground (arith, lookup-insert j k v d)

  pub contains-keys-insert :
      (j k : K) (v : V) (d : Dict K V)
      → contains (keys (insert k v d)) j ≡ (j == k || contains (keys d) j)
  contains-keys-insert j k v [] = refl
  contains-keys-insert j k v (_ ∷ d) = ground (arith, contains-keys-insert j k v d)

  pub lookup-eq-none_iff :
      (k : K) (d : Dict K V) → (lookup k d ≡ none) ↔ (contains (keys d) k ≡ false)
  lookup-eq-none_iff k [] = (λ _. refl, λ _. refl)
  lookup-eq-none_iff k (_ ∷ d) = ground (arith, lookup-eq-none_iff k d)

  -- A dict comprehension over a list of keys.
  pub lookup-tabulate :
      (f : K → V) (k : K) (ks : List K)
      → lookup k (map (λ j. (j, f j)) ks) ≡ (if contains ks k then some (f k) else none)
  lookup-tabulate f k [] = refl
  lookup-tabulate f k (j ∷ ks) = ground (arith, lookup-tabulate f k ks)

  pub keys-tabulate : (f : K → V) (ks : List K) → keys (map (λ j. (j, f j)) ks) ≡ ks
  keys-tabulate f [] = refl
  keys-tabulate f (j ∷ ks) = rw (keys-tabulate f ks)

  pub length-insert :
      (k : K) (v : V) (d : Dict K V)
      → length (insert k v d) ≡ (if contains (keys d) k then length d else suc (length d))
  length-insert k v [] = refl
  length-insert k v (_ ∷ d) = ground (arith, length-insert k v d)

  -- None of the keys is in the dict.
  abbrev pub are_new : Dict K V → List K → Bool
  are_new d ks = all (λ k. not (contains (keys d) k)) ks

  pub are_new-insert :
      (k : K) (v : V) (d : Dict K V) (ks : List K)
      → are_new (insert k v d) ks ≡ (not (contains ks k) && are_new d ks)
  are_new-insert k v d [] = refl
  are_new-insert k v d (j ∷ ks) =
      ground (arith, are_new-insert k v d ks, contains-keys-insert j k v d)
