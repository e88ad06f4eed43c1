-- ===== src/Base/Sort.antt =====
-- `sorted`, stable and by a Boolean order on the items.
use Prim.Native.Nat.{suc}
use mathlib.Core.Logic.{inl, inr}
use mathlib.Core.Path.{◌≡◌, refl}
use mathlib.Core.Bool.{Bool, false, ◌||◌, ◌&&◌}
use mathlib.Core.List.{List, [], ◌∷◌, map, Perm}
use mathlib.Core.List.Perm
use native.Mathlib.Omega.{arith}
use budget_analyzer_api_test.Base.Equality.{Eq, ◌==◌, if◌then◌else◌, Bool-cases}
use budget_analyzer_api_test.Base.Lists.{length, contains, null, all, any, All}

module _ {ℓ} {A : Type ℓ} (le : A → A → Bool) where
  -- Equal items keep their order: `x` stands before those that come later.
  unfoldable pub insert_sorted : A → List A → List A
  insert_sorted x [] = x ∷ []
  insert_sorted x (y ∷ ys) = if le x y then x ∷ y ∷ ys else y ∷ insert_sorted x ys

  unfoldable pub sorted : List A → List A
  unfolding insert_sorted
  sorted [] = []
  sorted (x ∷ xs) = insert_sorted x (sorted xs)

  insert_sorted_perm : (x : A) (ys : List A) → Perm (insert_sorted x ys) (x ∷ ys)
  unfolding insert_sorted
  insert_sorted_perm x [] = Perm.refl _
  insert_sorted_perm x (y ∷ ys) = elim (Bool-cases (le x y)) [
    | inl before ↦ rw before (Perm.refl _)
    | inr after ↦ rw after (Perm.trans (Perm.cons y (insert_sorted_perm x ys)) (Perm.swap x y ys))
  ]

  pub sorted_perm : (xs : List A) → Perm (sorted xs) xs
  unfolding sorted
  sorted_perm [] = Perm.refl _
  sorted_perm (x ∷ xs) =
      Perm.trans (insert_sorted_perm x (sorted xs)) (Perm.cons x (sorted_perm xs))

  module _ {κ} (P : A → Type κ) where
    insert_sorted-All : (x : A) (ys : List A) → P x → All P ys → All P (insert_sorted x ys)
    unfolding insert_sorted
    insert_sorted-All x [] p h = (p, tt)
    insert_sorted-All x (y ∷ ys) p (q, h) = ground (arith, insert_sorted-All x ys p h)

    pub sorted-All : (xs : List A) → All P xs → All P (sorted xs)
    unfolding sorted
    sorted-All [] h = tt
    sorted-All (x ∷ xs) (p, h) = insert_sorted-All x (sorted xs) p (sorted-All xs h)

  module _ {κ} {B : Type κ} ⦃e : Eq B⦄ (f : A → B) where
    contains-insert_sorted :
        (x : A) (ys : List A) (b : B)
        → contains (map f (insert_sorted x ys)) b ≡ (b == f x || contains (map f ys) b)
    unfolding insert_sorted
    contains-insert_sorted x [] b = refl
    contains-insert_sorted x (y ∷ ys) b = ground (arith, contains-insert_sorted x ys b)

    pub contains-sorted :
        (xs : List A) (b : B) → contains (map f (sorted xs)) b ≡ contains (map f xs) b
    unfolding sorted
    contains-sorted [] b = refl
    contains-sorted (x ∷ xs) b =
        ground (arith, contains-insert_sorted x (sorted xs) b, contains-sorted xs b)

  insert_sorted-length : (x : A) (ys : List A) → length (insert_sorted x ys) ≡ suc (length ys)
  unfolding insert_sorted
  insert_sorted-length x [] = refl
  insert_sorted-length x (y ∷ ys) = ground (arith, insert_sorted-length x ys)

  pub length-sorted : (xs : List A) → length (sorted xs) ≡ length xs
  unfolding sorted
  length-sorted [] = refl
  length-sorted (x ∷ xs) = omega (arith, insert_sorted-length x (sorted xs), length-sorted xs)

module _ {ℓ} {A : Type ℓ} ⦃e : Eq A⦄ (le : A → A → Bool) where
  mem-insert_sorted :
      (x : A) (ys : List A) (a : A) → contains (insert_sorted le x ys) a ≡ (a == x || contains ys a)
  unfolding insert_sorted
  mem-insert_sorted x [] a = refl
  mem-insert_sorted x (y ∷ ys) a = ground (arith, mem-insert_sorted x ys a)

  pub mem-sorted : (xs : List A) (a : A) → contains (sorted le xs) a ≡ contains xs a
  unfolding sorted
  mem-sorted [] a = refl
  mem-sorted (x ∷ xs) a = ground (arith, mem-insert_sorted x (sorted le xs) a, mem-sorted xs a)

module _ {ℓ} {A : Type ℓ} (le : A → A → Bool) where
  null-insert_sorted : (x : A) (ys : List A) → null (insert_sorted le x ys) ≡ false
  unfolding insert_sorted
  null-insert_sorted x [] = refl
  null-insert_sorted x (y ∷ ys) = ground arith

  pub null-sorted : (xs : List A) → null (sorted le xs) ≡ null xs
  unfolding sorted
  null-sorted [] = refl
  null-sorted (x ∷ xs) = null-insert_sorted x (sorted le xs)

  all-insert_sorted :
      (p : A → Bool) (x : A) (ys : List A) → all p (insert_sorted le x ys) ≡ (p x && all p ys)
  unfolding insert_sorted
  all-insert_sorted p x [] = refl
  all-insert_sorted p x (y ∷ ys) = ground (arith, all-insert_sorted p x ys)

  pub all-sorted : (p : A → Bool) (xs : List A) → all p (sorted le xs) ≡ all p xs
  unfolding sorted
  all-sorted p [] = refl
  all-sorted p (x ∷ xs) = ground (arith, all-insert_sorted p x (sorted le xs), all-sorted p xs)

  any-insert_sorted :
      (p : A → Bool) (x : A) (ys : List A) → any p (insert_sorted le x ys) ≡ (p x || any p ys)
  unfolding insert_sorted
  any-insert_sorted p x [] = refl
  any-insert_sorted p x (y ∷ ys) = ground (arith, any-insert_sorted p x ys)

  pub any-sorted : (p : A → Bool) (xs : List A) → any p (sorted le xs) ≡ any p xs
  unfolding sorted
  any-sorted p [] = refl
  any-sorted p (x ∷ xs) = ground (arith, any-insert_sorted p x (sorted le xs), any-sorted p xs)
