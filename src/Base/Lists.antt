-- ===== src/Base/Lists.antt =====
-- Tests over lists, Python's `in`, and lengths in native numbers.
use Prim.Native.Nat.{ℕ, suc, ◌+◌}
use mathlib.Core.Path.{◌≡◌, refl}
use mathlib.Core.Bool.{Bool, true, false, not, ◌&&◌, ◌||◌}
use mathlib.Core.List.{List, [], ◌∷◌, ◌++◌, map}
use native.Mathlib.Omega.{arith}
use budget_analyzer_api_test.Base.Equality.{Eq, ◌==◌, if◌then◌else◌}

-- `a` only if `b`
abbrev pub implies : Bool → Bool → Bool
implies a b = not a || b

module _ {ℓ} {A : Type ℓ} where
  abbrev pub length : List A → ℕ
  length [] = 0
  length (x ∷ xs) = suc (length xs)

  -- `all(p(x) for x in xs)`
  abbrev pub all : (A → Bool) → List A → Bool
  all p [] = true
  all p (x ∷ xs) = p x && all p xs

  -- `any(p(x) for x in xs)`
  abbrev pub any : (A → Bool) → List A → Bool
  any p [] = false
  any p (x ∷ xs) = p x || any p xs

  -- `[x for x in xs if p(x)]`
  abbrev pub keep : (A → Bool) → List A → List A
  keep p [] = []
  keep p (x ∷ xs) = let rest = keep p xs in if p x then x ∷ rest else rest

  abbrev pub null : List A → Bool
  null [] = true
  null (_ ∷ _) = false

  pub length-append : (xs ys : List A) → length (xs ++ ys) ≡ length xs + length ys
  length-append [] ys = omega arith
  length-append (x ∷ xs) ys = omega (arith, length-append xs ys)

  pub null-append : (xs ys : List A) → null (xs ++ ys) ≡ (null xs && null ys)
  null-append [] ys = refl
  null-append (x ∷ xs) ys = refl

module _ {ℓ κ} {A : Type ℓ} (P : A → Type κ) where
  abbrev pub All : List A → Type κ
  All [] = Unit
  All (x ∷ xs) = P x × All xs

module _ {ℓ} {A : Type ℓ} ⦃e : Eq A⦄ where
  -- `a in xs`
  abbrev pub contains : List A → A → Bool
  contains [] a = false
  contains (x ∷ xs) a = a == x || contains xs a

  pub contains-append :
      (xs ys : List A) (a : A) → contains (xs ++ ys) a ≡ (contains xs a || contains ys a)
  contains-append [] ys a = refl
  contains-append (x ∷ xs) ys a = ground (arith, contains-append xs ys a)

  -- What a test over all items says of each of them.
  pub all-contains :
      (p : A → Bool) (xs : List A) (a : A) → all p xs ≡ true → contains xs a ≡ true → p a ≡ true
  all-contains p [] a h m = cc
  all-contains p (x ∷ xs) a h m = ground (arith, all-contains p xs a)

  pub contains-keep :
      (p : A → Bool) (xs : List A) (a : A) → contains (keep p xs) a ≡ (contains xs a && p a)
  contains-keep p [] a = refl
  contains-keep p (x ∷ xs) a = ground (arith, contains-keep p xs a)

  -- No item occurs twice.
  abbrev pub nodup : List A → Bool
  nodup [] = true
  nodup (x ∷ xs) = if contains xs x then false else nodup xs

module _ {ℓ} {A : Type ℓ} where
  pub all-ext : (p q : A → Bool) (xs : List A) → ((x : A) → p x ≡ q x) → all p xs ≡ all q xs
  all-ext p q [] h = refl
  all-ext p q (x ∷ xs) h = ground (arith, h x, all-ext p q xs h)

  pub null-keep-not : (p : A → Bool) (xs : List A) → null (keep (λ x. not (p x)) xs) ≡ all p xs
  null-keep-not p [] = refl
  null-keep-not p (x ∷ xs) = ground (arith, null-keep-not p xs)

  pub any-ext : (p q : A → Bool) (xs : List A) → ((x : A) → p x ≡ q x) → any p xs ≡ any q xs
  any-ext p q [] h = refl
  any-ext p q (x ∷ xs) h = ground (arith, h x, any-ext p q xs h)

  pub null-keep : (p : A → Bool) (xs : List A) → null (keep p xs) ≡ all (λ x. not (p x)) xs
  null-keep p [] = refl
  null-keep p (x ∷ xs) = ground (arith, null-keep p xs)

module _ {ℓ κ} {A : Type ℓ} {B : Type κ} (f : A → B) where
  pub all-map : (p : B → Bool) (xs : List A) → all p (map f xs) ≡ all (λ x. p (f x)) xs
  all-map p [] = refl
  all-map p (x ∷ xs) = ground (arith, all-map p xs)

  pub any-map : (p : B → Bool) (xs : List A) → any p (map f xs) ≡ any (λ x. p (f x)) xs
  any-map p [] = refl
  any-map p (x ∷ xs) = ground (arith, any-map p xs)

  pub null-map : (xs : List A) → null (map f xs) ≡ null xs
  null-map [] = refl
  null-map (x ∷ xs) = refl

module _ {ℓ κ} {A : Type ℓ} {B : Type κ} ⦃e : Eq B⦄ (f : A → B) (p : A → Bool) where
  -- Membership in `[f(x) for x in xs if p(x)]`.
  pub contains-map-keep :
      (xs : List A) (b : B) → contains (map f (keep p xs)) b ≡ any (λ x. b == f x && p x) xs
  contains-map-keep [] b = refl
  contains-map-keep (x ∷ xs) b = ground (arith, contains-map-keep xs b)

module _ {ℓ} {A : Type ℓ} (p q : A → Bool) where
  pub all-and : (xs : List A) → (all p xs && all q xs) ≡ all (λ x. p x && q x) xs
  all-and [] = refl
  all-and (x ∷ xs) = ground (arith, all-and xs)

module _ {ℓ κ μ} {A : Type ℓ} {B : Type κ} (P : B → Type μ) (f : A → B) where
  pub All-map : (xs : List A) → All (λ x. P (f x)) xs → All P (map f xs)
  All-map [] h = tt
  All-map (x ∷ xs) (p, h) = (p, All-map xs h)

module _ {ℓ κ} {A : Type ℓ} {B : Type κ} ⦃e : Eq B⦄ (f : A → B) where
  -- What holds wherever an item's image is listed holds of every item.
  pub All-of_contains :
      (P : A → Type 0) (xs : List A) → ((x : A) → contains (map f xs) (f x) ≡ true → P x) → All P xs
  All-of_contains P [] h = tt
  All-of_contains P (x ∷ xs) h =
      (h x (ground arith), All-of_contains P xs (λ y m. h y (ground arith)))

module _ {ℓ} {A : Type ℓ} (p q : A → Bool) (step : (x : A) → p x ≡ true → q x ≡ true) where
  pub all_mono : (xs : List A) → all p xs ≡ true → all q xs ≡ true
  all_mono [] h = refl
  all_mono (x ∷ xs) h = ground (arith, step x, all_mono xs)

module _ {ℓ} {A : Type ℓ} ⦃e : Eq A⦄ (p : A → Bool) where
  pub all_of_contains :
      (xs : List A) → ((x : A) → contains xs x ≡ true → p x ≡ true) → all p xs ≡ true
  all_of_contains [] h = refl
  all_of_contains (x ∷ xs) h = ground (arith, h x, all_of_contains xs (λ y m. h y (ground arith)))

module _ {ℓ} {A : Type ℓ} ⦃e : Eq A⦄ where
  -- None of the items is among those seen.
  abbrev pub are_fresh : List A → List A → Bool
  are_fresh seen xs = all (λ x. not (contains seen x)) xs

  pub are_fresh-cons :
      (seen : List A) (a : A) (xs : List A)
      → are_fresh (a ∷ seen) xs ≡ (not (contains xs a) && are_fresh seen xs)
  are_fresh-cons seen a [] = refl
  are_fresh-cons seen a (x ∷ xs) = ground (arith, are_fresh-cons seen a xs)

  pub are_fresh-append :
      (seen xs ys : List A) → are_fresh seen (xs ++ ys) ≡ (are_fresh seen xs && are_fresh seen ys)
  are_fresh-append seen [] ys = refl
  are_fresh-append seen (x ∷ xs) ys = ground (arith, are_fresh-append seen xs ys)

  pub nodup-append :
      (xs ys : List A)
      → nodup xs ≡ true
      → nodup ys ≡ true
      → are_fresh xs ys ≡ true
      → nodup (xs ++ ys) ≡ true
  nodup-append [] ys u v f = v
  nodup-append (x ∷ xs) ys u v f =
      ground (arith, nodup-append xs ys, are_fresh-cons xs x ys, contains-append xs ys x)

  -- Fresh for a union is fresh for both.
  pub are_fresh_union :
      (both one other xs : List A)
      → ((x : A) → contains both x ≡ (contains one x || contains other x))
      → are_fresh both xs ≡ true
      → (are_fresh one xs ≡ true) × (are_fresh other xs ≡ true)
  are_fresh_union both one other [] h f = (refl, refl)
  are_fresh_union both one other (x ∷ xs) h f =
      ground (arith, h x, are_fresh_union both one other xs h)
