-- ===== src/Base/Result.antt =====
-- A value, or the exception that was raised.
use mathlib.Core.Path.{◌≡◌, refl}
use mathlib.Core.Bool.{Bool, true, false}

pub data Result (E : Type 0) (A : Type 0) : Type 0 where
  ok : A → Result E A
  err : E → Result E A

module _ {E : Type 0} where
  infixl 5 ◌>>=◌ ◌>>◌
  -- A statement that binds a name, then the rest of the block; an exception leaves the block.
  abbrev pub ◌>>=◌ : {A B : Type 0} → Result E A → (A → Result E B) → Result E B
  err raised >>= rest = err raised
  ok value >>= rest = rest value

  -- A check, then the rest of the block.
  abbrev pub ◌>>◌ : {B : Type 0} → Result E (Unit {0}) → Result E B → Result E B
  check >> rest = check >>= λ passed. rest

  -- `if test: raise e`
  abbrev pub raise_if : Bool → E → Result E (Unit {0})
  raise_if true e = err e
  raise_if false e = ok tt

  -- A block that returns has computed each name it binds.
  pub >>=-eq-ok :
      {A B : Type 0} {result : B} (first : Result E A) (rest : A → Result E B)
      → Path (Result E B) (first >>= rest) (ok result)
      → (value : A) × Path (Result E A) first (ok value)
        × Path (Result E B) (rest value) (ok result)
  >>=-eq-ok (err raised) rest returned = cc
  >>=-eq-ok (ok value) rest returned = (value, refl, returned)

  pub raise_if-eq-ok : (b : Bool) (e : E) {u : Unit {0}} → raise_if b e ≡ ok u → b ≡ false
  raise_if-eq-ok true e h = cc
  raise_if-eq-ok false e h = refl

  -- What follows a check runs only if the check passes.
  pub raise_if-then :
      {B : Type 0} (b : Bool) (e : E) (k : Result E B) {v : B}
      → (raise_if b e >> k) ≡ ok v
      → (b ≡ false) × (k ≡ ok v)
  raise_if-then true e k h = cc
  raise_if-then false e k h = (refl, h)

  pub ok-injective : {A : Type 0} (a b : A) → Path (Result E A) (ok a) (ok b) → a ≡ b
  ok-injective a b h = cc
