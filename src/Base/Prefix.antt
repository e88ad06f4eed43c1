-- ===== src/Base/Prefix.antt =====
-- Prefixes of texts.
use Prim.Native.Char.{code}
use Prim.Native.String.{String, [], ◌∷◌, ◌++◌ as ◌<>◌}
use mathlib.Core.Path.{◌≡◌, refl, sym, ap, ◌∙◌}
use text.Mathlib.TextLemmas.{cons-append}
use mathlib.Core.Bool.{Bool, true, false, ◌||◌, ◌&&◌}
use native.Mathlib.Omega.{arith}
use budget_analyzer_api_test.Base.Equality.{◌==◌, nat_eq, string_eq, if◌then◌else◌}

-- `s.startswith(prefix)`
abbrev pub starts_with : String → String → Bool
starts_with [] s = true
starts_with (c ∷ prefix) [] = false
starts_with (c ∷ prefix) (d ∷ s) = code c == code d && starts_with prefix s

-- `s.endswith(suffix)`
abbrev pub ends_with : String → String → Bool
ends_with suffix [] = suffix == []
ends_with suffix (c ∷ s) = suffix == c ∷ s || ends_with suffix s

-- `part in s`
abbrev pub has_part : String → String → Bool
has_part part [] = starts_with part []
has_part part (c ∷ s) = starts_with part (c ∷ s) || has_part part s

-- `s.split(part)[0]`, for a part that is not empty
abbrev pub before_part : String → String → String
before_part part [] = []
before_part part (c ∷ s) =
    let rest = before_part part s in if starts_with part (c ∷ s) then [] else c ∷ rest

-- Of two prefixes of one text, one is a prefix of the other.
pub prefixes_compare :
    (p q s : String)
    → starts_with p s ≡ true
    → starts_with q s ≡ true
    → (starts_with p q || starts_with q p) ≡ true
prefixes_compare [] q s h k = refl
prefixes_compare (c ∷ p) [] s h k = refl
prefixes_compare (c ∷ p) (d ∷ q) [] h k = cc
prefixes_compare (c ∷ p) (d ∷ q) (e ∷ s) h k = ground (arith, prefixes_compare p q s)

pub starts_with_self : (s : String) → starts_with s s ≡ true
starts_with_self [] = refl
starts_with_self (c ∷ s) = ground (arith, starts_with_self s)

pub starts_with-append : (p q s : String) → starts_with (p <> q) s ≡ true → starts_with p s ≡ true
starts_with-append [] q s h = refl
starts_with-append (c ∷ p) q [] h =
    let stuck : starts_with (c ∷ (p <> q)) [] ≡ true =
      ap (λ t. starts_with t []) (sym (cons-append c p q)) ∙ h in
    cc
starts_with-append (c ∷ p) q (d ∷ s) h =
    let unfolded : starts_with (c ∷ (p <> q)) (d ∷ s) ≡ true =
      ap (λ t. starts_with t (d ∷ s)) (sym (cons-append c p q)) ∙ h in
    ground (arith, starts_with-append p q s)
