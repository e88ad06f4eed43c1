-- ===== src/Dependencies/Pins.antt =====
-- dependency_contract.py: the names and versions of requirements. The regular expression
-- `_PINNED_EXPORT_PATTERN` is written out: a name's characters do not include the equals sign, so
-- matching it greedily loses no match.
use Prim.Native.Char.{Char, code}
use Prim.Native.String.{String, [], ◌∷◌}
use mathlib.Core.Bool.{Bool, true, false, ◌&&◌, ◌||◌}
use mathlib.Core.Option.{Option, none, some}
use budget_analyzer_api_test.Credentials.Line.{followed_by}
use budget_analyzer_api_test.Base.{string_dec, Eq, ◌==◌, nat_eq, if◌then◌else◌, leb}
use budget_analyzer_api_test.Base.Text.{is_space, translated}

pub record LockedRequirement : Type 0 where
  pub name : String
  pub version : String

locked_requirement_dec : Discrete LockedRequirement
locked_requirement_dec = hlevel string_dec

instance unfoldable pub locked_requirement_eq : Eq LockedRequirement
unfolding locked_requirement_dec string_dec
locked_requirement_eq = record { dec = locked_requirement_dec }

-- `[A-Za-z0-9]`
abbrev is_letter : Char → Bool
is_letter c =
    let n = code c in leb 48 n && leb n 57 || leb 65 n && leb n 90 || leb 97 n && leb n 122

-- `[-_.]`
abbrev is_separator : Char → Bool
is_separator c = let n = code c in n == 45 || n == 95 || n == 46

-- `re.sub(r"[-_.]+", "-", name)`; the flag tells that the text follows a replaced character
abbrev joined : Bool → String → String
joined replaced [] = []
joined replaced (c ∷ s) =
    let after_char = joined false s in
    let after_gap = joined true s in
    if is_separator c
    then (if replaced then after_gap else followed_by "-" after_gap)
    else c ∷ after_char

-- `name.lower()`, of a name that has no other letters than these
abbrev lower : String → String
lower [] = []
lower (c ∷ s) = translated "ABCDEFGHIJKLMNOPQRSTUVWXYZ" "abcdefghijklmnopqrstuvwxyz" c ∷ lower s

unfoldable pub canonicalize_name : String → String
canonicalize_name name = lower (joined false name)

-- `[A-Za-z0-9._-]*` and what follows it
abbrev name_of : String → String
name_of [] = []
name_of (c ∷ s) = let rest = name_of s in if is_letter c || is_separator c then c ∷ rest else []

abbrev after_name : String → String
after_name [] = []
after_name (c ∷ s) =
    let rest = after_name s in if is_letter c || is_separator c then rest else c ∷ s

-- `[^;\\\s]+`
abbrev version_of : String → String
version_of [] = []
version_of (c ∷ s) =
    let rest = version_of s in if code c == 59 || code c == 92 || is_space c then [] else c ∷ rest

abbrev after_pin : String → Option String
after_pin [] = none
after_pin (c ∷ []) = none
after_pin (c ∷ d ∷ s) = if code c == 61 && code d == 61 then some s else none

abbrev starts_letter : String → Bool
starts_letter [] = false
starts_letter (c ∷ s) = is_letter c

abbrev filled_version : String → String → Option LockedRequirement
filled_version name [] = none
filled_version name (c ∷ s) = some (record { name = name; version = c ∷ s })

-- The name and the version that `_PINNED_EXPORT_PATTERN` finds.
unfoldable pub pinned_export : String → Option LockedRequirement
pinned_export block =
    if starts_letter block
    then elim (after_pin (after_name block)) [
      | none ↦ none
      | some rest ↦ filled_version (name_of block) (version_of rest)
    ]
    else none
