-- ===== src/Base/Text.antt =====
-- Python's string methods, over native text.
use Prim.Native.Nat.{Ordering}
use mathlib.Core.List.{List}
use Prim.Native.Char.{Char, code}
use Prim.Native.String.{String, [], ◌∷◌, ◌++◌, compare}
use mathlib.Core.Bool.{Bool, true, false, ◌||◌, ◌&&◌}
use budget_analyzer_api_test.Base.Equality.{◌==◌, nat_eq, string_eq, if◌then◌else◌, leb}

-- `str.isspace` of one character
abbrev pub is_space : Char → Bool
is_space c =
    let n = code c in
    leb 9 n && leb n 13
    || leb 28 n && leb n 32
    || n == 133
    || n == 160
    || n == 5760
    || leb 8192 n && leb n 8202
    || n == 8232
    || n == 8233
    || n == 8239
    || n == 8287
    || n == 12288

abbrev pub lstrip : String → String
lstrip [] = []
lstrip (c ∷ s) = let rest = lstrip s in if is_space c then rest else c ∷ s

-- A trailing space is dropped when only spaces follow it.
abbrev pub rstrip : String → String
rstrip [] = []
rstrip (c ∷ s) = let rest = rstrip s in if is_space c && rest == [] then [] else c ∷ rest

-- `s.strip()`
unfoldable pub strip : String → String
strip s = rstrip (lstrip s)

-- `sorted` compares texts by code points, as the native order does.
abbrev pub text_le : String → String → Bool
text_le s t = elim (compare s t) [ Ordering.gt ↦ false | _ ↦ true ]

abbrev pub text_lt : String → String → Bool
text_lt s t = elim (compare s t) [ Ordering.lt ↦ true | _ ↦ false ]

-- `sep.join(parts)`
abbrev pub join : String → List String → String
join sep List.[] = ""
join sep (List.◌∷◌ s List.[]) = s
join sep (List.◌∷◌ s (List.◌∷◌ t rest)) = s ++ (sep ++ join sep (List.◌∷◌ t rest))

-- `s.startswith("/")`
abbrev pub starts_with_slash : String → Bool
starts_with_slash [] = false
starts_with_slash (c ∷ s) = code c == 47

-- The character of the second text that stands where the character is in the first.
abbrev pub translated : String → String → Char → Char
translated (a ∷ from) (b ∷ to) c =
    let later = translated from to c in if code c == code a then b else later
translated [] to c = c
translated (a ∷ from) [] c = c
