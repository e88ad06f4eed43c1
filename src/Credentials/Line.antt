-- ===== src/Credentials/Line.antt =====
-- local_credentials.py: one line of the credential file. The regular expression `ASSIGNMENT_RE` is
-- written out: a name is followed by a character that is no name character, so matching it greedily
-- loses no match, and the optional `export` is tried first. A line holds no line break, which `.`
-- would not match.
pub mod Render
use Prim.Native.Char.{Char, code}
use Prim.Native.String.{String, [], ◌∷◌}
use mathlib.Core.Path.{◌≡◌, refl}
use mathlib.Core.Bool.{Bool, true, false, not, ◌&&◌, ◌||◌}
use mathlib.Core.Option.{Option, none, some}
use budget_analyzer_api_test.Base.{◌==◌, nat_eq, string_eq, if◌then◌else◌, leb}
use budget_analyzer_api_test.Base.Text.{is_space, lstrip, strip}

abbrev pub is_empty : String → Bool
is_empty [] = true
is_empty (c ∷ s) = false

-- `[A-Za-z_]` and `[A-Za-z0-9_]`
abbrev pub is_name_start : Char → Bool
is_name_start c = let n = code c in leb 65 n && leb n 90 || n == 95 || leb 97 n && leb n 122

abbrev pub is_name_char : Char → Bool
is_name_char c = let n = code c in is_name_start c || leb 48 n && leb n 57

-- The longest prefix of name characters, and what follows it.
abbrev pub word_of : String → String
word_of [] = []
word_of (c ∷ s) = let rest = word_of s in if is_name_char c then c ∷ rest else []

abbrev pub after_word : String → String
after_word [] = []
after_word (c ∷ s) = let rest = after_word s in if is_name_char c then rest else c ∷ s

abbrev pub starts_name : String → Bool
starts_name [] = false
starts_name (c ∷ s) = is_name_start c

abbrev pub starts_space : String → Bool
starts_space [] = false
starts_space (c ∷ s) = is_space c

abbrev pub after_equals : String → Option String
after_equals [] = none
after_equals (c ∷ s) = if code c == 61 then some s else none

pub record Assignment : Type 0 where
  pub name : String
  pub value : String

-- `(?P<name>...)\s*=\s*(?P<value>.*)$`
unfoldable pub assignment_of : String → Option Assignment
assignment_of s =
    if starts_name s
    then elim (after_equals (lstrip (after_word s))) [
      | none ↦ none
      | some v ↦ some (record { name = word_of s; value = lstrip v })
    ]
    else none

-- `export\s+`
unfoldable pub after_export : String → Option String
after_export s =
    if word_of s == "export" && starts_space (after_word s)
    then some (lstrip (after_word s))
    else none

abbrev pub or_else : Option Assignment → Option Assignment → Option Assignment
or_else none other = other
or_else (some a) other = some a

-- The alternatives, after `^\s*`
abbrev pub either : Option String → String → Option Assignment
either none s = assignment_of s
either (some rest) s = or_else (assignment_of rest) (assignment_of s)

abbrev pub match_trimmed : String → Option Assignment
match_trimmed s = either (after_export s) s

-- `ASSIGNMENT_RE.match`
unfoldable pub match_assignment : String → Option Assignment
unfolding assignment_of after_export
match_assignment line = match_trimmed (lstrip line)

abbrev pub is_quote : Char → Bool
is_quote c = code c == 39 || code c == 34

-- The text ends with a character that is the same as another one.
abbrev pub ends_with_char : Char → String → Bool
ends_with_char c [] = false
ends_with_char c (d ∷ s) =
    let rest = ends_with_char c s in if is_empty s then code c == code d else rest

abbrev pub drop_last : String → String
drop_last [] = []
drop_last (c ∷ s) = let rest = drop_last s in if is_empty s then [] else c ∷ rest

-- `value[1:-1]` of a value that is quoted on both sides
abbrev pub unquoted : String → Option String
unquoted [] = none
unquoted (c ∷ s) = if is_quote c && ends_with_char c s then some (drop_last s) else none

abbrev pub starts_hash : String → Bool
starts_hash [] = false
starts_hash (c ∷ s) = code c == 35

-- `value[: value.find(" #")]`, the whole value where there is no comment
abbrev pub before_comment : String → String
before_comment [] = []
before_comment (c ∷ s) =
    let rest = before_comment s in if code c == 32 && starts_hash s then [] else c ∷ rest

abbrev pub parse_stripped : String → String
parse_stripped value = elim (unquoted value) [
  | some inner ↦ inner
  | none ↦ strip (before_comment value)
]

-- `_parse_value`
unfoldable pub parse_value : String → String
unfolding strip
parse_value raw_value = parse_stripped (strip raw_value)

-- `s + t`
abbrev pub followed_by : String → String → String
followed_by [] t = t
followed_by (c ∷ s) t = c ∷ followed_by s t

-- `f"{name}={value}\n"`
abbrev pub render : String → String → String
render name value = followed_by name (followed_by "=" (followed_by value "\n"))

-- The line boundaries of `str.splitlines`
abbrev pub is_break : Char → Bool
is_break c =
    let n = code c in
    leb 10 n && leb n 13 || leb 28 n && leb n 30 || n == 133 || n == 8232 || n == 8233

abbrev pub is_cr : Char → Bool
is_cr c = code c == 13

abbrev pub starts_lf : String → Bool
starts_lf [] = false
starts_lf (c ∷ s) = code c == 10

-- A line without the boundary at its end: one item of `splitlines()`.
abbrev pub without_end : String → String
without_end [] = []
without_end (c ∷ s) =
    let rest = without_end s in
    if is_break c && (is_empty s || is_cr c && starts_lf s) then [] else c ∷ rest

abbrev pub is_newline : Char → Bool
is_newline c = code c == 10 || code c == 13

-- `line.rstrip("\r\n")`
abbrev pub without_newlines : String → String
without_newlines [] = []
without_newlines (c ∷ s) =
    let rest = without_newlines s in if is_newline c && is_empty rest then [] else c ∷ rest

-- `line.endswith(("\n", "\r"))`
abbrev pub ends_newline : String → Bool
ends_newline [] = false
ends_newline (c ∷ s) = let rest = ends_newline s in if is_empty s then is_newline c else rest
