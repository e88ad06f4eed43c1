-- ===== src/Credentials/File.antt =====
-- local_credentials.py: reading and updating the credential file. A file is its text, or none where it
-- does not exist; its mode and the temporary file that replaces it are left to the file system.
pub mod Entries
pub mod Updated
pub mod Replaced
pub mod Written
pub mod Text
pub mod Saved
pub mod Feeds
use budget_analyzer_api_test.Base.{
  ℕ, zero, suc, ◌+◌, ◌-◌, ◌≤◌, ◌<◌, ◌≡◌, refl, sym, ◌∙◌, ap, ◌≢◌, ◌↔◌, ◌⊎◌, Bool, true, false, ◌&&◌,
  ◌||◌, not, List, [], ◌∷◌, ◌++◌, map, arith, Eq, ◌==◌, contains, keep, if◌then◌else◌, Option, none,
  some, inl, inr, Bool-cases, Option-cases, String, ◌<>◌, contains-append, contains-keep,
  all-contains, all-ext, any-ext, null-keep-not, null-keep, all-map, any-map, null-map,
  contains-map-keep, all-and, All-map, All-of_contains, all_mono, all_of_contains, ltb, leb, all,
  any, null, nodup, length, All, string_eq, nat_eq, ==_self, eq_of_==, ne_of_==, implies,
  null-append, length-append, bool_eq, option_eq, are_fresh, are_fresh-cons, are_fresh-append,
  nodup-append, are_fresh_union,
}
use budget_analyzer_api_test.Base.Dict.{
  Dict, keys, lookup, get_or, insert, lookup-insert, contains-keys-insert, lookup-eq-none_iff,
  lookup-tabulate, keys-tabulate, length-insert, are_new, are_new-insert,
}
use budget_analyzer_api_test.Base.Sort.{
  sorted, contains-sorted, mem-sorted, sorted-All, sorted_perm, length-sorted, null-sorted,
  all-sorted, any-sorted,
}
use budget_analyzer_api_test.Base.Result.{
  Result, ok, err, ◌>>=◌, ◌>>◌, raise_if, >>=-eq-ok, raise_if-eq-ok, raise_if-then, ok-injective,
}
use Prim.Native.Char.{Char}
use budget_analyzer_api_test.Credentials.Line.{
  Assignment, match_assignment, parse_value, render, followed_by, is_break, is_cr, starts_lf,
  without_end, without_newlines, ends_newline,
}
use budget_analyzer_api_test.Base.Text.{strip}

-- One character more at the start of the first line.
abbrev pub push : Char → List String → List String
push c [] = String.◌∷◌ c String.[] ∷ []
push c (line ∷ lines) = String.◌∷◌ c line ∷ lines

-- `content.splitlines(keepends=True)`
unfoldable pub split_lines : String → List String
split_lines String.[] = []
split_lines (String.◌∷◌ c s) =
    let rest = split_lines s in
    if is_break c && not (is_cr c && starts_lf s)
    then String.◌∷◌ c String.[] ∷ rest
    else push c rest

abbrev pub join_lines : List String → String
join_lines [] = ""
join_lines (line ∷ lines) = followed_by line (join_lines lines)

pub data FileError : Type 0 where
  duplicate_variable : String → FileError

-- The loop of `_read_credential_file`.
unfoldable pub read_lines : List String → Dict String String → Result FileError (Dict String String)
read_lines [] values = ok values
read_lines (line ∷ lines) values = elim (match_assignment line) [
  | none ↦ read_lines lines values
  | some a ↦ do
    raise_if (contains (keys values) a.name) (duplicate_variable a.name)
    read_lines lines (insert a.name (parse_value a.value) values)
]

abbrev pub text_of : Option String → String
text_of none = ""
text_of (some content) = content

-- `_read_credential_file`, of a path that is a file or does not exist
unfoldable pub read_credential_file : Option String → Result FileError (Dict String String)
unfolding read_lines split_lines
read_credential_file none = ok []
read_credential_file (some content) = read_lines (map without_end (split_lines content)) []

-- `remaining.pop(name)`
abbrev pub remove : String → Dict String String → Dict String String
remove name [] = []
remove name ((n, v) ∷ d) = let rest = remove name d in if name == n then d else (n, v) ∷ rest

-- A line, or what replaces it, with the updates that remain.
unfoldable pub update_line : String → Dict String String → String × Dict String String
update_line line remaining = elim (match_assignment (without_newlines line)) [
  | none ↦ (line, remaining)
  | some a ↦ elim (lookup a.name remaining) [
    | none ↦ (line, remaining)
    | some value ↦ (render a.name value, remove a.name remaining)
  ]
]

unfoldable pub replace_lines : List String → Dict String String → List String × Dict String String
unfolding update_line
replace_lines [] remaining = ([], remaining)
replace_lines (line ∷ lines) remaining =
    let (first, left) = update_line line remaining in
    let (others, last) = replace_lines lines left in (first ∷ others, last)

abbrev pub ended : String → String
ended line = if ends_newline line then line else followed_by line "\n"

-- `updated_lines[-1] += "\n"` where the last line has no end
abbrev pub end_last : List String → List String
end_last [] = []
end_last (line ∷ []) = ended line ∷ []
end_last (line ∷ next ∷ lines) = line ∷ end_last (next ∷ lines)

-- `updated_lines[-1].strip()`, where there are lines
abbrev pub last_filled : List String → Bool
last_filled [] = false
last_filled (line ∷ []) = not (strip line == "")
last_filled (line ∷ next ∷ lines) = last_filled (next ∷ lines)

abbrev pub rendered : Dict String String → List String
rendered [] = []
rendered ((name, value) ∷ d) = render name value ∷ rendered d

abbrev pub separator : List String → Dict String String → List String
separator lines remaining = if not (null remaining) && last_filled lines then "\n" ∷ [] else []

unfoldable pub update_lines : List String → Dict String String → List String
unfolding replace_lines strip
update_lines lines updates =
    let (replaced, remaining) = replace_lines lines updates in
    let closed = end_last replaced in closed ++ (separator closed remaining ++ rendered remaining)

-- `_update_credential_file`: the text of the file that replaces the old one
unfoldable pub update_credential_file : Option String → Dict String String → Option String
unfolding update_lines split_lines
update_credential_file file updates =
    some (join_lines (update_lines (split_lines (text_of file)) updates))
