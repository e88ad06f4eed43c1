-- ===== src/Credentials/File/Entries.antt =====
-- What the lines of a credential file assign.
use budget_analyzer_api_test.Base.{
  ◌≡◌, refl, sym, ◌∙◌, ap, true, false, List, [], ◌∷◌, ◌++◌, map, arith, contains, Option, none,
  some, String, nodup, string_eq, nat_eq, bool_eq, option_eq,
}
use budget_analyzer_api_test.Base.Dict.{
  Dict, keys, lookup, insert, lookup-insert, lookup-eq-none_iff, are_new, are_new-insert,
}
use budget_analyzer_api_test.Base.Result.{Result, ok, ◌>>◌, raise_if, raise_if-then}
use budget_analyzer_api_test.Credentials.Line.{
  Assignment, match_assignment, parse_value, without_end,
}
use budget_analyzer_api_test.Credentials.File.{read_lines, FileError, duplicate_variable}

-- What a line assigns.
abbrev pub line_entries : Option Assignment → Dict String String
line_entries none = []
line_entries (some a) = (a.name, parse_value a.value) ∷ []

-- The assignments of lines, which may still have their ends.
abbrev pub entries : List String → Dict String String
entries [] = []
entries (line ∷ lines) = line_entries (match_assignment (without_end line)) ++ entries lines

abbrev pub found_or : Option String → Option String → Option String
found_or none other = other
found_or (some v) other = some v

pub keys-append : (d e : Dict String String) → keys (d ++ e) ≡ keys d ++ keys e
keys-append [] e = refl
keys-append ((k, v) ∷ d) e = ap (λ ks. k ∷ ks) (keys-append d e)

pub lookup-append :
    (n : String) (d e : Dict String String) → lookup n (d ++ e) ≡ found_or (lookup n d) (lookup n e)
lookup-append n [] e = refl
lookup-append n ((k, v) ∷ d) e = ground (arith, lookup-append n d e)

-- Entries are added one at a time, and a name that is there is refused.
abbrev pub add_entries :
    Dict String String → Dict String String → Result FileError (Dict String String)
add_entries [] values = ok values
add_entries ((name, value) ∷ es) values = do
  raise_if (contains (keys values) name) (duplicate_variable name)
  add_entries es (insert name value values)

read_step :
    (o : Option Assignment) (es : Dict String String)
    (read : Dict String String → Result FileError (Dict String String))
    → ((values : Dict String String) → read values ≡ add_entries es values)
    → (values : Dict String String)
    → elim o [
      | none ↦ read values
      | some a ↦
          raise_if (contains (keys values) a.name) (duplicate_variable a.name)
          >> read (insert a.name (parse_value a.value) values)
    ]
      ≡ add_entries (line_entries o ++ es) values
read_step none es read h values = h values
read_step (some a) es read h values =
    ap (λ r. raise_if (contains (keys values) a.name) (duplicate_variable a.name) >> r)
      (h (insert a.name (parse_value a.value) values))

read_lines-entries :
    (lines : List String) (values : Dict String String)
    → read_lines (map without_end lines) values ≡ add_entries (entries lines) values
unfolding read_lines
read_lines-entries [] values = refl
read_lines-entries (line ∷ lines) values =
    read_step (match_assignment (without_end line)) (entries lines)
      (read_lines (map without_end lines)) (read_lines-entries lines) values

add_entries_sound :
    (es values d : Dict String String)
    → add_entries es values ≡ ok d
    → (nodup (keys es) ≡ true)
      × (are_new values (keys es) ≡ true)
      × ((n : String) → lookup n d ≡ found_or (lookup n es) (lookup n values))
add_entries_sound [] values d h = (refl, refl, λ n. ground arith)
add_entries_sound ((name, value) ∷ es) values d h =
    let (new, rest) = raise_if-then (contains (keys values) name) _ _ h in
    let (distinct, fresh, found) = add_entries_sound es (insert name value values) d rest in
    let split = are_new-insert name value values (keys es) in
    (
      ground (arith, split),
      ground (arith, split),
      λ n. ground (
        arith,
        found n,
        lookup-insert n name value values,
        split,
        distinct,
        fresh,
        lookup-eq-none_iff n es,
      ),
    )

add_entries_complete :
    (es values : Dict String String)
    → nodup (keys es) ≡ true
    → are_new values (keys es) ≡ true
    → (d : Dict String String) × (add_entries es values ≡ ok d)
add_entries_complete [] values u f = (values, refl)
add_entries_complete ((name, value) ∷ es) values u f =
    let (d, e) =
      add_entries_complete es (insert name value values) (ground arith)
        (ground (arith, are_new-insert name value values (keys es))) in
    let new : contains (keys values) name ≡ false = ground arith in (d, rw new e)

none_known : (ks : List String) → are_new {V = String} [] ks ≡ true
none_known [] = refl
none_known (k ∷ ks) = none_known ks

-- A file is read exactly when no name is assigned twice, and then a name has the value that its line
-- assigns.
pub read_lines_lem :
    (lines : List String) (d : Dict String String)
    → read_lines (map without_end lines) [] ≡ ok d
    → (nodup (keys (entries lines)) ≡ true) × ((n : String) → lookup n d ≡ lookup n (entries lines))
read_lines_lem lines d h =
    let (distinct, _, found) =
      add_entries_sound (entries lines) [] d (sym (read_lines-entries lines []) ∙ h) in
    (distinct, λ n. ground (arith, found n))

pub read_lines_total :
    (lines : List String)
    → nodup (keys (entries lines)) ≡ true
    → (d : Dict String String) × (read_lines (map without_end lines) [] ≡ ok d)
read_lines_total lines u =
    let (d, e) = add_entries_complete (entries lines) [] u (none_known (keys (entries lines))) in
    (d, read_lines-entries lines [] ∙ e)
