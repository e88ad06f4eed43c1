-- ===== src/Credentials/Line/Render.antt =====
-- What is read from a line that was written.
use Prim.Native.Char.{Char}
use Prim.Native.String.{String, [], ◌∷◌}
use mathlib.Core.Path.{◌≡◌, refl, ap, ◌∙◌}
use mathlib.Core.Bool.{Bool, true, false, not, ◌&&◌}
use mathlib.Core.Option.{none, some}
use native.Mathlib.Omega.{arith}
use budget_analyzer_api_test.Base.{◌==◌, nat_eq, string_eq, eq_of_==}
use budget_analyzer_api_test.Base.Text.{is_space, lstrip, rstrip, strip}
use budget_analyzer_api_test.Credentials.Line.{
  is_name_char, word_of, after_word, starts_name, starts_space, after_equals, assignment_of,
  after_export, either, match_trimmed, match_assignment, parse_stripped, parse_value, followed_by,
  render, is_break, without_end, is_newline, without_newlines,
}

abbrev pub all_name_chars : String → Bool
all_name_chars [] = true
all_name_chars (c ∷ s) = is_name_char c && all_name_chars s

-- `[A-Za-z_][A-Za-z0-9_]*`
abbrev pub is_name : String → Bool
is_name s = starts_name s && all_name_chars s

abbrev pub no_break : String → Bool
no_break [] = true
no_break (c ∷ s) = not (is_break c) && no_break s

name_char_lem :
    (c : Char)
    → is_name_char c ≡ true
    → (is_space c ≡ false) × (is_break c ≡ false) × (is_newline c ≡ false)
name_char_lem c h = ground arith

word_of-named :
    (n t : String)
    → all_name_chars n ≡ true
    → (word_of (followed_by n (followed_by "=" t)) ≡ n)
      × (after_word (followed_by n (followed_by "=" t)) ≡ followed_by "=" t)
unfolding nat_eq
word_of-named [] t h = (refl, refl)
word_of-named (c ∷ n) t h = ground (arith, word_of-named n t)

lstrip-named : (n t : String) → starts_name n ≡ true → lstrip (followed_by n t) ≡ followed_by n t
lstrip-named [] t h = cc
lstrip-named (c ∷ n) t h = ground (arith, name_char_lem c)

starts_name-named : (n t : String) → starts_name n ≡ true → starts_name (followed_by n t) ≡ true
starts_name-named [] t h = cc
starts_name-named (c ∷ n) t h = h

not_exported : (s : String) → starts_space (after_word s) ≡ false → after_export s ≡ none
unfolding after_export
not_exported s h = ground arith

assignment_lem :
    (s t : String)
    → starts_name s ≡ true
    → after_equals (lstrip (after_word s)) ≡ some t
    → assignment_of s ≡ some (record { name = word_of s; value = lstrip t })
unfolding assignment_of
assignment_lem s t starts h = rw (starts, h) refl

match_stripped :
    (s : String) → lstrip s ≡ s → after_export s ≡ none → match_assignment s ≡ assignment_of s
unfolding match_assignment
match_stripped s stripped h = ap match_trimmed stripped ∙ ap (λ e. either e s) h

match_line :
    (s n t : String)
    → lstrip s ≡ s
    → starts_name s ≡ true
    → word_of s ≡ n
    → after_word s ≡ followed_by "=" t
    → match_assignment s ≡ some (record { name = n; value = lstrip t })
unfolding nat_eq
match_line s n t stripped starts word after =
    let spaced : starts_space (after_word s) ≡ false = ap starts_space after in
    let equals : after_equals (lstrip (after_word s)) ≡ some t =
      ap (λ r. after_equals (lstrip r)) after in
    match_stripped s stripped (not_exported s spaced)
    ∙ assignment_lem s t starts equals
    ∙ ap (λ w. some (record { name = w; value = lstrip t })) word

-- A line `name=value` is read as that assignment.
pub match_assignment-named :
    (n t : String)
    → is_name n ≡ true
    → match_assignment (followed_by n (followed_by "=" t))
      ≡ some (record { name = n; value = lstrip t })
match_assignment-named n t h =
    let (word, after) = word_of-named n t (ground arith) in
    let s = followed_by n (followed_by "=" t) in
    match_line s n t (lstrip-named n (followed_by "=" t) (ground arith))
      (starts_name-named n (followed_by "=" t) (ground arith)) word after

without_end-clean : (s : String) → no_break s ≡ true → without_end (followed_by s "\n") ≡ s
unfolding nat_eq string_eq
without_end-clean [] h = refl
without_end-clean (c ∷ s) h = ground (arith, without_end-clean s)

-- A line end is a line boundary.
pub newline_lem : (c : Char) → is_break c ≡ false → is_newline c ≡ false
newline_lem c h = ground arith

without_newlines-clean :
    (s : String) → no_break s ≡ true → without_newlines (followed_by s "\n") ≡ s
unfolding nat_eq string_eq
without_newlines-clean [] h = refl
without_newlines-clean (c ∷ s) h = ground (arith, without_newlines-clean s, newline_lem c)

no_break-followed_by : (s t : String) → no_break (followed_by s t) ≡ (no_break s && no_break t)
no_break-followed_by [] t = refl
no_break-followed_by (c ∷ s) t = ground (arith, no_break-followed_by s t)

followed_by_assoc :
    (s t u : String) → followed_by s (followed_by t u) ≡ followed_by (followed_by s t) u
followed_by_assoc [] t u = refl
followed_by_assoc (c ∷ s) t u = ap (λ r. c ∷ r) (followed_by_assoc s t u)

no_break-named : (n : String) → all_name_chars n ≡ true → no_break n ≡ true
no_break-named [] h = refl
no_break-named (c ∷ n) h = ground (arith, no_break-named n, name_char_lem c)

pub no_break-line :
    (n v : String)
    → is_name n ≡ true
    → no_break v ≡ true
    → no_break (followed_by n (followed_by "=" v)) ≡ true
unfolding nat_eq
no_break-line n v h b =
    no_break-followed_by n (followed_by "=" v) ∙ ground (arith, no_break-named n)

pub render_lem : (n v : String) → render n v ≡ followed_by (followed_by n (followed_by "=" v)) "\n"
render_lem n v = followed_by_assoc n (followed_by "=" v) "\n"

lstrip_idem : (s : String) → lstrip (lstrip s) ≡ lstrip s
lstrip_idem [] = refl
lstrip_idem (c ∷ s) = ground (arith, lstrip_idem s)

strip-lstrip : (v : String) → strip (lstrip v) ≡ strip v
unfolding strip
strip-lstrip v = ap rstrip (lstrip_idem v)

parse_value-lstrip : (v : String) → parse_value (lstrip v) ≡ parse_value v
unfolding parse_value
parse_value-lstrip v = ap parse_stripped (strip-lstrip v)

-- A name and a value that can be written to a line and read back.
abbrev pub is_writable : String → String → Bool
is_writable n v = is_name n && (no_break v && parse_value v == v)

-- A written line is one line, which assigns the value that is read as it was given.
pub render-line :
    (n v : String)
    → is_writable n v ≡ true
    → (without_end (render n v) ≡ followed_by n (followed_by "=" v))
      × (without_newlines (render n v) ≡ followed_by n (followed_by "=" v))
      × (match_assignment (followed_by n (followed_by "=" v))
          ≡ some (record { name = n; value = lstrip v }))
      × (parse_value (lstrip v) ≡ v)
render-line n v h =
    let line = followed_by n (followed_by "=" v) in
    let clean = no_break-line n v (ground arith) (ground arith) in
    (
      ap without_end (render_lem n v) ∙ without_end-clean line clean,
      ap without_newlines (render_lem n v) ∙ without_newlines-clean line clean,
      match_assignment-named n v (ground arith),
      parse_value-lstrip v ∙ eq_of_== (parse_value v) v (ground arith),
    )
