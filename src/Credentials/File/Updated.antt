-- ===== src/Credentials/File/Updated.antt =====
-- What is read from the lines of an updated file.
use budget_analyzer_api_test.Base.{
  ◌≡◌, refl, sym, ◌∙◌, ap, Bool, true, false, ◌&&◌, ◌||◌, [], ◌∷◌, arith, ◌==◌, contains,
  if◌then◌else◌, Option, none, some, inl, inr, Bool-cases, String, nodup, string_eq, nat_eq,
  eq_of_==, bool_eq, option_eq,
}
use budget_analyzer_api_test.Base.Dict.{Dict, keys, lookup, lookup-eq-none_iff}
use mathlib.Core.Path.{subst}
use budget_analyzer_api_test.Credentials.Line.{
  Assignment, match_assignment, render, without_end, without_newlines,
}
use budget_analyzer_api_test.Credentials.Line.Render.{is_writable, render-line}
use budget_analyzer_api_test.Credentials.File.{remove, update_line}
use budget_analyzer_api_test.Credentials.File.Entries.{line_entries, found_or}

-- All names and values can be written and read back.
abbrev pub all_writable : Dict String String → Bool
all_writable [] = true
all_writable ((n, v) ∷ d) = is_writable n v && all_writable d

-- The line's end is one that both ways of splitting take off: no other line boundary ends it.
abbrev pub is_plain : String → Bool
is_plain line = without_end line == without_newlines line

pub lookup-writable :
    (n v : String) (d : Dict String String)
    → all_writable d ≡ true
    → lookup n d ≡ some v
    → is_writable n v ≡ true
lookup-writable n v [] w h = cc
lookup-writable n v ((m, x) ∷ d) w h = elim (Bool-cases (n == m)) [
  | inl same ↦
      let value : x ≡ v = ground (arith) in
      ap (λ k. is_writable k v) (eq_of_== n m same) ∙ ap (is_writable m) (sym value) ∙ ground arith
  | inr other ↦ lookup-writable n v d (ground arith) (ground arith)
]

contains-remove :
    (n a : String) (d : Dict String String)
    → contains (keys d) n ≡ false
    → contains (keys (remove a d)) n ≡ false
contains-remove n a [] h = refl
contains-remove n a ((m, x) ∷ d) h = ground (arith, contains-remove n a d)

remove_lem :
    (a : String) (d : Dict String String)
    → nodup (keys d) ≡ true
    → all_writable d ≡ true
    → (nodup (keys (remove a d)) ≡ true)
      × (all_writable (remove a d) ≡ true)
      × ((n : String) → lookup n (remove a d) ≡ (if n == a then none else lookup n d))
remove_lem a [] u w = (refl, refl, λ n. ground arith)
remove_lem a ((m, x) ∷ d) u w =
    let (distinct, writable, found) = remove_lem a d (ground arith) (ground arith) in
    (
      ground (arith, distinct, contains-remove m a d),
      ground (arith, writable),
      λ n. ground (arith, found n, lookup-eq-none_iff n d),
    )

-- The entries of one line.
abbrev pub assigns : String → Dict String String
assigns line = line_entries (match_assignment (without_end line))

-- What one line of the updated file assigns, and which updates are left.
pub record IsUpdated (es remaining : Dict String String) (out : String × Dict String String)
    : Type 0 where
  pub plain : is_plain out.0 ≡ true
  pub same_names : keys (assigns out.0) ≡ keys es
  pub new_values :
      (n : String)
      → lookup n (assigns out.0)
        ≡ (if contains (keys es) n then found_or (lookup n remaining) (lookup n es) else none)
  pub distinct_left : nodup (keys out.1) ≡ true
  pub writable_left : all_writable out.1 ≡ true
  pub left :
      (n : String) → lookup n out.1 ≡ (if contains (keys es) n then none else lookup n remaining)

module _ (line : String) (remaining : Dict String String) (p : is_plain line ≡ true)
    (u : nodup (keys remaining) ≡ true) (w : all_writable remaining ≡ true) where
  kept_lem :
      ((n : String) → contains (keys (assigns line)) n ≡ true → lookup n remaining ≡ none)
      → IsUpdated (assigns line) remaining (line, remaining)
  kept_lem h = record {
    plain = p;
    same_names = refl;
    new_values = λ n. ground (arith, h n, lookup-eq-none_iff n (assigns line));
    distinct_left = u;
    writable_left = w;
    left = λ n. ground (arith, h n);
  }

  replaced_lem :
      (a : Assignment) (value : String)
      → lookup a.name remaining ≡ some value
      → IsUpdated (line_entries (some a)) remaining (render a.name value, remove a.name remaining)
  replaced_lem a value found =
      let (whole, whole2, read, parsed) =
        render-line a.name value (lookup-writable a.name value remaining w found) in
      let (distinct, writable, others) = remove_lem a.name remaining u w in
      let now : assigns (render a.name value) ≡ (a.name, value) ∷ [] =
        ap (λ l. line_entries (match_assignment l)) whole
        ∙ ap line_entries read
        ∙ ap (λ v. (a.name, v) ∷ []) parsed in
      record {
        plain = ground (arith, whole, whole2);
        same_names = ap keys now;
        new_values = λ n. ap (lookup n) now ∙ ground (arith, found, eq_of_== n a.name);
        distinct_left = distinct;
        writable_left = writable;
        left = λ n. ground (arith, others n);
      }

  found_lem :
      (a : Assignment) (o : Option String)
      → lookup a.name remaining ≡ o
      → match_assignment (without_end line) ≡ some a
      → IsUpdated (assigns line) remaining (elim o [
        | none ↦ (line, remaining)
        | some value ↦ (render a.name value, remove a.name remaining)
      ])
  found_lem a none e is = kept_lem (λ n m.
      let named : (n == a.name || false) ≡ true =
        sym (ap (λ x. contains (keys (line_entries x)) n) is) ∙ m in
      ap (λ k. lookup k remaining) (eq_of_== n a.name (ground arith)) ∙ e)
  found_lem a (some value) e is =
      subst (λ es. IsUpdated es remaining (render a.name value, remove a.name remaining))
        (sym (ap line_entries is)) (replaced_lem a value e)

  matched_lem :
      (o : Option Assignment)
      → match_assignment (without_end line) ≡ o
      → IsUpdated (assigns line) remaining (elim o [
        | none ↦ (line, remaining)
        | some a ↦ elim (lookup a.name remaining) [
          | none ↦ (line, remaining)
          | some value ↦ (render a.name value, remove a.name remaining)
        ]
      ])
  matched_lem none is = kept_lem (λ n m.
      let nothing : false ≡ true = sym (ap (λ x. contains (keys (line_entries x)) n) is) ∙ m in cc)
  matched_lem (some a) is = found_lem a (lookup a.name remaining) refl is

  pub update_line_lem : IsUpdated (assigns line) remaining (update_line line remaining)
  unfolding update_line
  update_line_lem =
      matched_lem (match_assignment (without_newlines line))
        (ap match_assignment (eq_of_== (without_end line) (without_newlines line) p))
