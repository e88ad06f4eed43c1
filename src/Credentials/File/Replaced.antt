-- ===== src/Credentials/File/Replaced.antt =====
-- What is read from the lines of an updated file.
use budget_analyzer_api_test.Base.{
  ◌≡◌, refl, sym, ◌∙◌, ap, ◌↔◌, Bool, true, false, ◌&&◌, ◌||◌, List, [], ◌∷◌, ◌++◌, arith, contains,
  if◌then◌else◌, Option, none, String, all, nodup, string_eq, nat_eq, eq_of_==, bool_eq, option_eq,
}
use budget_analyzer_api_test.Base.Dict.{Dict, keys, lookup, lookup-eq-none_iff}
use mathlib.Core.Path.{ap₂}
use budget_analyzer_api_test.Credentials.File.{update_line, replace_lines}
use budget_analyzer_api_test.Credentials.File.Entries.{
  entries, found_or, keys-append, lookup-append,
}
use budget_analyzer_api_test.Credentials.File.Updated.{
  all_writable, is_plain, assigns, update_line_lem,
}

abbrev pub all_plain : List String → Bool
all_plain lines = all is_plain lines

-- The same of all lines.
pub record IsReplaced (lines : List String) (remaining : Dict String String)
    (out : List String × Dict String String) : Type 0 where
  pub plain : all_plain out.0 ≡ true
  pub same_names : keys (entries out.0) ≡ keys (entries lines)
  pub new_values :
      (n : String)
      → lookup n (entries out.0) ≡ (
          if contains (keys (entries lines)) n
          then found_or (lookup n remaining) (lookup n (entries lines))
          else none)
  pub distinct_left : nodup (keys out.1) ≡ true
  pub writable_left : all_writable out.1 ≡ true
  pub left :
      (n : String)
      → lookup n out.1 ≡ (if contains (keys (entries lines)) n then none else lookup n remaining)

pub contains-keys-append :
    (n : String) (d e : Dict String String)
    → contains (keys (d ++ e)) n ≡ (contains (keys d) n || contains (keys e) n)
contains-keys-append n [] e = refl
contains-keys-append n ((k, v) ∷ d) e = ground (arith, contains-keys-append n d e)

nodup-keys-append :
    (d e : Dict String String) (n : String)
    → nodup (keys (d ++ e)) ≡ true
    → (nodup (keys e) ≡ true) × ((contains (keys d) n && contains (keys e) n) ≡ false)
nodup-keys-append [] e n u = (u, refl)
nodup-keys-append ((k, v) ∷ d) e n u =
    ground (arith, nodup-keys-append d e n, contains-keys-append k d e, eq_of_== n k)

-- The value of a name, taken from the first line or the later ones.
merge_lem :
    (here later : Bool) (r r' one two a b : Option String)
    → (here && later) ≡ false
    → ((one ≡ none) ↔ (here ≡ false))
    → ((two ≡ none) ↔ (later ≡ false))
    → r' ≡ (if here then none else r)
    → a ≡ (if here then found_or r one else none)
    → b ≡ (if later then found_or r' two else none)
    → found_or a b ≡ (if here || later then found_or r (found_or one two) else none)
merge_lem here later r r' one two a b apart n1 n2 hr ha hb = ground (arith, n1.1, n2.1)

pub replace_lines_lem :
    (lines : List String) (remaining : Dict String String)
    → all_plain lines ≡ true
    → nodup (keys (entries lines)) ≡ true
    → nodup (keys remaining) ≡ true
    → all_writable remaining ≡ true
    → IsReplaced lines remaining (replace_lines lines remaining)
unfolding replace_lines
replace_lines_lem [] remaining p d u w = record {
  plain = refl;
  same_names = refl;
  new_values = λ n. refl;
  distinct_left = u;
  writable_left = w;
  left = λ n. refl;
}
replace_lines_lem (line ∷ lines) remaining p d u w =
    let one = update_line line remaining in
    let a = update_line_lem line remaining (ground arith) u w in
    let rest =
      replace_lines_lem lines one.1 (ground arith)
        (nodup-keys-append (assigns line) (entries lines) "" d).0 a.distinct_left a.writable_left in
    let others = replace_lines lines one.1 in
    record {
      plain = ground (arith, a.plain, rest.plain);
      same_names =
          keys-append (assigns one.0) (entries others.0)
          ∙ ap (λ ks. ks ++ keys (entries others.0)) a.same_names
          ∙ ap (λ ks. keys (assigns line) ++ ks) rest.same_names
          ∙ sym (keys-append (assigns line) (entries lines));
      new_values = λ n.
          lookup-append n (assigns one.0) (entries others.0)
          ∙ merge_lem (contains (keys (assigns line)) n) (contains (keys (entries lines)) n)
              (lookup n remaining) (lookup n one.1) (lookup n (assigns line))
              (lookup n (entries lines)) (lookup n (assigns one.0)) (lookup n (entries others.0))
              (nodup-keys-append (assigns line) (entries lines) n d).1
              (lookup-eq-none_iff n (assigns line)) (lookup-eq-none_iff n (entries lines))
              (a.left n) (a.new_values n) (rest.new_values n)
          ∙ ap₂ (λ c o. if c then found_or (lookup n remaining) o else none)
              (sym (contains-keys-append n (assigns line) (entries lines)))
              (sym (lookup-append n (assigns line) (entries lines)));
      distinct_left = rest.distinct_left;
      writable_left = rest.writable_left;
      left = λ n.
          rest.left n
          ∙ ground (arith, a.left n, contains-keys-append n (assigns line) (entries lines));
    }
