-- ===== src/Credentials/File/Written.antt =====
-- Updating the credential file, as it is read afterwards.
use budget_analyzer_api_test.Base.{
  ◌≡◌, refl, sym, ◌∙◌, ap, Bool, true, false, ◌&&◌, not, List, [], ◌∷◌, ◌++◌, map, arith, contains,
  if◌then◌else◌, inl, inr, Bool-cases, String, null, nodup, string_eq, nat_eq, ==_self, eq_of_==,
  bool_eq, option_eq,
}
use budget_analyzer_api_test.Base.Dict.{Dict, keys, lookup, lookup-eq-none_iff}
use budget_analyzer_api_test.Base.Result.{ok}
use mathlib.Core.Path.{ap₂}
use budget_analyzer_api_test.Credentials.Line.{
  match_assignment, followed_by, without_end, without_newlines, ends_newline, is_break, is_cr,
  starts_lf, is_newline,
}
use budget_analyzer_api_test.Credentials.Line.Render.{render-line}
use budget_analyzer_api_test.Credentials.File.{
  read_lines, replace_lines, ended, end_last, last_filled, rendered, separator, update_lines,
}
use budget_analyzer_api_test.Credentials.File.Entries.{
  entries, line_entries, found_or, lookup-append, read_lines_lem, read_lines_total,
}
use budget_analyzer_api_test.Credentials.File.Updated.{all_writable, is_plain, assigns}
use budget_analyzer_api_test.Credentials.File.Replaced.{
  all_plain, replace_lines_lem, contains-keys-append,
}
use Prim.Native.Char.{Char}
use mathlib.Core.List.{append_assoc}
use budget_analyzer_api_test.Credentials.Line.{is_empty}

newline_end : (s : String) → ends_newline s ≡ false → without_newlines s ≡ s
newline_end String.[] h = refl
newline_end (String.◌∷◌ c String.[]) h = ground arith
newline_end (String.◌∷◌ c (String.◌∷◌ d s)) h =
    let rest = newline_end (String.◌∷◌ d s) h in
    let kept : (is_newline c && false) ≡ false = ground arith in
    ap (λ r. if is_newline c && is_empty r then String.[] else String.◌∷◌ c r) rest
    ∙ ap (λ b. if b then String.[] else String.◌∷◌ c (String.◌∷◌ d s)) kept

tail_of : String → String
tail_of String.[] = String.[]
tail_of (String.◌∷◌ c s) = s

-- A text that ends as it is without its line boundary has none at its end.
unbroken :
    (b : Bool) (c : Char) (r s : String)
    → (if b then String.[] else String.◌∷◌ c r) ≡ String.◌∷◌ c s
    → (b ≡ false) × (r ≡ s)
unfolding tail_of
unbroken true c r s h = let gone : true ≡ false = ap is_empty h in cc
unbroken false c r s h = (refl, ap tail_of h)

ended_text :
    (s : String) → ends_newline s ≡ false → without_end s ≡ s → without_end (followed_by s "\n") ≡ s
unfolding nat_eq
ended_text String.[] h w = refl
ended_text (String.◌∷◌ c String.[]) h w =
    let cr : is_cr c ≡ false = ground arith in
    let kept : (is_break c && (is_cr c && true)) ≡ false = ground arith in
    ap (λ b. if b then String.[] else String.◌∷◌ c String.[]) kept
ended_text (String.◌∷◌ c (String.◌∷◌ d s)) h w =
    let (inner, same) =
      unbroken (is_break c && (is_cr c && starts_lf (String.◌∷◌ d s))) c
        (without_end (String.◌∷◌ d s)) (String.◌∷◌ d s) w in
    let rest = ended_text (String.◌∷◌ d s) h same in
    ap₂ (λ b r. if b then String.[] else String.◌∷◌ c r) inner rest

entries-append : (ls ms : List String) → entries (ls ++ ms) ≡ entries ls ++ entries ms
entries-append [] ms = refl
entries-append (l ∷ ls) ms =
    ap (λ es. assigns l ++ es) (entries-append ls ms)
    ∙ sym (append_assoc (assigns l) (entries ls) (entries ms))

entries-rendered : (d : Dict String String) → all_writable d ≡ true → entries (rendered d) ≡ d
entries-rendered [] w = refl
entries-rendered ((n, v) ∷ d) w =
    let (whole, _, read, parsed) = render-line n v (ground arith) in
    ap (λ l. line_entries (match_assignment l) ++ entries (rendered d)) whole
    ∙ ap (λ o. line_entries o ++ entries (rendered d)) read
    ∙ ap (λ x. (n, x) ∷ entries (rendered d)) parsed
    ∙ ap (λ es. (n, v) ∷ es) (entries-rendered d (ground arith))

entries-separator : (ls : List String) (d : Dict String String) → entries (separator ls d) ≡ []
unfolding match_assignment string_eq nat_eq
entries-separator ls d = elim (Bool-cases (not (null d) && last_filled ls)) [
  | inl filled ↦ rw filled refl
  | inr blank ↦ rw blank refl
]

-- Ending the last line changes no entry.
ended_lem : (l : String) → is_plain l ≡ true → without_end (ended l) ≡ without_end l
ended_lem l p = elim (Bool-cases (ends_newline l)) [
  | inl full ↦ rw full refl
  | inr open_end ↦
      let bare : without_end l ≡ l =
        eq_of_== (without_end l) (without_newlines l) p ∙ newline_end l open_end in
      rw open_end (ended_text l open_end bare) ∙ sym bare
]

entries-end_last : (ls : List String) → all_plain ls ≡ true → entries (end_last ls) ≡ entries ls
entries-end_last [] p = refl
entries-end_last (l ∷ []) p =
    ap (λ t. line_entries (match_assignment t) ++ []) (ended_lem l (ground arith))
entries-end_last (l ∷ m ∷ ls) p =
    ap (λ es. assigns l ++ es) (entries-end_last (m ∷ ls) (ground arith))

nodup-append-keys :
    (d e : Dict String String)
    → nodup (keys d) ≡ true
    → nodup (keys e) ≡ true
    → ((n : String) → contains (keys d) n ≡ true → contains (keys e) n ≡ false)
    → nodup (keys (d ++ e)) ≡ true
nodup-append-keys [] e u v apart = v
nodup-append-keys ((k, x) ∷ d) e u v apart = ground (
  arith,
  nodup-append-keys d e (ground arith) v (λ n m. apart n (ground arith)),
  contains-keys-append k d e,
  apart k,
  ==_self k,
)

-- The file as it is read before and after: a name that is updated has its new value, every other name
-- the value it had.
pub update_lines_lem :
    (lines : List String) (updates d : Dict String String)
    → all_plain lines ≡ true
    → nodup (keys updates) ≡ true
    → all_writable updates ≡ true
    → read_lines (map without_end lines) [] ≡ ok d
    → (after : Dict String String) × (read_lines (map without_end (update_lines lines updates)) []
        ≡ ok after)
      × ((n : String) → lookup n after ≡ found_or (lookup n updates) (lookup n d))
unfolding update_lines
update_lines_lem lines updates d p u w h =
    let (distinct, was) = read_lines_lem lines d h in
    let out = replace_lines lines updates in
    let r = replace_lines_lem lines updates p distinct u w in
    let closed = end_last out.0 in
    let written = closed ++ (separator closed out.1 ++ rendered out.1) in
    let es : entries written ≡ entries out.0 ++ out.1 =
      entries-append closed (separator closed out.1 ++ rendered out.1)
      ∙ ap (λ x. x ++ entries (separator closed out.1 ++ rendered out.1))
          (entries-end_last out.0 r.plain)
      ∙ ap (λ x. entries out.0 ++ x)
          (entries-append (separator closed out.1) (rendered out.1)
            ∙ ap (λ x. x ++ entries (rendered out.1)) (entries-separator closed out.1)
            ∙ entries-rendered out.1 r.writable_left) in
    let apart : (n : String)
        → contains (keys (entries out.0)) n ≡ true
        → contains (keys out.1) n ≡ false =
      λ n m.
        let m' : contains (keys (entries lines)) n ≡ true =
          ap (λ ks. contains ks n) (sym r.same_names) ∙ m in
        ground (arith, r.left n, lookup-eq-none_iff n out.1, m') in
    let unique : nodup (keys (entries written)) ≡ true =
      ap (λ x. nodup (keys x)) es
      ∙ nodup-append-keys (entries out.0) out.1 (ap nodup r.same_names ∙ distinct) r.distinct_left
          apart in
    let (after, read) = read_lines_total written unique in
    let (_, now) = read_lines_lem written after read in
    (
      after,
      read,
      λ n.
          now n
          ∙ ap (lookup n) es
          ∙ lookup-append n (entries out.0) out.1
          ∙ ground (arith, r.new_values n, r.left n, was n, lookup-eq-none_iff n (entries lines)),
    )
