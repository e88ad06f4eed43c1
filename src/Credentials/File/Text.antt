-- ===== src/Credentials/File/Text.antt =====
-- The text of the credential file and its lines.
use budget_analyzer_api_test.Base.{
  ◌≡◌, refl, ◌∙◌, ap, Bool, true, false, ◌&&◌, not, List, [], ◌∷◌, arith, ◌==◌, if◌then◌else◌, inl,
  inr, Bool-cases, String, string_eq, nat_eq, implies, bool_eq, option_eq,
}
use budget_analyzer_api_test.Credentials.Line.{followed_by, is_break, is_cr, starts_lf}
use Prim.Native.Char.{Char, code}
use budget_analyzer_api_test.Credentials.Line.{is_empty}
use budget_analyzer_api_test.Credentials.File.{push, split_lines, join_lines}

-- The only line boundary in the text is the line feed, as in a file read in text mode.
abbrev pub has_line_feeds : String → Bool
has_line_feeds String.[] = true
has_line_feeds (String.◌∷◌ c s) = implies (is_break c) (code c == 10) && has_line_feeds s

-- A line that ends with its only line feed.
abbrev pub lf_ended : String → Bool
lf_ended String.[] = false
lf_ended (String.◌∷◌ c s) =
    let rest = lf_ended s in if is_empty s then code c == 10 else not (is_break c) && rest

-- A line that may also have no end.
abbrev pub one_line : String → Bool
one_line String.[] = false
one_line (String.◌∷◌ c s) =
    let rest = one_line s in
    if is_empty s then implies (is_break c) (code c == 10) else not (is_break c) && rest

abbrev pub well_split : List String → Bool
well_split [] = true
well_split (l ∷ []) = one_line l
well_split (l ∷ m ∷ ls) = lf_ended l && well_split (m ∷ ls)

well_split-push :
    (c : Char) (ls : List String)
    → is_break c ≡ false
    → well_split ls ≡ true
    → well_split (push c ls) ≡ true
well_split-push c [] b h = ground arith
well_split-push c (String.[] ∷ []) b h = cc
well_split-push c (String.[] ∷ m ∷ ls) b h = cc
well_split-push c (String.◌∷◌ d l ∷ []) b h = ground arith
well_split-push c (String.◌∷◌ d l ∷ m ∷ ls) b h = ground arith

lf_break : (c : Char) → (code c == 10) ≡ true → (is_break c ≡ true) × (is_cr c ≡ false)
lf_break c h = ground arith

well_split-line :
    (l : String) (ls : List String)
    → lf_ended l ≡ true
    → one_line l ≡ true
    → well_split ls ≡ true
    → well_split (l ∷ ls) ≡ true
well_split-line l [] e o h = o
well_split-line l (m ∷ ls) e o h = ground arith

pub split_lines-well_split :
    (s : String) → has_line_feeds s ≡ true → well_split (split_lines s) ≡ true
unfolding split_lines
split_lines-well_split String.[] h = refl
split_lines-well_split (String.◌∷◌ c s) h =
    let rest = split_lines-well_split s (ground arith) in
    elim (Bool-cases (is_break c)) [
      | inl breaks ↦
          let lf : (code c == 10) ≡ true = ground arith in
          let test : (is_break c && not (is_cr c && starts_lf s)) ≡ true =
            ground (arith, lf_break c) in
          rw test (well_split-line (String.◌∷◌ c String.[]) (split_lines s) lf (ground arith) rest)
      | inr plain ↦
          let test : (is_break c && not (is_cr c && starts_lf s)) ≡ false = ground arith in
          rw test (well_split-push c (split_lines s) plain rest)
    ]

-- Splitting takes off a line that has its end.
split_lines-line :
    (l rest : String) → lf_ended l ≡ true → split_lines (followed_by l rest) ≡ l ∷ split_lines rest
unfolding split_lines
split_lines-line String.[] rest h = cc
split_lines-line (String.◌∷◌ c String.[]) rest h =
    let test : (is_break c && not (is_cr c && starts_lf rest)) ≡ true =
      ground (arith, lf_break c) in
    rw test refl
split_lines-line (String.◌∷◌ c (String.◌∷◌ d l)) rest h =
    let later = split_lines-line (String.◌∷◌ d l) rest (ground arith) in
    let test : (is_break c && not (is_cr c && starts_lf (followed_by (String.◌∷◌ d l) rest)))
        ≡ false =
      ground arith in
    rw test (ap (push c) later)

split_lines-last : (l : String) → one_line l ≡ true → split_lines (followed_by l "") ≡ l ∷ []
unfolding split_lines
split_lines-last String.[] h = cc
split_lines-last (String.◌∷◌ c String.[]) h = elim (Bool-cases (is_break c)) [
  | inl breaks ↦
      let test : (is_break c && not (is_cr c && false)) ≡ true = ground arith in rw test refl
  | inr plain ↦
      let test : (is_break c && not (is_cr c && false)) ≡ false = ground arith in rw test refl
]
split_lines-last (String.◌∷◌ c (String.◌∷◌ d l)) h =
    let later = split_lines-last (String.◌∷◌ d l) (ground arith) in
    let test : (is_break c && not (is_cr c && starts_lf (followed_by (String.◌∷◌ d l) "")))
        ≡ false =
      ground arith in
    rw test (ap (push c) later)

-- Lines that are joined are split into the same lines.
pub split_lines-join_lines :
    (ls : List String) → well_split ls ≡ true → split_lines (join_lines ls) ≡ ls
unfolding split_lines
split_lines-join_lines [] h = refl
split_lines-join_lines (l ∷ []) h = split_lines-last l h
split_lines-join_lines (l ∷ m ∷ ls) h =
    split_lines-line l (join_lines (m ∷ ls)) (ground arith)
    ∙ ap (λ r. l ∷ r) (split_lines-join_lines (m ∷ ls) (ground arith))
