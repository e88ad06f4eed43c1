-- ===== src/Credentials/File/Saved.antt =====
-- The text of an updated credential file is read back.
use budget_analyzer_api_test.Base.{
  ◌≡◌, refl, sym, ◌∙◌, ap, ◌⊎◌, Bool, true, false, ◌&&◌, not, List, [], ◌∷◌, ◌++◌, map, arith,
  if◌then◌else◌, Option, none, some, inl, inr, Bool-cases, String, all, null, nodup, string_eq,
  nat_eq, ==_self, bool_eq, option_eq,
}
use budget_analyzer_api_test.Base.Dict.{Dict, keys, lookup}
use budget_analyzer_api_test.Base.Result.{ok}
use budget_analyzer_api_test.Credentials.Line.{
  Assignment, match_assignment, render, followed_by, without_end, without_newlines, ends_newline,
  is_break, is_cr, starts_lf, is_newline,
}
use budget_analyzer_api_test.Credentials.Line.Render.{is_writable}
use budget_analyzer_api_test.Credentials.File.{
  read_lines, remove, update_line, replace_lines, ended, end_last, last_filled, rendered, separator,
  update_lines,
}
use budget_analyzer_api_test.Credentials.File.Entries.{entries, found_or, read_lines_lem}
use budget_analyzer_api_test.Credentials.File.Updated.{all_writable, update_line_lem}
use budget_analyzer_api_test.Credentials.File.Replaced.{all_plain, replace_lines_lem}
use budget_analyzer_api_test.Credentials.Line.{is_empty}
use budget_analyzer_api_test.Credentials.Line.Render.{no_break}
use budget_analyzer_api_test.Credentials.File.{
  split_lines, text_of, read_credential_file, update_credential_file,
}
use budget_analyzer_api_test.Credentials.File.Written.{update_lines_lem}
use budget_analyzer_api_test.Credentials.Line.Render.{no_break-line, render_lem, newline_lem}
use budget_analyzer_api_test.Credentials.File.Updated.{lookup-writable}
use budget_analyzer_api_test.Credentials.File.Text.{
  has_line_feeds, lf_ended, one_line, well_split, split_lines-well_split, split_lines-join_lines,
}

lf_ended_one : (l : String) → lf_ended l ≡ true → one_line l ≡ true
lf_ended_one String.[] h = cc
lf_ended_one (String.◌∷◌ c l) h = ground (arith, lf_ended_one l)

lf_ended-clean : (s : String) → no_break s ≡ true → lf_ended (followed_by s "\n") ≡ true
unfolding nat_eq
lf_ended-clean String.[] h = refl
lf_ended-clean (String.◌∷◌ c String.[]) h = ground arith
lf_ended-clean (String.◌∷◌ c (String.◌∷◌ d s)) h = ground (arith, lf_ended-clean (String.◌∷◌ d s))

lf_ended-render : (n v : String) → is_writable n v ≡ true → lf_ended (render n v) ≡ true
lf_ended-render n v h =
    ap lf_ended (render_lem n v)
    ∙ lf_ended-clean (followed_by n (followed_by "=" v))
        (no_break-line n v (ground arith) (ground arith))

lf_ended-rendered :
    (d : Dict String String) → all_writable d ≡ true → all lf_ended (rendered d) ≡ true
lf_ended-rendered [] w = refl
lf_ended-rendered ((n, v) ∷ d) w = ground (arith, lf_ended-render n v, lf_ended-rendered d)

one_line_plain : (l : String) → one_line l ≡ true → without_end l ≡ without_newlines l
one_line_plain String.[] h = cc
one_line_plain (String.◌∷◌ c String.[]) h = ground arith
one_line_plain (String.◌∷◌ c (String.◌∷◌ d l)) h =
    let rest = one_line_plain (String.◌∷◌ d l) (ground arith) in
    let s = String.◌∷◌ d l in
    let inner : (is_break c && (is_cr c && starts_lf s)) ≡ false = ground arith in
    let inner2 : (is_newline c && is_empty (without_newlines s)) ≡ false =
      ground (arith, newline_lem c) in
    ap (λ b. if b then String.[] else String.◌∷◌ c (without_end s)) inner
    ∙ ap (String.◌∷◌ c) rest
    ∙ sym (ap (λ b. if b then String.[] else String.◌∷◌ c (without_newlines s)) inner2)

pub all_plain_split : (ls : List String) → well_split ls ≡ true → all_plain ls ≡ true
all_plain_split [] h = refl
all_plain_split (l ∷ []) h = ground (arith, one_line_plain l, ==_self (without_newlines l))
all_plain_split (l ∷ m ∷ ls) h = ground (
  arith,
  one_line_plain l,
  lf_ended_one l,
  ==_self (without_newlines l),
  all_plain_split (m ∷ ls),
)

closed_lf : (l : String) → one_line l ≡ true → ends_newline l ≡ true → lf_ended l ≡ true
closed_lf String.[] h e = cc
closed_lf (String.◌∷◌ c String.[]) h e = ground arith
closed_lf (String.◌∷◌ c (String.◌∷◌ d l)) h e = ground (arith, closed_lf (String.◌∷◌ d l))

open_lf :
    (l : String) → one_line l ≡ true → ends_newline l ≡ false → lf_ended (followed_by l "\n") ≡ true
unfolding nat_eq
open_lf String.[] h e = refl
open_lf (String.◌∷◌ c String.[]) h e = ground arith
open_lf (String.◌∷◌ c (String.◌∷◌ d l)) h e = ground (arith, open_lf (String.◌∷◌ d l))

ended_lf : (l : String) → one_line l ≡ true → lf_ended (ended l) ≡ true
ended_lf l h = elim (Bool-cases (ends_newline l)) [
  | inl full ↦ rw full (closed_lf l h full)
  | inr open_end ↦ rw open_end (open_lf l h open_end)
]

ended_all : (ls : List String) → well_split ls ≡ true → all lf_ended (end_last ls) ≡ true
ended_all [] h = refl
ended_all (l ∷ []) h = ground (arith, ended_lf l)
ended_all (l ∷ m ∷ ls) h = ground (arith, ended_all (m ∷ ls))

pub ended_split : (ls : List String) → all lf_ended ls ≡ true → well_split ls ≡ true
ended_split [] h = refl
ended_split (l ∷ []) h = ground (arith, lf_ended_one l)
ended_split (l ∷ m ∷ ls) h = ground (arith, ended_split (m ∷ ls))

all-append : (p : String → Bool) (ls ms : List String) → all p (ls ++ ms) ≡ (all p ls && all p ms)
all-append p [] ms = refl
all-append p (l ∷ ls) ms = ground (arith, all-append p ls ms)

ended_separator : (ls : List String) (d : Dict String String) → all lf_ended (separator ls d) ≡ true
unfolding nat_eq
ended_separator ls d = elim (Bool-cases (not (null d) && last_filled ls)) [
  | inl filled ↦ rw filled refl
  | inr blank ↦ rw blank refl
]

-- An updated line is as it was, or has its end.
updated_shape :
    (line : String) (remaining : Dict String String)
    → all_writable remaining ≡ true
    → ((update_line line remaining).0 ≡ line) ⊎ (lf_ended (update_line line remaining).0 ≡ true)
unfolding update_line
updated_shape line remaining w = matched (match_assignment (without_newlines line))
  where
    found :
        (a : Assignment) (o : Option String)
        → lookup a.name remaining ≡ o
        → let out : String × Dict String String = elim o [
          | none ↦ (line, remaining)
          | some value ↦ (render a.name value, remove a.name remaining)
        ] in
          (out.0 ≡ line) ⊎ (lf_ended out.0 ≡ true)
    found a none e = inl refl
    found a (some value) e =
        inr (lf_ended-render a.name value (lookup-writable a.name value remaining w e))

    matched :
        (o : Option Assignment)
        → let out : String × Dict String String = elim o [
          | none ↦ (line, remaining)
          | some a ↦ elim (lookup a.name remaining) [
            | none ↦ (line, remaining)
            | some value ↦ (render a.name value, remove a.name remaining)
          ]
        ] in
          (out.0 ≡ line) ⊎ (lf_ended out.0 ≡ true)
    matched none = inl refl
    matched (some a) = found a (lookup a.name remaining) refl

updated_one :
    (line : String) (remaining : Dict String String)
    → all_writable remaining ≡ true
    → one_line line ≡ true
    → one_line (update_line line remaining).0 ≡ true
updated_one line remaining w h = elim (updated_shape line remaining w) [
  | inl same ↦ ap one_line same ∙ h
  | inr full ↦ lf_ended_one (update_line line remaining).0 full
]

updated_lf :
    (line : String) (remaining : Dict String String)
    → all_writable remaining ≡ true
    → lf_ended line ≡ true
    → lf_ended (update_line line remaining).0 ≡ true
updated_lf line remaining w h = elim (updated_shape line remaining w) [
  | inl same ↦ ap lf_ended same ∙ h
  | inr full ↦ full
]

replaced_split :
    (ls : List String) (remaining : Dict String String)
    → nodup (keys remaining) ≡ true
    → all_writable remaining ≡ true
    → well_split ls ≡ true
    → well_split (replace_lines ls remaining).0 ≡ true
unfolding replace_lines
replaced_split [] remaining u w h = refl
replaced_split (l ∷ []) remaining u w h = updated_one l remaining w h
replaced_split (l ∷ m ∷ ls) remaining u w h =
    let plain = all_plain_split (l ∷ m ∷ ls) h in
    let a = update_line_lem l remaining (ground arith) u w in
    let first = updated_lf l remaining w (ground arith) in
    let rest =
      replaced_split (m ∷ ls) (update_line l remaining).1 a.distinct_left a.writable_left
        (ground arith) in
    ground (arith, first, rest)

pub read_text :
    (file : Option String) (d : Dict String String)
    → read_credential_file file ≡ ok d
    → read_lines (map without_end (split_lines (text_of file))) [] ≡ ok d
unfolding read_credential_file
read_text none d h = h
read_text (some content) d h = h

pub update_lines_ended :
    (ls : List String) (updates : Dict String String)
    → nodup (keys updates) ≡ true
    → all_writable updates ≡ true
    → nodup (keys (entries ls)) ≡ true
    → well_split ls ≡ true
    → all lf_ended (update_lines ls updates) ≡ true
unfolding update_lines
update_lines_ended ls updates u w d h =
    let out = replace_lines ls updates in
    let r = replace_lines_lem ls updates (all_plain_split ls h) d u w in
    let closed = end_last out.0 in
    ground (
      arith,
      all-append lf_ended closed (separator closed out.1 ++ rendered out.1),
      all-append lf_ended (separator closed out.1) (rendered out.1),
      ended_all out.0 (replaced_split ls updates u w h),
      ended_separator closed out.1,
      lf_ended-rendered out.1 r.writable_left,
    )

-- Reading the credential file after an update finds the new value of every name that was updated and
-- the old value of every other. The file's text has line feeds as its only line boundaries, it can be
-- read before, and the names and values that are written can be written on a line each.
pub update_credential_file_lem :
    (file : Option String) (updates d : Dict String String)
    → has_line_feeds (text_of file) ≡ true
    → nodup (keys updates) ≡ true
    → all_writable updates ≡ true
    → read_credential_file file ≡ ok d
    → (after : Dict String String) × (read_credential_file (update_credential_file file updates)
        ≡ ok after)
      × ((n : String) → lookup n after ≡ found_or (lookup n updates) (lookup n d))
unfolding read_credential_file update_credential_file
update_credential_file_lem file updates d f u w h =
    let lines = split_lines (text_of file) in
    let split = split_lines-well_split (text_of file) f in
    let read = read_text file d h in
    let (after, now, found) =
      update_lines_lem lines updates d (all_plain_split lines split) u w read in
    let whole = split_lines-join_lines (update_lines lines updates) (
      ended_split (update_lines lines updates)
        (update_lines_ended lines updates u w (read_lines_lem lines d read).0 split)) in
    (after, ap (λ ls. read_lines (map without_end ls) []) whole ∙ now, found)
