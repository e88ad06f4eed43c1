-- ===== src/Credentials/File/Feeds.antt =====
-- The updated credential file has line feeds as its only line boundaries, as the file before.
use budget_analyzer_api_test.Base.{
  ◌≡◌, refl, true, ◌&&◌, List, [], ◌∷◌, arith, Option, String, all, nodup, string_eq, nat_eq,
  bool_eq, option_eq,
}
use budget_analyzer_api_test.Base.Dict.{Dict, keys}
use budget_analyzer_api_test.Base.Result.{ok}
use budget_analyzer_api_test.Credentials.Line.{followed_by}
use budget_analyzer_api_test.Credentials.File.{
  split_lines, join_lines, text_of, read_credential_file, update_lines, update_credential_file,
}
use budget_analyzer_api_test.Credentials.File.Entries.{read_lines_lem}
use budget_analyzer_api_test.Credentials.File.Updated.{all_writable}
use budget_analyzer_api_test.Credentials.File.Text.{
  has_line_feeds, lf_ended, split_lines-well_split,
}
use budget_analyzer_api_test.Credentials.File.Saved.{update_lines_ended, read_text}

feeds-followed_by :
    (s t : String) → has_line_feeds (followed_by s t) ≡ (has_line_feeds s && has_line_feeds t)
feeds-followed_by String.[] t = refl
feeds-followed_by (String.◌∷◌ c s) t = ground (arith, feeds-followed_by s t)

feeds_ended : (l : String) → lf_ended l ≡ true → has_line_feeds l ≡ true
feeds_ended String.[] h = cc
feeds_ended (String.◌∷◌ c String.[]) h = ground arith
feeds_ended (String.◌∷◌ c (String.◌∷◌ d l)) h = ground (arith, feeds_ended (String.◌∷◌ d l))

feeds_joined : (ls : List String) → all lf_ended ls ≡ true → has_line_feeds (join_lines ls) ≡ true
feeds_joined [] h = refl
feeds_joined (l ∷ ls) h =
    ground (arith, feeds-followed_by l (join_lines ls), feeds_ended l, feeds_joined ls)

pub updated_feeds :
    (file : Option String) (updates d : Dict String String)
    → has_line_feeds (text_of file) ≡ true
    → nodup (keys updates) ≡ true
    → all_writable updates ≡ true
    → read_credential_file file ≡ ok d
    → has_line_feeds (text_of (update_credential_file file updates)) ≡ true
unfolding update_credential_file
updated_feeds file updates d f u w h =
    let lines = split_lines (text_of file) in
    let read = read_text file d h in
    feeds_joined (update_lines lines updates) (
      update_lines_ended lines updates u w (read_lines_lem lines d read).0
        (split_lines-well_split (text_of file) f))
