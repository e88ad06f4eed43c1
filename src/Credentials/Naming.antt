-- ===== src/Credentials/Naming.antt =====
-- local_credentials.py: the names under which the record of a disposable account is kept.
use Prim.Native.Char.{Char, code}
use Prim.Native.String.{String, [], ◌∷◌}
use mathlib.Core.Bool.{Bool, true, false, ◌&&◌, ◌||◌}
use budget_analyzer_api_test.Base.{◌==◌, nat_eq, string_eq, if◌then◌else◌, leb}
use budget_analyzer_api_test.Base.Text.{translated}
use budget_analyzer_api_test.Base.Result.{Result, ok, ◌>>◌, raise_if}
use budget_analyzer_api_test.Credentials.Line.{is_empty, followed_by}
use budget_analyzer_api_test.Credentials.Local.{
  CredentialError, empty_provenance, unsafe_record_name,
}

-- `DISPOSABLE_RECORD_PREFIX`
abbrev pub disposable_record_prefix : String
disposable_record_prefix = "BA_ADMIN_DEACTIVATION_"

-- `[A-Za-z0-9]`
abbrev is_token_char : Char → Bool
is_token_char c =
    let n = code c in leb 48 n && leb n 57 || leb 65 n && leb n 90 || leb 97 n && leb n 122

-- `re.sub(r"[^A-Za-z0-9]+", "_", text)`; the flag tells that the text follows a replaced character
abbrev squeezed : Bool → String → String
squeezed replaced [] = []
squeezed replaced (c ∷ s) =
    let after_char = squeezed false s in
    let after_gap = squeezed true s in
    if is_token_char c
    then c ∷ after_char
    else if replaced
    then after_gap
    else followed_by "_" after_gap

-- `token.strip("_")`
abbrev without_first_marks : String → String
without_first_marks [] = []
without_first_marks (c ∷ s) =
    let rest = without_first_marks s in if code c == 95 then rest else c ∷ s

abbrev without_last_marks : String → String
without_last_marks [] = []
without_last_marks (c ∷ s) =
    let rest = without_last_marks s in if code c == 95 && is_empty rest then [] else c ∷ rest

-- `token.upper()`, of a token that has no other letters than these
abbrev upper : String → String
upper [] = []
upper (c ∷ s) = translated "abcdefghijklmnopqrstuvwxyz" "ABCDEFGHIJKLMNOPQRSTUVWXYZ" c ∷ upper s

-- `_disposable_variable_prefix`
unfoldable pub disposable_variable_prefix : String → String → Result CredentialError String
disposable_variable_prefix run_id scenario_id = do
  raise_if (is_empty run_id || is_empty scenario_id) empty_provenance
  let joined = squeezed false (followed_by run_id (followed_by "_" scenario_id))
  let token = upper (without_last_marks (without_first_marks joined))
  raise_if (is_empty token) unsafe_record_name
  ok (followed_by disposable_record_prefix token)

pub record DisposableVariableNames : Type 0 where
  pub run_id : String
  pub scenario_id : String
  pub username : String
  pub password : String
  pub state : String
  pub subject : String
  pub user_id : String

-- `_disposable_variable_names`
abbrev pub disposable_variable_names : String → DisposableVariableNames
disposable_variable_names prefix = record {
  run_id = followed_by prefix "_RUN_ID";
  scenario_id = followed_by prefix "_SCENARIO_ID";
  username = followed_by prefix "_USERNAME";
  password = followed_by prefix "_PASSWORD";
  state = followed_by prefix "_ACCOUNT_STATE";
  subject = followed_by prefix "_IDP_SUBJECT";
  user_id = followed_by prefix "_USER_ID";
}
