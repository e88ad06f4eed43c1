-- ===== src/Credentials/Local/Kept.antt =====
-- An account that is made, or marked complete, is stored as it is.
use budget_analyzer_api_test.Base.{
  ◌≡◌, refl, ◌∙◌, ap, Bool, true, false, ◌&&◌, [], ◌∷◌, arith, ◌==◌, Option, none, some, String,
  nodup, string_eq, nat_eq, eq_of_==, bool_eq, option_eq,
}
use budget_analyzer_api_test.Base.Dict.{Dict, keys, lookup, get_or}
use budget_analyzer_api_test.Base.Result.{ok}
use budget_analyzer_api_test.Base.Text.{strip}
use budget_analyzer_api_test.Config.{EnvironmentConfig, BrowserConfig}
use budget_analyzer_api_test.MarkerPolicy.{is_exact_local}
use budget_analyzer_api_test.Credentials.Line.Render.{is_writable}
use budget_analyzer_api_test.Credentials.File.{
  read_credential_file, update_credential_file, text_of,
}
use budget_analyzer_api_test.Credentials.File.Entries.{found_or}
use budget_analyzer_api_test.Credentials.File.Updated.{all_writable}
use budget_analyzer_api_test.Credentials.File.Text.{has_line_feeds}
use budget_analyzer_api_test.Credentials.File.Saved.{update_credential_file_lem}
use budget_analyzer_api_test.Credentials.File.Feeds.{updated_feeds}
use budget_analyzer_api_test.Credentials.Local.{
  SessionRole, primary, secondary, admin, CredentialState, pending, complete, session_role_eq,
  credential_state_eq, BrowserLoginCredentials, VariableNames, filled, stripped, names_of,
  ensure_distinct_from, saved_state, new_entries,
}
use budget_analyzer_api_test.Credentials.Line.{parse_value}
use budget_analyzer_api_test.Credentials.Local.Stored.{roles, IsStored}
use budget_analyzer_api_test.Credentials.Local.Names.{
  all_names, is_name_of, apart_names, other_names, new_entries_lem, distinct_ext,
}

-- A value that a variable may have: it is not blank and has no blanks around it.
abbrev pub is_usable : String → Bool
is_usable v = filled v && strip v == v

-- Credentials that can be written under the names of a role.
abbrev pub can_keep : BrowserConfig → SessionRole → BrowserLoginCredentials → Bool
can_keep b role made =
    is_writable (names_of b role).username made.username
    && is_writable (names_of b role).password made.password
    && is_usable made.username
    && is_usable made.password

all_six :
    (one two three four five six : Bool)
    → (one && two && (three && four) && (five && six)) ≡ true
    → (one ≡ true) × (two ≡ true) × (three ≡ true) × (four ≡ true) × (five ≡ true) × (six ≡ true)
all_six one two three four five six h =
    (ground arith, ground arith, ground arith, ground arith, ground arith, ground arith)

record CanKeep (b : BrowserConfig) (role : SessionRole) (made : BrowserLoginCredentials)
    : Type 0 where
  username_fits : is_writable (names_of b role).username made.username ≡ true
  password_fits : is_writable (names_of b role).password made.password ≡ true
  username_filled : filled made.username ≡ true
  username_same : strip made.username ≡ made.username
  password_filled : filled made.password ≡ true
  password_same : strip made.password ≡ made.password

can_keep_lem :
    (b : BrowserConfig) (role : SessionRole) (made : BrowserLoginCredentials)
    → can_keep b role made ≡ true
    → CanKeep b role made
can_keep_lem b role made k =
    let (w, v, fu, su, fp, sp) =
      all_six (is_writable (names_of b role).username made.username)
        (is_writable (names_of b role).password made.password) (filled made.username)
        (strip made.username == made.username) (filled made.password)
        (strip made.password == made.password) k in
    record {
      username_fits = w;
      password_fits = v;
      username_filled = fu;
      username_same = eq_of_== (strip made.username) made.username su;
      password_filled = fp;
      password_same = eq_of_== (strip made.password) made.password sp;
    }

all_fit :
    (one two three : Bool)
    → one ≡ true
    → two ≡ true
    → three ≡ true
    → (one && (two && (three && true))) ≡ true
all_fit one two three h i j = ground arith

pending_lem : (role : SessionRole) → saved_state role (strip "pending") ≡ ok pending
unfolding strip string_eq nat_eq
pending_lem role = refl

pub complete_lem : (role : SessionRole) → saved_state role (strip "complete") ≡ ok complete
unfolding strip string_eq nat_eq
complete_lem role = refl

pub state_writable :
    (b : BrowserConfig) (role : SessionRole)
    → (is_writable (names_of b role).state "pending" ≡ true)
      × (is_writable (names_of b role).state "complete" ≡ true)
unfolding parse_value strip string_eq nat_eq
state_writable b primary = (refl, refl)
state_writable b secondary = (refl, refl)
state_writable b admin = (refl, refl)

abbrev listed : VariableNames → BrowserLoginCredentials → Dict String String
listed names made =
    (names.username, made.username)
    ∷ (names.password, made.password)
    ∷ (names.state, "pending")
    ∷ []

new_entries-listed :
    (names : VariableNames) (made : BrowserLoginCredentials)
    → (names.username == names.password) ≡ false
    → (names.username == names.state) ≡ false
    → (names.password == names.state) ≡ false
    → new_entries names made ≡ listed names made
new_entries-listed names made up us ps =
    let pu : (names.password == names.username) ≡ false = ground arith in
    let su : (names.state == names.username) ≡ false = ground arith in
    let sp : (names.state == names.password) ≡ false = ground arith in rw (pu, su, sp) refl

listed_writable :
    (b : BrowserConfig) (role : SessionRole) (made : BrowserLoginCredentials)
    → nodup (all_names b) ≡ true
    → can_keep b role made ≡ true
    → (nodup (keys (listed (names_of b role) made)) ≡ true)
      × (all_writable (listed (names_of b role) made) ≡ true)
listed_writable b role made u k =
    let (up, us, ps) = apart_names b role u in
    let (pending_fits, complete_fits) = state_writable b role in
    let fit = can_keep_lem b role made k in
    (
      rw (up, us, ps) refl,
      all_fit (is_writable (names_of b role).username made.username)
          (is_writable (names_of b role).password made.password)
          (is_writable (names_of b role).state "pending") fit.username_fits fit.password_fits
          pending_fits,
    )

new_entries_writable :
    (b : BrowserConfig) (role : SessionRole) (made : BrowserLoginCredentials)
    → nodup (all_names b) ≡ true
    → can_keep b role made ≡ true
    → (nodup (keys (new_entries (names_of b role) made)) ≡ true)
      × (all_writable (new_entries (names_of b role) made) ≡ true)
new_entries_writable b role made u k =
    let (up, us, ps) = apart_names b role u in
    let same = new_entries-listed (names_of b role) made up us ps in
    let (distinct, writable) = listed_writable b role made u k in
    (ap (λ d. nodup (keys d)) same ∙ distinct, ap all_writable same ∙ writable)

pub stripped-found :
    (d : Dict String String) (n v : String) → lookup n d ≡ some v → strip v ≡ v → stripped d n ≡ v
stripped-found d n v h s = ap (λ o. strip (elim o [ none ↦ "" | some w ↦ w ])) h ∙ s

pub stripped_ext :
    (d e : Dict String String) (n : String) → lookup n d ≡ lookup n e → stripped d n ≡ stripped e n
stripped_ext d e n h = ap (λ o. strip (elim o [ none ↦ "" | some w ↦ w ])) h

pub state_text :
    (d : Dict String String) (n raw : String) (role : SessionRole) (state : CredentialState)
    → lookup n d ≡ some raw
    → saved_state role (strip raw) ≡ ok state
    → saved_state role (strip (get_or d n "complete")) ≡ ok state
state_text d n raw role state h s =
    ap (λ o. saved_state role (strip (elim o [ none ↦ "complete" | some w ↦ w ]))) h ∙ s

module _ (c : EnvironmentConfig) (b : BrowserConfig) (role : SessionRole)
    (source : Dict String String) (file : Option String) (u : nodup (all_names b) ≡ true)
    (f : has_line_feeds (text_of file) ≡ true) where
  pub new-IsStored :
      (made : BrowserLoginCredentials) (values : Dict String String)
      → is_exact_local c ≡ true
      → c.auth.browser ≡ some b
      → filled (stripped source (names_of b role).username) ≡ false
      → filled (stripped source (names_of b role).password) ≡ false
      → read_credential_file file ≡ ok values
      → ensure_distinct_from c role made.username source values roles ≡ ok tt
      → can_keep b role made ≡ true
      → IsStored c b role source
          (record { credentials = made; state = pending })
          (update_credential_file file (new_entries (names_of b role) made))
  new-IsStored made values exact configured nu np readable distinct k =
      let names = names_of b role in
      let new = new_entries names made in
      let (distinct_keys, writable) = new_entries_writable b role made u k in
      let (lu, lp, ls, other) = new_entries_lem b role made u in
      let fit = can_keep_lem b role made k in
      let (after, now, found) =
        update_credential_file_lem file new values f distinct_keys writable readable in
      let kept : (n : String) → is_name_of names n ≡ false → stripped after n ≡ stripped values n =
        λ n h.
          stripped_ext after values n
            (found n ∙ ap (λ o. found_or o (lookup n values)) (other n h)) in
      record {
        values = after;
        exact = exact;
        configured = configured;
        no_username = nu;
        no_password = np;
        readable = now;
        username_found =
            stripped-found after names.username made.username
              (found names.username ∙ ap (λ o. found_or o (lookup names.username values)) lu)
              fit.username_same;
        password_found =
            stripped-found after names.password made.password
              (found names.password ∙ ap (λ o. found_or o (lookup names.password values)) lp)
              fit.password_same;
        username_filled = fit.username_filled;
        password_filled = fit.password_filled;
        state_found =
            state_text after names.state "pending" role pending
              (found names.state ∙ ap (λ o. found_or o (lookup names.state values)) ls)
              (pending_lem role);
        distinct =
            distinct_ext c b role made.username source after values roles configured (λ o foreign.
              let (one, two) = other_names b role o u foreign in
              (kept (names_of b o).username one, kept (names_of b o).password two))
            ∙ distinct;
      }

  pub new_entries_feeds :
      (made : BrowserLoginCredentials) (values : Dict String String)
      → read_credential_file file ≡ ok values
      → can_keep b role made ≡ true
      → has_line_feeds (text_of (update_credential_file file (new_entries (names_of b role) made)))
        ≡ true
  new_entries_feeds made values readable k =
      let (distinct, writable) = new_entries_writable b role made u k in
      updated_feeds file (new_entries (names_of b role) made) values f distinct writable readable
