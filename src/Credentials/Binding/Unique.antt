-- ===== src/Credentials/Binding/Unique.antt =====
-- An identity that is bound stands in the file for its own record only.
use budget_analyzer_api_test.Base.{
  ◌≡◌, refl, sym, ◌∙◌, ap, Bool, true, false, ◌&&◌, ◌||◌, not, List, [], ◌∷◌, arith, ◌==◌, Option,
  none, some, inl, inr, Bool-cases, Option-cases, String, any, string_eq, nat_eq, eq_of_==, implies,
  bool_eq, option_eq,
}
use budget_analyzer_api_test.Base.Dict.{Dict, lookup}
use budget_analyzer_api_test.Base.Result.{ok, raise_if-then, ok-injective}
use budget_analyzer_api_test.Base.Text.{strip}
use budget_analyzer_api_test.Config.{EnvironmentConfig}
use budget_analyzer_api_test.Credentials.Line.{is_empty}
use budget_analyzer_api_test.Credentials.File.{
  read_credential_file, update_credential_file, text_of,
}
use budget_analyzer_api_test.Credentials.File.Entries.{found_or}
use budget_analyzer_api_test.Credentials.File.Updated.{all_writable}
use budget_analyzer_api_test.Credentials.File.Text.{has_line_feeds}
use budget_analyzer_api_test.Credentials.File.Saved.{update_credential_file_lem}
use budget_analyzer_api_test.Credentials.Local.{session_role_eq, credential_state_eq, stripped}
use budget_analyzer_api_test.Base.Prefix.{starts_with, ends_with}
use mathlib.Core.Path.{ap₂, subst}
use mathlib.Core.Option.{some-injective}
use budget_analyzer_api_test.Credentials.Line.{followed_by}
use budget_analyzer_api_test.Credentials.Naming.{
  disposable_record_prefix, disposable_variable_prefix, DisposableVariableNames,
  disposable_variable_names,
}
use budget_analyzer_api_test.Credentials.Disposable.{DisposableCredentialRecord, is_retained}
use budget_analyzer_api_test.Credentials.Local.Loaded.{readable-read_values}
use budget_analyzer_api_test.Credentials.Local.Kept.{stripped-found}
use budget_analyzer_api_test.Credentials.Binding.{ensure_unbound, bind_disposable_identity}
use budget_analyzer_api_test.Credentials.Binding.Owned.{bind-IsBound}

unbound_values :
    (names : DisposableVariableNames) (subject user_id : String) (values : Dict String String)
    → ensure_unbound names subject user_id values ≡ ok tt
    → (any (is_retained "_IDP_SUBJECT" names.subject subject) values ≡ false)
      × (any (is_retained "_USER_ID" names.user_id user_id) values ≡ false)
unbound_values names subject user_id [] h = (refl, refl)
unbound_values names subject user_id (variable ∷ variables) h =
    let (one, rest) =
      raise_if-then (is_retained "_IDP_SUBJECT" names.subject subject variable) _ _ h in
    let (two, last) =
      raise_if-then (is_retained "_USER_ID" names.user_id user_id variable) _ _ rest in
    let (all_one, all_two) = unbound_values names subject user_id variables last in
    (rw (one, all_one) refl, rw (two, all_two) refl)

-- A variable of some disposable record, for its part that the suffix names.
abbrev pub is_record_variable : String → String → Bool
is_record_variable suffix n = starts_with disposable_record_prefix n && ends_with suffix n

-- No variable of a disposable record holds the value but two of one record.
abbrev pub IsOwnOnly : Dict String String → DisposableVariableNames → String → String → Type 0
IsOwnOnly values names suffix value =
    (n : String)
    → implies (is_record_variable suffix n && stripped values n == value)
        (n == names.subject || n == names.user_id)
      ≡ true

neither : (a b : Bool) → (a || b) ≡ false → (a ≡ false) × (b ≡ false)
neither a b h = (ground arith, ground arith)

unretained :
    (suffix own value : String) (d : Dict String String) (n w : String)
    → any (is_retained suffix own value) d ≡ false
    → lookup n d ≡ some w
    → is_retained suffix own value (n, w) ≡ false
unretained suffix own value [] n w h l = cc
unretained suffix own value ((j, v) ∷ d) n w h l =
    let (first, rest) =
      neither (is_retained suffix own value (j, v)) (any (is_retained suffix own value) d) h in
    elim (Bool-cases (n == j)) [
      | inl same ↦
          let here : v ≡ w = some-injective v w (rw same at l) in
          ap₂ (λ a b. is_retained suffix own value (a, b)) (eq_of_== n j same) (sym here) ∙ first
      | inr other ↦ unretained suffix own value d n w rest (rw other at l)
    ]

-- Names with different ends are different.
apart_ends :
    (prefix s t : String)
    → (s == t) ≡ false
    → (followed_by prefix s == followed_by prefix t) ≡ false
apart_ends String.[] s t h = h
apart_ends (String.◌∷◌ c prefix) s t h = ground (arith, apart_ends prefix s t h)

abbrev pub identity_updates : DisposableVariableNames → String → String → Dict String String
identity_updates names subject user_id = (names.subject, subject) ∷ (names.user_id, user_id) ∷ []

blank_strip : strip "" ≡ ""
unfolding strip
blank_strip = refl

not_blank : (value : String) → is_empty value ≡ false → ("" == value) ≡ false
not_blank value h = elim (Bool-cases ("" == value)) [
  | inl same ↦ let wrong : true ≡ false = ap is_empty (eq_of_== "" value same) ∙ h in cc
  | inr other ↦ other
]

own_only :
    (d after : Dict String String) (names : DisposableVariableNames)
    (subject user_id suffix own value : String)
    → is_empty value ≡ false
    → ((n : String) → (n == names.subject || n == names.user_id) ≡ false → (n == own) ≡ false)
    → any (is_retained suffix own value) d ≡ false
    → ((n : String)
        → lookup n after
          ≡ found_or (lookup n (identity_updates names subject user_id)) (lookup n d))
    → IsOwnOnly after names suffix value
own_only d after names subject user_id suffix own value given own_name free found n =
    elim (Bool-cases (n == names.subject || n == names.user_id)) [
      | inl mine ↦ ground arith
      | inr other ↦
          let absent : lookup n (identity_updates names subject user_id) ≡ none = ground arith in
          let same : lookup n after ≡ lookup n d =
            found n ∙ ap (λ o. found_or o (lookup n d)) absent in
          elim (Option-cases (lookup n d)) [
            | inl nothing ↦
                let blank : stripped after n ≡ "" =
                  ap (λ o. strip (elim o [ none ↦ "" | some w ↦ w ])) (same ∙ nothing)
                  ∙ blank_strip in
                let differs : (stripped after n == value) ≡ false =
                  ap (λ t. t == value) blank ∙ not_blank value given in
                unheld (starts_with disposable_record_prefix n) (ends_with suffix n)
                  (stripped after n == value) (n == names.subject || n == names.user_id)
                  (ground (arith, differs))
            | inr (w, there) ↦
                let held : stripped after n ≡ strip w =
                  ap (λ o. strip (elim o [ none ↦ "" | some v ↦ v ])) (same ∙ there) in
                let kept : (stripped after n == value) ≡ (strip w == value) =
                  ap (λ t. t == value) held in
                unheld (starts_with disposable_record_prefix n) (ends_with suffix n)
                  (stripped after n == value) (n == names.subject || n == names.user_id)
                  (ap (λ b. starts_with disposable_record_prefix n && (ends_with suffix n && b))
                      kept
                    ∙ another (starts_with disposable_record_prefix n) (ends_with suffix n)
                        (n == own) (strip w == value) (own_name n other)
                        (unretained suffix own value d n w free there))
          ]
    ]
  where
    unheld : (a b e m : Bool) → (a && (b && e)) ≡ false → implies (a && b && e) m ≡ true
    unheld a b e m h = ground arith

    another :
        (a b o e : Bool) → o ≡ false → (a && (b && (not o && e))) ≡ false → (a && (b && e)) ≡ false
    another a b o e h k = ground arith

identity_found :
    (names : DisposableVariableNames) (subject user_id : String)
    → (names.subject == names.user_id) ≡ false
    → (lookup names.subject (identity_updates names subject user_id) ≡ some subject)
      × (lookup names.user_id (identity_updates names subject user_id) ≡ some user_id)
identity_found names subject user_id apart = (ground arith, ground arith)

-- An identity is bound to one record only: where binding succeeds, the file that it leaves is readable
-- and holds the subject and the user's id under the names of the account's own record, and no variable
-- of another disposable record holds that subject as its `_IDP_SUBJECT` or that id as its `_USER_ID`,
-- blanks around the values aside. The file has line feeds as its only line boundaries, and the subject
-- and the id can be written to it and have no blanks around them.
pub bind-unbound :
    (c : EnvironmentConfig) (account bound : DisposableCredentialRecord)
    (run_id scenario_id subject user_id prefix : String) (subjects user_ids : List String)
    (file after : Option String)
    → disposable_variable_prefix run_id scenario_id ≡ ok prefix
    → has_line_feeds (text_of file) ≡ true
    → all_writable (identity_updates (disposable_variable_names prefix) subject user_id) ≡ true
    → strip subject ≡ subject
    → strip user_id ≡ user_id
    → bind_disposable_identity c account run_id scenario_id subject user_id subjects user_ids file
      ≡ ok (bound, after)
    → (values : Dict String String) × (read_credential_file after ≡ ok values)
      × let names = disposable_variable_names prefix in
        (stripped values names.subject ≡ subject)
        × (stripped values names.user_id ≡ user_id)
        × IsOwnOnly values names "_IDP_SUBJECT" subject
        × IsOwnOnly values names "_USER_ID" user_id
unfolding string_eq
bind-unbound c account bound run_id scenario_id subject user_id prefix subjects user_ids file after
      named feeds fits subject_same user_same h =
    let names = disposable_variable_names prefix in
    let b =
      bind-IsBound c account run_id scenario_id subject user_id subjects user_ids file
        (bound, after) h in
    let own_prefix : b.prefix ≡ prefix = ok-injective b.prefix prefix (
      sym b.named
      ∙ ap₂ disposable_variable_prefix (eq_of_== account.run_id run_id b.run_same)
          (eq_of_== account.scenario_id scenario_id b.scenario_same)
      ∙ named) in
    let unbound : ensure_unbound names subject user_id b.values ≡ ok tt =
      subst (λ p. ensure_unbound (disposable_variable_names p) subject user_id b.values ≡ ok tt)
        own_prefix b.unbound in
    let written : after ≡ update_credential_file file (identity_updates names subject user_id) =
      b.written
      ∙ ap
          (λ p.
            update_credential_file file
              (identity_updates (disposable_variable_names p) subject user_id))
          own_prefix in
    let (one, two) = unbound_values names subject user_id b.values unbound in
    let apart = apart_ends prefix "_IDP_SUBJECT" "_USER_ID" refl in
    let (values, readable, found) =
      update_credential_file_lem file (identity_updates names subject user_id) b.values feeds
        (rw apart refl) fits (readable-read_values file b.values b.readable) in
    let (subject_found, user_found) = identity_found names subject user_id apart in
    let (some_subject, some_user) = neither (is_empty subject) (is_empty user_id) b.given in
    (
      values,
      ap read_credential_file written ∙ readable,
      (
        stripped-found values names.subject subject
            (found names.subject
              ∙ ap (λ o. found_or o (lookup names.subject b.values)) subject_found)
            subject_same,
        stripped-found values names.user_id user_id
            (found names.user_id ∙ ap (λ o. found_or o (lookup names.user_id b.values)) user_found)
            user_same,
        own_only b.values values names subject user_id "_IDP_SUBJECT" names.subject subject
            some_subject (λ n o. (neither (n == names.subject) (n == names.user_id) o).0) one found,
        own_only b.values values names subject user_id "_USER_ID" names.user_id user_id some_user
            (λ n o. (neither (n == names.subject) (n == names.user_id) o).1) two found,
      ),
    )
