-- ===== src/OpenApi/Document/Entries.antt =====
-- Which operations a document yields.
use budget_analyzer_api_test.Base.{
  Option, any, false, inl, inr, Bool-cases, eq_of_==, ◌++◌, keep, ◌==◌, ◌≡◌, refl, sym, ◌∙◌, ap,
  ◌↔◌, true, List, [], ◌∷◌, map, arith, none, some, String, nodup, All, string_eq, nat_eq, bool_eq,
  option_eq,
}
use budget_analyzer_api_test.Base.Dict.{
  Dict, lookup, insert, lookup-eq-none_iff, are_new, are_new-insert,
}
use budget_analyzer_api_test.Base.Result.{ok}
use mathlib.Core.Path.{subst, subst⁻¹}
use budget_analyzer_api_test.OpenApi.{
  HttpMethod, get, post, put, patch, delete, OpenApiContractKey, OpenApiOperation,
}
use budget_analyzer_api_test.OpenApi.Document.{
  no_members, member, method_of, path_candidates, Json, Members, null_value, boolean, number, text,
  array, object, read_paths, field, filled_text, OpenApiOperationEntry, Candidate, candidates,
  read_entry, read_entries, validated_operation_entries,
}

-- What an entry was read from.
abbrev pub candidate_of : OpenApiOperationEntry → Candidate
candidate_of e = record {
  path = e.operation.path;
  path_item = e.path_item;
  method = e.operation.method;
  value = object e.raw_operation;
}

-- The methods that a path item may have, and their names in it.
abbrev pub all_methods : List HttpMethod
all_methods = get ∷ post ∷ put ∷ patch ∷ delete ∷ []

abbrev pub key_of : HttpMethod → String
key_of get = "get"
key_of post = "post"
key_of put = "put"
key_of patch = "patch"
key_of delete = "delete"

-- A path item's members that are named as one of the methods, and those of all paths that have an
-- object, in the order of the document.
abbrev pub documented_item : String → Members → Members → List Candidate
documented_item path whole no_members = []
documented_item path whole (member key value rest) =
    map (λ m. record { path = path; path_item = whole; method = m; value = value })
      (keep (λ m. key == key_of m) all_methods)
    ++ documented_item path whole rest

abbrev pub documented : Members → List Candidate
documented no_members = []
documented (member path (object item) rest) = documented_item path item item ++ documented rest
documented (member path null_value rest) = documented rest
documented (member path (boolean b) rest) = documented rest
documented (member path (number n) rest) = documented rest
documented (member path (text s) rest) = documented rest
documented (member path (array is) rest) = documented rest

-- The candidates of a member, through its method or through the table of names.
abbrev by_method : String → (HttpMethod → Candidate) → List Candidate → List Candidate
by_method key f later = elim (method_of key) [ none ↦ later | some m ↦ f m ∷ later ]

abbrev by_name : String → (HttpMethod → Candidate) → List Candidate → List Candidate
by_name key f later = map f (keep (λ m. key == key_of m) all_methods) ++ later

named_method :
    (m : HttpMethod) (f : HttpMethod → Candidate) (later : List Candidate)
    → by_method (key_of m) f later ≡ by_name (key_of m) f later
unfolding string_eq
named_method get f later = refl
named_method post f later = refl
named_method put f later = refl
named_method patch f later = refl
named_method delete f later = refl

one_method :
    (key : String) (f : HttpMethod → Candidate) (later : List Candidate)
    → by_method key f later ≡ by_name key f later
one_method key f later = elim (Bool-cases (any (λ m. key == key_of m) all_methods)) [
  | inl listed ↦
      let (m, same) : (m : HttpMethod) × (key ≡ key_of m) = found listed in
      subst⁻¹ (λ k. by_method k f later ≡ by_name k f later) same (named_method m f later)
  | inr unlisted ↦
      let (g, o, u, a, d) : ((key == "get") ≡ false)
          × ((key == "post") ≡ false)
          × ((key == "put") ≡ false)
          × ((key == "patch") ≡ false)
          × ((key == "delete") ≡ false) =
        ground arith in
      let absent : method_of key ≡ none = rw (method_of, g, o, u, a, d) refl in
      let nobody : keep (λ m. key == key_of m) all_methods ≡ [] = rw (g, o, u, a, d) refl in
      ap (λ (n : Option HttpMethod). elim n [ none ↦ later | some m ↦ f m ∷ later ]) absent
      ∙ sym (ap (λ ms. map f ms ++ later) nobody)
]
  where
    at : (m : HttpMethod) → (key == key_of m) ≡ true → (m : HttpMethod) × (key ≡ key_of m)
    at m h = (m, eq_of_== key (key_of m) h)

    search_in :
        (ms : List HttpMethod)
        → any (λ m. key == key_of m) ms ≡ true
        → (m : HttpMethod) × (key ≡ key_of m)
    search_in [] h = cc
    search_in (m ∷ ms) h = elim (Bool-cases (key == key_of m)) [
      | inl here ↦ at m here
      | inr there ↦ search_in ms (ground arith)
    ]

    found : any (λ m. key == key_of m) all_methods ≡ true → (m : HttpMethod) × (key ≡ key_of m)
    found h = search_in all_methods h

path_candidates-documented :
    (path : String) (whole members : Members)
    → path_candidates path whole members ≡ documented_item path whole members
unfolding path_candidates
path_candidates-documented path whole no_members = refl
path_candidates-documented path whole (member key value rest) =
    one_method key (λ m. record { path = path; path_item = whole; method = m; value = value })
      (path_candidates path whole rest)
    ∙ ap
        (λ later.
          map (λ m. record { path = path; path_item = whole; method = m; value = value })
            (keep (λ m. key == key_of m) all_methods)
          ++ later)
        (path_candidates-documented path whole rest)

candidates-documented : (paths : Members) → candidates paths ≡ documented paths
unfolding candidates
candidates-documented no_members = refl
candidates-documented (member path (object item) rest) =
    ap (λ cs. cs ++ candidates rest) (path_candidates-documented path item item)
    ∙ ap (λ cs. documented_item path item item ++ cs) (candidates-documented rest)
candidates-documented (member path null_value rest) = candidates-documented rest
candidates-documented (member path (boolean b) rest) = candidates-documented rest
candidates-documented (member path (number n) rest) = candidates-documented rest
candidates-documented (member path (text s) rest) = candidates-documented rest
candidates-documented (member path (array is) rest) = candidates-documented rest

abbrev pub entry_ids : List OpenApiOperationEntry → List String
entry_ids es = map (λ e. e.operation.operation_id) es

module _ (contract : OpenApiContractKey) where
  -- The entry has the contract, and the id that its document gives.
  abbrev pub IsNamed : OpenApiOperationEntry → Type 0
  IsNamed e =
      (filled_text (field e.raw_operation "operationId") ≡ some e.operation.operation_id)
      × (e.operation.contract ≡ contract)

  -- The entries are the candidates, in their order, and their ids are distinct.
  pub record IsReading (cs : List Candidate) (es : List OpenApiOperationEntry) : Type 0 where
    pub whole : map candidate_of es ≡ cs
    pub named : All IsNamed es
    pub distinct : nodup (entry_ids es) ≡ true

  read_entry_iff :
      (c : Candidate) (e : OpenApiOperationEntry)
      → (read_entry contract c ≡ ok e) ↔ ((candidate_of e ≡ c) × IsNamed e)
  unfolding read_entry
  read_entry_iff c e = ground arith

  read_entries_sound :
      (cs : List Candidate) (by_id : Dict String OpenApiOperation) (es : List OpenApiOperationEntry)
      → read_entries contract cs by_id ≡ ok es
      → IsReading cs es × (are_new by_id (entry_ids es) ≡ true)
  unfolding read_entries
  read_entries_sound [] by_id [] h = (record { whole = refl; named = tt; distinct = refl }, refl)
  read_entries_sound [] by_id (e ∷ es) h = cc
  read_entries_sound (c ∷ cs) by_id [] h = ground arith
  read_entries_sound (c ∷ cs) by_id (e ∷ es) h =
      let i = e.operation.operation_id in
      let (first, absent, later) : (read_entry contract c ≡ ok e)
          × (lookup i by_id ≡ none)
          × (read_entries contract cs (insert i e.operation by_id) ≡ ok es) =
        ground arith in
      let (same, is_named) = (read_entry_iff c e).0 first in
      let (rest, new) = read_entries_sound cs (insert i e.operation by_id) es later in
      let split = are_new-insert i e.operation by_id (entry_ids es) in
      (
        record {
          whole = rw (same, rest.whole) refl;
          named = (is_named, rest.named);
          distinct = ground (arith, rest.distinct, split);
        },
        ground (arith, split, lookup-eq-none_iff i by_id),
      )

  read_entries_complete :
      (es : List OpenApiOperationEntry) (by_id : Dict String OpenApiOperation)
      → All IsNamed es
      → nodup (entry_ids es) ≡ true
      → are_new by_id (entry_ids es) ≡ true
      → read_entries contract (map candidate_of es) by_id ≡ ok es
  unfolding read_entries
  read_entries_complete [] by_id named distinct new = refl
  read_entries_complete (e ∷ es) by_id (first, named) distinct new =
      let i = e.operation.operation_id in
      ground (
        arith,
        (read_entry_iff (candidate_of e) e).1 (refl, first),
        lookup-eq-none_iff i by_id,
        are_new-insert i e.operation by_id (entry_ids es),
        read_entries_complete es (insert i e.operation by_id) named,
      )

  none_new : (is : List String) → are_new {V = OpenApiOperation} [] is ≡ true
  none_new [] = refl
  none_new (i ∷ is) = none_new is

  read_paths_sound :
      (value : Json) (es : List OpenApiOperationEntry)
      → read_paths contract value ≡ ok es
      → (paths : Members) × (value ≡ object paths) × IsReading (candidates paths) es
  unfolding read_paths
  read_paths_sound (object paths) es h =
      (paths, refl, (read_entries_sound (candidates paths) [] es h).0)
  read_paths_sound null_value es h = cc
  read_paths_sound (boolean b) es h = cc
  read_paths_sound (number s) es h = cc
  read_paths_sound (text s) es h = cc
  read_paths_sound (array is) es h = cc

  read_paths_complete :
      (paths : Members) (es : List OpenApiOperationEntry)
      → IsReading (candidates paths) es
      → read_paths contract (object paths) ≡ ok es
  unfolding read_paths
  read_paths_complete paths es r =
      ap (λ cs. read_entries contract cs []) (sym r.whole)
      ∙ read_entries_complete es [] r.named r.distinct (none_new (entry_ids es))

  -- Reading the entries of a document succeeds with some entries exactly when its paths are an object
  -- and the entries are those of its methods: one for each member of a path item that is named as one
  -- of the five methods, in the order of the document, with that member, an object, as its operation
  -- and that operation's id, which is not blank; and the ids are distinct.
  pub validated_operation_entries_iff :
      (document : Members) (es : List OpenApiOperationEntry)
      → (validated_operation_entries contract document ≡ ok es) ↔ (
          (paths : Members) × (field document "paths" ≡ object paths)
          × IsReading (documented paths) es)
  unfolding validated_operation_entries
  validated_operation_entries_iff document es = (
    λ h.
        let (paths, p, r) = read_paths_sound (field document "paths") es h in
        (paths, p, subst (λ cs. IsReading cs es) (candidates-documented paths) r),
    λ (paths, p, r).
        ap (read_paths contract) p
        ∙ read_paths_complete paths es
            (subst⁻¹ (λ cs. IsReading cs es) (candidates-documented paths) r),
  )
