-- ===== src/Coverage/Markers/Counts.antt =====
-- The counts are the numbers of markers, and every key that is listed has a marker.
use budget_analyzer_api_test.Base.{
  ℕ, ◌+◌, ◌≤◌, ◌≡◌, Bool, true, false, ◌&&◌, ◌||◌, not, List, [], ◌∷◌, map, arith, Eq, ◌==◌,
  contains, keep, if◌then◌else◌, none, some, contains-append, contains-keep, ltb,
}
use budget_analyzer_api_test.Base.Dict.{
  Dict, keys, lookup, get_or, lookup-insert, contains-keys-insert, keys-tabulate, lookup-tabulate,
}
use budget_analyzer_api_test.Base.Sort.{sorted, mem-sorted}
use budget_analyzer_api_test.Coverage.Types.{OperationKey, key_eq, key_le, no_markers}
use budget_analyzer_api_test.Coverage.Markers.{
  count_up, count_marker, count_markers, counted, key_union, counts_by, Marker, entry_of,
  build_marker_counts,
}

module _ {K : Type 0} ⦃e : Eq K⦄ where
  -- How many markers carry the key, and how many of those stand on a placeholder.
  abbrev pub tally : K → List (K × Bool) → ℕ
  tally k [] = 0
  tally k ((j, _) ∷ ms) = (if k == j then 1 else 0) + tally k ms

  abbrev pub placeholder_tally : K → List (K × Bool) → ℕ
  placeholder_tally k [] = 0
  placeholder_tally k ((j, p) ∷ ms) = (if k == j && p then 1 else 0) + placeholder_tally k ms

  get_or-count_up :
      (j k : K) (d : Dict K ℕ)
      → get_or (count_up k d) j 0 ≡ (if j == k then 1 else 0) + get_or d j 0
  get_or-count_up j k d = ground (arith, lookup-insert j k (get_or d k 0 + 1) d)

  markers_counted :
      (ms : List (K × Bool)) (c : Dict K ℕ × Dict K ℕ) (k : K)
      → get_or (count_markers ms c).0 k 0 ≡ get_or c.0 k 0 + tally k ms
  unfolding count_markers
  markers_counted [] c k = omega arith
  markers_counted ((j, p) ∷ ms) c k =
      omega (arith, markers_counted ms (count_marker (j, p) c) k, get_or-count_up k j c.0)

  placeholders_counted :
      (ms : List (K × Bool)) (c : Dict K ℕ × Dict K ℕ) (k : K)
      → get_or (count_markers ms c).1 k 0 ≡ get_or c.1 k 0 + placeholder_tally k ms
  unfolding count_markers
  placeholders_counted [] c k = omega arith
  placeholders_counted ((j, true) ∷ ms) c k =
      ground (arith, placeholders_counted ms (count_marker (j, true) c) k, get_or-count_up k j c.1)
  placeholders_counted ((j, false) ∷ ms) c k =
      ground (arith, placeholders_counted ms (count_marker (j, false) c) k)

  markers_keyed :
      (ms : List (K × Bool)) (c : Dict K ℕ × Dict K ℕ) (k : K)
      → contains (keys (count_markers ms c).0) k ≡ (contains (keys c.0) k || ltb 0 (tally k ms))
  unfolding count_markers
  markers_keyed [] c k = ground arith
  markers_keyed ((j, p) ∷ ms) c k = ground (
    arith,
    markers_keyed ms (count_marker (j, p) c) k,
    contains-keys-insert k j (get_or c.0 j 0 + 1) c.0,
  )

  placeholders_keyed :
      (ms : List (K × Bool)) (c : Dict K ℕ × Dict K ℕ) (k : K)
      → contains (keys (count_markers ms c).1) k
        ≡ (contains (keys c.1) k || ltb 0 (placeholder_tally k ms))
  unfolding count_markers
  placeholders_keyed [] c k = ground arith
  placeholders_keyed ((j, true) ∷ ms) c k = ground (
    arith,
    placeholders_keyed ms (count_marker (j, true) c) k,
    contains-keys-insert k j (get_or c.1 j 0 + 1) c.1,
  )
  placeholders_keyed ((j, false) ∷ ms) c k =
      ground (arith, placeholders_keyed ms (count_marker (j, false) c) k)

  pub placeholder_tally-le-tally :
      (k : K) (ms : List (K × Bool)) → placeholder_tally k ms ≤ tally k ms
  placeholder_tally-le-tally k [] = omega arith
  placeholder_tally-le-tally k ((j, p) ∷ ms) = ground (arith, placeholder_tally-le-tally k ms)

  contains-key_union :
      (ks js : List K) (k : K) → contains (key_union ks js) k ≡ (contains ks k || contains js k)
  contains-key_union ks js k = ground (
    arith,
    contains-append ks (keep (λ j. not (contains ks j)) js) k,
    contains-keep (λ j. not (contains ks j)) js k,
  )

  module _ (le : K → K → Bool) (ms : List (K × Bool)) (k : K) where
    sorted_keys : List K
    sorted_keys =
        let (total, flagged) = count_markers ms ([], []) in
        sorted le (key_union (keys total) (keys flagged))

    contains-sorted_keys : contains sorted_keys k ≡ ltb 0 (tally k ms)
    unfolding sorted_keys
    contains-sorted_keys =
        let total = (count_markers ms ([], [])).0 in
        let flagged = (count_markers ms ([], [])).1 in
        ground (
          arith,
          mem-sorted le (key_union (keys total) (keys flagged)) k,
          contains-key_union (keys total) (keys flagged) k,
          markers_keyed ms ([], []) k,
          placeholders_keyed ms ([], []) k,
          placeholder_tally-le-tally k ms,
        )

    -- The keys of the result are those that some marker carries.
    pub contains-keys-counts_by : contains (keys (counts_by le ms)) k ≡ ltb 0 (tally k ms)
    unfolding counts_by sorted_keys
    contains-keys-counts_by =
        rw (keys-tabulate (counted (count_markers ms ([], [])))) contains-sorted_keys

    pub lookup-counts_by : lookup k (counts_by le ms) ≡ (
        if ltb 0 (tally k ms)
        then some (record {
          marker_count = tally k ms;
          placeholder_marker_count = placeholder_tally k ms;
        })
        else none)
    unfolding counts_by sorted_keys
    lookup-counts_by = ground (
      arith,
      lookup-tabulate (counted (count_markers ms ([], []))) k sorted_keys,
      contains-sorted_keys,
      markers_counted ms ([], []) k,
      placeholders_counted ms ([], []) k,
    )

    pub get_or-counts_by :
        get_or (counts_by le ms) k no_markers
        ≡ record { marker_count = tally k ms; placeholder_marker_count = placeholder_tally k ms }
    get_or-counts_by = ground (arith, lookup-counts_by, placeholder_tally-le-tally k ms)

-- Every key is counted with the number of markers that carry it and the number of those on
-- placeholder tests; a key is in the result exactly when a marker carries it, and no key has more
-- placeholders than markers.
pub build_marker_counts-tally :
    (markers : List Marker) (k : OperationKey)
    → let found = get_or (build_marker_counts markers) k no_markers in
      (found.marker_count ≡ tally k (map entry_of markers))
      × (found.placeholder_marker_count ≡ placeholder_tally k (map entry_of markers))
      × (found.placeholder_marker_count ≤ found.marker_count)
      × (contains (keys (build_marker_counts markers)) k ≡ ltb 0 found.marker_count)
unfolding build_marker_counts
build_marker_counts-tally markers k =
    let ms = map entry_of markers in
    ground (
      arith,
      get_or-counts_by key_le ms k,
      contains-keys-counts_by key_le ms k,
      placeholder_tally-le-tally k ms,
    )
