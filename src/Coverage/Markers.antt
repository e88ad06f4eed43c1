-- ===== src/Coverage/Markers.antt =====
-- `build_marker_counts`: counting the operation markers on the tests.
pub mod Counts
use budget_analyzer_api_test.Base.{
  ℕ, ◌+◌, String, Bool, List, [], ◌∷◌, ◌++◌, map, not, Eq, contains, keep, if◌then◌else◌,
}
use budget_analyzer_api_test.Base.Dict.{Dict, keys, get_or, insert}
use budget_analyzer_api_test.Base.Sort.{sorted}
use budget_analyzer_api_test.OpenApi.{OpenApiContractKey}
use budget_analyzer_api_test.Coverage.Types.{MarkerCounts, OperationKey, key_eq, key_le}

module _ {K : Type 0} ⦃e : Eq K⦄ where
  -- `counter[key] += 1`; a key that a `Counter` lacks counts as 0.
  abbrev pub count_up : K → Dict K ℕ → Dict K ℕ
  count_up k d = insert k (get_or d k 0 + 1) d

  -- One round of the loop over the markers.
  unfoldable pub count_marker : K × Bool → Dict K ℕ × Dict K ℕ → Dict K ℕ × Dict K ℕ
  count_marker (key, is_placeholder) (markers, placeholders) =
      (count_up key markers, if is_placeholder then count_up key placeholders else placeholders)

  unfoldable pub count_markers : List (K × Bool) → Dict K ℕ × Dict K ℕ → Dict K ℕ × Dict K ℕ
  unfolding count_marker
  count_markers [] counters = counters
  count_markers (m ∷ ms) counters = count_markers ms (count_marker m counters)

  -- `a.keys() | b.keys()`
  abbrev pub key_union : List K → List K → List K
  key_union ks js = ks ++ keep (λ j. not (contains ks j)) js

  -- The value of the dict comprehension at a key.
  abbrev pub counted : Dict K ℕ × Dict K ℕ → K → MarkerCounts
  counted (markers, placeholders) k = record {
    marker_count = get_or markers k 0;
    placeholder_marker_count = get_or placeholders k 0;
  }

  unfoldable pub counts_by : (K → K → Bool) → List (K × Bool) → Dict K MarkerCounts
  unfolding count_markers sorted
  counts_by le ms =
      let counters = count_markers ms ([], []) in
      map (λ k. (k, counted counters k)) (sorted le (key_union (keys counters.0) (keys counters.1)))

-- A marker is a contract, an operation id and whether its test is a placeholder.
abbrev pub Marker : Type 0
Marker = OpenApiContractKey × String × Bool

abbrev pub entry_of : Marker → OperationKey × Bool
entry_of (contract, operation_id, is_placeholder) =
    (record { contract = contract; operation_id = operation_id }, is_placeholder)

unfoldable pub build_marker_counts : List Marker → Dict OperationKey MarkerCounts
unfolding counts_by
build_marker_counts markers = counts_by key_le (map entry_of markers)
