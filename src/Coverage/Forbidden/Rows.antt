-- ===== src/Coverage/Forbidden/Rows.antt =====
-- What the rows of a forbidden-response report say of the operations.
use budget_analyzer_api_test.Base.{
  refl, Option, none, some, ==_self, ◌∷◌, ◌≡◌, Bool, true, ◌&&◌, List, [], map, arith, ◌==◌,
  contains, String, All, string_eq, nat_eq, bool_eq, option_eq,
}
use budget_analyzer_api_test.Coverage.Types.{no_markers}
use budget_analyzer_api_test.Base.Dict.{Dict, lookup}
use budget_analyzer_api_test.OpenApi.{OpenApiOperation, method_eq}
use budget_analyzer_api_test.Coverage.Types.{MarkerCounts}
use budget_analyzer_api_test.Coverage.Forbidden.{
  ForbiddenResponseDeferral, covered, ForbiddenResponseCoverage, ids_where, is_executable,
  reason_of, forbidden_row, forbidden_status_eq,
}
use budget_analyzer_api_test.Coverage.Forbidden.Accounted.{find_deferral}

-- Some test that is no placeholder carries the operation's marker.
abbrev pub has_evidence : Dict String MarkerCounts → String → Bool
has_evidence marker_counts i = contains (ids_where is_executable marker_counts) i

-- The counts of a row are those under its id, and zero where there are none.
abbrev pub is_counted : Option MarkerCounts → ForbiddenResponseCoverage → Bool
is_counted none r = r.marker_count == 0 && r.placeholder_marker_count == 0
is_counted (some counts) r =
    r.marker_count == counts.marker_count
    && r.placeholder_marker_count == counts.placeholder_marker_count

-- The operation, the counts, the status and the reason of a row, from the operations, the markers and
-- the manifest.
abbrev pub IsRow :
    List ForbiddenResponseDeferral
    → Dict String MarkerCounts
    → OpenApiOperation
    → ForbiddenResponseCoverage
    → Type 0
IsRow ds marker_counts o r =
    (r.operation_id ≡ o.operation_id)
    × (r.method ≡ o.method)
    × (r.path ≡ o.path)
    × (is_counted (lookup o.operation_id marker_counts) r ≡ true)
    × ((r.status == covered) ≡ has_evidence marker_counts o.operation_id)
    × (r.deferral_reason ≡ reason_of (find_deferral o.operation_id ds))

-- Each row is that of the operation in its place.
abbrev pub AreRows :
    List ForbiddenResponseDeferral
    → Dict String MarkerCounts
    → List OpenApiOperation
    → List ForbiddenResponseCoverage
    → Type 0
AreRows ds marker_counts [] [] = Unit
AreRows ds marker_counts [] (r ∷ rs) = ⊥
AreRows ds marker_counts (o ∷ os) [] = ⊥
AreRows ds marker_counts (o ∷ os) (r ∷ rs) =
    IsRow ds marker_counts o r × AreRows ds marker_counts os rs

pub AreRows-map :
    (ds : List ForbiddenResponseDeferral) (marker_counts : Dict String MarkerCounts)
    (f : OpenApiOperation → ForbiddenResponseCoverage) (os : List OpenApiOperation)
    → All (λ o. IsRow ds marker_counts o (f o)) os
    → AreRows ds marker_counts os (map f os)
AreRows-map ds marker_counts f [] h = tt
AreRows-map ds marker_counts f (o ∷ os) (h, hs) = (h, AreRows-map ds marker_counts f os hs)

counted_as :
    (o : Option MarkerCounts) (r : ForbiddenResponseCoverage)
    → let counts : MarkerCounts = elim o [ none ↦ no_markers | some counts ↦ counts ] in
      (r.marker_count ≡ counts.marker_count)
        × (r.placeholder_marker_count ≡ counts.placeholder_marker_count)
      → is_counted o r ≡ true
counted_as none r (h, k) = ground arith
counted_as (some counts) r (h, k) =
    rw (h, k, ==_self counts.marker_count, ==_self counts.placeholder_marker_count) refl

pub row_counted :
    (marker_counts : Dict String MarkerCounts) (found : Dict String ForbiddenResponseDeferral)
    (o : OpenApiOperation)
    → is_counted (lookup o.operation_id marker_counts) (forbidden_row marker_counts found o) ≡ true
unfolding forbidden_row
row_counted marker_counts found o =
    counted_as (lookup o.operation_id marker_counts) (forbidden_row marker_counts found o)
      (refl, refl)
