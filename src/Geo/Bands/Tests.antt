-- ===== src/Geo/Bands/Tests.antt =====
-- src/geo/rgn.c: the x-band operations at concrete arrays.
use ylib.Base.{ℕ, ◌+◌, ◌≤◌, ◌≡◌, refl, [], ◌∷◌, List, length, arith}
use ylib.Base.Run.{done, Returns}
use ylib.Geo.Band.{Band, band, analyze_layout, int_min}
use ylib.Geo.Bands.{OpType, x_op}
use ylib.Geo.Bands.Sorted.{IsSorted, IsWritten, has_any}
use ylib.Geo.Bands.Step.{combine}
use ylib.Geo.Bands.Loop.{x_op-Combined}

abbrev xs0 : List Band
xs0 = band 10 20 ∷ band 30 40 ∷ []

abbrev xs1 : List Band
xs1 = band 15 35 ∷ band 40 50 ∷ []

x_op_runs :
    (x_op OpType.union xs0 xs1 ≡ done (band 10 50 ∷ []))
    × (x_op OpType.intersect xs0 xs1 ≡ done (band 30 35 ∷ band 15 20 ∷ []))
    × (x_op OpType.diff xs0 xs1 ≡ done (band 35 40 ∷ band 10 15 ∷ []))
unfolding x_op analyze_layout
x_op_runs = (refl, refl, refl)

xs0-IsSorted : IsSorted (int_min + 1) xs0
xs0-IsSorted = ground arith

xs1-IsSorted : IsSorted (int_min + 1) xs1
xs1-IsSorted = ground arith

x_op-Combined_example :
    Returns
      (λ r.
        IsWritten r
        × (length r ≤ 4)
        × ((x : ℕ) → has_any r x ≡ combine OpType.union (has_any xs0 x) (has_any xs1 x)))
      (x_op OpType.union xs0 xs1)
x_op-Combined_example = x_op-Combined OpType.union xs0 xs1 xs0-IsSorted xs1-IsSorted
