-- ===== src/Geo/Rect/Tests.antt =====
-- src/geo/rect.c: rectangles at concrete coordinates.
use ylib.Base.{◌≡◌, refl, arith}
use ylib.Geo.Rect.{Rect, set, intersect}
use ylib.Geo.Rect.Laws.{IsOrdered, IsCommon, intersect-IsCommon}

abbrev low : Rect
low = set 10 10 20 20

abbrev high : Rect
high = set 15 15 30 30

abbrev blank : Rect
blank = set 0 0 0 0

ordered : IsOrdered blank × IsOrdered low × IsOrdered high
ordered = ground arith

intersect_runs : intersect blank low high ≡ set 15 15 20 20
unfolding intersect
intersect_runs = refl

intersect-IsCommon_example : IsCommon low high (intersect blank low high)
intersect-IsCommon_example = intersect-IsCommon blank low high ordered.0 ordered.1 ordered.2
