-- ===== src/Geo/Areas/Tests.antt =====
-- src/geo/rgn.c: operations with rectangles at concrete ones.
use ylib.Base.{ℕ, ◌+◌, [], ◌∷◌, true, false, ◌&&◌, ◌||◌, not, arith, Bool}
use ylib.Base.Run.{Returns}
use ylib.Geo.Band.{band, int_min}
use ylib.Geo.Rect
use ylib.Geo.Rect.{Rect, contain}
use ylib.Geo.Rect.Laws.{IsOrdered}
use ylib.Geo.Rgn.{Rgn, rect_band}
use ylib.Geo.Rgn.Valid.{contains, IsRgn}
use ylib.Geo.Rgn.Loop.{IsNarrow}
use ylib.Geo.Areas.{mutate_rect_to_rgnbands, intersect2, diff2, diff3, union2, union3}
use ylib.Geo.Areas.Rects.{Holds, IsInPlane, rgn_rect-Holds, rect_rect-Holds}

abbrev granted : ℕ → Bool
granted n = true

abbrev low : Rect
low = Rect.set 10 10 20 20

abbrev high : Rect
high = Rect.set 15 15 30 30

abbrev blank : Rect
blank = Rect.set 0 0 0 0

abbrev corner : Rgn
corner =
    rect_band (band 10 15) (band 10 20 ∷ [])
    ∷ rect_band (band 15 20) (band 10 12 ∷ band 14 20 ∷ [])
    ∷ []

ordered : IsOrdered blank × IsOrdered low × IsOrdered high
ordered = ground arith

in_plane : IsInPlane low × IsInPlane high
in_plane = ground arith

corner-IsRgn : IsRgn (int_min + 2) corner × IsNarrow 2 corner
corner-IsRgn = ground arith

rgn_rect-Holds_example :
    Returns
      (Holds granted (λ x y. contains corner x y && contain high x y))
      (intersect2 granted false corner high)
    × Returns
        (Holds granted (λ x y. contains corner x y && not (contain high x y)))
        (diff2 granted false corner high)
    × Returns
        (Holds granted (λ x y. contains corner x y || contain high x y))
        (union2 granted false corner high)
rgn_rect-Holds_example =
    rgn_rect-Holds granted 2 (omega arith) corner high corner-IsRgn.0 corner-IsRgn.1 in_plane.1
      (omega arith)

rect_rect-Holds_example :
    Returns
      (Holds granted (λ x y. contain low x y && not (contain high x y)))
      (diff3 granted false low high)
    × Returns
        (Holds granted (λ x y. contain low x y || contain high x y))
        (union3 granted false low high)
    × Returns
        (Holds granted (contain (Rect.intersect blank low high)))
        (intersect2 granted false (mutate_rect_to_rgnbands low) high)
rect_rect-Holds_example =
    rect_rect-Holds granted 1 (omega arith) blank low high in_plane.0 in_plane.1 ordered.0 ordered.1
      ordered.2 (omega arith)
