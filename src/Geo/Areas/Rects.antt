-- ===== src/Geo/Areas/Rects.antt =====
-- src/geo/rgn.c: operations on a region and a rectangle, and on two rectangles.
use ylib.Base.{
  ℕ, ◌+◌, ◌*◌, ◌≤◌, ◌<◌, ◌≡◌, ◌∙◌, refl, sym, Bool, false, ◌&&◌, ◌||◌, not, Option, none, some,
  length, arith, mul_mono, u32_mod, Bool-cases, inl, inr,
}
use ylib.Base.Run.{Returns, Returns-map}
use ylib.Geo.Band.{int_min, int_max}
use ylib.Geo.Bands.{OpType}
use ylib.Geo.Bands.Step.{combine}
use ylib.Geo.Rect
use ylib.Geo.Rect.{Rect, contain}
use ylib.Geo.Rect.Laws.{IsOrdered, intersect-IsCommon}
use ylib.Geo.Rgn.{Rgn, rgn_op}
use ylib.Geo.Rgn.Valid.{contains, IsRgn}
use ylib.Geo.Rgn.Loop.{IsNarrow, Refused}
use ylib.Geo.Rgn.Result.{IsAnswer, rgn_op-IsAnswer}
use ylib.Geo.Areas.{
  mutate_rect_to_rgnbands, intersect, intersect2, diff, diff2, diff3, union, union2, union3,
}

-- the coordinates are none of those that the code keeps for itself, GEO_INVALID_MIN_VALUE, its two
-- successors and GEO_INVALID_MAX_VALUE
abbrev pub IsInPlane : Rect → Type 0
IsInPlane r =
    (int_min + 2 ≤ r.yb.s) × (r.yb.b < int_max) × (int_min + 2 ≤ r.xb.s) × (r.xb.b < int_max)

-- NULL after a refused request, or a valid region of the points of `p`
abbrev pub Holds : (ℕ → Bool) → (ℕ → ℕ → Bool) → Option Rgn → Type 0
Holds grant p none = Refused grant
Holds grant p (some g) = IsRgn (int_min + 2) g × ((x y : ℕ) → contains g x y ≡ p x y)

mutate-IsRgn : (r : Rect) → IsInPlane r → IsRgn (int_min + 2) (mutate_rect_to_rgnbands r)
unfolding mutate_rect_to_rgnbands
mutate-IsRgn r h = elim (Bool-cases (Rect.is_empty r)) [
  | inl e ↦ rw e tt
  | inr e ↦ rw e (ground arith)
]

mutate-IsNarrow :
    (r : Rect) (m : ℕ)
    → 1 ≤ m
    → IsNarrow m (mutate_rect_to_rgnbands r) × (length (mutate_rect_to_rgnbands r) ≤ 1)
unfolding mutate_rect_to_rgnbands
mutate-IsNarrow r m h = elim (Bool-cases (Rect.is_empty r)) [
  | inl e ↦ rw e (tt, omega arith)
  | inr e ↦ rw e ((h, tt), omega arith)
]

contains-mutate : (r : Rect) (x y : ℕ) → contains (mutate_rect_to_rgnbands r) x y ≡ contain r x y
unfolding mutate_rect_to_rgnbands contain
contains-mutate r x y = elim (Bool-cases (Rect.is_empty r)) [
  | inl e ↦ rw e (ground arith)
  | inr e ↦ rw e (ground arith)
]

Holds-IsAnswer :
    (grant : ℕ → Bool) (op : OpType) (g0 g1 : Rgn) (p q : ℕ → ℕ → Bool) (r : Option Rgn)
    → ((x y : ℕ) → contains g0 x y ≡ p x y)
    → ((x y : ℕ) → contains g1 x y ≡ q x y)
    → IsAnswer grant op g0 g1 r
    → Holds grant (λ x y. combine op (p x y) (q x y)) r
Holds-IsAnswer grant op g0 g1 p q none e0 e1 a = a
Holds-IsAnswer grant op g0 g1 p q (some g) e0 e1 a =
    (a.0, λ x y. a.1 x y ∙ rw (e0 x y, e1 x y) refl)

Holds-eq :
    (grant : ℕ → Bool) (p q : ℕ → ℕ → Bool) (r : Option Rgn)
    → ((x y : ℕ) → p x y ≡ q x y)
    → Holds grant p r
    → Holds grant q r
Holds-eq grant p q none e h = h
Holds-eq grant p q (some g) e h = (h.0, λ x y. h.1 x y ∙ e x y)

-- an operation on two regions that hold what `p` and `q` hold
rgn_op-Holds :
    (grant : ℕ → Bool) (op : OpType) (m n : ℕ) (g0 g1 : Rgn) (p q : ℕ → ℕ → Bool)
    → IsRgn (int_min + 2) g0
    → IsRgn (int_min + 2) g1
    → ((x y : ℕ) → contains g0 x y ≡ p x y)
    → ((x y : ℕ) → contains g1 x y ≡ q x y)
    → IsNarrow m g0
    → IsNarrow m g1
    → length g0 + length g1 ≤ n
    → n * (4 * m + 10) * 16 < u32_mod
    → Returns (Holds grant (λ x y. combine op (p x y) (q x y))) (rgn_op grant false op g0 g1)
rgn_op-Holds grant op m n g0 g1 p q h0 h1 e0 e1 w0 w1 few small =
    Returns-map
      (rgn_op-IsAnswer grant op m g0 g1 h0 h1 w0 w1
        (omega (arith, mul_mono (length g0 + length g1) n (4 * m + 10) few)))
      λ r a. Holds-IsAnswer grant op g0 g1 p q r e0 e1 a

module _ (grant : ℕ → Bool) (m : ℕ) (some_band : 1 ≤ m) where
  -- `ygeog_intersect2`, `ygeog_diff2` and `ygeog_union2` on a valid region and a rectangle that may be
  -- empty, and none of whose coordinates is a value that the code keeps for itself: NULL after a refused request, or a valid region of the common points, of the
  -- region's points outside the rectangle, or of the points of either, where `yrealloc` does not
  -- move the buffer, the rows have at most `m` x-bands and the sizes stay below 2 ^ 32 bytes.
  pub rgn_rect-Holds :
      (g : Rgn) (r : Rect)
      → IsRgn (int_min + 2) g
      → IsNarrow m g
      → IsInPlane r
      → (length g + 1) * (4 * m + 10) * 16 < u32_mod
      → Returns (Holds grant (λ x y. contains g x y && contain r x y)) (intersect2 grant false g r)
        × Returns
            (Holds grant (λ x y. contains g x y && not (contain r x y)))
            (diff2 grant false g r)
        × Returns (Holds grant (λ x y. contains g x y || contain r x y)) (union2 grant false g r)
  unfolding intersect2 diff2 union2 intersect diff union
  rgn_rect-Holds g r h w k small =
      let (narrow, few) = mutate-IsNarrow r m some_band in
      let run : (op : OpType) → _ = λ op.
        rgn_op-Holds grant op m (length g + 1) g (mutate_rect_to_rgnbands r) (contains g)
          (contain r) h (mutate-IsRgn r k) (λ x y. refl) (contains-mutate r) w narrow (omega arith)
          small in
      (run OpType.intersect, run OpType.diff, run OpType.union)

  -- `ygeog_diff3` and `ygeog_union3` on two rectangles, and `ygeog_intersect2` on the region of a
  -- rectangle: NULL after a refused request, or a valid region of the points of the first outside the
  -- second, of either, or of the rectangle that `ygeor_intersect` yields for the two. The sides of
  -- the rectangles are in order, none of their coordinates is a value that the code keeps for itself,
  -- `yrealloc` does not move the buffer, and the rows may have `m` x-bands, with the sizes below 2 ^ 32 bytes.
  pub rect_rect-Holds :
      (or r0 r1 : Rect)
      → IsInPlane r0
      → IsInPlane r1
      → IsOrdered or
      → IsOrdered r0
      → IsOrdered r1
      → (4 * m + 10) * 32 < u32_mod
      → Returns
          (Holds grant (λ x y. contain r0 x y && not (contain r1 x y)))
          (diff3 grant false r0 r1)
        × Returns (Holds grant (λ x y. contain r0 x y || contain r1 x y)) (union3 grant false r0 r1)
        × Returns
            (Holds grant (contain (Rect.intersect or r0 r1)))
            (intersect2 grant false (mutate_rect_to_rgnbands r0) r1)
  unfolding diff3 union3 intersect2 diff2 union2 intersect diff union
  rect_rect-Holds or r0 r1 k0 k1 o h0 h1 small =
      let (narrow0, few0) = mutate-IsNarrow r0 m some_band in
      let (narrow1, few1) = mutate-IsNarrow r1 m some_band in
      let run : (op : OpType) → _ = λ op.
        rgn_op-Holds grant op m 2 (mutate_rect_to_rgnbands r0) (mutate_rect_to_rgnbands r1)
          (contain r0) (contain r1) (mutate-IsRgn r0 k0) (mutate-IsRgn r1 k1) (contains-mutate r0)
          (contains-mutate r1) narrow0 narrow1 (omega arith) (omega arith) in
      (
        run OpType.diff,
        run OpType.union,
        Returns-map (run OpType.intersect)
            λ a. Holds-eq grant _ _ a λ x y. sym ((intersect-IsCommon or r0 r1 o h0 h1).1 x y),
      )
