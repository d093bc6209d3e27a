-- ===== src/Geo/Rect/Laws.antt =====
-- src/geo/rect.c: the points of an intersection and of a rectangle between two corners.
use ylib.Base.{ℕ, ◌≤◌, ◌≡◌, Bool, true, false, ◌&&◌, ◌||◌, refl, arith, ltb, leb, if◌then◌else◌}
use ylib.Geo.Band.{Band, band, has}
use ylib.Geo.Rect.{Rect, x_apart, y_apart, cmpst, set, set3, intersect, contain, set_empty, set2}

-- what `ygeor_set` asserts
abbrev pub IsOrdered : Rect → Type 0
IsOrdered r = (r.xb.s ≤ r.xb.b) × (r.yb.s ≤ r.yb.b)

-- one axis of `ygeor_intersect`
abbrev apart : Band → Band → Bool
apart k l =
    (if ltb k.s l.s then leb k.b l.s else leb l.b k.s)
    || (if ltb k.b l.b then leb k.b l.s else leb l.b k.s)

abbrev common : Band → Band → Band
common k l = band (if ltb k.s l.s then l.s else k.s) (if ltb k.b l.b then k.b else l.b)

apart-has : (k l : Band) (x : ℕ) → apart k l ≡ true → (has k x && has l x) ≡ false
apart-has k l x e = ground arith

common-has : (k l : Band) (x : ℕ) → has (common k l) x ≡ (has k x && has l x)
common-has k l x = ground arith

common-ordered :
    (k l : Band) → k.s ≤ k.b → l.s ≤ l.b → apart k l ≡ false → (common k l).s ≤ (common k l).b
common-ordered k l h0 h1 e = ground arith

x_apart-apart :
    (r0 r1 : Rect)
    → (x_apart (λ r. r.xb.s) r0 r1 || x_apart (λ r. r.xb.b) r0 r1) ≡ apart r0.xb r1.xb
unfolding x_apart
x_apart-apart r0 r1 = ground arith

y_apart-apart :
    (r0 r1 : Rect)
    → (y_apart (λ r. r.yb.s) r0 r1 || y_apart (λ r. r.yb.b) r0 r1) ≡ apart r0.yb r1.yb
unfolding y_apart
y_apart-apart r0 r1 = ground arith

cmpst-common :
    (r0 r1 : Rect)
    → set
        (cmpst (λ r. r.xb.s) r0 r1).1.xb.s
        (cmpst (λ r. r.yb.s) r0 r1).1.yb.s
        (cmpst (λ r. r.xb.b) r0 r1).0.xb.b
        (cmpst (λ r. r.yb.b) r0 r1).0.yb.b
      ≡ set2 (common r0.xb r1.xb) (common r0.yb r1.yb)
cmpst-common r0 r1 = ground arith

intersect-common :
    (or r0 r1 : Rect)
    → intersect or r0 r1 ≡ (
        if apart r0.xb r1.xb || apart r0.yb r1.yb
        then set_empty or
        else set2 (common r0.xb r1.xb) (common r0.yb r1.yb))
unfolding intersect
intersect-common or r0 r1 = rw (x_apart-apart r0 r1, y_apart-apart r0 r1, cmpst-common r0 r1) refl

and-swap : (a b c d : Bool) → ((a && b) && (c && d)) ≡ ((a && c) && (b && d))
and-swap a b c d = ground arith

contain-has : (r : Rect) (x y : ℕ) → contain r x y ≡ (has r.xb x && has r.yb y)
unfolding contain
contain-has r x y = ground arith

-- an ordered rectangle that holds the points that both hold
abbrev pub IsCommon : Rect → Rect → Rect → Type 0
IsCommon r0 r1 r = IsOrdered r × ((x y : ℕ) → contain r x y ≡ (contain r0 x y && contain r1 x y))

apart-IsCommon :
    (or r0 r1 : Rect) (a b : Bool)
    → IsOrdered or
    → IsOrdered r0
    → IsOrdered r1
    → apart r0.xb r1.xb ≡ a
    → apart r0.yb r1.yb ≡ b
    → IsCommon r0 r1
        (if a || b then set_empty or else set2 (common r0.xb r1.xb) (common r0.yb r1.yb))
apart-IsCommon or r0 r1 true b o h0 h1 e f = (
  (omega arith, o.1),
  λ x y.
      rw (contain-has (set_empty or) x y, contain-has r0 x y, contain-has r1 x y)
        (ground (arith, apart-has r0.xb r1.xb x e)),
)
apart-IsCommon or r0 r1 false true o h0 h1 e f = (
  (omega arith, o.1),
  λ x y.
      rw (contain-has (set_empty or) x y, contain-has r0 x y, contain-has r1 x y)
        (ground (arith, apart-has r0.yb r1.yb y f)),
)
apart-IsCommon or r0 r1 false false o h0 h1 e f = (
  (common-ordered r0.xb r1.xb h0.0 h1.0 e, common-ordered r0.yb r1.yb h0.1 h1.1 f),
  λ x y.
      rw
        (
          contain-has (set2 (common r0.xb r1.xb) (common r0.yb r1.yb)) x y,
          contain-has r0 x y,
          contain-has r1 x y,
          common-has r0.xb r1.xb x,
          common-has r0.yb r1.yb y,
        )
        (and-swap (has r0.xb x) _ _ _),
)

-- `ygeor_intersect` yields a rectangle that holds exactly the points that both hold, whatever its
-- output held before, and that satisfies the assertion of `ygeor_set`, if all three do.
pub intersect-IsCommon :
    (or r0 r1 : Rect)
    → IsOrdered or
    → IsOrdered r0
    → IsOrdered r1
    → IsCommon r0 r1 (intersect or r0 r1)
intersect-IsCommon or r0 r1 o h0 h1 =
    rw (intersect-common or r0 r1) (apart-IsCommon or r0 r1 _ _ o h0 h1 refl refl)

-- `ygeor_set3` takes the corners in any order, and satisfies the assertion of `ygeor_set`.
pub set3-IsOrdered :
    (x0 x1 y0 y1 : ℕ) → IsOrdered (set3 x0 x1 y0 y1) × (set3 x0 x1 y0 y1 ≡ set3 x1 x0 y1 y0)
unfolding set3
set3-IsOrdered x0 x1 y0 y1 = (ground arith, ground arith)
