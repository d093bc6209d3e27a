-- ===== src/Geo/Bands/Step.antt =====
-- src/geo/rgn.c: one `band_op`: what it writes, and where the bottom band lies.
use ylib.Base.{
  ℕ, ◌+◌, ◌≤◌, ◌<◌, ◌≡◌, refl, ◌⊎◌, inl, inr, Bool, true, false, ◌&&◌, ◌||◌, not, List, length,
  arith, ltb, ◌==◌, if◌then◌else◌, Bool-cases,
}
use ylib.Base.Run.{Run, done, Returns, returns, Returns-bind}
use ylib.Geo.Band.{Band, int_min, int_max, is_empty, has, analyze_layout}
use ylib.Geo.Bands.{
  OpType, prevb, band_add, layout_of, bottom_of, Bottom, band_op, keeps_alone, keeps_overlap,
}
use ylib.Geo.Bands.Sorted.{IsWritten, has_any, Added, band_add-Added}

-- what an operation makes of being in the first set and in the second
abbrev pub combine : OpType → Bool → Bool → Bool
combine OpType.intersect p q = p && q
combine OpType.diff p q = p && not q
combine OpType.union p q = p || q

-- `out'` is what `band_op` makes of `out`: up to the bottom band, the operation is carried out
pub record Operated (op : OpType) (out : List Band) (b0 b1 : Band) (r : List Band × Bottom)
    : Type 0 where
  pub written : IsWritten r.0
  pub last :
      ((prevb r.0).b ≤ (bottom_of b0 b1).rest.s) × ((prevb r.0).b ≤ b0.b) × ((prevb r.0).b ≤ b1.b)
  pub bottom : r.1 ≡ bottom_of b0 b1
  pub points :
      (x : ℕ)
      → has_any r.0 x
        ≡ (has_any out x || (ltb x (bottom_of b0 b1).rest.s && combine op (has b0 x) (has b1 x)))
  pub grows : length r.0 ≤ length out + 1

-- a part of a layout is written, or left out
record Kept (out : List Band) (k : Band) (keep : Bool) (out' : List Band) : Type 0 where
  pub written : IsWritten out'
  pub last :
      (prevb out').b ≡ (if is_empty k then (prevb out).b else if keep then k.b else (prevb out).b)
  pub points : (x : ℕ) → has_any out' x ≡ (has_any out x || (keep && has k x))
  pub grows :
      length out'
      ≤ length out + (if keep && not (is_empty k) && not ((prevb out).b == k.s) then 1 else 0)

module _ (out : List Band) (k : Band) (w : IsWritten out) where
  Kept-skip : Kept out k false out
  Kept-skip = record {
    written = w;
    last = ground arith;
    points = λ x. ground arith;
    grows = omega arith;
  }

  Kept-add : {r : Run (List Band)} → Returns (Added out k) r → Returns (Kept out k true) r
  Kept-add (returns a) = returns (record {
    written = a.written;
    last = ground arith;
    points = λ x. ground (arith, a.points x);
    grows = a.grows;
  })

  -- an empty part is never written
  Kept-if :
      (keep : Bool)
      → (is_empty k ≡ false → ((prevb out).b ≤ k.s) × (int_min + 1 < k.s) × (k.b < int_max))
      → Returns (Kept out k keep) (if keep then band_add out k else done out)
  unfolding band_add
  Kept-if false fits = returns Kept-skip
  Kept-if true fits = elim (Bool-cases (is_empty k)) [
    | inl e ↦ rw e (
        returns (record {
          written = w;
          last = ground arith;
          points = λ x. ground arith;
          grows = ground arith;
        }))
    | inr e ↦ let (above, low, high) = fits e in Kept-add (band_add-Added out k w above low high)
  ]

-- the layout of two bands that are not empty
pub record Laid (b0 b1 : Band) : Type 0 where
  pub starts : (layout_of b0 b1).small.s ≡ (if ltb b0.s b1.s then b0.s else b1.s)
  pub small_ends :
      ((layout_of b0 b1).small.b ≤ (layout_of b0 b1).big.s)
      × ((layout_of b0 b1).small.b ≤ b0.b)
      × ((layout_of b0 b1).small.b ≤ b1.b)
  pub over_after :
      is_empty (layout_of b0 b1).over ≡ false
      → ((layout_of b0 b1).small.b ≤ (layout_of b0 b1).over.s)
        × ((layout_of b0 b1).small.s ≤ (layout_of b0 b1).over.s)
  pub over_ends :
      is_empty (layout_of b0 b1).over ≡ false
      → ((layout_of b0 b1).over.b ≤ (layout_of b0 b1).big.s)
        × ((layout_of b0 b1).over.b ≤ b0.b)
        × ((layout_of b0 b1).over.b ≤ b1.b)
  pub joined :
      is_empty (layout_of b0 b1).over ≡ false
      → is_empty (layout_of b0 b1).small ≡ false
      → (layout_of b0 b1).small.b ≡ (layout_of b0 b1).over.s
  pub inner : (layout_of b0 b1).small.b ≤ (if ltb b0.s b1.s then b0.b else b1.b)
  pub big_after : (b0.s ≤ (layout_of b0 b1).big.s) × (b1.s ≤ (layout_of b0 b1).big.s)

-- of the two parts that a `band_op` writes, at most one takes a new place: the second touches the first
one_more :
    (l l' l'' p p' sb os : ℕ) (ka es ko eo ts : Bool)
    → l' ≤ l + (if ka && not es && not ts then 1 else 0)
    → l'' ≤ l' + (if ko && not eo && not (p' == os) then 1 else 0)
    → p' ≡ (if es then p else if ka then sb else p)
    → (eo ≡ false → es ≡ false → sb ≡ os)
    → l'' ≤ l + 1
one_more l l' l'' p p' sb os ka es ko eo ts g g' e j = ground arith

module _ (b0 b1 : Band) (n0 : b0.s < b0.b) (n1 : b1.s < b1.b) where
  pub layout-Laid : Laid b0 b1
  unfolding analyze_layout
  layout-Laid = ground arith

  layout_points :
      (op : OpType) (x : ℕ)
      → ((keeps_alone op (ltb b0.s b1.s) && has (layout_of b0 b1).small x)
          || (keeps_overlap op && has (layout_of b0 b1).over x))
        ≡ (ltb x (layout_of b0 b1).big.s && combine op (has b0 x) (has b1 x))
  unfolding analyze_layout
  layout_points OpType.intersect x = ground arith
  layout_points OpType.diff x = ground arith
  layout_points OpType.union x = ground arith

  pub big_below :
      (b0.b < int_max) ⊎ (b1.b < int_max)
      → b0.s < int_max
      → b1.s < int_max
      → b0.b ≤ int_max
      → b1.b ≤ int_max
      → (layout_of b0 b1).big.s < int_max
  unfolding analyze_layout
  big_below (inl h) p q r t = ground arith
  big_below (inr h) p q r t = ground arith

  pub band_op-Operated :
      (op : OpType) (out : List Band)
      → IsWritten out
      → (prevb out).b ≤ b0.s
      → (prevb out).b ≤ b1.s
      → int_min + 1 < b0.s
      → int_min + 1 < b1.s
      → (layout_of b0 b1).big.s < int_max
      → Returns (Operated op out b0 b1) (band_op op out b0 b1)
  unfolding band_op
  band_op-Operated op out w f0 f1 l0 l1 high =
      let v = layout-Laid in
      Returns-bind
        (Kept-if out (layout_of b0 b1).small w (keeps_alone op (ltb b0.s b1.s))
          (λ e. ground (arith, v)))
        λ out' k.
          Returns-bind
            (Kept-if out' (layout_of b0 b1).over k.written (keeps_overlap op)
              (λ e. ground (arith, v, v.over_after e, v.over_ends e)))
            λ out'' k'. returns (record {
              written = k'.written;
              last = ground (arith, v);
              bottom = refl;
              points = λ x. ground (arith, k.points x, k'.points x, layout_points op x);
              grows = one_more _ _ _ _ _ _ _ _ _ _ _ _ k.grows k'.grows k.last v.joined;
            })

  -- where the bottom band starts and ends, and which operand it belongs to
  pub bottom_first :
      is_empty (bottom_of b0 b1).rest ≡ false
      → (bottom_of b0 b1).from_first ≡ true
      → (bottom_of b0 b1).rest.b ≡ b0.b
  unfolding analyze_layout
  bottom_first e f = ground arith

  pub bottom_second :
      is_empty (bottom_of b0 b1).rest ≡ false
      → (bottom_of b0 b1).from_first ≡ false
      → (bottom_of b0 b1).rest.b ≡ b1.b
  unfolding analyze_layout
  bottom_second e f = ground arith

  -- What is carried out and what is left make up the whole, where `t0` and `t1` tell whether the
  -- coordinate is in the bands behind `b0` and behind `b1`.
  module _ (x : ℕ) (t0 t1 : Bool) (a0 : x ≤ b0.b → t0 ≡ false) (a1 : x ≤ b1.b → t1 ≡ false) where
    pub points_empty :
        (op : OpType)
        → is_empty (bottom_of b0 b1).rest ≡ true
        → ((ltb x (bottom_of b0 b1).rest.s && combine op (has b0 x) (has b1 x)) || combine op t0 t1)
          ≡ combine op (has b0 x || t0) (has b1 x || t1)
    unfolding analyze_layout
    points_empty OpType.intersect e = ground arith
    points_empty OpType.diff e = ground arith
    points_empty OpType.union e = ground arith

    pub points_first :
        (op : OpType)
        → is_empty (bottom_of b0 b1).rest ≡ false
        → (bottom_of b0 b1).from_first ≡ true
        → ((ltb x (bottom_of b0 b1).rest.s && combine op (has b0 x) (has b1 x))
            || combine op (has (bottom_of b0 b1).rest x || t0) t1)
          ≡ combine op (has b0 x || t0) (has b1 x || t1)
    unfolding analyze_layout
    points_first OpType.intersect e f = ground arith
    points_first OpType.diff e f = ground arith
    points_first OpType.union e f = ground arith

    pub points_second :
        (op : OpType)
        → is_empty (bottom_of b0 b1).rest ≡ false
        → (bottom_of b0 b1).from_first ≡ false
        → ((ltb x (bottom_of b0 b1).rest.s && combine op (has b0 x) (has b1 x))
            || combine op t0 (has (bottom_of b0 b1).rest x || t1))
          ≡ combine op (has b0 x || t0) (has b1 x || t1)
    unfolding analyze_layout
    points_second OpType.intersect e f = ground arith
    points_second OpType.diff e f = ground arith
    points_second OpType.union e f = ground arith
