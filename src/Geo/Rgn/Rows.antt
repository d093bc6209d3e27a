-- ===== src/Geo/Rgn/Rows.antt =====
-- src/geo/rgn.c: what `rband_op` has carried out and what its operands still hold make up the whole.
use ylib.Base.{ℕ, ◌<◌, ◌≡◌, Bool, true, false, ◌&&◌, ◌||◌, arith, ltb}
use ylib.Geo.Band.{Band, int_max, is_empty, has, analyze_layout}
use ylib.Geo.Bands.{OpType, bottom_of, band_max_invalid}
use ylib.Geo.Bands.Step.{combine}

-- `p0` and `p1` tell whether the rows at `b0` and `b1` hold the first coordinate, `t0` and `t1`
-- whether the point is in the rect bands behind them.
module _ (b0 b1 : Band) (n0 : b0.s < b0.b) (n1 : b1.s < b1.b) (y : ℕ) (p0 p1 t0 t1 : Bool)
    (a0 : y < b0.b → t0 ≡ false) (a1 : y < b1.b → t1 ≡ false) where
  pub rows_empty :
      (op : OpType)
      → is_empty (bottom_of b0 b1).rest ≡ true
      → ((ltb y (bottom_of b0 b1).rest.s && combine op (has b0 y && p0) (has b1 y && p1))
          || combine op t0 t1)
        ≡ combine op ((has b0 y && p0) || t0) ((has b1 y && p1) || t1)
  unfolding analyze_layout
  rows_empty OpType.intersect e = ground arith
  rows_empty OpType.diff e = ground arith
  rows_empty OpType.union e = ground arith

  pub rows_first :
      (op : OpType)
      → is_empty (bottom_of b0 b1).rest ≡ false
      → (bottom_of b0 b1).from_first ≡ true
      → ((ltb y (bottom_of b0 b1).rest.s && combine op (has b0 y && p0) (has b1 y && p1))
          || combine op ((has (bottom_of b0 b1).rest y && p0) || t0) t1)
        ≡ combine op ((has b0 y && p0) || t0) ((has b1 y && p1) || t1)
  unfolding analyze_layout
  rows_first OpType.intersect e f = ground arith
  rows_first OpType.diff e f = ground arith
  rows_first OpType.union e f = ground arith

  pub rows_second :
      (op : OpType)
      → is_empty (bottom_of b0 b1).rest ≡ false
      → (bottom_of b0 b1).from_first ≡ false
      → ((ltb y (bottom_of b0 b1).rest.s && combine op (has b0 y && p0) (has b1 y && p1))
          || combine op t0 ((has (bottom_of b0 b1).rest y && p1) || t1))
        ≡ combine op ((has b0 y && p0) || t0) ((has b1 y && p1) || t1)
  unfolding analyze_layout
  rows_second OpType.intersect e f = ground arith
  rows_second OpType.diff e f = ground arith
  rows_second OpType.union e f = ground arith

-- the same where one region is exhausted
module _ (b : Band) (n : b.s < b.b) (h : b.b < int_max) (y : ℕ) (p t m : Bool)
    (a : y < b.b → t ≡ false) where
  pub rows_max_first :
      (op : OpType)
      → ((ltb y (bottom_of band_max_invalid b).rest.s
            && combine op (has band_max_invalid y && m) (has b y && p))
          || combine op false t)
        ≡ combine op false ((has b y && p) || t)
  unfolding analyze_layout
  rows_max_first OpType.intersect = ground arith
  rows_max_first OpType.diff = ground arith
  rows_max_first OpType.union = ground arith

  pub rows_max_second :
      (op : OpType)
      → ((ltb y (bottom_of b band_max_invalid).rest.s
            && combine op (has b y && p) (has band_max_invalid y && m))
          || combine op t false)
        ≡ combine op ((has b y && p) || t) false
  unfolding analyze_layout
  rows_max_second OpType.intersect = ground arith
  rows_max_second OpType.diff = ground arith
  rows_max_second OpType.union = ground arith
