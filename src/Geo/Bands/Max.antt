-- ===== src/Geo/Bands/Max.antt =====
-- src/geo/rgn.c: the band that stands for an exhausted side.
use ylib.Base.{ℕ, ◌≤◌, ◌<◌, ◌≡◌, Bool, true, false, ◌&&◌, ◌||◌, arith, ltb}
use ylib.Geo.Band.{Band, int_max, has, analyze_layout}
use ylib.Geo.Bands.{OpType, bottom_of, band_max_invalid}
use ylib.Geo.Bands.Step.{combine}

pub combine-nothing : (op : OpType) (p : Bool) → p ≡ (p || combine op false false)
combine-nothing OpType.intersect p = ground arith
combine-nothing OpType.diff p = ground arith
combine-nothing OpType.union p = ground arith

-- The band that stands for an exhausted side lies behind every other: it is the bottom.
module _ (b : Band) (n : b.s < b.b) (h : b.b < int_max) where
  pub bottom_of_max_first :
      bottom_of band_max_invalid b ≡ record { from_first = true; rest = band_max_invalid }
  unfolding analyze_layout
  bottom_of_max_first = ground arith

  pub bottom_of_max_second :
      bottom_of b band_max_invalid ≡ record { from_first = false; rest = band_max_invalid }
  unfolding analyze_layout
  bottom_of_max_second = ground arith

  pub points_max_first :
      (op : OpType) (x : ℕ) (t : Bool)
      → ((ltb x (bottom_of band_max_invalid b).rest.s
            && combine op (has band_max_invalid x) (has b x))
          || combine op false t)
        ≡ combine op false (has b x || t)
  unfolding analyze_layout
  points_max_first OpType.intersect x t = ground arith
  points_max_first OpType.diff x t = ground arith
  points_max_first OpType.union x t = ground arith

  pub points_max_second :
      (op : OpType) (x : ℕ) (t : Bool)
      → (x ≤ b.b → t ≡ false)
      → ((ltb x (bottom_of b band_max_invalid).rest.s
            && combine op (has b x) (has band_max_invalid x))
          || combine op t false)
        ≡ combine op (has b x || t) false
  unfolding analyze_layout
  points_max_second OpType.intersect x t a = ground arith
  points_max_second OpType.diff x t a = ground arith
  points_max_second OpType.union x t a = ground arith
