-- ===== src/Geo/Rgn/Tests.antt =====
-- src/geo/rgn.c: region operations at concrete regions.
use ylib.Base.{ℕ, ◌+◌, ◌≡◌, refl, [], ◌∷◌, true, false, some, arith, Bool}
use ylib.Base.Run.{done, Returns}
use ylib.Dynb
use ylib.Dynb.{Dynb}
use ylib.Geo.Band.{band, analyze_layout, int_min}
use ylib.Geo.Bands.{OpType, x_op}
use ylib.Geo.Rgn.{Rgn, rect_band, rgn_op, max_required_outbands, rband_bsz}
use ylib.Geo.Rgn.Valid.{IsRgn}
use ylib.Geo.Rgn.Loop.{IsNarrow}
use ylib.Geo.Rgn.Result.{IsAnswer, rgn_op-IsAnswer}

abbrev square : ℕ → ℕ → Rgn
square a b = rect_band (band a b) (band a b ∷ []) ∷ []

abbrev granted : ℕ → Bool
granted n = true

rgn_op_runs :
    (rgn_op granted false OpType.union (square 10 20) (square 15 30)
      ≡ done (
          some (
            rect_band (band 10 15) (band 10 20 ∷ [])
            ∷ rect_band (band 15 20) (band 10 30 ∷ [])
            ∷ rect_band (band 20 30) (band 15 30 ∷ [])
            ∷ [])))
    × (rgn_op granted false OpType.intersect (square 10 20) (square 15 30)
        ≡ done (some (square 15 20)))
    × (rgn_op granted false OpType.diff (square 10 20) (square 5 30) ≡ done (some []))
unfolding rgn_op x_op analyze_layout Dynb.expand2 Dynb.create Dynb.freesz Dynb.incsz Dynb.expand
    max_required_outbands rband_bsz
rgn_op_runs = (refl, refl, refl)

square-IsRgn : IsRgn (int_min + 2) (square 10 20) × IsRgn (int_min + 2) (square 15 30)
square-IsRgn = ground arith

square-IsNarrow : IsNarrow 1 (square 10 20) × IsNarrow 1 (square 15 30)
square-IsNarrow = ground arith

rgn_op-IsAnswer_example :
    Returns
      (IsAnswer granted OpType.union (square 10 20) (square 15 30))
      (rgn_op granted false OpType.union (square 10 20) (square 15 30))
rgn_op-IsAnswer_example =
    rgn_op-IsAnswer granted OpType.union 1 (square 10 20) (square 15 30) square-IsRgn.0
      square-IsRgn.1 square-IsNarrow.0 square-IsNarrow.1 (omega arith)
