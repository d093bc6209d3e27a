-- ===== src/Geo/Bands.antt =====
-- src/geo/rgn.c, the section "Band" and the x-band loop of `rband_op_overlap`: union, intersection
-- and difference of two sorted arrays of bands, each ended by an empty band.
-- An array is the list of its bands before the sentinel. What has been written is a list too, the
-- newest band first: `prevb` points at its head, or at the constant `band_min_invalid` while
-- nothing is written. A pointer to the reused bottom of a band is that bottom's value.
pub mod Sorted
pub mod Step
pub mod Round
pub mod Max
pub mod Loop
mod Tests
use ylib.Base.{
  ℕ, zero, suc, ◌+◌, ◌-◌, ◌*◌, ◌≤◌, ◌<◌, Bool, true, false, ◌&&◌, ◌||◌, List, length, [], ◌∷◌, ltb,
  leb, ◌==◌, if◌then◌else◌,
}
use ylib.Base.Run.{Run, done, fault, out_of_fuel, ◌>>=◌}
use ylib.Geo.Band.{
  Band, band, BandPos, Layout, int_min, int_max, analyze_layout, is_empty, set_empty,
}

-- `enum optype`
pub data OpType : Type 0 where
  intersect diff union : OpType

abbrev pub band_min_invalid : Band
band_min_invalid = band int_min (int_min + 1)

abbrev pub band_max_invalid : Band
band_max_invalid = band (int_max - 1) int_max

-- the first band of an array, or its sentinel
abbrev pub first : List Band → Band
first [] = set_empty
first (k ∷ _) = k

abbrev pub prevb : List Band → Band
prevb [] = band_min_invalid
prevb (k ∷ _) = k

abbrev pub band_can_merge : Band → Band → Bool
band_can_merge bs bb = bs.b == bb.s

-- `prevb->b = b->b`, a fault if `prevb` points at the constant
abbrev pub merge : List Band → Band → Run (List Band)
merge [] k = fault
merge (p ∷ out) k = done (record p { b = k.b } ∷ out)

unfoldable pub band_add : List Band → Band → Run (List Band)
band_add out k =
    if is_empty k
    then done out
    else if band_can_merge (prevb out) k
    then merge out k
    else done (k ∷ out)

abbrev pub keeps_alone : OpType → Bool → Bool
keeps_alone OpType.union lho = true
keeps_alone OpType.diff lho = lho
keeps_alone OpType.intersect lho = false

pub band_op_no_overlap : OpType → Bool → List Band → Band → Run (List Band)
unfolding band_add
band_op_no_overlap op lho out k = if keeps_alone op lho then band_add out k else done out

abbrev pub keeps_overlap : OpType → Bool
keeps_overlap OpType.diff = false
keeps_overlap _ = true

pub band_op_overlap : OpType → List Band → Band → Run (List Band)
unfolding band_add
band_op_overlap op out k = if keeps_overlap op then band_add out k else done out

-- `*botb0`: does the bottom come from the first operand?
abbrev pub bottom_from_first : Bool → BandPos → Bool
bottom_from_first true BandPos.subset = true
bottom_from_first true _ = false
bottom_from_first false BandPos.subset = false
bottom_from_first false _ = true

-- `botb0` and `*pobb`
pub record Bottom : Type 0 where
  pub from_first : Bool
  pub rest : Band

abbrev pub layout_of : Band → Band → Layout
layout_of b0 b1 = if ltb b0.s b1.s then analyze_layout b0 b1 else analyze_layout b1 b0

abbrev pub bottom_of : Band → Band → Bottom
bottom_of b0 b1 = record {
  from_first = bottom_from_first (ltb b0.s b1.s) (layout_of b0 b1).pos;
  rest = (layout_of b0 b1).big;
}

pub band_op : OpType → List Band → Band → Band → Run (List Band × Bottom)
unfolding band_op_no_overlap band_op_overlap
band_op op out b0 b1 =
    let l = layout_of b0 b1 in
    band_op_no_overlap op (ltb b0.s b1.s) out l.small >>= λ out'.
    band_op_overlap op out' l.over >>= λ out''. done (out'', bottom_of b0 b1)

-- `pb` and `pcxb`: the band to use next, and the array from the current band on
pub record Cursor : Type 0 where
  pub pb : Band
  pub pc : List Band

abbrev pub start : List Band → Cursor
start xs = record { pb = first xs; pc = xs }

-- `pb = ++pcxb`, a fault past the sentinel
abbrev pub next : List Band → Run Cursor
next [] = fault
next (_ ∷ xs) = done (start xs)

abbrev pub reuse : Cursor → Band → Cursor
reuse c k = record c { pb = k }

-- an exhausted side stands as a band behind all others
abbrev pub or_max : Band → Band
or_max k = if is_empty k then band_max_invalid else k

abbrev pub ended : List Band → Bool
ended [] = true
ended (_ ∷ _) = false

-- how both cursors move after a `band_op`
pub advance : Bottom → Cursor → Cursor → Run (Cursor × Cursor)
advance bot c0 c1 =
    if is_empty bot.rest
    then (next c0.pc >>= λ d0. next c1.pc >>= λ d1. done (d0, d1))
    else if bot.from_first
    then (next c1.pc >>= λ d1. done (reuse c0 bot.rest, d1))
    else (next c0.pc >>= λ d0. done (d0, reuse c1 bot.rest))

-- the `while` loop of `rband_op_overlap`
pub x_loop : OpType → ℕ → List Band → Cursor → Cursor → Run (List Band)
x_loop op zero out c0 c1 = out_of_fuel
x_loop op (suc fuel) out c0 c1 =
    let step : Run (List Band) = band_op op out (or_max c0.pb) (or_max c1.pb) >>= λ (out', bot).
    advance bot (record c0 { pb = or_max c0.pb }) (record c1 { pb = or_max c1.pb }) >>= λ (d0, d1).
    x_loop op fuel out' d0 d1 in
    if ended c0.pc && ended c1.pc then done out else step

-- the x-bands that the loop writes, newest first
unfoldable pub x_op : OpType → List Band → List Band → Run (List Band)
unfolding x_loop band_op advance
x_op op xs0 xs1 = x_loop op (length xs0 + length xs1 + 1) [] (start xs0) (start xs1)
