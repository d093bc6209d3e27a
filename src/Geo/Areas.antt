-- ===== src/Geo/Areas.antt =====
-- src/geo/rgn.c, the section "Region - interfaces": the operations that src/geo/yrgn.h declares.
-- A region is the list of its rect bands, as in Geo/Rgn.antt; where the code counts and copies
-- bands, it is the array in memory, with what follows it.
pub mod Copy
pub mod Rects
mod Tests
use ylib.Base.{
  ℕ, zero, suc, ◌+◌, ◌*◌, ◌%◌, Bool, Option, none, some, List, [], ◌∷◌, take, drop, u32_mod,
  if◌then◌else◌,
}
use ylib.Base.Run.{Run, done, fault, out_of_fuel, ◌>>=◌}
use ylib.Geo.Band.{Band, is_empty, set_empty}
use ylib.Geo.Bands.{OpType}
use ylib.Geo.Rect
use ylib.Geo.Rect.{Rect}
use ylib.Geo.Rgn.{Rgn, rect_band, rgn_op}

-- the scan of `rband_bsz`, `while (!ygeob_is_empty(p++))`: the bands that it steps over
unfoldable pub rband_scan : List Band → Run ℕ
rband_scan [] = fault
rband_scan (k ∷ bs) = if is_empty k then done 1 else (rband_scan bs >>= λ n. done (suc n))

-- the nested loops of `rgn_bsz`, with the sentinel of the region counted
pub rgn_bsz_loop : ℕ → List Band → Run ℕ
unfolding rband_scan
rgn_bsz_loop zero bs = out_of_fuel
rgn_bsz_loop (suc fuel) [] = fault
rgn_bsz_loop (suc fuel) (k ∷ bs) =
    if is_empty k
    then done 1
    else (rband_scan (k ∷ bs) >>= λ n. rgn_bsz_loop fuel (drop n (k ∷ bs)) >>= λ m. done (n + m))

-- the region at the head of the memory `bs`, copied
pub clone : (ℕ → Bool) → ℕ → List Band → Run (Option (List Band))
unfolding rgn_bsz_loop
clone grant fuel bs =
    rgn_bsz_loop fuel bs >>= λ n. done (if grant (n * 8 % u32_mod) then some (take n bs) else none)

pub create_empty : (ℕ → Bool) → Option Rgn
create_empty grant = if grant 8 then some [] else none

-- `rgn_is_empty`
abbrev pub is_empty_rgn : Rgn → Bool
is_empty_rgn [] = Bool.true
is_empty_rgn (_ ∷ _) = Bool.false

pub mutate_rect_to_rgnbands : Rect → Rgn
mutate_rect_to_rgnbands r = if Rect.is_empty r then [] else rect_band r.yb (r.xb ∷ []) ∷ []

module _ (grant : ℕ → Bool) (moves : Bool) where
  pub intersect : Rgn → Rgn → Run (Option Rgn)
  intersect g0 g1 = rgn_op grant moves OpType.intersect g0 g1

  pub diff : Rgn → Rgn → Run (Option Rgn)
  diff g0 g1 = rgn_op grant moves OpType.diff g0 g1

  pub union : Rgn → Rgn → Run (Option Rgn)
  union g0 g1 = rgn_op grant moves OpType.union g0 g1

  pub intersect2 : Rgn → Rect → Run (Option Rgn)
  intersect2 g r = intersect g (mutate_rect_to_rgnbands r)

  pub diff2 : Rgn → Rect → Run (Option Rgn)
  diff2 g r = diff g (mutate_rect_to_rgnbands r)

  pub union2 : Rgn → Rect → Run (Option Rgn)
  union2 g r = union g (mutate_rect_to_rgnbands r)

  pub diff3 : Rect → Rect → Run (Option Rgn)
  diff3 r0 r1 = diff2 (mutate_rect_to_rgnbands r0) r1

  pub union3 : Rect → Rect → Run (Option Rgn)
  union3 r0 r1 = union2 (mutate_rect_to_rgnbands r0) r1
