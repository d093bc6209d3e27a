-- ===== src/Geo/Areas/Copy.antt =====
-- src/geo/rgn.c: the size in memory of a region and its copy.
use ylib.Base.{
  ℕ, zero, suc, ◌+◌, ◌*◌, ◌%◌, ◌<◌, ◌≡◌, refl, ap, ◌∙◌, Bool, false, none, some, List, length,
  length-append, [], ◌∷◌, ◌++◌, drop, take-append, arith, u32_mod, leb, if◌then◌else◌,
}
use mathlib.Core.List.{append_assoc}
use ylib.Base.Run.{done, ◌>>=◌}
use ylib.Geo.Band.{Band, int_min, set_empty}
use ylib.Geo.Bands.Sorted.{IsSorted}
use ylib.Geo.Rgn.{Rgn, RectBand, rect_band, rband_bands, to_bands}
use ylib.Geo.Rgn.Valid.{IsRow, IsRgn}
use ylib.Geo.Areas.{rband_scan, rgn_bsz_loop, clone}

rband_scan-row :
    (lo : ℕ) (xs rest : List Band)
    → IsSorted lo xs
    → rband_scan (xs ++ (set_empty ∷ rest)) ≡ done (suc (length xs))
unfolding rband_scan
rband_scan-row lo [] rest h = refl
rband_scan-row lo (k ∷ xs) rest h = ground (arith, rband_scan-row k.b xs rest h.3)

drop-row : (xs rest : List Band) → drop (suc (length xs)) (xs ++ (set_empty ∷ rest)) ≡ rest
drop-row [] rest = refl
drop-row (k ∷ xs) rest = drop-row xs rest

-- a region in memory, with what follows it, starts with its first rect band
to_bands-rest :
    (yb : Band) (xs : List Band) (g : Rgn) (rest : List Band)
    → to_bands (rect_band yb xs ∷ g) ++ rest ≡ (yb ∷ (xs ++ (set_empty ∷ (to_bands g ++ rest))))
unfolding to_bands rband_bands
to_bands-rest yb xs g rest =
    ap (λ bs. yb ∷ bs)
      (append_assoc (xs ++ (set_empty ∷ [])) (to_bands g) rest
        ∙ append_assoc xs (set_empty ∷ []) (to_bands g ++ rest))

length-to_bands :
    (r : RectBand) (g : Rgn)
    → length (to_bands (r ∷ g)) ≡ suc (suc (length r.xbs)) + length (to_bands g)
unfolding to_bands rband_bands
length-to_bands r g = omega (
  arith,
  length-append (r.xbs ++ (set_empty ∷ [])) (to_bands g),
  length-append r.xbs (set_empty ∷ []),
)

-- one round of the outer loop
rgn_bsz_loop-row :
    (fuel : ℕ) (yb : Band) (xs bs : List Band)
    → yb.s < yb.b
    → IsRow xs
    → rgn_bsz_loop (suc fuel) (yb ∷ (xs ++ (set_empty ∷ bs)))
      ≡ (rgn_bsz_loop fuel bs >>= λ m. done (suc (suc (length xs)) + m))
unfolding rgn_bsz_loop rband_scan
rgn_bsz_loop-row fuel yb xs bs h k =
    let apart : leb yb.b yb.s ≡ false = ground arith in
    rw (apart, rband_scan-row (int_min + 1) xs bs k.1) (rw (drop-row xs bs) refl)

rgn_bsz_loop-to_bands :
    (fuel lo : ℕ) (g : Rgn) (rest : List Band)
    → IsRgn lo g
    → length g < fuel
    → rgn_bsz_loop fuel (to_bands g ++ rest) ≡ done (length (to_bands g))
unfolding rgn_bsz_loop to_bands
rgn_bsz_loop-to_bands zero lo g rest h k = absurd (omega arith)
rgn_bsz_loop-to_bands (suc fuel) lo [] rest h k = refl
rgn_bsz_loop-to_bands (suc fuel) lo (r ∷ g) rest h k =
    ap (λ bs. rgn_bsz_loop (suc fuel) bs) (to_bands-rest r.yb r.xbs g rest)
    ∙ rgn_bsz_loop-row fuel r.yb r.xbs (to_bands g ++ rest) h.1 h.3
    ∙ rw (rgn_bsz_loop-to_bands fuel r.yb.b g rest h.4 (omega arith), length-to_bands r g) refl

-- `ygeog_clone` of a valid region reads no band past its sentinel, whatever lies behind it, and
-- copies the array of the region whole, or returns NULL if `ymalloc` refuses its size in bytes.
pub clone-to_bands :
    (grant : ℕ → Bool) (lo : ℕ) (g : Rgn) (rest : List Band)
    → IsRgn lo g
    → clone grant (length g + 1) (to_bands g ++ rest)
      ≡ done (if grant (length (to_bands g) * 8 % u32_mod) then some (to_bands g) else none)
unfolding clone
clone-to_bands grant lo g rest h =
    rw
      (
        rgn_bsz_loop-to_bands (length g + 1) lo g rest h (omega arith),
        take-append (to_bands g) rest,
      )
      refl
