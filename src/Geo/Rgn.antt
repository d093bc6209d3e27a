-- ===== src/Geo/Rgn.antt =====
-- src/geo/rgn.c, the sections "Rect Band", "Region" and "Region - interfaces": union, intersection
-- and difference of regions. A region is an array of bands: each y-band is followed by its x-bands
-- and an empty band, and an empty band ends the region. It is the list of its rect bands here, and
-- `to_bands` is the array. What `rgn_op` has written is such a list, the newest rect band first.
-- `prevrb` points at the newest one, or at the constant `rband_min_invalid`; it is not renewed when
-- the buffer moves.
pub mod Valid
pub mod Step
pub mod Rows
pub mod Loop
pub mod Rounds
pub mod Result
mod Tests
use mathlib.Core.List.{reverse}
use ylib.Base.{
  ℕ, zero, suc, ◌+◌, ◌-◌, ◌*◌, ◌/◌, max, Bool, true, false, ◌&&◌, ◌||◌, not, Option, none, some,
  List, length, [], ◌∷◌, ◌++◌, ltb, leb, ◌==◌, if◌then◌else◌, Status, ok, is_ok,
}
use ylib.Base.Run.{Run, done, fault, out_of_fuel, ◌>>=◌}
use ylib.Dynb.{Dynb}
use ylib.Dynb
use ylib.Geo.Band.{Band, BandPos, Layout, analyze_layout, is_empty, set_empty, eq}
use ylib.Geo.Bands.{
  OpType, keeps_alone, band_max_invalid, band_min_invalid, bottom_of, layout_of, x_op,
}

-- `struct rectband`
pub record RectBand : Type 0 where
  pub yb : Band
  pub xbs : List Band

abbrev pub rect_band : Band → List Band → RectBand
rect_band yb xbs = record { yb = yb; xbs = xbs }

abbrev pub Rgn : Type 0
Rgn = List RectBand

abbrev pub rband_min_invalid : RectBand
rband_min_invalid = rect_band band_min_invalid (band_min_invalid ∷ [])

-- the x-bands of `rband_max_invalid`
abbrev pub max_xbs : List Band
max_xbs = band_max_invalid ∷ []

-- the bands of a rect band, with its sentinel
unfoldable pub rband_bands : RectBand → List Band
rband_bands r = r.yb ∷ r.xbs ++ set_empty ∷ []

-- the array of bands that a region is
unfoldable pub to_bands : Rgn → List Band
unfolding rband_bands
to_bands [] = set_empty ∷ []
to_bands (r ∷ g) = rband_bands r ++ to_bands g

-- `rband_bsz` at the head of a region, or at its sentinel
pub rband_bsz : Rgn → ℕ
rband_bsz [] = 1
rband_bsz (r ∷ _) = length r.xbs + 2

pub max_required_outbands : ℕ → ℕ → ℕ
max_required_outbands rb0sz rb1sz = max rb0sz rb1sz * 2 + rb0sz + rb1sz + 1

-- What is written: the rect bands, whether the buffer has moved since the newest one was written,
-- and how many bands fit behind them.
pub record Out : Type 0 where
  pub rbs : Rgn
  pub moved : Bool
  pub room : ℕ

-- a read through `prevrb`
abbrev pub prevrb : Out → Run RectBand
prevrb o = elim o.rbs [ [] ↦ done rband_min_invalid | r ∷ _ ↦ if o.moved then fault else done r ]

-- `prevrb->yb.b = yb->b`
abbrev pub merge : Out → Band → Run Out
merge o yb = elim o.rbs [
  | [] ↦ fault
  | r ∷ rbs ↦ done (record o { rbs = rect_band (record (r.yb) { b = yb.b }) r.xbs ∷ rbs })
]

-- the comparison of the x-bands in `rband_can_merge`
pub same_xbs : List Band → List Band → Bool
same_xbs [] [] = true
same_xbs (k ∷ xs) (l ∷ ys) = eq k l && same_xbs xs ys
same_xbs _ _ = false

pub rband_can_merge : RectBand → Band → List Band → Bool
unfolding same_xbs
rband_can_merge r yb xbs = not (ltb r.yb.b yb.s) && same_xbs r.xbs xbs

-- a new rect band at the free end of the buffer, a fault where it does not fit
abbrev pub write_rband : Out → Band → List Band → Run Out
write_rband o yb xbs =
    if ltb o.room (length xbs + 2)
    then fault
    else done
        (record { rbs = rect_band yb xbs ∷ o.rbs; moved = false; room = o.room - (length xbs + 2) })

pub rband_add : Out → Band → List Band → Run Out
unfolding rband_can_merge
rband_add o yb xbs =
    if is_empty yb
    then done o
    else (prevrb o >>= λ p. if rband_can_merge p yb xbs then merge o yb else write_rband o yb xbs)

pub rband_op_no_overlap : OpType → Bool → Out → Band → List Band → Run Out
unfolding rband_add
rband_op_no_overlap op lho o yb xbs = if keeps_alone op lho then rband_add o yb xbs else done o

-- `rband_op_overlap` after the x-bands are written to the free end of the buffer
pub keep_overlap : Out → Band → List Band → Run Out
unfolding rband_can_merge
keep_overlap o yb [] = if ltb o.room 1 then fault else done o
keep_overlap o yb (k ∷ xbs) =
    if ltb o.room (length (k ∷ xbs) + 2)
    then fault
    else (prevrb o >>= λ p.
        if rband_can_merge p yb (k ∷ xbs) then merge o yb else write_rband o yb (k ∷ xbs))

pub rband_op_overlap : OpType → Out → Band → List Band → List Band → Run Out
unfolding keep_overlap x_op
rband_op_overlap op o yb xbs0 xbs1 =
    if is_empty yb then done o else (x_op op xbs0 xbs1 >>= λ xbs. keep_overlap o yb (reverse xbs))

pub rband_op : OpType → Out → Band → List Band → Band → List Band → Run Out
unfolding rband_op_no_overlap rband_op_overlap
rband_op op o yb0 xbs0 yb1 xbs1 =
    let l = layout_of yb0 yb1 in
    rband_op_no_overlap op (ltb yb0.s yb1.s) o l.small (if ltb yb0.s yb1.s then xbs0 else xbs1)
    >>= λ o'. rband_op_overlap op o' l.over xbs0 xbs1

-- `yb`, `xbs` and `rb` of one operand
pub record Cursor : Type 0 where
  pub yb : Band
  pub xbs : List Band
  pub rb : Rgn

-- the y-band and the x-bands at the head of a region, or at its sentinel
abbrev pub first_yb : Rgn → Band
first_yb [] = set_empty
first_yb (r ∷ _) = r.yb

abbrev pub first_xbs : Rgn → List Band
first_xbs [] = []
first_xbs (r ∷ _) = r.xbs

abbrev pub start : Rgn → Cursor
start g = record { yb = first_yb g; xbs = first_xbs g; rb = g }

-- `rb_empty_check`
abbrev pub or_max : Cursor → Cursor
or_max c = elim c.rb [ [] ↦ record c { yb = band_max_invalid; xbs = max_xbs } | _ ∷ _ ↦ c ]

-- `rb_move_to_next`, a fault past the sentinel
abbrev pub move_to_next : Rgn → Run Cursor
move_to_next [] = fault
move_to_next (_ ∷ g) = done (start g)

abbrev pub is_end : Rgn → Bool
is_end [] = true
is_end (_ ∷ _) = false

pub advance : Cursor → Cursor → Run (Cursor × Cursor)
advance c0 c1 =
    let bot = bottom_of c0.yb c1.yb in
    if is_empty bot.rest
    then (move_to_next c0.rb >>= λ d0. move_to_next c1.rb >>= λ d1. done (d0, d1))
    else if bot.from_first
    then (move_to_next c1.rb >>= λ d1. done (record c0 { yb = bot.rest }, d1))
    else (move_to_next c0.rb >>= λ d0. done (d0, record c1 { yb = bot.rest }))

-- `moves`: does `yrealloc` move the block that it enlarges?
module _ (grant : ℕ → Bool) (moves : Bool) where
  -- `ydynb_expand2` before a round, and the state of the output after it
  pub make_room : Dynb → Out → ℕ → Run (Status × Dynb × Out)
  make_room d o required = elim (Dynb.expand2 grant (required + 1) d required) [
    | none ↦ out_of_fuel
    | some (st, d') ↦ done (
      st,
      d',
      record o { moved = o.moved || (moves && not (d'.limit == d.limit)); room = Dynb.freesz d' },
    )
  ]

  -- the loop of `rgn_op` and the sentinel that is written after it, a fault where the buffer is full;
  -- `none` is the result NULL
  pub rgn_loop : OpType → ℕ → Dynb → Out → Cursor → Cursor → Run (Option Rgn)
  unfolding rband_op advance make_room
  rgn_loop op zero d o c0 c1 = out_of_fuel
  rgn_loop op (suc fuel) d o c0 c1 =
      let bsz = max_required_outbands (rband_bsz c0.rb) (rband_bsz c1.rb) in
      let round : Dynb → Out → Run (Option Rgn) = λ d' o'.
        rband_op op o' (or_max c0).yb (or_max c0).xbs (or_max c1).yb (or_max c1).xbs >>= λ o''.
        advance (or_max c0) (or_max c1) >>= λ (e0, e1).
        rgn_loop op fuel (Dynb.incsz d' (o'.room - o''.room)) o'' e0 e1 in
      if is_end c0.rb && is_end c1.rb
      then (if ltb 0 (Dynb.freesz d) then done (some (reverse o.rbs)) else fault)
      else (make_room d o (bsz + 1) >>= λ (st, d', o'). if is_ok st then round d' o' else done none)

  pub rgn_op : OpType → Rgn → Rgn → Run (Option Rgn)
  unfolding rgn_loop
  rgn_op op g0 g1 = elim (Dynb.create grant (4096 / 8) 8 1) [
    | none ↦ done none
    | some d ↦
        rgn_loop op (length g0 + length g1 + 1) d
          (record { rbs = []; moved = false; room = Dynb.freesz d }) (start g0) (start g1)
  ]
