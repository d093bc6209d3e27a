-- ===== src/Geo/Rgn/Step.antt =====
-- src/geo/rgn.c: one `rband_op`: what it writes, and the points of that.
use mathlib.Core.List.{reverse}
use ylib.Base.{
  ℕ, ◌+◌, ◌≤◌, ◌<◌, ◌≡◌, refl, ◌⊎◌, inl, inr, Bool, true, false, ◌&&◌, ◌||◌, List, length,
  length-reverse_aux, [], ◌∷◌, arith, max, ltb, if◌then◌else◌, Bool-cases,
}
use ylib.Base.Run.{Run, Returns, returns, Returns-bind, Returns-map}
use ylib.Geo.Band.{Band, int_min, int_max, is_empty, has, analyze_layout}
use ylib.Geo.Bands.{OpType, keeps_alone, layout_of, bottom_of}
use ylib.Geo.Bands.Sorted.{IsSorted, has_any, has_any-reverse_aux, reverse_aux-IsSorted}
use ylib.Geo.Bands.Step.{combine, layout-Laid}
use ylib.Geo.Bands.Loop.{x_op-Combined}
use ylib.Geo.Rgn.{Out, rband_op_no_overlap, keep_overlap, rband_op_overlap, rband_op}
use ylib.Geo.Rgn.Valid.{contains, IsRow, IsWrittenRgn, last_y, AddedRgn, add_to, add_to-AddedRgn}

-- a part of a layout is written, with a row that holds the coordinates `holds`, or nothing is
pub record KeptRgn (o : Out) (yb : Band) (size : ℕ) (holds : ℕ → Bool) (o' : Out) : Type 0 where
  written : IsWrittenRgn o'.rbs
  last : (last_y o'.rbs ≡ last_y o.rbs) ⊎ ((is_empty yb ≡ false) × (last_y o'.rbs ≡ yb.b))
  points : (x y : ℕ) → contains o'.rbs x y ≡ (contains o.rbs x y || (has yb y && holds x))
  unmoved : o'.moved ≡ false
  room_used : (o'.room ≤ o.room) × (o.room ≤ o'.room + size)

-- where a part may be written
abbrev Open : Out → Band → Type 0
Open o yb = is_empty yb ≡ false → (last_y o.rbs ≤ yb.s) × (int_min + 1 < yb.s) × (yb.b < int_max)

module _ (o : Out) (yb : Band) (w : IsWrittenRgn o.rbs) (still : o.moved ≡ false)
    (open_at : Open o yb) where
  KeptRgn-skip :
      (size : ℕ) (holds : ℕ → Bool)
      → ((x y : ℕ) → (has yb y && holds x) ≡ false)
      → KeptRgn o yb size holds o
  KeptRgn-skip size holds nothing = record {
    written = w;
    last = inl refl;
    points = λ x y. ground (arith, nothing x y);
    unmoved = still;
    room_used = omega arith;
  }

  KeptRgn-add :
      (xbs : List Band) (size : ℕ) (holds : ℕ → Bool) {r : Run Out}
      → is_empty yb ≡ false
      → length xbs + 2 ≤ size
      → ((x : ℕ) → has_any xbs x ≡ holds x)
      → Returns (AddedRgn o yb xbs) r
      → Returns (KeptRgn o yb size holds) r
  KeptRgn-add xbs size holds n fits same (returns a) = returns (record {
    written = a.written;
    last = inr (n, ground arith);
    points = λ x y. ground (arith, a.points x y, same x);
    unmoved = a.unmoved;
    room_used = omega (arith, a.room_used);
  })

  no_overlap-KeptRgn :
      (op : OpType) (lho : Bool) (xbs : List Band)
      → IsRow xbs
      → length xbs + 2 ≤ o.room
      → Returns
          (KeptRgn o yb (length xbs + 2) (λ x. keeps_alone op lho && has_any xbs x))
          (rband_op_no_overlap op lho o yb xbs)
  unfolding rband_op_no_overlap
  no_overlap-KeptRgn op lho xbs row fits = elim (Bool-cases (keeps_alone op lho)) [
    | inr e ↦ rw e (returns (KeptRgn-skip _ _ (λ x y. ground arith)))
    | inl e ↦ elim (Bool-cases (is_empty yb)) [
      | inl n ↦ rw (e, n) (returns (KeptRgn-skip _ _ (λ x y. ground arith)))
      | inr n ↦
          let (above, low, high) = open_at n in
          rw (e, n)
            (KeptRgn-add xbs _ _ n (omega arith) (λ x. refl)
              (add_to-AddedRgn yb xbs (ground arith) low high row o.rbs o.moved o.room w still above
                fits))
    ]
  ]

  keep_overlap-KeptRgn :
      (xbs : List Band) (size : ℕ) (holds : ℕ → Bool)
      → is_empty yb ≡ false
      → IsSorted (int_min + 1) xbs
      → length xbs + 2 ≤ size
      → size ≤ o.room
      → ((x : ℕ) → has_any xbs x ≡ holds x)
      → Returns (KeptRgn o yb size holds) (keep_overlap o yb xbs)
  unfolding keep_overlap
  keep_overlap-KeptRgn [] size holds n sorted long fits same =
      let room : ltb o.room 1 ≡ false = ground arith in
      rw room (returns (KeptRgn-skip size holds (λ x y. ground (arith, same x))))
  keep_overlap-KeptRgn (k ∷ xbs) size holds n sorted long fits same =
      let room : ltb o.room (length (k ∷ xbs) + 2) ≡ false = ground arith in
      let (above, low, high) = open_at n in
      let whole : Returns (KeptRgn o yb size holds) (add_to yb (k ∷ xbs) o) =
        KeptRgn-add (k ∷ xbs) size holds n long same (
          add_to-AddedRgn yb (k ∷ xbs) (ground arith) low high (omega arith, sorted) o.rbs o.moved
            o.room w still above (omega arith)) in
      rw room (rw room at whole)

  overlap-KeptRgn :
      (op : OpType) (xbs0 xbs1 : List Band)
      → (is_empty yb ≡ false → IsRow xbs0 × IsRow xbs1)
      → length xbs0 + length xbs1 + 2 ≤ o.room
      → Returns
          (KeptRgn o yb
            (length xbs0 + length xbs1 + 2)
            (λ x. combine op (has_any xbs0 x) (has_any xbs1 x)))
          (rband_op_overlap op o yb xbs0 xbs1)
  unfolding rband_op_overlap
  overlap-KeptRgn op xbs0 xbs1 rows fits = elim (Bool-cases (is_empty yb)) [
    | inl n ↦ rw n (returns (KeptRgn-skip _ _ (λ x y. ground arith)))
    | inr n ↦ rw n (
        Returns-bind (x_op-Combined op xbs0 xbs1 (rows n).0.1 (rows n).1.1) λ r c.
          keep_overlap-KeptRgn (reverse r) _ _ n (reverse_aux-IsSorted r [] c.0 tt)
            (omega (arith, c.1, length-reverse_aux r [])) fits
            (λ x. ground (arith, has_any-reverse_aux r [] x, c.2 x)))
  ]

-- what one `rband_op` makes of the output
pub record OperatedRgn (op : OpType) (o : Out) (b0 : Band) (xs0 : List Band) (b1 : Band)
    (xs1 : List Band) (o' : Out) : Type 0 where
  pub written : IsWrittenRgn o'.rbs
  pub last :
      (last_y o'.rbs ≤ (bottom_of b0 b1).rest.s) × (last_y o'.rbs ≤ b0.b) × (last_y o'.rbs ≤ b1.b)
  pub points :
      (x y : ℕ)
      → contains o'.rbs x y ≡ (
          contains o.rbs x y
          || (ltb y (bottom_of b0 b1).rest.s
              && combine op (has b0 y && has_any xs0 x) (has b1 y && has_any xs1 x)))
  pub unmoved : o'.moved ≡ false
  pub room_used :
      (o'.room ≤ o.room)
      × (o.room ≤ o'.room + (max (length xs0) (length xs1) + length xs0 + length xs1 + 4))

-- the row that belongs to the first y-band
module _ (xs0 xs1 : List Band) where
  pub either-IsRow : (b : Bool) → IsRow xs0 → IsRow xs1 → IsRow (if b then xs0 else xs1)
  either-IsRow true r0 r1 = r0
  either-IsRow false r0 r1 = r1

  either_points :
      (b : Bool) (x : ℕ)
      → has_any (if b then xs0 else xs1) x ≡ (if b then has_any xs0 x else has_any xs1 x)
  either_points true x = refl
  either_points false x = refl

  either_length : (b : Bool) → length (if b then xs0 else xs1) ≤ max (length xs0) (length xs1)
  either_length true = omega arith
  either_length false = omega arith

module _ (b0 b1 : Band) (n0 : b0.s < b0.b) (n1 : b1.s < b1.b) where
  -- the two parts of a layout carry out the operation up to the bottom band, where `p0` and `p1`
  -- tell whether the rows hold the coordinate
  layout_rows :
      (op : OpType) (y : ℕ) (p0 p1 : Bool)
      → ((has (layout_of b0 b1).small y
            && (keeps_alone op (ltb b0.s b1.s) && (if ltb b0.s b1.s then p0 else p1)))
          || (has (layout_of b0 b1).over y && combine op p0 p1))
        ≡ (ltb y (layout_of b0 b1).big.s && combine op (has b0 y && p0) (has b1 y && p1))
  unfolding analyze_layout
  layout_rows OpType.intersect y p0 p1 = ground arith
  layout_rows OpType.diff y p0 p1 = ground arith
  layout_rows OpType.union y p0 p1 = ground arith

  pub rband_op-OperatedRgn :
      (op : OpType) (o : Out) (xs0 xs1 : List Band)
      → IsWrittenRgn o.rbs
      → o.moved ≡ false
      → last_y o.rbs ≤ b0.s
      → last_y o.rbs ≤ b1.s
      → int_min + 1 < b0.s
      → int_min + 1 < b1.s
      → (layout_of b0 b1).big.s < int_max
      → IsRow (if ltb b0.s b1.s then xs0 else xs1)
      → (is_empty (layout_of b0 b1).over ≡ false → IsRow xs0 × IsRow xs1)
      → max (length xs0) (length xs1) + length xs0 + length xs1 + 4 ≤ o.room
      → Returns (OperatedRgn op o b0 xs0 b1 xs1) (rband_op op o b0 xs0 b1 xs1)
  unfolding rband_op
  rband_op-OperatedRgn op o xs0 xs1 w still f0 f1 l0 l1 high row rows fits =
      let v = layout-Laid b0 b1 n0 n1 in
      let lho = ltb b0.s b1.s in
      let size = either_length xs0 xs1 lho in
      Returns-bind
        (no_overlap-KeptRgn o (layout_of b0 b1).small w still (λ e. ground (arith, v)) op lho
          (if lho then xs0 else xs1) row (omega arith))
        λ o' k.
          Returns-map
            (overlap-KeptRgn o' (layout_of b0 b1).over k.written k.unmoved
              (λ e. ground (arith, v, v.over_after e, v.over_ends e)) op xs0 xs1 rows
              (omega (arith, k.room_used)))
            λ o'' k'. record {
              written = k'.written;
              last = ground (arith, v);
              points = λ x y. ground (
                arith,
                k.points x y,
                k'.points x y,
                either_points xs0 xs1 lho x,
                layout_rows op y (has_any xs0 x) (has_any xs1 x),
              );
              unmoved = k'.unmoved;
              room_used = omega (arith, k.room_used, k'.room_used);
            }
