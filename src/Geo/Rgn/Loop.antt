-- ===== src/Geo/Rgn/Loop.antt =====
-- src/geo/rgn.c: the loop of `rgn_op`, where the buffer does not move.
use ylib.Base.{
  ℕ, suc, ◌+◌, ◌*◌, ◌%◌, ◌≤◌, ◌<◌, ◌≡◌, ◌∙◌, refl, inl, inr, Bool, false, ◌&&◌, ◌||◌, Option, none,
  some, List, length, [], ◌∷◌, arith, Bool-cases, u32_mod, Status, mul_mono,
}
use ylib.Base.Run.{done, ◌>>=◌, Returns, Returns-map}
use ylib.Dynb
use ylib.Dynb.{Dynb}
use ylib.Dynb.Growth
use ylib.Geo.Band.{Band, int_min, int_max, is_empty, has}
use ylib.Geo.Bands.{OpType, bottom_of}
use ylib.Geo.Bands.Sorted.{has_any}
use ylib.Geo.Bands.Step.{combine, layout-Laid, bottom_first, bottom_second}
use ylib.Geo.Rgn.{RectBand, rect_band, Rgn, Out, start, advance, make_room, rgn_loop}
use ylib.Geo.Rgn.Valid.{contains, IsRow, IsRgn, IsWrittenRgn, last_y, contains-IsRgn}
use ylib.Geo.Rgn.Step.{OperatedRgn}
use ylib.Geo.Rgn.Rows.{rows_empty, rows_first, rows_second}

-- what is left of a region at a cursor
abbrev pub left : Band → List Band → Rgn → Rgn
left yb xs [] = []
left yb xs (_ ∷ g) = rect_band yb xs ∷ g

-- a cursor behind everything that is written, after which the next y-band may start at `f`
abbrev pub FitsRgn : ℕ → Band → List Band → Rgn → Type 0
FitsRgn f yb xs [] = Unit
FitsRgn f yb xs (r ∷ g) =
    (f ≤ yb.s)
    × (int_min + 1 < yb.s)
    × (yb.s < yb.b)
    × (yb.b < int_max)
    × IsRow xs
    × IsRgn yb.b g
    × (length xs ≡ length r.xbs)

-- no rect band has more than `m` x-bands
abbrev pub IsNarrow : ℕ → Rgn → Type 0
IsNarrow m [] = Unit
IsNarrow m (r ∷ g) = (length r.xbs ≤ m) × IsNarrow m g

-- the state of the output buffer, with room for the sentinel, and with `n` rounds to go, each of which may need `4 * m + 10` bands
pub record HasBudget (m : ℕ) (d : Dynb) (n : ℕ) : Type 0 where
  pub valid : Growth.IsValid d
  pub band_sized : d.eszex ≡ 8
  pub for_sentinel : d.sz < d.limit
  pub budget : (d.sz + n * (4 * m + 10)) * 16 < u32_mod

-- how the loop ends: with NULL after a refused request, or with a valid region of the right points
pub record IsResult (op : OpType) (g0 g1 : Rgn) (before : ℕ → ℕ → Bool) (g : Rgn) : Type 0 where
  pub valid : IsRgn (int_min + 2) g
  pub points :
      (x y : ℕ) → contains g x y ≡ (before x y || combine op (contains g0 x y) (contains g1 x y))

module _ (grant : ℕ → Bool) where
  abbrev pub Refused : Type 0
  Refused = (n : ℕ) × (grant n ≡ false)

  abbrev pub Ended : OpType → Rgn → Rgn → (ℕ → ℕ → Bool) → Option Rgn → Type 0
  Ended op g0 g1 before none = Refused
  Ended op g0 g1 before (some g) = IsResult op g0 g1 before g

  -- `make_room` returns, with room or after a refusal; the output is as it was
  pub make_room_total :
      (d : Dynb) (o : Out) (required : ℕ)
      → Growth.IsValid d
      → o.moved ≡ false
      → (d.sz + required) * d.eszex * 2 < u32_mod
      → (d.sz + required) * 2 < u32_mod
      → (r : Status × Dynb) × (make_room grant false d o required
          ≡ done (r.0, r.1, record o { moved = false; room = Dynb.freesz r.1 }))
        × Growth.Expanded grant d required r
  unfolding make_room
  make_room_total d o required v still h k =
      let (r, e, x) =
        Growth.expand2_total grant (required + 1) d required v h k (omega (arith, v.in_limit)) in
      (r, ground (arith, e), x)

pub HasBudget-less : (m : ℕ) (d : Dynb) (n k : ℕ) → k ≤ n → HasBudget m d n → HasBudget m d k
HasBudget-less m d n k h b = record {
  valid = b.valid;
  band_sized = b.band_sized;
  for_sentinel = b.for_sentinel;
  budget = omega (arith, b.budget, mul_mono k n (4 * m + 10) h);
}

-- a round of at most `4 * m + 10` new bands that fit
pub HasBudget-round :
    (m : ℕ) (d : Dynb) (n used : ℕ)
    → HasBudget m d (suc n)
    → used ≤ 4 * m + 10
    → used < Dynb.freesz d
    → HasBudget m (Dynb.incsz d used) n
unfolding Dynb.incsz Dynb.freesz
HasBudget-round m d n used b small fits =
    let v = b.valid in
    let size : (d.sz + used) % u32_mod ≡ d.sz + used = omega arith in
    record {
      valid = record {
        some_room = v.some_room;
        in_limit = omega arith;
        allocated = v.allocated;
        narrow = v.narrow;
        padded = v.padded;
      };
      band_sized = b.band_sized;
      for_sentinel = omega arith;
      budget = rw size (omega (arith, b.budget));
    }

-- the start of a region behind a y-band that ends at `e`
pub FitsRgn-start :
    (f e : ℕ) (g : Rgn)
    → IsRgn e g
    → f ≤ e
    → int_min + 2 ≤ e
    → FitsRgn f (start g).yb (start g).xbs g
FitsRgn-start f e [] h p q = tt
FitsRgn-start f e (r ∷ g) h p q = (omega arith, omega arith, h.1, h.2, h.3, h.4, refl)

pub left-start : (g : Rgn) → left (start g).yb (start g).xbs g ≡ g
left-start [] = refl
left-start (r ∷ g) = refl

pub regroup : (o' o d c t : Bool) → o' ≡ (o || d) → (d || c) ≡ t → (o' || c) ≡ (o || t)
regroup o' o d c t p q = ground arith

pub Ended-map :
    (grant : ℕ → Bool) (op : OpType) (g0 g1 h0 h1 : Rgn) (before after : ℕ → ℕ → Bool)
    → ((x y : ℕ)
        → (after x y || combine op (contains h0 x y) (contains h1 x y))
          ≡ (before x y || combine op (contains g0 x y) (contains g1 x y)))
    → (r : Option Rgn) → Ended grant op h0 h1 after r
    → Ended grant op g0 g1 before r
Ended-map grant op g0 g1 h0 h1 before after same none e = e
Ended-map grant op g0 g1 h0 h1 before after same (some g) e = record {
  valid = e.valid;
  points = λ x y. e.points x y ∙ same x y;
}

module _ (grant : ℕ → Bool) (op : OpType) (m fuel : ℕ) where
  abbrev pub Rest : Type 0
  Rest =
      (d : Dynb) (o : Out) (yb0 : Band) (xs0 : List Band) (rb0 : Rgn) (yb1 : Band) (xs1 : List Band)
      (rb1 : Rgn)
      → length rb0 + length rb1 < fuel
      → HasBudget m d (length rb0 + length rb1)
      → IsWrittenRgn o.rbs
      → o.moved ≡ false
      → FitsRgn (last_y o.rbs) yb0 xs0 rb0
      → FitsRgn (last_y o.rbs) yb1 xs1 rb1
      → IsNarrow m rb0
      → IsNarrow m rb1
      → Returns (Ended grant op (left yb0 xs0 rb0) (left yb1 xs1 rb1) (contains o.rbs)) (
          rgn_loop grant false op fuel d o (record { yb = yb0; xbs = xs0; rb = rb0 })
            (record { yb = yb1; xbs = xs1; rb = rb1 }))

  -- the rest of a round after `rband_op`, where both regions have rect bands
  module _ (rest : Rest) (o o' : Out) (d : Dynb) (b0 b1 : Band) (xs0 xs1 : List Band)
      (r0 r1 : RectBand) (g0 g1 : Rgn) (h0 : FitsRgn (last_y o.rbs) b0 xs0 (r0 ∷ g0))
      (h1 : FitsRgn (last_y o.rbs) b1 xs1 (r1 ∷ g1)) (w0 : IsNarrow m (r0 ∷ g0))
      (w1 : IsNarrow m (r1 ∷ g1)) (short : suc (length g0) + suc (length g1) < suc fuel)
      (p : OperatedRgn op o b0 xs0 b1 xs1 o')
      (budget : HasBudget m d (length g0 + length g1 + 1)) where
    abbrev all : ℕ → ℕ → Bool
    all x y =
        combine op ((has b0 y && has_any xs0 x) || contains g0 x y)
          ((has b1 y && has_any xs1 x) || contains g1 x y)

    behind0 : (x y : ℕ) → y < b0.b → contains g0 x y ≡ false
    behind0 x y = contains-IsRgn b0.b g0 x y h0.5

    behind1 : (x y : ℕ) → y < b1.b → contains g1 x y ≡ false
    behind1 x y = contains-IsRgn b1.b g1 x y h1.5

    pub after_both :
        Returns (Ended grant op (rect_band b0 xs0 ∷ g0) (rect_band b1 xs1 ∷ g1) (contains o.rbs)) (
          advance
            (record { yb = b0; xbs = xs0; rb = r0 ∷ g0 })
            (record { yb = b1; xbs = xs1; rb = r1 ∷ g1 })
          >>= λ (e0, e1). rgn_loop grant false op fuel d o' e0 e1)
    unfolding advance
    after_both =
        let laid = layout-Laid b0 b1 h0.2 h1.2 in
        let fits0 = FitsRgn-start (last_y o'.rbs) b0.b g0 h0.5 p.last.1 (omega arith) in
        let fits1 = FitsRgn-start (last_y o'.rbs) b1.b g1 h1.5 p.last.2 (omega arith) in
        elim (Bool-cases (is_empty (bottom_of b0 b1).rest)) [
          | inl e ↦ rw e (
              Returns-map
                (rest d o' (start g0).yb (start g0).xbs g0 (start g1).yb (start g1).xbs g1
                  (omega arith) (HasBudget-less m d _ _ (omega arith) budget) p.written p.unmoved
                  fits0 fits1 w0.1 w1.1)
                (Ended-map grant op _ _ _ _ _ _ λ x y.
                  regroup _ (contains o.rbs x y) _ _ (all x y) (p.points x y) (
                    rw (left-start g0, left-start g1)
                      (rows_empty b0 b1 h0.2 h1.2 y (has_any xs0 x) (has_any xs1 x)
                        (contains g0 x y) (contains g1 x y) (behind0 x y) (behind1 x y) op e))))
          | inr e ↦ elim (Bool-cases (bottom_of b0 b1).from_first) [
            | inl f ↦
                let end = bottom_first b0 b1 h0.2 h1.2 e f in
                rw (e, f)
                  (Returns-map
                    (rest d o' (bottom_of b0 b1).rest xs0 (r0 ∷ g0) (start g1).yb (start g1).xbs g1
                      (omega arith) (HasBudget-less m d _ _ (omega arith) budget) p.written
                      p.unmoved
                      (
                        p.last.0,
                        omega (arith, laid.big_after),
                        ground arith,
                        omega arith,
                        h0.4,
                        rw end h0.5,
                        h0.6,
                      )
                      fits1 w0 w1.1)
                    (Ended-map grant op _ _ _ _ _ _ λ x y.
                      regroup _ (contains o.rbs x y) _ _ (all x y) (p.points x y) (
                        rw (left-start g1) (
                          rows_first b0 b1 h0.2 h1.2 y (has_any xs0 x) (has_any xs1 x)
                            (contains g0 x y) (contains g1 x y) (behind0 x y) (behind1 x y) op e
                            f))))
            | inr f ↦
                let end = bottom_second b0 b1 h0.2 h1.2 e f in
                rw (e, f)
                  (Returns-map
                    (rest d o' (start g0).yb (start g0).xbs g0 (bottom_of b0 b1).rest xs1 (r1 ∷ g1)
                      (omega arith) (HasBudget-less m d _ _ (omega arith) budget) p.written
                      p.unmoved fits0
                      (
                        p.last.0,
                        omega (arith, laid.big_after),
                        ground arith,
                        omega arith,
                        h1.4,
                        rw end h1.5,
                        h1.6,
                      )
                      w0.1 w1)
                    (Ended-map grant op _ _ _ _ _ _ λ x y.
                      regroup _ (contains o.rbs x y) _ _ (all x y) (p.points x y) (
                        rw (left-start g0) (
                          rows_second b0 b1 h0.2 h1.2 y (has_any xs0 x) (has_any xs1 x)
                            (contains g0 x y) (contains g1 x y) (behind0 x y) (behind1 x y) op e
                            f))))
          ]
        ]
