-- ===== src/Geo/Rgn/Rounds.antt =====
-- src/geo/rgn.c: the rounds of `rgn_op`, where the buffer does not move.
use native.Mathlib.Nat.{add-zero, zero-add}
use ylib.Base.{
  ℕ, zero, suc, ◌+◌, ◌-◌, ◌*◌, ◌≤◌, ◌<◌, ◌≡◌, ◌∙◌, refl, inl, inr, Bool, true, false, Option, none,
  List, length, [], ◌∷◌, arith, ltb, leb, if◌then◌else◌, is_ok,
}
use ylib.Base.Run.{Run, done, ◌>>=◌, Returns, returns, Returns-bind, Returns-map}
use ylib.Dynb
use ylib.Dynb.{Dynb}
use ylib.Dynb.Growth
use ylib.Geo.Band.{Band, int_max, analyze_layout}
use ylib.Geo.Bands.{OpType, band_max_invalid}
use ylib.Geo.Bands.Sorted.{has_any}
use ylib.Geo.Bands.Step.{combine, big_below}
use ylib.Geo.Bands.Max.{combine-nothing}
use ylib.Geo.Rgn.{
  RectBand, rect_band, Rgn, Out, first_yb, first_xbs, max_xbs, advance, rband_bsz,
  max_required_outbands, make_room, rgn_loop,
}
use ylib.Geo.Rgn.Valid.{
  contains, IsWrittenRgn, last_y, contains-IsRgn, reverse_aux-IsRgn, contains-reverse_aux,
}
use ylib.Geo.Rgn.Step.{OperatedRgn, rband_op-OperatedRgn, either-IsRow}
use ylib.Geo.Rgn.Rows.{rows_max_first, rows_max_second}
use ylib.Geo.Rgn.Loop.{
  FitsRgn, IsNarrow, HasBudget, Ended, make_room_total, HasBudget-less, HasBudget-round,
  FitsRgn-start, left-start, regroup, Ended-map, Rest, after_both,
}

-- the rest of a round where one region is exhausted
module _ (grant : ℕ → Bool) (op : OpType) (m fuel : ℕ) (rest : Rest grant op m fuel) (o o' : Out)
    (d : Dynb) (b : Band) (xs : List Band) (r : RectBand) (g : Rgn)
    (h : FitsRgn (last_y o.rbs) b xs (r ∷ g)) (w : IsNarrow m (r ∷ g))
    (short : suc (length g) < suc fuel) (budget : HasBudget m d (length g)) where
  behind : (x y : ℕ) → y < b.b → contains g x y ≡ false
  behind x y = contains-IsRgn b.b g x y h.5

  after_first :
      OperatedRgn op o band_max_invalid max_xbs b xs o'
      → Returns (Ended grant op [] (rect_band b xs ∷ g) (contains o.rbs)) (
          advance
            (record { yb = band_max_invalid; xbs = max_xbs; rb = [] })
            (record { yb = b; xbs = xs; rb = r ∷ g })
          >>= λ (e0, e1). rgn_loop grant false op fuel d o' e0 e1)
  unfolding advance analyze_layout
  after_first p =
      let far : ltb band_max_invalid.s b.s ≡ false = ground arith in
      let apart : leb b.b band_max_invalid.s ≡ true = ground arith in
      rw (far, apart)
        (Returns-map
          (rest d o' band_max_invalid max_xbs [] (first_yb g) (first_xbs g) g (omega arith)
            (rw zero-add budget) p.written p.unmoved tt
            (FitsRgn-start (last_y o'.rbs) b.b g h.5 p.last.2 (omega arith)) tt w.1)
          (Ended-map grant op _ _ _ _ _ _ λ x y.
            regroup _ (contains o.rbs x y) _ _
              (combine op false (contains (rect_band b xs ∷ g) x y)) (p.points x y)
              (rw (left-start g) (
                rows_max_first b h.2 h.3 y (has_any xs x) (contains g x y) (has_any max_xbs x)
                  (behind x y) op))))

  after_second :
      OperatedRgn op o b xs band_max_invalid max_xbs o'
      → Returns (Ended grant op (rect_band b xs ∷ g) [] (contains o.rbs)) (
          advance
            (record { yb = b; xbs = xs; rb = r ∷ g })
            (record { yb = band_max_invalid; xbs = max_xbs; rb = [] })
          >>= λ (e0, e1). rgn_loop grant false op fuel d o' e0 e1)
  unfolding advance analyze_layout
  after_second p =
      let near : ltb b.s band_max_invalid.s ≡ true = ground arith in
      let apart : leb b.b band_max_invalid.s ≡ true = ground arith in
      rw (near, apart)
        (Returns-map
          (rest d o' (first_yb g) (first_xbs g) g band_max_invalid max_xbs [] (omega arith)
            (rw add-zero budget) p.written p.unmoved
            (FitsRgn-start (last_y o'.rbs) b.b g h.5 p.last.1 (omega arith)) tt w.1 tt)
          (Ended-map grant op _ _ _ _ _ _ λ x y.
            regroup _ (contains o.rbs x y) _ _
              (combine op (contains (rect_band b xs ∷ g) x y) false) (p.points x y)
              (rw (left-start g) (
                rows_max_second b h.2 h.3 y (has_any xs x) (contains g x y) (has_any max_xbs x)
                  (behind x y) op))))

-- there is room for the sentinel
room_lem : {m n : ℕ} (d : Dynb) → HasBudget m d n → ltb 0 (Dynb.freesz d) ≡ true
unfolding Dynb.freesz
room_lem d b = ground (arith, b.for_sentinel, b.valid.narrow)

-- the bands that a round asks for
abbrev need : Rgn → Rgn → ℕ
need rb0 rb1 = max_required_outbands (rband_bsz rb0) (rband_bsz rb1) + 1

bsz-le : (m : ℕ) (g : Rgn) → IsNarrow m g → rband_bsz g ≤ m + 2
unfolding rband_bsz
bsz-le m [] w = omega arith
bsz-le m (r ∷ g) w = omega (arith, w.0)

need-le : (m : ℕ) (rb0 rb1 : Rgn) → IsNarrow m rb0 → IsNarrow m rb1 → need rb0 rb1 ≤ 4 * m + 10
unfolding max_required_outbands
need-le m rb0 rb1 w0 w1 = omega (arith, bsz-le m rb0 w0, bsz-le m rb1 w1)

module _ (grant : ℕ → Bool) (op : OpType) (m n : ℕ) (g0 g1 : Rgn) (before : ℕ → ℕ → Bool) where
  -- a round is its body with room for what it asks for, or NULL after a refusal
  round-Ended :
      (d : Dynb) (o : Out) (required : ℕ) (body : Dynb → Out → Run (Option Rgn))
      → HasBudget m d (suc n)
      → o.moved ≡ false
      → required ≤ 4 * m + 10
      → 0 < required
      → ((d' : Dynb)
          → HasBudget m d' (suc n)
          → required ≤ Dynb.freesz d'
          → Returns
              (Ended grant op g0 g1 before)
              (body d' (record o { moved = false; room = Dynb.freesz d' })))
      → Returns (Ended grant op g0 g1 before) (
          make_room grant false d o required >>= λ (st, d', o').
          if is_ok st then body d' o' else done none)
  round-Ended d o required body b still small some_room k =
      let size = b.band_sized in
      let (r, e, (grown, x)) =
        make_room_total grant d o required b.valid still (rw size (omega (arith, b.budget)))
          (omega (arith, b.budget)) in
      elim x [
        | inl (good, room) ↦
            rw (e, good)
              (k r.1
                (record {
                  valid = grown.valid;
                  band_sized = grown.same_eszex ∙ size;
                  for_sentinel = omega (arith, room, some_room, Growth.freesz_lem r.1 grown.valid);
                  budget = rw grown.same_sz b.budget;
                })
                room)
        | inr (bad, _, no_grant) ↦ rw (e, bad) (returns no_grant)
      ]

-- the end of what is written stays below a band that stands for an exhausted region
last_y-le : (g : Rgn) → IsWrittenRgn g → last_y g ≤ int_max - 1
last_y-le [] w = omega arith
last_y-le (r ∷ g) w = omega arith

pub rgn_loop-Ended : (grant : ℕ → Bool) (op : OpType) (m fuel : ℕ) → Rest grant op m fuel
unfolding rgn_loop max_required_outbands rband_bsz analyze_layout
rgn_loop-Ended grant op m zero d o yb0 xs0 rb0 yb1 xs1 rb1 short b w still h0 h1 w0 w1 =
    absurd (omega arith)
rgn_loop-Ended grant op m (suc fuel) d o yb0 xs0 [] yb1 xs1 [] short b w still h0 h1 w0 w1 =
    rw (room_lem d b) (
      returns (record {
        valid = reverse_aux-IsRgn o.rbs [] w tt;
        points = λ x y.
            ground
              (arith, contains-reverse_aux o.rbs [] x y, combine-nothing op (contains o.rbs x y));
      }))
rgn_loop-Ended grant op m (suc fuel) d o yb0 xs0 [] yb1 xs1 (r ∷ g) short b w still h0 h1 w0 w1 =
    round-Ended grant op m (length g) [] (rect_band yb1 xs1 ∷ g) (contains o.rbs) d o
      (need [] (r ∷ g)) _ (rw zero-add at b) still (need-le m [] (r ∷ g) w0 w1) (omega arith)
      λ d' b' room.
        let far : ltb band_max_invalid.s yb1.s ≡ false = ground arith in
        let apart : leb yb1.b band_max_invalid.s ≡ true = ground arith in
        Returns-bind
          (rband_op-OperatedRgn band_max_invalid yb1 (omega arith) h1.2 op
            (record o { moved = false; room = Dynb.freesz d' }) max_xbs xs1 w refl
            (last_y-le o.rbs w) h1.0 (omega arith) h1.1
            (big_below band_max_invalid yb1 (omega arith) h1.2 (inr h1.3) (omega arith)
              (omega arith) (omega arith) (omega arith))
            (rw far h1.4) (λ e. absurd (ground arith)) (omega arith))
          λ o'' p.
            after_first grant op m fuel (rgn_loop-Ended grant op m fuel)
              (record o { moved = false; room = Dynb.freesz d' }) o''
              (Dynb.incsz d' (Dynb.freesz d' - o''.room)) yb1 xs1 r g h1 w1 (omega arith)
              (HasBudget-round m d' (length g) (Dynb.freesz d' - o''.room) b'
                (omega (arith, p.room_used, w1)) (omega arith))
              p
rgn_loop-Ended grant op m (suc fuel) d o yb0 xs0 (r ∷ g) yb1 xs1 [] short b w still h0 h1 w0 w1 =
    round-Ended grant op m (length g) (rect_band yb0 xs0 ∷ g) [] (contains o.rbs) d o
      (need (r ∷ g) []) _ (rw add-zero at b) still (need-le m (r ∷ g) [] w0 w1) (omega arith)
      λ d' b' room.
        let near : ltb yb0.s band_max_invalid.s ≡ true = ground arith in
        let apart : leb yb0.b band_max_invalid.s ≡ true = ground arith in
        Returns-bind
          (rband_op-OperatedRgn yb0 band_max_invalid h0.2 (omega arith) op
            (record o { moved = false; room = Dynb.freesz d' }) xs0 max_xbs w refl h0.0
            (last_y-le o.rbs w) h0.1 (omega arith)
            (big_below yb0 band_max_invalid h0.2 (omega arith) (inl h0.3) (omega arith)
              (omega arith) (omega arith) (omega arith))
            (rw near h0.4) (λ e. absurd (ground arith)) (omega arith))
          λ o'' p.
            after_second grant op m fuel (rgn_loop-Ended grant op m fuel)
              (record o { moved = false; room = Dynb.freesz d' }) o''
              (Dynb.incsz d' (Dynb.freesz d' - o''.room)) yb0 xs0 r g h0 w0 (omega arith)
              (HasBudget-round m d' (length g) (Dynb.freesz d' - o''.room) b'
                (omega (arith, p.room_used, w0)) (omega arith))
              p
rgn_loop-Ended grant op m (suc fuel) d o yb0 xs0 (r0 ∷ g0) yb1 xs1 (r1 ∷ g1) short b w still h0 h1
      w0 w1 =
    round-Ended grant op m (length g0 + length g1 + 1) (rect_band yb0 xs0 ∷ g0)
      (rect_band yb1 xs1 ∷ g1) (contains o.rbs) d o (need (r0 ∷ g0) (r1 ∷ g1)) _
      (HasBudget-less m d _ _ (omega arith) b) still (need-le m (r0 ∷ g0) (r1 ∷ g1) w0 w1)
      (omega arith)
      λ d' b' room.
        Returns-bind
          (rband_op-OperatedRgn yb0 yb1 h0.2 h1.2 op
            (record o { moved = false; room = Dynb.freesz d' }) xs0 xs1 w refl h0.0 h1.0 h0.1 h1.1
            (big_below yb0 yb1 h0.2 h1.2 (inl h0.3) (omega arith) (omega arith) (omega arith)
              (omega arith))
            (either-IsRow xs0 xs1 _ h0.4 h1.4) (λ e. (h0.4, h1.4)) (omega arith))
          λ o'' p.
            after_both grant op m fuel (rgn_loop-Ended grant op m fuel)
              (record o { moved = false; room = Dynb.freesz d' }) o''
              (Dynb.incsz d' (Dynb.freesz d' - o''.room)) yb0 yb1 xs0 xs1 r0 r1 g0 g1 h0 h1 w0 w1
              short p
              (HasBudget-round m d' (length g0 + length g1 + 1) (Dynb.freesz d' - o''.room) b'
                (omega (arith, p.room_used, w0, w1)) (omega arith))
