-- ===== src/Geo/Bands/Loop.antt =====
-- src/geo/rgn.c: the x-band loop of `rband_op_overlap` computes the set operation.
use ylib.Base.{
  ℕ, zero, suc, ◌+◌, ◌-◌, ◌≤◌, ◌<◌, ◌≡◌, ◌∙◌, ap, refl, inl, inr, false, List, length, [], ◌∷◌,
  arith,
}
use ylib.Base.Run.{◌>>=◌, Returns, returns, Returns-bind, Returns-map}
use ylib.Geo.Band.{Band, int_min, int_max}
use ylib.Geo.Bands.{OpType, prevb, Bottom, first, or_max, band_max_invalid, advance, x_loop, x_op}
use ylib.Geo.Bands.Sorted.{IsSorted, IsWritten, has_any, has_any-IsSorted}
use ylib.Geo.Bands.Step.{combine, Operated, big_below, band_op-Operated}
use ylib.Geo.Bands.Round.{Fits, Combined, Fits-start, left-start, regroup, Rest, after}
use ylib.Geo.Bands.Max.{
  bottom_of_max_first, bottom_of_max_second, points_max_first, points_max_second, combine-nothing,
}

module _ (op : OpType) (fuel : ℕ) (rest : Rest op fuel) (out : List Band) (w : IsWritten out)
    (b k : Band) (xs : List Band) (h : Fits (prevb out).b b (k ∷ xs))
    (short : suc (length xs) < suc fuel) where
  after_first :
      (r : List Band × Bottom)
      → Operated op out band_max_invalid b r
      → Returns (Combined op out [] (b ∷ xs)) (
          advance r.1 (record { pb = band_max_invalid; pc = [] }) (record { pb = b; pc = k ∷ xs })
          >>= λ (d0, d1). x_loop op fuel r.0 d0 d1)
  unfolding advance
  after_first r o =
      let lens = ap length (left-start xs) in
      rw (o.bottom ∙ bottom_of_max_first b h.2 h.3) (
        Returns-map
          (rest r.0 band_max_invalid [] (first xs) xs (omega arith) o.written refl
            (Fits-start _ b.b xs h.4 o.last.2 (omega arith)))
          λ q c. record {
            written = c.written;
            grows = omega (arith, c.grows, o.grows, lens);
            points = λ x.
                regroup _ _ (has_any out x) _ _ (combine op false (has_any (b ∷ xs) x)) (c.points x)
                  (o.points x)
                  (rw (left-start xs) (points_max_first b h.2 h.3 op x (has_any xs x)));
          })

  after_second :
      (r : List Band × Bottom)
      → Operated op out b band_max_invalid r
      → Returns (Combined op out (b ∷ xs) []) (
          advance r.1 (record { pb = b; pc = k ∷ xs }) (record { pb = band_max_invalid; pc = [] })
          >>= λ (d0, d1). x_loop op fuel r.0 d0 d1)
  unfolding advance
  after_second r o =
      let lens = ap length (left-start xs) in
      rw (o.bottom ∙ bottom_of_max_second b h.2 h.3) (
        Returns-map
          (rest r.0 (first xs) xs band_max_invalid [] (omega arith) o.written
            (Fits-start _ b.b xs h.4 o.last.1 (omega arith)) refl)
          λ q c. record {
            written = c.written;
            grows = omega (arith, c.grows, o.grows, lens);
            points = λ x.
                regroup _ _ (has_any out x) _ _ (combine op (has_any (b ∷ xs) x) false) (c.points x)
                  (o.points x)
                  (rw (left-start xs) (
                    points_max_second b h.2 h.3 op x (has_any xs x)
                      (has_any-IsSorted b.b xs x h.4)));
          })

or_max_self : (k : Band) → k.s < k.b → or_max k ≡ k
or_max_self k n = ground arith

IsWritten-prevb : (out : List Band) → IsWritten out → (prevb out).b ≤ int_max - 1
IsWritten-prevb [] w = omega arith
IsWritten-prevb (k ∷ out) w = omega arith

x_loop-Combined : (op : OpType) (fuel : ℕ) → Rest op fuel
unfolding x_loop
x_loop-Combined op zero out pb0 pc0 pb1 pc1 short w h0 h1 = absurd (omega arith)
x_loop-Combined op (suc fuel) out pb0 [] pb1 [] short w h0 h1 =
    returns (record {
      written = w;
      points = λ x. combine-nothing op (has_any out x);
      grows = omega arith;
    })
x_loop-Combined op (suc fuel) out pb0 [] pb1 (k ∷ xs) short w h0 h1 =
    rw (h0, or_max_self pb1 h1.2)
      (Returns-bind
        (band_op-Operated band_max_invalid pb1 (omega arith) h1.2 op out w (IsWritten-prevb out w)
          h1.0 (omega arith) h1.1
          (big_below band_max_invalid pb1 (omega arith) h1.2 (inr h1.3) (omega arith) (omega arith)
            (omega arith) (omega arith)))
        (after_first op fuel (x_loop-Combined op fuel) out w pb1 k xs h1 (omega arith)))
x_loop-Combined op (suc fuel) out pb0 (k ∷ xs) pb1 [] short w h0 h1 =
    rw (h1, or_max_self pb0 h0.2)
      (Returns-bind
        (band_op-Operated pb0 band_max_invalid h0.2 (omega arith) op out w h0.0
          (IsWritten-prevb out w) h0.1 (omega arith)
          (big_below pb0 band_max_invalid h0.2 (omega arith) (inl h0.3) (omega arith) (omega arith)
            (omega arith) (omega arith)))
        (after_second op fuel (x_loop-Combined op fuel) out w pb0 k xs h0 (omega arith)))
x_loop-Combined op (suc fuel) out pb0 (k0 ∷ xs0) pb1 (k1 ∷ xs1) short w h0 h1 =
    rw (or_max_self pb0 h0.2, or_max_self pb1 h1.2)
      (Returns-bind
        (band_op-Operated pb0 pb1 h0.2 h1.2 op out w h0.0 h1.0 h0.1 h1.1 (
          big_below pb0 pb1 h0.2 h1.2 (inl h0.3) (omega arith) (omega arith) (omega arith)
            (omega arith)))
        (after op fuel (x_loop-Combined op fuel) out pb0 pb1 k0 k1 xs0 xs1 w h0 h1 short))

-- Two sorted arrays of x-bands are combined without a fault, within the fuel, into a sorted array
-- of at most as many bands as both have together, which holds exactly the coordinates that the operation asks for.
pub x_op-Combined :
    (op : OpType) (xs0 xs1 : List Band)
    → IsSorted (int_min + 1) xs0
    → IsSorted (int_min + 1) xs1
    → Returns
        (λ r.
          IsWritten r
          × (length r ≤ length xs0 + length xs1)
          × ((x : ℕ) → has_any r x ≡ combine op (has_any xs0 x) (has_any xs1 x)))
        (x_op op xs0 xs1)
unfolding x_op
x_op-Combined op xs0 xs1 h0 h1 =
    Returns-map
      (rw (left-start xs0, left-start xs1) at
        (x_loop-Combined op (length xs0 + length xs1 + 1) [] (first xs0) xs0 (first xs1) xs1
          (omega arith) tt (Fits-start _ _ xs0 h0 (omega arith) (omega arith))
          (Fits-start _ _ xs1 h1 (omega arith) (omega arith))))
      λ r c. (c.written, omega (arith, c.grows), c.points)
