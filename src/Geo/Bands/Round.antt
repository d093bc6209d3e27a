-- ===== src/Geo/Bands/Round.antt =====
-- src/geo/rgn.c: a round of the x-band loop where both sides have bands.
use ylib.Base.{
  ℕ, suc, ◌+◌, ◌≤◌, ◌<◌, ◌≡◌, ap, refl, inl, inr, Bool, false, ◌||◌, List, length, [], ◌∷◌, arith,
  Bool-cases,
}
use ylib.Base.Run.{Run, ◌>>=◌, Returns, Returns-map}
use ylib.Geo.Band.{Band, int_min, int_max, is_empty, has}
use ylib.Geo.Bands.{
  OpType, prevb, Bottom, bottom_of, first, or_max, band_max_invalid, advance, x_loop,
}
use ylib.Geo.Bands.Sorted.{IsSorted, IsWritten, has_any, has_any-IsSorted}
use ylib.Geo.Bands.Step.{
  combine, Operated, layout-Laid, bottom_first, bottom_second, points_empty, points_first,
  points_second,
}

-- what is left of an array at a cursor
abbrev pub left : Band → List Band → List Band
left pb [] = []
left pb (_ ∷ xs) = pb ∷ xs

-- A cursor behind everything that is written, which ends at `f`.
abbrev pub Fits : ℕ → Band → List Band → Type 0
Fits f pb [] = or_max pb ≡ band_max_invalid
Fits f pb (_ ∷ xs) =
    (f ≤ pb.s) × (int_min + 1 < pb.s) × (pb.s < pb.b) × (pb.b < int_max) × IsSorted pb.b xs

-- the loop's result: `out` and the operation on what is left
pub record Combined (op : OpType) (out xs0 xs1 : List Band) (r : List Band) : Type 0 where
  pub written : IsWritten r
  pub points : (x : ℕ) → has_any r x ≡ (has_any out x || combine op (has_any xs0 x) (has_any xs1 x))
  pub grows : length r ≤ length out + length xs0 + length xs1

-- the start of an array behind a band that ends at `e`
pub Fits-start :
    (f e : ℕ) (xs : List Band) → IsSorted e xs → f ≤ e → int_min + 1 ≤ e → Fits f (first xs) xs
Fits-start f e [] h p q = refl
Fits-start f e (k ∷ xs) h p q = (omega arith, omega arith, h.1, h.2, h.3)

pub left-start : (xs : List Band) → left (first xs) xs ≡ xs
left-start [] = refl
left-start (k ∷ xs) = refl

-- the parts of a result, put together
pub regroup : (r o' o d c t : Bool) → r ≡ (o' || c) → o' ≡ (o || d) → (d || c) ≡ t → r ≡ (o || t)
regroup r o' o d c t p q e = ground arith

module _ (op : OpType) (fuel : ℕ) where
  -- the induction hypothesis of the loop, for the cursors after one round
  abbrev pub Rest : Type 0
  Rest =
      (out : List Band) (pb0 : Band) (pc0 : List Band) (pb1 : Band) (pc1 : List Band)
      → length pc0 + length pc1 < fuel
      → IsWritten out
      → Fits (prevb out).b pb0 pc0
      → Fits (prevb out).b pb1 pc1
      → Returns (Combined op out (left pb0 pc0) (left pb1 pc1))
          (x_loop op fuel out (record { pb = pb0; pc = pc0 }) (record { pb = pb1; pc = pc1 }))

  -- one round where both sides have bands
  module _ (rest : Rest) (out : List Band) (b0 b1 k0 k1 : Band) (xs0 xs1 : List Band)
      (w : IsWritten out) (h0 : Fits (prevb out).b b0 (k0 ∷ xs0))
      (h1 : Fits (prevb out).b b1 (k1 ∷ xs1))
      (short : suc (length xs0) + suc (length xs1) < suc fuel) where
    abbrev ends : List Band × Bottom → Run (List Band)
    ends (out', bot) =
        advance bot (record { pb = b0; pc = k0 ∷ xs0 }) (record { pb = b1; pc = k1 ∷ xs1 })
        >>= λ (d0, d1). x_loop op fuel out' d0 d1

    -- coordinates up to the end of a band are not in the bands behind it
    behind0 : (x : ℕ) → x ≤ b0.b → has_any xs0 x ≡ false
    behind0 x = has_any-IsSorted b0.b xs0 x h0.4

    behind1 : (x : ℕ) → x ≤ b1.b → has_any xs1 x ≡ false
    behind1 x = has_any-IsSorted b1.b xs1 x h1.4

    abbrev all : ℕ → Bool
    all x = combine op (has b0 x || has_any xs0 x) (has b1 x || has_any xs1 x)

    pub after :
        (r : List Band × Bottom)
        → Operated op out b0 b1 r
        → Returns (Combined op out (b0 ∷ xs0) (b1 ∷ xs1)) (ends r)
    unfolding advance
    after (out', bot) o =
        let lens : (length (left (first xs0) xs0) ≡ length xs0)
            × (length (left (first xs1) xs1) ≡ length xs1) =
          (ap length (left-start xs0), ap length (left-start xs1)) in
        let laid = layout-Laid b0 b1 h0.2 h1.2 in
        let fits0 = Fits-start (prevb out').b b0.b xs0 h0.4 o.last.1 (omega arith) in
        let fits1 = Fits-start (prevb out').b b1.b xs1 h1.4 o.last.2 (omega arith) in
        elim (Bool-cases (is_empty (bottom_of b0 b1).rest)) [
          | inl e ↦
              rw (o.bottom, e)
                (Returns-map
                  (rest out' (first xs0) xs0 (first xs1) xs1 (omega arith) o.written fits0 fits1)
                  λ r c. record {
                    written = c.written;
                    grows = omega (arith, c.grows, o.grows, lens);
                    points = λ x.
                        regroup _ _ (has_any out x) _ _ (all x) (c.points x) (o.points x) (
                          rw (left-start xs0, left-start xs1)
                            (points_empty b0 b1 h0.2 h1.2 x (has_any xs0 x) (has_any xs1 x)
                              (behind0 x) (behind1 x) op e));
                  })
          | inr e ↦ elim (Bool-cases (bottom_of b0 b1).from_first) [
            | inl f ↦
                let end = bottom_first b0 b1 h0.2 h1.2 e f in
                rw (o.bottom, e, f)
                  (Returns-map
                    (rest out' (bottom_of b0 b1).rest (k0 ∷ xs0) (first xs1) xs1 (omega arith)
                      o.written
                      (
                        o.last.0,
                        omega (arith, laid.big_after),
                        ground arith,
                        omega arith,
                        rw end h0.4,
                      )
                      fits1)
                    λ r c. record {
                      written = c.written;
                      grows = omega (arith, c.grows, o.grows, lens);
                      points = λ x.
                          regroup _ _ (has_any out x) _ _ (all x) (c.points x) (o.points x) (
                            rw (left-start xs1) (
                              points_first b0 b1 h0.2 h1.2 x (has_any xs0 x) (has_any xs1 x)
                                (behind0 x) (behind1 x) op e f));
                    })
            | inr f ↦
                let end = bottom_second b0 b1 h0.2 h1.2 e f in
                rw (o.bottom, e, f)
                  (Returns-map
                    (rest out' (first xs0) xs0 (bottom_of b0 b1).rest (k1 ∷ xs1) (omega arith)
                      o.written fits0
                      (
                        o.last.0,
                        omega (arith, laid.big_after),
                        ground arith,
                        omega arith,
                        rw end h1.4,
                      ))
                    λ r c. record {
                      written = c.written;
                      grows = omega (arith, c.grows, o.grows, lens);
                      points = λ x.
                          regroup _ _ (has_any out x) _ _ (all x) (c.points x) (o.points x) (
                            rw (left-start xs0) (
                              points_second b0 b1 h0.2 h1.2 x (has_any xs0 x) (has_any xs1 x)
                                (behind0 x) (behind1 x) op e f));
                    })
          ]
        ]
