-- ===== src/Geo/Rgn/Result.antt =====
-- src/geo/rgn.c: `rgn_op` computes union, intersection and difference of regions, where the buffer
-- does not move.
use ylib.Base.{
  ℕ, ◌+◌, ◌*◌, ◌<◌, ◌≡◌, ◌∙◌, refl, inl, inr, Bool, false, Option, none, some, length, [], arith,
  Option-cases, ◌/◌, u32_mod,
}
use ylib.Base.Run.{Returns, returns, Returns-map}
use ylib.Dynb
use ylib.Dynb.{Dynb}
use ylib.Dynb.Create
use ylib.Geo.Band.{int_min}
use ylib.Geo.Bands.{OpType}
use ylib.Geo.Bands.Step.{combine}
use ylib.Geo.Rgn.{Rgn, first_yb, first_xbs, rgn_op}
use ylib.Geo.Rgn.Valid.{contains, IsRgn}
use ylib.Geo.Rgn.Loop.{IsNarrow, Refused, Ended, FitsRgn-start, left-start}
use ylib.Geo.Rgn.Rounds.{rgn_loop-Ended}

-- What a region operation may return: NULL if the allocator refused a request, or a valid region
-- that holds exactly the points that the operation asks for.
abbrev pub IsAnswer : (ℕ → Bool) → OpType → Rgn → Rgn → Option Rgn → Type 0
IsAnswer grant op g0 g1 none = Refused grant
IsAnswer grant op g0 g1 (some g) =
    IsRgn (int_min + 2) g
    × ((x y : ℕ) → contains g x y ≡ combine op (contains g0 x y) (contains g1 x y))

IsAnswer-Ended :
    (grant : ℕ → Bool) (op : OpType) (g0 g1 : Rgn) (r : Option Rgn)
    → Ended grant op g0 g1 (λ x y. false) r
    → IsAnswer grant op g0 g1 r
IsAnswer-Ended grant op g0 g1 none e = e
IsAnswer-Ended grant op g0 g1 (some g) e = (e.valid, e.points)

-- On two valid regions whose rows have at most `m` x-bands, with the sizes below 2 ^ 32 bytes and a
-- `yrealloc` that does not move the buffer, `rgn_op` ends without a fault: it writes inside
-- its buffer only, the sentinel at the end included, never through a constant, reads no array past its sentinel, and its loop ends. It
-- returns NULL after a refused request only, and otherwise a valid region that holds exactly the
-- points of the union, intersection or difference.
pub rgn_op-IsAnswer :
    (grant : ℕ → Bool) (op : OpType) (m : ℕ) (g0 g1 : Rgn)
    → IsRgn (int_min + 2) g0
    → IsRgn (int_min + 2) g1
    → IsNarrow m g0
    → IsNarrow m g1
    → (length g0 + length g1) * (4 * m + 10) * 16 < u32_mod
    → Returns (IsAnswer grant op g0 g1) (rgn_op grant false op g0 g1)
unfolding rgn_op
rgn_op-IsAnswer grant op m g0 g1 h0 h1 w0 w1 small =
    elim (Option-cases (Dynb.create grant (4096 / 8) 8 1)) [
      | inl e ↦
          rw (e, rgn_op) (returns (Create.create-refused grant (4096 / 8) 8 1 (omega arith) e))
      | inr (d, e) ↦
          let (v, empty, limit, size) =
            Create.create-IsValid grant (4096 / 8) 8 1 (omega (arith, Create.elemsz-band))
              (omega arith) e in
          rw (e, rgn_op)
            (Returns-map
              (rw (left-start g0, left-start g1) at
                (rgn_loop-Ended grant op m (length g0 + length g1 + 1) d
                  (record { rbs = []; moved = false; room = Dynb.freesz d }) (first_yb g0)
                  (first_xbs g0) g0 (first_yb g1) (first_xbs g1) g1 (omega arith)
                  (record {
                    valid = v;
                    band_sized = size ∙ Create.elemsz-band;
                    for_sentinel = omega (arith, empty, limit);
                    budget = rw empty (omega (arith, small));
                  })
                  tt refl (FitsRgn-start _ _ g0 h0 (omega arith) (omega arith))
                  (FitsRgn-start _ _ g1 h1 (omega arith) (omega arith)) w0 w1))
              (IsAnswer-Ended grant op g0 g1))
    ]
