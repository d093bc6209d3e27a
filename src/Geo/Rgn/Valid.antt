-- ===== src/Geo/Rgn/Valid.antt =====
-- src/geo/rgn.c: valid regions, the points that they hold, and how a rect band is added.
use mathlib.Core.List.{reverse_aux}
use ylib.Base.{
  ℕ, ◌+◌, ◌≤◌, ◌<◌, ◌≡◌, refl, inl, inr, Bool, true, false, ◌&&◌, ◌||◌, List, length, [], ◌∷◌,
  arith, ltb, if◌then◌else◌, Bool-cases,
}
use ylib.Base.Run.{Run, ◌>>=◌, Returns, returns}
use ylib.Geo.Band.{Band, band, int_min, int_max, is_empty, has}
use ylib.Geo.Bands.Sorted.{IsSorted, has_any}
use ylib.Geo.Rgn.{RectBand, Rgn, Out, prevrb, merge, same_xbs, rband_can_merge, write_rband}

-- is the point in the region?
abbrev pub contains : Rgn → ℕ → ℕ → Bool
contains [] x y = false
contains (r ∷ g) x y = (has r.yb y && has_any r.xbs x) || contains g x y

-- the x-bands of a rect band
abbrev pub IsRow : List Band → Type 0
IsRow xbs = (0 < length xbs) × IsSorted (int_min + 1) xbs

-- The y-bands are not empty, ascend from `lo` without overlap and stay below INT_MAX, and each has
-- x-bands, sorted and with gaps.
abbrev pub IsRgn : ℕ → Rgn → Type 0
IsRgn lo [] = Unit
IsRgn lo (r ∷ g) =
    (lo ≤ r.yb.s) × (r.yb.s < r.yb.b) × (r.yb.b < int_max) × IsRow r.xbs × IsRgn r.yb.b g

-- where the next y-band may start
abbrev pub last_y : Rgn → ℕ
last_y [] = int_min + 2
last_y (r ∷ _) = r.yb.b

-- the same of what has been written, the newest rect band first
abbrev pub IsWrittenRgn : Rgn → Type 0
IsWrittenRgn [] = Unit
IsWrittenRgn (r ∷ g) =
    (last_y g ≤ r.yb.s)
    × (int_min + 1 < r.yb.s)
    × (r.yb.s < r.yb.b)
    × (r.yb.b < int_max)
    × IsRow r.xbs
    × IsWrittenRgn g

pub contains-IsRgn : (lo : ℕ) (g : Rgn) (x y : ℕ) → IsRgn lo g → y < lo → contains g x y ≡ false
contains-IsRgn lo [] x y h b = refl
contains-IsRgn lo (r ∷ g) x y h b = ground (arith, contains-IsRgn r.yb.b g x y h.4)

pub reverse_aux-IsRgn :
    (out acc : Rgn)
    → IsWrittenRgn out
    → IsRgn (last_y out) acc
    → IsRgn (int_min + 2) (reverse_aux out acc)
reverse_aux-IsRgn [] acc w h = h
reverse_aux-IsRgn (r ∷ out) acc (a, l, n, b, k, w) h =
    reverse_aux-IsRgn out (r ∷ acc) w (a, n, b, k, h)

pub contains-reverse_aux :
    (out acc : Rgn) (x y : ℕ)
    → contains (reverse_aux out acc) x y ≡ (contains out x y || contains acc x y)
contains-reverse_aux [] acc x y = refl
contains-reverse_aux (r ∷ out) acc x y = ground (arith, contains-reverse_aux out (r ∷ acc) x y)

-- rows that the comparison accepts hold the same coordinates
pub same_xbs-points :
    (xs ys : List Band) (x : ℕ) → same_xbs xs ys ≡ true → has_any xs x ≡ has_any ys x
unfolding same_xbs
same_xbs-points [] [] x e = refl
same_xbs-points [] (l ∷ ys) x e = absurd (cc)
same_xbs-points (k ∷ xs) [] x e = absurd (cc)
same_xbs-points (k ∷ xs) (l ∷ ys) x e = ground (arith, same_xbs-points xs ys x)

-- `o'` is `o` with a rect band put behind it, or its newest y-band lengthened
pub record AddedRgn (o : Out) (yb : Band) (xbs : List Band) (o' : Out) : Type 0 where
  pub written : IsWrittenRgn o'.rbs
  pub last : last_y o'.rbs ≡ (if is_empty yb then last_y o.rbs else yb.b)
  pub points : (x y : ℕ) → contains o'.rbs x y ≡ (contains o.rbs x y || (has yb y && has_any xbs x))
  pub unmoved : o'.moved ≡ false
  pub room_used : (o'.room ≤ o.room) × (o.room ≤ o'.room + (length xbs + 2))

-- a band that touches the newest rect band and has its row lengthens it
merge_points :
    (a b c y : ℕ) (row rest : Bool)
    → a < b
    → b < c
    → ((has (band a c) y && row) || rest)
      ≡ (((has (band a b) y && row) || rest) || (has (band b c) y && row))
merge_points a b c y row rest p q = ground arith

-- `rband_add` and the end of `rband_op_overlap`, at a y-band and x-bands that are not empty
abbrev pub add_to : Band → List Band → Out → Run Out
add_to yb xbs o =
    prevrb o >>= λ p. if rband_can_merge p yb xbs then merge o yb else write_rband o yb xbs

module _ (yb : Band) (xbs : List Band) (some_width : yb.s < yb.b) (low : int_min + 1 < yb.s)
    (high : yb.b < int_max) (row : IsRow xbs) where
  write-AddedRgn :
      (o : Out)
      → IsWrittenRgn o.rbs
      → last_y o.rbs ≤ yb.s
      → length xbs + 2 ≤ o.room
      → Returns (AddedRgn o yb xbs) (write_rband o yb xbs)
  write-AddedRgn o w above fits = elim (Bool-cases (ltb o.room (length xbs + 2))) [
    | inl e ↦ absurd (ground arith)
    | inr e ↦ rw e (
        returns (record {
          written = (above, low, some_width, high, row, w);
          last = ground arith;
          points = λ x y. ground arith;
          unmoved = refl;
          room_used = omega arith;
        }))
  ]

  join-AddedRgn :
      (r : RectBand) (g : Rgn) (room : ℕ)
      → IsWrittenRgn (r ∷ g)
      → r.yb.b ≤ yb.s
      → rband_can_merge r yb xbs ≡ true
      → Returns
          (AddedRgn (record { rbs = r ∷ g; moved = false; room = room }) yb xbs)
          (merge (record { rbs = r ∷ g; moved = false; room = room }) yb)
  unfolding rband_can_merge
  join-AddedRgn r g room (a, l, n, h, k, w) above e =
      let touch : r.yb.b ≡ yb.s = ground arith in
      let same : same_xbs r.xbs xbs ≡ true = ground arith in
      returns (record {
        written = (a, l, omega arith, high, k, w);
        last = ground arith;
        points = λ x y. ground (
          arith,
          merge_points r.yb.s r.yb.b yb.b y (has_any r.xbs x) (contains g x y),
          same_xbs-points r.xbs xbs x same,
        );
        unmoved = refl;
        room_used = omega arith;
      })

  add_to-first :
      (room : ℕ)
      → length xbs + 2 ≤ room
      → Returns
          (AddedRgn (record { rbs = []; moved = false; room = room }) yb xbs)
          (add_to yb xbs (record { rbs = []; moved = false; room = room }))
  unfolding rband_can_merge
  add_to-first room fits =
      let below : ltb (int_min + 1) yb.s ≡ true = ground arith in
      rw below
        (write-AddedRgn (record { rbs = []; moved = false; room = room }) tt (omega arith) fits)

  pub add_to-AddedRgn :
      (g : Rgn) (moved : Bool) (room : ℕ)
      → IsWrittenRgn g
      → moved ≡ false
      → last_y g ≤ yb.s
      → length xbs + 2 ≤ room
      → Returns
          (AddedRgn (record { rbs = g; moved = moved; room = room }) yb xbs)
          (add_to yb xbs (record { rbs = g; moved = moved; room = room }))
  add_to-AddedRgn g true room w still above fits = absurd (cc)
  add_to-AddedRgn [] false room w still above fits = add_to-first room fits
  add_to-AddedRgn (r ∷ g) false room w still above fits =
      elim (Bool-cases (rband_can_merge r yb xbs)) [
        | inl e ↦ rw e (join-AddedRgn r g room w above e)
        | inr e ↦
            rw e (write-AddedRgn (record { rbs = r ∷ g; moved = false; room = room }) w above fits)
      ]
