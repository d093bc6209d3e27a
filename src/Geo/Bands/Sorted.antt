-- ===== src/Geo/Bands/Sorted.antt =====
-- src/geo/rgn.c: sorted arrays of bands, the coordinates that they hold, and `band_add`.
use ylib.Base.{
  ℕ, ◌+◌, ◌≤◌, ◌<◌, ◌≡◌, ◌∙◌, refl, inl, inr, Bool, false, ◌&&◌, ◌||◌, not, List, length, [], ◌∷◌,
  arith, ◌==◌, if◌then◌else◌, Bool-cases,
}
use mathlib.Core.List.{reverse_aux}
use ylib.Base.Run.{Returns, returns}
use ylib.Geo.Band.{Band, band, int_min, int_max, is_empty, has}
use ylib.Geo.Bands.{prevb, merge, band_add}

-- The bands are not empty, ascend from above `lo` with a gap before each, and stay below INT_MAX.
abbrev pub IsSorted : ℕ → List Band → Type 0
IsSorted lo [] = Unit
IsSorted lo (k ∷ xs) = (lo < k.s) × (k.s < k.b) × (k.b < int_max) × IsSorted k.b xs

-- the same of what has been written, the newest band first
abbrev pub IsWritten : List Band → Type 0
IsWritten [] = Unit
IsWritten (k ∷ out) = ((prevb out).b < k.s) × (k.s < k.b) × (k.b < int_max) × IsWritten out

-- is the coordinate in one of the bands?
abbrev pub has_any : List Band → ℕ → Bool
has_any [] x = false
has_any (k ∷ xs) x = has k x || has_any xs x

pub has_any-IsSorted :
    (lo : ℕ) (xs : List Band) (x : ℕ) → IsSorted lo xs → x ≤ lo → has_any xs x ≡ false
has_any-IsSorted lo [] x h b = refl
has_any-IsSorted lo (k ∷ xs) x h b = ground (arith, has_any-IsSorted k.b xs x h.3)

-- `out'` is `out` with the band `k` put behind it, or merged with its newest band
pub record Added (out : List Band) (k : Band) (out' : List Band) : Type 0 where
  pub written : IsWritten out'
  pub last : (prevb out').b ≡ (if is_empty k then (prevb out).b else k.b)
  pub points : (x : ℕ) → has_any out' x ≡ (has_any out x || has k x)
  pub grows :
      length out' ≤ length out + (if not (is_empty k) && not ((prevb out).b == k.s) then 1 else 0)

-- two bands that touch hold what the joined band holds
has-join :
    (a b c x : ℕ) (rest : Bool)
    → a < b
    → b < c
    → (has (band a c) x || rest) ≡ ((has (band a b) x || rest) || has (band b c) x)
has-join a b c x rest p q = ground arith

merge-Added :
    (out : List Band) (k : Band)
    → IsWritten out
    → (prevb out).b ≡ k.s
    → int_min + 1 < k.s
    → k.s < k.b
    → k.b < int_max
    → Returns (Added out k) (merge out k)
merge-Added [] k w touch low some_width high = absurd (omega arith)
merge-Added (p ∷ out) k (g, n, h, w) touch low some_width high = returns (record {
  written = (g, omega arith, high, w);
  last = ground arith;
  points = λ x. has-join p.s k.s k.b x (has_any out x) (omega arith) some_width ∙ joined x;
  grows = omega arith;
})
  where
    joined :
        (x : ℕ)
        → ((has (band p.s k.s) x || has_any out x) || has k x)
          ≡ ((has p x || has_any out x) || has k x)
    joined x = rw (← touch)

pub band_add-Added :
    (out : List Band) (k : Band)
    → IsWritten out
    → (prevb out).b ≤ k.s
    → int_min + 1 < k.s
    → k.b < int_max
    → Returns (Added out k) (band_add out k)
unfolding band_add
band_add-Added out k w above low high = elim (Bool-cases (is_empty k)) [
  | inl e ↦ rw e (
      returns (record {
        written = w;
        last = ground arith;
        points = λ x. ground arith;
        grows = ground arith;
      }))
  | inr e ↦ elim (Bool-cases ((prevb out).b == k.s)) [
    | inl touch ↦ rw (e, touch) (merge-Added out k w (ground arith) low (ground arith) high)
    | inr gap ↦
        rw (e, gap)
          (returns (record {
            written = ground arith;
            last = ground arith;
            points = λ x. ground arith;
            grows = ground arith;
          }))
  ]
]

-- what is written, read from its first band on
pub reverse_aux-IsSorted :
    (out acc : List Band)
    → IsWritten out
    → IsSorted (prevb out).b acc
    → IsSorted (int_min + 1) (reverse_aux out acc)
reverse_aux-IsSorted [] acc w h = h
reverse_aux-IsSorted (k ∷ out) acc (g, n, b, w) h =
    reverse_aux-IsSorted out (k ∷ acc) w (g, n, b, h)

pub has_any-reverse_aux :
    (out acc : List Band) (x : ℕ)
    → has_any (reverse_aux out acc) x ≡ (has_any out x || has_any acc x)
has_any-reverse_aux [] acc x = refl
has_any-reverse_aux (k ∷ out) acc x = ground (arith, has_any-reverse_aux out (k ∷ acc) x)
