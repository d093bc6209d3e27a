-- ===== src/Listl/Visit.antt =====
-- src/ylistl.h: what the iterations visit.
use ylib.Base.{
  ℕ, zero, suc, ◌+◌, ◌<◌, ◌≡◌, ◌∙◌, ap, refl, ltb, Bool, true, false, ◌||◌, List, [], ◌∷◌, length,
  ◌==◌, if◌then◌else◌, arith,
}
use ylib.Base.Run.{done}
use ylib.Listl.{
  Memory, foreach_from, foreach, foreach_safe, safe_from, int_limit, count, size, contains_from,
  contains,
}
use ylib.Listl.Links.{Links, Outside, IsList}

-- is the link in the sequence?
abbrev pub has : List ℕ → ℕ → Bool
has [] n = false
has (x ∷ xs) n = x == n || has xs n

step : (b c : Bool) → (if b then done true else done c) ≡ done (b || c)
step true c = refl
step false c = refl

self : (n : ℕ) → (n == n) ≡ true
self n = ground arith

foreach_from-Links :
    (m : Memory) (fuel head a : ℕ) (xs : List ℕ)
    → length xs < fuel
    → Outside head xs
    → Links m a xs head
    → foreach_from m head fuel (m.next a) ≡ done xs
unfolding foreach_from
foreach_from-Links m zero head a xs short o l = absurd (omega arith)
foreach_from-Links m (suc fuel) head a [] short o l = rw (l.0, self head) refl
foreach_from-Links m (suc fuel) head a (x ∷ xs) short o (e, f, l) =
    let other : (x == head) ≡ false = ground (arith, o.0) in
    rw (e, other, foreach_from-Links m fuel head x xs (omega arith) o.1 l) refl

contains_from-Links :
    (m : Memory) (fuel head node a : ℕ) (xs : List ℕ)
    → length xs < fuel
    → Outside head xs
    → Links m a xs head
    → contains_from m head node fuel (m.next a) ≡ done (has xs node)
unfolding contains_from
contains_from-Links m zero head node a xs short o l = absurd (omega arith)
contains_from-Links m (suc fuel) head node a [] short o l = rw (l.0, self head) refl
contains_from-Links m (suc fuel) head node a (x ∷ xs) short o (e, f, l) =
    let other : (x == head) ≡ false = ground (arith, o.0) in
    rw (e, other, contains_from-Links m fuel head node x xs (omega arith) o.1 l)
      (step (x == node) (has xs node))

-- the counter does not overflow
count_lem : (xs : List ℕ) (n : ℕ) → n + length xs < int_limit → count xs n ≡ done (n + length xs)
unfolding count
count_lem [] n h = ap done (omega arith)
count_lem (x ∷ xs) n h =
    let fits : ltb (n + 1) int_limit ≡ true = ground (arith, h) in
    rw fits (count_lem xs (n + 1) (omega arith) ∙ ap done (omega arith))

-- On a list of fewer than 2 ^ 31 links, `ylistl_foreach` visits its links in order, `ylistl_size`
-- counts them and `ylistl_contains` finds them, within one round for each link and one more. `ylistl_foreach_safe`
-- visits none: it starts at the head, where it ends.
pub foreach_lem :
    (m : Memory) (head node : ℕ) (xs : List ℕ)
    → IsList m head xs
    → length xs < int_limit
    → (foreach m (length xs + 1) head ≡ done xs)
      × (size m (length xs + 1) head ≡ done (length xs))
      × (contains m (length xs + 1) head node ≡ done (has xs node))
      × (foreach_safe m 1 head ≡ done [])
unfolding foreach size contains foreach_safe safe_from
foreach_lem m head node xs v few =
    let visited =
      foreach_from-Links m (length xs + 1) head head xs (omega arith) v.distinct.0 v.links in
    let found =
      contains_from-Links m (length xs + 1) head node head xs (omega arith) v.distinct.0 v.links in
    (
      visited,
      rw visited (count_lem xs 0 (omega arith) ∙ ap done (omega arith)),
      found,
      rw (self head) refl,
    )
