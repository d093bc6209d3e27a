-- ===== src/Heap/Up.antt =====
-- src/heap.c: `up`, which restores the order above an element.
use Prim.Native.Nat.{Ordering, compare}
use ylib.Base.{ℕ, zero, suc, ◌+◌, ◌/◌, ◌≤◌, ◌<◌, ◌≡◌, true, ltb, leb, arith, Bool-cases, inl, inr}
use ylib.Base.Run.{Returns, returns, Returns-map}
use ylib.Heap.{Heap, up_loop, up}
use ylib.Heap.Swap.{IsSized, IsIndexed, count, swapped, lasti-count, swap_lem, swapped-IsIndexed}
use ylib.Heap.Order.{at, IsRising, IsRising-swapped, IsOrdered-risen}
use ylib.Heap.Down.{
  Shuffled-refl, Shuffled-swapped, swapped-IsSized, greater_lem, cmp_at_lem, Settled,
}

module _ (cmp : ℕ → ℕ → Ordering) (key : ℕ → ℕ)
    (by_key : (a b : ℕ) → cmp a b ≡ compare (key a) (key b)) where
  up_loop-Settled :
      (fuel : ℕ) (h : Heap) (i : ℕ)
      → IsSized h
      → IsIndexed h
      → IsRising key h i
      → 1 ≤ i
      → i ≤ count h
      → i < fuel
      → Returns (Settled cmp key by_key 1 h) (up_loop cmp fuel h i)
  unfolding up_loop
  up_loop-Settled zero h i s x rise one k short = absurd (omega arith)
  up_loop-Settled (suc fuel) h i s x rise one k short = elim (Bool-cases (ltb 0 (i / 2))) [
    | inl e ↦
        let compared = cmp_at_lem cmp key by_key h i (i / 2) s k (omega arith) in
        elim (Bool-cases (ltb (at key h (i / 2)) (at key h i))) [
          | inl f ↦
              rw
                (
                  swap_lem h i (i / 2) s one k (ground arith) (omega arith),
                  e,
                  compared,
                  greater_lem cmp key by_key (h.slots i) (h.slots (i / 2)),
                  f,
                )
                (Returns-map
                  (up_loop-Settled fuel (swapped h i (i / 2)) (i / 2)
                    (swapped-IsSized h i (i / 2) s)
                    (swapped-IsIndexed h i (i / 2) x one k (ground arith) (omega arith))
                    (IsRising-swapped key h i rise (ground arith) k (ground arith)) (ground arith)
                    (omega arith) (omega arith))
                  λ h' t. record {
                    shuffled =
                        Shuffled-swapped h h' i (i / 2) x one k (ground arith) (omega arith)
                          t.shuffled;
                    ordered = t.ordered;
                  })
          | inr f ↦
              rw (e, compared, greater_lem cmp key by_key (h.slots i) (h.slots (i / 2)), f)
                (returns (record {
                  shuffled = Shuffled-refl h s x;
                  ordered = IsOrdered-risen key h i rise (λ two. ground arith);
                }))
        ]
    | inr e ↦ rw e (
        returns (record {
          shuffled = Shuffled-refl h s x;
          ordered = IsOrdered-risen key h i rise (λ two. absurd (ground arith));
        }))
  ]

  pub up-Settled :
      (h : Heap) (i : ℕ)
      → IsSized h
      → IsIndexed h
      → IsRising key h i
      → 1 ≤ i
      → i ≤ count h
      → Returns (Settled cmp key by_key 1 h) (up cmp h i)
  unfolding up
  up-Settled h i s x rise one k =
      let last = lasti-count h s in
      let positive : ltb 0 i ≡ true = ground arith in
      let inside : leb i (count h) ≡ true = ground arith in
      rw (last, positive, inside) (up_loop-Settled (i + 1) h i s x rise one k (omega arith))
