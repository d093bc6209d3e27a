-- ===== src/Heap/Heapify.antt =====
-- src/heap.c: `yheap_heapify`, after the value of one node has changed.
use Prim.Native.Nat.{Ordering, compare}
use ylib.Base.{
  ℕ, ◌/◌, ◌≤◌, ◌<◌, ◌≡◌, ◌≢◌, ◌↔◌, false, ◌&&◌, not, ltb, leb, ◌==◌, arith, Bool-cases, inl, inr,
}
use ylib.Base.Run.{Returns, Returns-map}
use ylib.Heap.{Heap, lasti, down, heapify}
use ylib.Heap.Swap.{In, count, lasti-count}
use ylib.Heap.Order.{at, IsSinking, IsRising}
use ylib.Heap.Down.{Settled, down-Settled, cmp_at_lem, greater_lem}
use ylib.Heap.Up.{up-Settled}
use ylib.Heap.Push.{IsHeap}

module _ (before key : ℕ → ℕ) (h : Heap) (e : ℕ) (v : IsHeap before h) (here : In h e)
    (same : (n : ℕ) → n ≢ e → before n ≡ key n) where
  at-same : (j : ℕ) → 1 ≤ j → j ≤ count h → j ≢ h.index e → at before h j ≡ at key h j
  at-same j one k other = same (h.slots j) λ m. other (ground (arith, v.indexed j one k, m))

  -- two elements other than the changed one keep their order
  order-kept :
      (i j : ℕ)
      → 1 ≤ i
      → i ≤ count h
      → i ≢ h.index e
      → 1 ≤ j
      → j ≤ count h
      → j ≢ h.index e
      → at before h i ≤ at before h j
      → at key h i ≤ at key h j
  order-kept i j p k q l m r o = ground (arith, at-same i p k q, at-same j l m r)

  -- the children of the changed element are not greater than its parent
  child-kept :
      (j : ℕ)
      → 2 ≤ j
      → j ≤ count h
      → j / 2 ≡ h.index e
      → 2 ≤ h.index e
      → at key h j ≤ at key h (h.index e / 2)
  child-kept j two k child inner =
      order-kept j (h.index e / 2) (omega arith) k (omega arith) (omega arith)
        (omega (arith, here.1)) (omega arith)
        (ground (arith, v.ordered j two k, v.ordered (h.index e) inner here.1))

  -- a pair without the changed element keeps its order
  other-kept :
      (j : ℕ)
      → 2 ≤ j
      → j ≤ count h
      → j ≢ h.index e
      → j / 2 ≢ h.index e
      → at key h j ≤ at key h (j / 2)
  other-kept j two k mine above =
      order-kept j (j / 2) (omega arith) k mine (omega arith) (omega arith) above
        (v.ordered j two k (omega arith))

  changed-IsRising :
      2 ≤ h.index e → at key h (h.index e / 2) < at key h (h.index e) → IsRising key h (h.index e)
  changed-IsRising inner more j two k = (
    λ mine. elim (Bool-cases (j / 2 == h.index e)) [
      | inl child ↦ ground (arith, child-kept j two k)
      | inr above ↦ other-kept j two k mine (λ child. absurd (ground arith))
    ],
    child-kept j two k,
  )

  changed-IsSinking :
      (2 ≤ h.index e → at key h (h.index e) ≤ at key h (h.index e / 2))
      → IsSinking key 1 h (h.index e)
  changed-IsSinking less j two k = (
    λ m above. elim (Bool-cases (j == h.index e)) [
      | inl mine ↦ ground (arith, less)
      | inr mine ↦ other-kept j two k (λ eq. absurd (ground arith)) above
    ],
    λ child m inner. child-kept j two k child inner,
  )

module _ (cmp : ℕ → ℕ → Ordering) (key : ℕ → ℕ)
    (by_key : (a b : ℕ) → cmp a b ≡ compare (key a) (key b)) where
  -- `yheap_heapify` of a node of the heap ends without a fault: a heap that was valid for the keys
  -- `before`, which differ from the present ones at that node only, becomes a valid heap of the same nodes.
  pub heapify-IsHeap :
      (before : ℕ → ℕ) (h : Heap) (e : ℕ)
      → IsHeap before h
      → In h e
      → ((n : ℕ) → n ≢ e → before n ≡ key n)
      → Returns (λ h'. IsHeap key h' × ((n : ℕ) → In h' n ↔ In h n)) (heapify cmp h e)
  unfolding heapify
  heapify-IsHeap before h e v here same =
      let s = v.sized in
      let i = h.index e in
      let valid : not (ltb 0 i && leb i (lasti h)) ≡ false =
        ground (arith, lasti-count h s, here) in
      let finish : (h' : Heap)
          → Settled cmp key by_key 1 h h'
          → IsHeap key h' × ((n : ℕ) → In h' n ↔ In h n) =
        λ h' t. (
          record { sized = t.shuffled.sized; indexed = t.shuffled.indexed; ordered = t.ordered },
          t.shuffled.same_elements,
        ) in
      let sink : _ → Returns _ (down cmp h i) = λ less.
        Returns-map
          (down-Settled cmp key by_key 1 h i s v.indexed
            (changed-IsSinking before key h e v here same less) here.0 here.1)
          finish in
      elim (Bool-cases (i == 1)) [
        | inl root ↦ rw (valid, root) (sink (λ inner. absurd (ground arith)))
        | inr inner ↦
            let compared = cmp_at_lem cmp key by_key h i (i / 2) s here.1 (omega (arith, here.1)) in
            let order = greater_lem cmp key by_key (h.slots i) (h.slots (i / 2)) in
            elim (Bool-cases (ltb (at key h (i / 2)) (at key h i))) [
              | inl more ↦
                  rw (valid, inner, compared, order, more)
                    (Returns-map
                      (up-Settled cmp key by_key h i s v.indexed
                        (changed-IsRising before key h e v here same (ground (arith, here))
                          (ground arith))
                        here.0 here.1)
                      finish)
              | inr less ↦ rw (valid, inner, compared, order, less) (sink (λ inner. ground arith))
            ]
      ]
