-- ===== src/Heap/Order.antt =====
-- src/heap.c: the order of a heap, and what an exchange between a parent and its child makes of it.
use ylib.Base.{ℕ, ◌/◌, ◌≤◌, ◌<◌, ◌≡◌, ◌≢◌, arith}
use ylib.Heap.{Heap}
use ylib.Heap.Swap.{count, swapped}

module _ (key : ℕ → ℕ) where
  -- the key of the element at a position
  abbrev pub at : Heap → ℕ → ℕ
  at h j = key (h.slots j)

  -- no element from a parent `lo` on is greater than its parent
  abbrev pub IsOrdered : ℕ → Heap → Type 0
  IsOrdered lo h = (j : ℕ) → 2 ≤ j → j ≤ count h → lo ≤ j / 2 → at h j ≤ at h (j / 2)

  -- the same, but the element at `i` may be less than its children
  abbrev pub IsSinking : ℕ → Heap → ℕ → Type 0
  IsSinking lo h i =
      (j : ℕ)
      → 2 ≤ j
      → j ≤ count h
      → (lo ≤ j / 2 → j / 2 ≢ i → at h j ≤ at h (j / 2))
        × (j / 2 ≡ i → lo ≤ i / 2 → 2 ≤ i → at h j ≤ at h (i / 2))

  -- the same, but the element at `i` may be greater than its parent
  abbrev pub IsRising : Heap → ℕ → Type 0
  IsRising h i =
      (j : ℕ)
      → 2 ≤ j
      → j ≤ count h
      → (j ≢ i → at h j ≤ at h (j / 2)) × (j / 2 ≡ i → 2 ≤ i → at h j ≤ at h (i / 2))

  pub IsRising-swapped :
      (h : Heap) (i : ℕ)
      → IsRising h i
      → 2 ≤ i
      → i ≤ count h
      → at h (i / 2) < at h i
      → IsRising (swapped h i (i / 2)) (i / 2)
  IsRising-swapped h i r two k up j t l = ground (arith, r i two k, r j t l, r (i / 2))

  pub IsSinking-swapped :
      (lo : ℕ) (h : Heap) (i c : ℕ)
      → IsSinking lo h i
      → 1 ≤ i
      → 2 ≤ c
      → c ≤ count h
      → c / 2 ≡ i
      → at h i < at h c
      → ((j : ℕ) → j ≤ count h → j / 2 ≡ i → at h j ≤ at h c)
      → IsSinking lo (swapped h i c) c
  IsSinking-swapped lo h i c s one two k child less most j t l =
      ground (arith, s j t l, s c two k, most j l, s i)

  pub IsOrdered-sunk :
      (lo : ℕ) (h : Heap) (i : ℕ)
      → IsSinking lo h i
      → ((j : ℕ) → j ≤ count h → j / 2 ≡ i → at h j ≤ at h i)
      → IsOrdered lo h
  IsOrdered-sunk lo h i s most j t l m = ground (arith, s j t l, most j l)

  pub IsOrdered-risen :
      (h : Heap) (i : ℕ) → IsRising h i → (2 ≤ i → at h i ≤ at h (i / 2)) → IsOrdered 1 h
  IsOrdered-risen h i r low j t l m = ground (arith, r j t l, low)
