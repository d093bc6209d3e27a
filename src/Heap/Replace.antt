-- ===== src/Heap/Replace.antt =====
-- src/heap.c: `yheap_poppush` and `yheap_pushpop`, which return the address of a slot for its node.
use Prim.Native.Nat.{Ordering, compare}
use ylib.Base.{
  ℕ, ◌≤◌, ◌≡◌, ◌≢◌, ◌⊎◌, ◌↔◌, refl, Bool, true, false, ◌&&◌, ltb, ◌==◌, arith, Bool-cases, inl, inr,
}
use ylib.Base.Run.{Returns, returns, Returns-map, Returns-bind}
use ylib.Heap.{Heap, Ref, set, is_greater, sz, down, pushpop, poppush}
use ylib.Heap.Swap.{IsSized, IsIndexed, In, count, sete_lem}
use ylib.Heap.Order.{IsSinking}
use ylib.Heap.Down.{down-Settled}
use ylib.Heap.Push.{IsHeap, ↔-trans}
use ylib.Heap.Pop.{sz_lem}

-- the heap with `e` for its first element
abbrev replaced : Heap → ℕ → Heap
replaced h e = record h { slots = set h.slots 1 e; index = set h.index e 1 }

module _ (key : ℕ → ℕ) (h : Heap) (e : ℕ) (v : IsHeap key h) (new : In h e → ⊥)
    (some_node : 1 ≤ count h) where
  replaced-IsIndexed : IsIndexed (replaced h e)
  replaced-IsIndexed i one k = elim (Bool-cases (i == 1)) [
    | inl first ↦ ground arith
    | inr later ↦
        let other : h.slots i ≢ e = λ same. new (ground (arith, v.indexed i one k, same)) in
        ground (arith, v.indexed i one k, other)
  ]

  replaced-In : (n : ℕ) → In (replaced h e) n ↔ ((In h n × (n ≢ h.slots 1)) ⊎ (n ≡ e))
  replaced-In n = elim (Bool-cases (n == e)) [
    | inl same ↦ (λ m. inr (ground arith), λ m. rw same (omega arith, some_node, ground arith))
    | inr other ↦ (
      λ m. inl (
        ground (arith, m),
        λ root. absurd (ground (arith, m, v.indexed 1 (omega arith) some_node)),
      ),
      λ m. elim m [ inl old ↦ rw other (ground (arith, old)) | inr same ↦ absurd (ground arith) ],
    )
  ]

  replaced-IsSinking : IsSinking key 1 (replaced h e) 1
  replaced-IsSinking j two k = ground (arith, v.ordered j two)

-- The heap has `e` in place of the first element.
abbrev pub IsReplaced : (ℕ → ℕ) → Heap → ℕ → Heap → Type 0
IsReplaced key h e h' = IsHeap key h' × ((n : ℕ) → In h' n ↔ ((In h n × (n ≢ h.slots 1)) ⊎ (n ≡ e)))

module _ (cmp : ℕ → ℕ → Ordering) (key : ℕ → ℕ)
    (by_key : (a b : ℕ) → cmp a b ≡ compare (key a) (key b)) where
  -- what both functions do with a heap that is not empty
  down-IsReplaced :
      (h : Heap) (e : ℕ)
      → IsHeap key h
      → (In h e → ⊥)
      → 1 ≤ count h
      → Returns (IsReplaced key h e) (down cmp (replaced h e) 1)
  down-IsReplaced h e v new some_node =
      let s : IsSized (replaced h e) = record {
        valid = v.sized.valid;
        virtual_root = v.sized.virtual_root;
        small = v.sized.small;
      } in
      Returns-map
        (down-Settled cmp key by_key 1 (replaced h e) 1 s
          (replaced-IsIndexed key h e v new some_node) (replaced-IsSinking key h e v new some_node)
          (omega arith) some_node)
        λ h' t. (
          record { sized = t.shuffled.sized; indexed = t.shuffled.indexed; ordered = t.ordered },
          λ n. ↔-trans (t.shuffled.same_elements n) (replaced-In key h e v new some_node n),
        )

  -- `yheap_poppush` of a new node on a heap that is not empty ends without a fault and puts the node
  -- in the place of the first one, in a valid heap. What it returns is the address of a
  -- slot, never a node: the removed node is lost.
  pub poppush-IsReplaced :
      (grant : ℕ → Bool) (h : Heap) (e : ℕ)
      → IsHeap key h
      → (In h e → ⊥)
      → 1 ≤ count h
      → Returns (λ (r, h'). (r ≡ Ref.slot 1) × IsReplaced key h e h') (poppush cmp grant h e)
  unfolding poppush
  poppush-IsReplaced grant h e v new some_node =
      let full : ltb 0 (sz h) ≡ true = ground (arith, sz_lem h v.sized) in
      rw (full, sete_lem h 1 e v.sized (omega arith) some_node)
        (Returns-bind (down-IsReplaced h e v new some_node) λ h' t. returns (refl, t))

  -- `yheap_pushpop` of a new node ends without a fault. It compares the address of the first slot with the
  -- node. If the heap is empty or that address is not greater, it returns the node and leaves the
  -- heap as it is. Else the node replaces the first one in a valid heap, and what is returned
  -- is that address: the removed node is lost.
  pub pushpop-IsReplaced :
      (cmp_slot : ℕ → Ordering) (h : Heap) (e : ℕ)
      → IsHeap key h
      → (In h e → ⊥)
      → Returns
          (λ (r, h').
            ((r ≡ Ref.node e) × (h' ≡ h) × ((count h ≡ 0) ⊎ (is_greater (cmp_slot e) ≡ false)))
            ⊎ ((r ≡ Ref.slot 1)
                × (1 ≤ count h)
                × (is_greater (cmp_slot e) ≡ true)
                × IsReplaced key h e h'))
          (pushpop cmp cmp_slot h e)
  unfolding pushpop
  pushpop-IsReplaced cmp_slot h e v new =
      elim (Bool-cases (ltb 0 (sz h) && is_greater (cmp_slot e))) [
        | inl both ↦
            let some_node : 1 ≤ count h = ground (arith, sz_lem h v.sized) in
            rw (both, sete_lem h 1 e v.sized (omega arith) some_node)
              (Returns-bind (down-IsReplaced h e v new some_node)
                λ h' t. returns (inr (refl, some_node, ground arith, t)))
        | inr neither ↦
            rw neither (returns (inl (refl, refl, ground (arith, neither, sz_lem h v.sized))))
      ]
