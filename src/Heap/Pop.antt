-- ===== src/Heap/Pop.antt =====
-- src/heap.c: the greatest element, `yheap_peek` and `yheap_pop`.
use Prim.Native.Nat.{Ordering, compare}
use ylib.Base.{
  ℕ, zero, suc, ◌-◌, ◌/◌, ◌≤◌, ◌<◌, ◌≡◌, ◌≢◌, ◌⊎◌, ◌↔◌, ◌∙◌, ap, refl, ltb, ◌==◌, if◌then◌else◌,
  arith, Bool-cases, inl, inr,
}
use ylib.Base.Run.{done, ◌>>=◌, Returns, returns, Returns-bind}
use ylib.Heap.{Heap, lasti, sz, peek, pop, rmlaste, swap, down}
use ylib.Heap.Swap.{
  IsSized, IsIndexed, In, count, lasti-count, gete_lem, swap_lem, swapped, swapped-In,
  swapped-IsIndexed,
}
use ylib.Heap.Order.{at, IsOrdered, IsSinking}
use ylib.Heap.Down.{down-Settled}
use ylib.Heap.Push.{IsHeap, ↔-trans}

-- no element is greater than the first
root-greatest :
    (key : ℕ → ℕ) (h : Heap) (fuel j : ℕ)
    → IsOrdered key 1 h
    → 1 ≤ j
    → j ≤ count h
    → j < fuel
    → at key h j ≤ at key h 1
root-greatest key h zero j o one k short = absurd (omega arith)
root-greatest key h (suc fuel) j o one k short = elim (Bool-cases (j == 1)) [
  | inl e ↦ ground arith
  | inr e ↦ ground (arith, o j, root-greatest key h fuel (j / 2) o)
]

-- The node is the greatest of the heap, or NULL if the heap is empty.
abbrev pub IsGreatest : (ℕ → ℕ) → Heap → ℕ → Type 0
IsGreatest key h n = ((count h ≡ 0) × (n ≡ 0)) ⊎ (In h n × ((m : ℕ) → In h m → key m ≤ key n))

root-IsGreatest :
    (key : ℕ → ℕ) (h : Heap) → IsHeap key h → 1 ≤ count h → IsGreatest key h (h.slots 1)
root-IsGreatest key h v some_node =
    let place = v.indexed 1 (omega arith) some_node in
    inr (
      ground (arith, place),
      λ m i. ground (
        arith,
        root-greatest key h (suc (h.index m)) (h.index m) v.ordered i.0 i.1 (omega arith),
        i.2,
      ),
    )

pub sz_lem : (h : Heap) → IsSized h → sz h ≡ count h
unfolding sz
sz_lem h s = lasti-count h s

-- `yheap_peek` of a valid heap returns its greatest node, or NULL if it is empty.
pub peek-IsGreatest : (key : ℕ → ℕ) (h : Heap) → IsHeap key h → Returns (IsGreatest key h) (peek h)
unfolding peek
peek-IsGreatest key h v = elim (Bool-cases (ltb 0 (count h))) [
  | inl e ↦
      rw (gete_lem h 1 v.sized (ground arith), sz_lem h v.sized, e)
        (returns (root-IsGreatest key h v (ground arith)))
  | inr e ↦ rw (sz_lem h v.sized, e) (returns (inl (ground arith, refl)))
]

-- the heap without its first element, the last one in its place
abbrev popped : Heap → Heap
popped h = let h' = swapped h 1 (count h) in record (h') { b = record (h'.b) { sz = h'.b.sz - 1 } }

module _ (key : ℕ → ℕ) (h : Heap) (v : IsHeap key h) (some_node : 1 ≤ count h) where
  popped-IsSized : IsSized (popped h)
  popped-IsSized =
      let w = v.sized.valid in
      record {
        valid = record {
          some_room = w.some_room;
          in_limit = omega arith;
          allocated = w.allocated;
          narrow = w.narrow;
          padded = w.padded;
        };
        virtual_root = omega arith;
        small = omega (arith, v.sized.small);
      }

  popped-IsIndexed : IsIndexed (popped h)
  popped-IsIndexed i one k =
      swapped-IsIndexed h 1 (count h) v.indexed (omega arith) some_node some_node (omega arith) i
        one (omega arith)

  popped-IsSinking : IsSinking key 1 (popped h) 1
  popped-IsSinking j two k = ground (arith, v.ordered j two)

  popped-In : (n : ℕ) → In (popped h) n ↔ (In h n × (n ≢ h.slots 1))
  popped-In n = elim (Bool-cases (n == h.slots 1)) [
    | inl e ↦
        let same : n ≡ h.slots 1 = ground arith in
        (
          λ m. absurd (ground (arith, m, v.indexed 1 (omega arith) some_node)),
          λ m. absurd (m.1 same),
        )
    | inr e ↦
        let other : n ≢ h.slots 1 = λ same. absurd (ground arith) in
        let whole =
          swapped-In h 1 (count h) n v.indexed (omega arith) some_node some_node (omega arith) in
        (
          λ m. (whole.0 (m.0, omega (arith, m.1), m.2), other),
          λ m. ground (arith, m, whole.1 m.0, v.indexed (count h) some_node (omega arith)),
        )
  ]

-- How `yheap_pop` ends: the greatest node, and a valid heap of the other ones.
abbrev pub Popped : (ℕ → ℕ) → Heap → ℕ × Heap → Type 0
Popped key h (e, h') = IsGreatest key h e × IsHeap key h' × ((n : ℕ) → In h' n ↔ (In h n × (n ≢ e)))

nothing-In : (h : Heap) (n : ℕ) → count h ≡ 0 → In h n → ⊥
nothing-In h n e m = absurd (omega (arith, m.0, m.1))

module _ (cmp : ℕ → ℕ → Ordering) (key : ℕ → ℕ)
    (by_key : (a b : ℕ) → cmp a b ≡ compare (key a) (key b)) where
  -- the rest of `yheap_pop` after the exchange
  sunk-Popped :
      (h : Heap)
      → IsHeap key h
      → 1 ≤ count h
      → Returns (Popped key h) (
          if ltb 0 (sz (popped h))
          then (down cmp (popped h) 1 >>= λ h''. done (h.slots 1, h''))
          else done (h.slots 1, popped h))
  sunk-Popped h v some_node =
      let s = popped-IsSized key h v some_node in
      let x = popped-IsIndexed key h v some_node in
      elim (Bool-cases (ltb 0 (count (popped h)))) [
        | inl e ↦
            rw (sz_lem (popped h) s, e)
              (Returns-bind
                (down-Settled cmp key by_key 1 (popped h) 1 s x (popped-IsSinking key h v some_node)
                  (omega arith) (ground arith))
                λ h' t. returns (
                  root-IsGreatest key h v some_node,
                  record {
                    sized = t.shuffled.sized;
                    indexed = t.shuffled.indexed;
                    ordered = t.ordered;
                  },
                  λ n. ↔-trans (t.shuffled.same_elements n) (popped-In key h v some_node n),
                ))
        | inr e ↦
            rw (sz_lem (popped h) s, e)
              (returns (
                root-IsGreatest key h v some_node,
                record { sized = s; indexed = x; ordered = λ j two k. absurd (ground arith) },
                popped-In key h v some_node,
              ))
      ]

  -- `yheap_pop` of a valid heap ends without a fault. It returns the greatest node and leaves a valid
  -- heap of the other ones, or NULL and no node if the heap is empty.
  pub pop-Popped : (h : Heap) → IsHeap key h → Returns (Popped key h) (pop cmp h)
  unfolding pop rmlaste
  pop-Popped h v = elim (Bool-cases (count h == 0)) [
    | inl e ↦
        let empty : count h ≡ 0 = ground arith in
        rw (sz_lem h v.sized, e)
          (returns (inl (empty, refl), v, λ n. (λ m. absurd (nothing-In h n empty m), λ m. m.0)))
    | inr e ↦
        let some_node : 1 ≤ count h = ground arith in
        let exchanged : swap h 1 (lasti h) ≡ done (swapped h 1 (count h)) =
          ap (λ i. swap h 1 i) (lasti-count h v.sized)
          ∙ swap_lem h 1 (count h) v.sized (omega arith) some_node some_node (omega arith) in
        rw (exchanged, gete_lem h 1 v.sized some_node, sz_lem h v.sized, e)
          (sunk-Popped h v some_node)
  ]
