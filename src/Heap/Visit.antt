-- ===== src/Heap/Visit.antt =====
-- src/heap.c: `yheap_reset` and `yheap_iterates`.
use ylib.Base.{
  ℕ, zero, suc, ◌+◌, ◌-◌, ◌≤◌, ◌<◌, ◌≡◌, ◌⊎◌, ◌↔◌, sym, refl, Bool, true, false, ltb, ◌==◌, arith,
  Bool-cases, inl, inr,
}
use ylib.Base.Run.{Returns, returns, Returns-map}
use ylib.Heap.{Heap, sete, nodes_from, reset, iterate, iterates}
use ylib.Heap.Swap.{IsSized, In, count, gete_lem}
use ylib.Heap.Push.{IsHeap}
use ylib.Heap.Pop.{sz_lem}
use ylib.Heap.Fill.{Member}

-- 0 if the callback takes every node, and else 1
abbrev pub IsVisited : (ℕ → Bool) → Heap → ℕ → ℕ → Type 0
IsVisited cb h i r =
    ((r ≡ 0) × ((j : ℕ) → i ≤ j → j ≤ count h → cb (h.slots j) ≡ true))
    ⊎ ((r ≡ 1) × ((j : ℕ) × (i ≤ j) × (j ≤ count h) × (cb (h.slots j) ≡ false)))

iterate-IsVisited :
    (cb : ℕ → Bool) (h : Heap) (i n : ℕ)
    → IsSized h
    → i + n ≡ count h + 1
    → Returns (IsVisited cb h i) (iterate cb h i n)
unfolding iterate
iterate-IsVisited cb h i zero s e = returns (inl (refl, λ j l k. absurd (omega arith)))
iterate-IsVisited cb h i (suc n) s e = elim (Bool-cases (cb (h.slots i))) [
  | inl taken ↦
      rw (gete_lem h i s (omega arith), taken)
        (Returns-map (iterate-IsVisited cb h (suc i) n s (omega arith)) λ r x. elim x [
          | inl (e0, all) ↦ inl (
            e0,
            λ j l k. elim (Bool-cases (j == i)) [
              | inl here ↦ ground (arith, taken)
              | inr later ↦ all j (ground arith) k
            ],
          )
          | inr (e1, (j, l, k, b)) ↦ inr (e1, (j, omega arith, k, b))
        ])
  | inr stopped ↦
      rw (gete_lem h i s (omega arith), stopped)
        (returns (inr (refl, (i, omega arith, omega arith, stopped))))
]

-- `yheap_iterates` on a valid heap ends without a fault: it returns 0 if the callback takes every
-- node of the heap, and else 1, and the callback has turned down a node of the heap.
pub iterates-visits :
    (key : ℕ → ℕ) (cb : ℕ → Bool) (h : Heap)
    → IsHeap key h
    → Returns
        (λ r.
          ((r ≡ 0) × ((n : ℕ) → In h n → cb n ≡ true))
          ⊎ ((r ≡ 1) × ((n : ℕ) × In h n × (cb n ≡ false))))
        (iterates cb h)
unfolding iterates
iterates-visits key cb h v = rw (sz_lem h v.sized) (
    Returns-map (iterate-IsVisited cb h 1 (count h) v.sized (omega arith)) λ r x. elim x [
      | inl (e, all) ↦ inl (e, λ n m. rw (m.2) at (all (h.index n) m.0 m.1))
      | inr (e, (j, l, k, b)) ↦ inr (e, (h.slots j, ground (arith, v.indexed j l k), b))
    ])

nodes_from-Member :
    (slots : ℕ → ℕ) (p k n : ℕ)
    → Member n (nodes_from slots p k) ↔ ((j : ℕ) × (p ≤ j) × (j < p + k) × (slots j ≡ n))
unfolding nodes_from
nodes_from-Member slots p zero n = (λ x. absurd x, λ (j, l, m, e). absurd (omega arith))
nodes_from-Member slots p (suc k) n = (
  λ x. elim x [
    | inl e ↦ (p, omega arith, omega arith, sym e)
    | inr y ↦
        let (j, l, m, e) = (nodes_from-Member slots (suc p) k n).0 y in
        (j, omega arith, omega arith, e)
  ],
  λ (j, l, m, e). elim (Bool-cases (j == p)) [
    | inl here ↦ inl (ground arith)
    | inr later ↦ inr ((nodes_from-Member slots (suc p) k n).1 (j, ground arith, omega arith, e))
  ],
)

-- `yheap_reset` on a valid heap ends without a fault, with a valid heap of no node. With a `vfree`,
-- the nodes that it frees are those of the heap.
pub reset-frees :
    (key : ℕ → ℕ) (h : Heap)
    → IsHeap key h
    → Returns
        (λ (freed, h').
          IsHeap key h'
          × ((n : ℕ) → In h' n → ⊥)
          × (h.vfree ≡ true → (n : ℕ) → Member n freed ↔ In h n))
        (reset h)
unfolding reset sete
reset-frees key h v =
    let started : ltb h.b.sz 1 ≡ false = ground (arith, v.sized.virtual_root) in
    let room : ltb 0 h.b.limit ≡ true = ground (arith, v.sized.valid.some_room) in
    let w = v.sized.valid in
    rw (started, room)
      (returns (
        record {
          sized = record {
            valid = record {
              some_room = w.some_room;
              in_limit = w.some_room;
              allocated = w.allocated;
              narrow = w.narrow;
              padded = w.padded;
            };
            virtual_root = omega arith;
            small = omega arith;
          };
          indexed = λ i one k. absurd (omega arith);
          ordered = λ j two k. absurd (omega arith);
        },
        λ n m. absurd (omega (arith, m.0, m.1)),
        λ set n. rw set (
          λ x.
              let (j, l, m, e) = (nodes_from-Member h.slots 1 (h.b.sz - 1) n).0 x in
              ground (arith, v.indexed j l, e),
          λ m.
              (nodes_from-Member h.slots 1 (h.b.sz - 1) n).1
                (h.index n, m.0, omega (arith, m.1), m.2),
        ),
      ))
