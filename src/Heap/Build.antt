-- ===== src/Heap/Build.antt =====
-- src/heap.c: `yheap_create2`, which builds a heap from an array.
use Prim.Native.Nat.{Ordering, compare}
use ylib.Base.{
  ℕ, zero, suc, ◌+◌, ◌*◌, ◌/◌, ◌%◌, ◌≤◌, ◌<◌, ◌≡◌, ◌↔◌, refl, Bool, true, false, none, some, max,
  List, length, ltb, if◌then◌else◌, arith, Bool-cases, inl, inr, u32_mod,
}
use ylib.Base.Run.{done, fault, ◌>>=◌, Returns, returns, Returns-map, Returns-bind}
use ylib.Dynb
use ylib.Dynb.{Dynb}
use ylib.Dynb.Create
use ylib.Heap.{Heap, set, lasti, adde, sete, add_all, build, create, create2}
use ylib.Heap.Swap.{IsSized, IsIndexed, In, count}
use ylib.Heap.Order.{IsOrdered, IsSinking}
use ylib.Heap.Down.{Shuffled-refl, Settled, down-Settled}
use ylib.Heap.Push.{IsHeap}
use ylib.Heap.Fill.{Member, IsDistinct, Shuffled-trans, add_all-Filled}

-- the capacity that `yheap_create` asks for, with the virtual root
abbrev pub capacity : List ℕ → ℕ
capacity arr = max (length arr) 512 + 1

-- its buffer of pointers
abbrev pointers : List ℕ → Dynb
pointers arr = record { limit = capacity arr; sz = 0; esz = 8; eszex = 8; bytes = capacity arr * 8 }

-- a heap that `yheap_create` returns
abbrev empty_heap : (ℕ → ℕ) → Bool → List ℕ → Heap
empty_heap index vfree arr = record {
  b = record (pointers arr) { sz = 1 };
  vfree = vfree;
  slots = set (λ _. 0) 0 0;
  index = index;
}

created-buffer :
    (grant : ℕ → Bool) (arr : List ℕ)
    → capacity arr * 8 < u32_mod
    → Dynb.create grant (capacity arr) 8 1
      ≡ (if grant (capacity arr * 8) then some (pointers arr) else none)
created-buffer grant arr small =
    rw (Create.elemsz-band) at
      (Create.create-granted grant (capacity arr) 8 1 (omega arith) (rw Create.elemsz-band small))

capacity_lem :
    (arr : List ℕ)
    → capacity arr * 8 < u32_mod
    → ((if ltb (length arr) (4096 / 8) then 4096 / 8 else length arr) + 1) % u32_mod ≡ capacity arr
capacity_lem arr small = ground arith

adde-root :
    (index : ℕ → ℕ) (vfree : Bool) (arr : List ℕ)
    → adde (record { b = pointers arr; vfree = vfree; slots = λ _. 0; index = index }) 0
      ≡ done (empty_heap index vfree arr)
unfolding adde sete lasti Dynb.incsz
adde-root index vfree arr = let room : ltb 0 (capacity arr) ≡ true = ground arith in rw room refl

create_lem :
    (grant : ℕ → Bool) (index : ℕ → ℕ) (vfree : Bool) (arr : List ℕ)
    → capacity arr * 8 < u32_mod
    → create true true grant index vfree (length arr)
      ≡ (if grant (capacity arr * 8) then done (some (empty_heap index vfree arr)) else fault)
unfolding create
create_lem grant index vfree arr small = elim (Bool-cases (grant (capacity arr * 8))) [
  | inl e ↦
      rw (capacity_lem arr small, created-buffer grant arr small, e, create)
        (rw (adde-root index vfree arr) refl)
  | inr e ↦ rw (capacity_lem arr small, created-buffer grant arr small, e, create) refl
]

empty-IsSized :
    (index : ℕ → ℕ) (vfree : Bool) (arr : List ℕ)
    → capacity arr * 8 < u32_mod
    → IsSized (empty_heap index vfree arr)
empty-IsSized index vfree arr small = record {
  valid = record {
    some_room = omega arith;
    in_limit = omega arith;
    allocated = omega arith;
    narrow = omega arith;
    padded = omega arith;
  };
  virtual_root = omega arith;
  small = omega arith;
}

module _ (cmp : ℕ → ℕ → Ordering) (key : ℕ → ℕ)
    (by_key : (a b : ℕ) → cmp a b ≡ compare (key a) (key b)) where
  build-Settled :
      (h : Heap) (i : ℕ)
      → IsSized h
      → IsIndexed h
      → IsOrdered key (suc i) h
      → i ≤ count h
      → Returns (Settled cmp key by_key 1 h) (build cmp h i)
  unfolding build
  build-Settled h zero s x o k = returns (record { shuffled = Shuffled-refl h s x; ordered = o })
  build-Settled h (suc i) s x o k =
      let sinking : IsSinking key (suc i) h (suc i) = λ j two l. ground (arith, o j two l) in
      Returns-bind (down-Settled cmp key by_key (suc i) h (suc i) s x sinking (omega arith) k)
        λ h' t.
          Returns-map
            (build-Settled h' i t.shuffled.sized t.shuffled.indexed t.ordered
              (rw t.shuffled.same_buffer (omega arith)))
            λ h'' t'. record {
              shuffled = Shuffled-trans t.shuffled t'.shuffled;
              ordered = t'.ordered;
            }

  -- the elements behind the middle have no children
  leaves-IsOrdered : (h : Heap) (i : ℕ) → count h < i * 2 → IsOrdered key i h
  leaves-IsOrdered h i low j two k m = absurd (omega arith)

  filled-IsHeap :
      (empty : Heap) (arr : List ℕ)
      → IsSized empty
      → count empty ≡ 0
      → IsDistinct arr
      → empty.b.sz + length arr ≤ empty.b.limit
      → (empty.b.sz + length arr) * 2 < u32_mod
      → Returns
          (λ o. (h : Heap) × (o ≡ some h) × IsHeap key h × ((n : ℕ) → In h n ↔ Member n arr))
          (add_all empty arr >>= λ h'. build cmp h' (h'.b.sz / 2) >>= λ h''. done (some h''))
  filled-IsHeap empty arr s none_yet d room small =
      let nothing : (n : ℕ) → In empty n → ⊥ = λ n m. absurd (omega (arith, m.0, m.1)) in
      Returns-bind
        (add_all-Filled empty arr s (λ i one k. absurd (omega arith)) d (λ n m i. nothing n i) room
          small)
        λ h' f.
          Returns-bind
            (build-Settled h' (h'.b.sz / 2) f.sized f.indexed
              (leaves-IsOrdered h' (suc (h'.b.sz / 2)) (omega arith))
              (omega (arith, f.sized.virtual_root)))
            λ h'' t. returns (
              h'',
              refl,
              record {
                sized = t.shuffled.sized;
                indexed = t.shuffled.indexed;
                ordered = t.ordered;
              },
              λ n. (
                λ m. elim ((f.elements n).0 ((t.shuffled.same_elements n).0 m)) [
                  | inl i ↦ absurd (nothing n i)
                  | inr i ↦ i
                ],
                λ i. (t.shuffled.same_elements n).1 ((f.elements n).1 (inr i)),
              ),
            )

  -- `yheap_create2` of an array of different nodes, with the sizes below 2 ^ 32 bytes: without a
  -- comparison, or without memory for the header, it returns NULL. Else, if the request for the buffer is
  -- granted, the result is a valid heap of the nodes of the array. If it is refused,
  -- the code goes on with a NULL buffer and faults.
  pub create2-IsHeap :
      (grant : ℕ → Bool) (index : ℕ → ℕ) (vfree : Bool) (arr : List ℕ)
      → IsDistinct arr
      → capacity arr * 8 < u32_mod
      → ((granted : Bool) → create2 cmp false granted grant index vfree arr ≡ done none)
        × (create2 cmp true false grant index vfree arr ≡ done none)
        × (grant (capacity arr * 8) ≡ true
            → Returns
                (λ o. (h : Heap) × (o ≡ some h) × IsHeap key h × ((n : ℕ) → In h n ↔ Member n arr))
                (create2 cmp true true grant index vfree arr))
        × (grant (capacity arr * 8) ≡ false → create2 cmp true true grant index vfree arr ≡ fault)
  unfolding create2 create
  create2-IsHeap grant index vfree arr d small =
      let made = create_lem grant index vfree arr small in
      (
        λ granted. refl,
        refl,
        λ all_granted.
            rw (made, all_granted)
              (filled-IsHeap (empty_heap index vfree arr) arr (empty-IsSized index vfree arr small)
                refl d (omega arith) (omega arith)),
        λ refused. rw (made, refused) refl,
      )
