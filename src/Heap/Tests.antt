-- ===== src/Heap/Tests.antt =====
-- src/heap.c: the heap operations at concrete heaps.
use Prim.Native.Nat.{Ordering, compare}
use ylib.Base.{
  ℕ, ◌*◌, ◌≡◌, ◌≢◌, ◌⊎◌, ◌≤◌, ◌↔◌, refl, Bool, true, false, none, some, [], ◌∷◌, ◌==◌,
  if◌then◌else◌, arith,
}
use ylib.Base.Run.{done, fault, Returns}
use ylib.Heap.{Heap, Ref, is_greater, create2, push, peek, pop, pushpop, poppush, heapify, reset}
use ylib.Heap.Swap.{In, count}
use ylib.Heap.Push.{IsHeap, Pushed, push-Pushed}
use ylib.Heap.Pop.{IsGreatest, peek-IsGreatest, Popped, pop-Popped}
use ylib.Heap.Replace.{IsReplaced, poppush-IsReplaced, pushpop-IsReplaced}
use ylib.Heap.Build.{create2-IsHeap}
use ylib.Heap.Fill.{Member, IsDistinct}
use ylib.Heap.Heapify.{heapify-IsHeap}
use ylib.Heap.Visit.{reset-frees}

abbrev granted : ℕ → Bool
granted n = true

-- nodes are compared by their own numbers
abbrev own : ℕ → ℕ
own n = n

by_own : (a b : ℕ) → compare a b ≡ compare (own a) (own b)
by_own a b = refl

-- 9 above 7
abbrev pair : Heap
pair = record {
  b = record { limit = 4; sz = 3; esz = 8; eszex = 8; bytes = 32 };
  vfree = true;
  slots = λ i. if i == 1 then 9 else 7;
  index = λ n. if n == 9 then 1 else 2;
}

pair-IsHeap : IsHeap own pair
pair-IsHeap = record {
  sized = record {
    valid = record {
      some_room = omega arith;
      in_limit = omega arith;
      allocated = omega arith;
      narrow = omega arith;
      padded = omega arith;
    };
    virtual_root = omega arith;
    small = omega arith;
  };
  indexed = λ i one k. ground arith;
  ordered = λ j two k m. ground arith;
}

five-new : In pair 5 → ⊥
five-new m = absurd (ground arith)

nine-In : In pair 9
nine-In = (omega arith, omega arith, refl)

push-Pushed_example : Returns (Pushed granted own pair 5) (push compare granted pair 5)
push-Pushed_example =
    push-Pushed compare own by_own granted pair 5 pair-IsHeap five-new (omega arith) (omega arith)

peek-IsGreatest_example : Returns (IsGreatest own pair) (peek pair)
peek-IsGreatest_example = peek-IsGreatest own pair pair-IsHeap

pop-Popped_example : Returns (Popped own pair) (pop compare pair)
pop-Popped_example = pop-Popped compare own by_own pair pair-IsHeap

poppush-IsReplaced_example :
    Returns
      (λ (r, h'). (r ≡ Ref.slot 1) × IsReplaced own pair 5 h')
      (poppush compare granted pair 5)
poppush-IsReplaced_example =
    poppush-IsReplaced compare own by_own granted pair 5 pair-IsHeap five-new (omega arith)

abbrev above : ℕ → Ordering
above e = Ordering.gt

pushpop-IsReplaced_example :
    Returns
      (λ (r, h').
        ((r ≡ Ref.node 5) × (h' ≡ pair) × ((count pair ≡ 0) ⊎ (is_greater (above 5) ≡ false)))
        ⊎ ((r ≡ Ref.slot 1)
            × (1 ≤ count pair)
            × (is_greater (above 5) ≡ true)
            × IsReplaced own pair 5 h'))
      (pushpop compare above pair 5)
pushpop-IsReplaced_example = pushpop-IsReplaced compare own by_own above pair 5 pair-IsHeap five-new

three_nodes-IsDistinct : IsDistinct (4 ∷ 6 ∷ 5 ∷ [])
three_nodes-IsDistinct = ground arith

create2-IsHeap_example :
    ((header : Bool) → create2 compare false header granted own false (4 ∷ 6 ∷ 5 ∷ []) ≡ done none)
    × (create2 compare true false granted own false (4 ∷ 6 ∷ 5 ∷ []) ≡ done none)
    × (granted (513 * 8) ≡ true
        → Returns
            (λ o.
              (h : Heap) × (o ≡ some h)
              × IsHeap own h
              × ((n : ℕ) → In h n ↔ Member n (4 ∷ 6 ∷ 5 ∷ [])))
            (create2 compare true true granted own false (4 ∷ 6 ∷ 5 ∷ [])))
    × (granted (513 * 8) ≡ false
        → create2 compare true true granted own false (4 ∷ 6 ∷ 5 ∷ []) ≡ fault)
create2-IsHeap_example =
    create2-IsHeap compare own by_own granted own false (4 ∷ 6 ∷ 5 ∷ []) three_nodes-IsDistinct
      (omega arith)

-- the value of node 9 falls to 3
abbrev lowered : ℕ → ℕ
lowered n = if n == 9 then 3 else n

abbrev by_lowered : ℕ → ℕ → Ordering
by_lowered a b = compare (lowered a) (lowered b)

lowered-same : (n : ℕ) → n ≢ 9 → own n ≡ lowered n
lowered-same n other = ground (arith, other)

heapify-IsHeap_example :
    Returns (λ h'. IsHeap lowered h' × ((n : ℕ) → In h' n ↔ In pair n)) (heapify by_lowered pair 9)
heapify-IsHeap_example =
    heapify-IsHeap by_lowered lowered (λ a b. refl) own pair 9 pair-IsHeap nine-In lowered-same

reset-frees_example :
    Returns
      (λ (freed, h').
        IsHeap own h'
        × ((n : ℕ) → In h' n → ⊥)
        × (pair.vfree ≡ true → (n : ℕ) → Member n freed ↔ In pair n))
      (reset pair)
reset-frees_example = reset-frees own pair pair-IsHeap
