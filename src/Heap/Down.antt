-- ===== src/Heap/Down.antt =====
-- src/heap.c: comparing elements of a heap, and `down`, which restores the order below an element.
use Prim.Native.Nat.{Ordering, compare}
use ylib.Base.{
  ℕ, zero, suc, ◌+◌, ◌*◌, ◌/◌, ◌%◌, ◌≤◌, ◌<◌, ◌≡◌, ◌⊎◌, ◌↔◌, refl, true, false, ◌&&◌, ltb, leb,
  ◌==◌, if◌then◌else◌, arith, Bool-cases, inl, inr, u32_mod,
}
use ylib.Base.Run.{done, ◌>>=◌, Returns, returns, Returns-map}
use ylib.Heap.{
  Heap, lefti, righti, lasti, cmp_at, is_less, is_greater, larger, swap, down_loop, down,
}
use ylib.Heap.Swap.{
  IsSized, IsIndexed, In, count, swapped, lasti-count, gete_lem, swap_lem, swapped-IsIndexed,
  swapped-In,
}
use ylib.Heap.Order.{at, IsOrdered, IsSinking, IsSinking-swapped, IsOrdered-sunk}

-- the same elements in the same buffer, each with its place
pub record Shuffled (h h' : Heap) : Type 0 where
  pub sized : IsSized h'
  pub indexed : IsIndexed h'
  pub same_buffer : h'.b ≡ h.b
  pub same_elements : (n : ℕ) → In h' n ↔ In h n

pub Shuffled-refl : (h : Heap) → IsSized h → IsIndexed h → Shuffled h h
Shuffled-refl h s x = record {
  sized = s;
  indexed = x;
  same_buffer = refl;
  same_elements = λ n. (λ m. m, λ m. m);
}

pub Shuffled-swapped :
    (h h' : Heap) (i j : ℕ)
    → IsIndexed h
    → 1 ≤ i
    → i ≤ count h
    → 1 ≤ j
    → j ≤ count h
    → Shuffled (swapped h i j) h'
    → Shuffled h h'
Shuffled-swapped h h' i j x p k q l s = record {
  sized = s.sized;
  indexed = s.indexed;
  same_buffer = s.same_buffer;
  same_elements = λ n. (
    λ m. (swapped-In h i j n x p k q l).0 ((s.same_elements n).0 m),
    λ m. (s.same_elements n).1 ((swapped-In h i j n x p k q l).1 m),
  );
}

pub swapped-IsSized : (h : Heap) (i j : ℕ) → IsSized h → IsSized (swapped h i j)
swapped-IsSized h i j s = record { valid = s.valid; virtual_root = s.virtual_root; small = s.small }

-- the comparison orders the nodes by a key
module _ (cmp : ℕ → ℕ → Ordering) (key : ℕ → ℕ)
    (by_key : (a b : ℕ) → cmp a b ≡ compare (key a) (key b)) where
  less_lem : (a b : ℕ) → is_less (cmp a b) ≡ ltb (key a) (key b)
  less_lem a b = rw (by_key a b) refl

  pub greater_lem : (a b : ℕ) → is_greater (cmp a b) ≡ ltb (key b) (key a)
  greater_lem a b = rw (by_key a b) (ground arith)

  pub cmp_at_lem :
      (h : Heap) (a b : ℕ)
      → IsSized h
      → a ≤ count h
      → b ≤ count h
      → cmp_at cmp h a b ≡ done (cmp (h.slots a) (h.slots b))
  unfolding cmp_at
  cmp_at_lem h a b s k l = rw (gete_lem h a s k, gete_lem h b s l) refl

  larger_lem :
      (h : Heap) (i c : ℕ)
      → IsSized h
      → i ≤ count h
      → larger cmp h i c ≡ done (if leb c (count h) && ltb (at key h i) (at key h c) then c else i)
  unfolding larger
  larger_lem h i c s k = elim (Bool-cases (leb c (lasti h))) [
    | inl e ↦
        let inside : leb c (count h) ≡ true = ground (arith, lasti-count h s) in
        rw (cmp_at_lem h i c s k (ground arith), e, inside, less_lem (h.slots i) (h.slots c)) refl
    | inr e ↦
        let outside : leb c (count h) ≡ false = ground (arith, lasti-count h s) in
        rw (e, outside) refl
  ]

  -- the child that `down` exchanges with the element at `p`, or `p`
  abbrev chosen : Heap → ℕ → ℕ
  chosen h p =
      let i = if leb (p * 2) (count h) && ltb (at key h p) (at key h (p * 2)) then p * 2 else p in
      if leb (p * 2 + 1) (count h) && ltb (at key h i) (at key h (p * 2 + 1)) then p * 2 + 1 else i

  child-cases : (p j : ℕ) → j / 2 ≡ p → (j ≡ p * 2) ⊎ (j ≡ p * 2 + 1)
  child-cases p j e = ground arith

  -- the child is greater than its parent and than its sibling, or there is no greater child
  chosen-cases :
      (h : Heap) (p : ℕ)
      → 1 ≤ p
      → ((chosen h p ≡ p) × ((j : ℕ) → j ≤ count h → j / 2 ≡ p → at key h j ≤ at key h p))
        ⊎ ((chosen h p / 2 ≡ p)
            × (chosen h p ≤ count h)
            × (at key h p < at key h (chosen h p))
            × ((j : ℕ) → j ≤ count h → j / 2 ≡ p → at key h j ≤ at key h (chosen h p)))
  chosen-cases h p one =
      elim (Bool-cases (leb (p * 2) (count h) && ltb (at key h p) (at key h (p * 2)))) [
        | inl e ↦
            elim (Bool-cases
              (leb (p * 2 + 1) (count h) && ltb (at key h (p * 2)) (at key h (p * 2 + 1)))) [
                | inl f ↦
                    rw (e, f)
                      (inr (
                        omega arith,
                        ground arith,
                        ground arith,
                        λ j l m. ground (arith, child-cases p j m),
                      ))
                | inr f ↦
                    rw (e, f)
                      (inr (
                        omega arith,
                        ground arith,
                        ground arith,
                        λ j l m. ground (arith, child-cases p j m),
                      ))
              ]
        | inr e ↦
            elim (Bool-cases
              (leb (p * 2 + 1) (count h) && ltb (at key h p) (at key h (p * 2 + 1)))) [
                | inl f ↦
                    rw (e, f)
                      (inr (
                        omega arith,
                        ground arith,
                        ground arith,
                        λ j l m. ground (arith, child-cases p j m),
                      ))
                | inr f ↦ rw (e, f) (inl (refl, λ j l m. ground (arith, child-cases p j m)))
              ]
      ]

  down_loop-chosen :
      (fuel : ℕ) (h : Heap) (p : ℕ)
      → IsSized h
      → p ≤ count h
      → down_loop cmp (suc fuel) h p ≡ (
          if chosen h p == p
          then done h
          else (swap h p (chosen h p) >>= λ h'. down_loop cmp fuel h' (chosen h p)))
  unfolding down_loop lefti righti
  down_loop-chosen fuel h p s k =
      let left : p * 2 % u32_mod ≡ p * 2 = omega (arith, s.small) in
      let right : (p * 2 + 1) % u32_mod ≡ p * 2 + 1 = omega (arith, s.small) in
      let middle : (if leb (p * 2) (count h) && ltb (at key h p) (at key h (p * 2))
            then p * 2
            else p)
          ≤ count h =
        ground arith in
      rw (left, right, larger_lem h p (p * 2) s k, larger_lem h _ (p * 2 + 1) s middle) refl

  -- where `down` and `up` end
  pub record Settled (lo : ℕ) (h h' : Heap) : Type 0 where
    pub shuffled : Shuffled h h'
    pub ordered : IsOrdered key lo h'

  down_loop-Settled :
      (fuel lo : ℕ) (h : Heap) (p : ℕ)
      → IsSized h
      → IsIndexed h
      → IsSinking key lo h p
      → 1 ≤ p
      → p ≤ count h
      → count h < p + fuel
      → Returns (Settled lo h) (down_loop cmp fuel h p)
  down_loop-Settled zero lo h p s x sink one k short = absurd (omega arith)
  down_loop-Settled (suc fuel) lo h p s x sink one k short = elim (chosen-cases h p one) [
    | inl (e, most) ↦
        let stop : (p == p) ≡ true = ground arith in
        rw (down_loop-chosen fuel h p s k, e, stop)
          (returns (record {
            shuffled = Shuffled-refl h s x;
            ordered = IsOrdered-sunk key lo h p sink most;
          }))
    | inr (child, inside, less, most) ↦
        let c = chosen h p in
        let again : (c == p) ≡ false = ground arith in
        rw (down_loop-chosen fuel h p s k, again, swap_lem h p c s one k (omega arith) inside)
          (Returns-map
            (down_loop-Settled fuel lo (swapped h p c) c (swapped-IsSized h p c s)
              (swapped-IsIndexed h p c x one k (omega arith) inside)
              (IsSinking-swapped key lo h p c sink one (omega arith) inside child less most)
              (omega arith) inside (omega arith))
            λ h' t. record {
              shuffled = Shuffled-swapped h h' p c x one k (omega arith) inside t.shuffled;
              ordered = t.ordered;
            })
  ]

  -- `down` at an element that may be less than its children ends without a fault, and the order holds
  -- from the parent `lo` on.
  pub down-Settled :
      (lo : ℕ) (h : Heap) (i : ℕ)
      → IsSized h
      → IsIndexed h
      → IsSinking key lo h i
      → 1 ≤ i
      → i ≤ count h
      → Returns (Settled lo h) (down cmp h i)
  unfolding down
  down-Settled lo h i s x sink one k =
      let last = lasti-count h s in
      let positive : ltb 0 i ≡ true = ground arith in
      let inside : leb i (count h) ≡ true = ground arith in
      rw (last, positive, inside)
        (down_loop-Settled (count h + 1) lo h i s x sink one k (omega arith))
