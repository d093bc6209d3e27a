-- ===== src/Heap/Fill.antt =====
-- src/heap.c: nodes put behind one another, before `yheap_create2` orders them.
use ylib.Base.{
  ℕ, ◌+◌, ◌*◌, ◌≤◌, ◌<◌, ◌≡◌, ◌⊎◌, ◌↔◌, ◌∙◌, subst, refl, List, [], ◌∷◌, length, arith, inl, inr,
  u32_mod,
}
use ylib.Base.Run.{Returns, returns, Returns-map}
use ylib.Heap.{Heap, add_all}
use ylib.Heap.Swap.{IsSized, IsIndexed, In}
use ylib.Heap.Down.{Shuffled}
use ylib.Heap.Push.{added, adde_lem, added-IsSized, added-IsIndexed, added-In, ↔-trans}

-- is the node in the array?
abbrev pub Member : ℕ → List ℕ → Type 0
Member n [] = ⊥
Member n (e ∷ es) = (n ≡ e) ⊎ Member n es

abbrev pub IsDistinct : List ℕ → Type 0
IsDistinct [] = Unit
IsDistinct (e ∷ es) = (Member e es → ⊥) × IsDistinct es

regroup : {P Q R S : Type 0} → P ↔ (Q ⊎ R) → (P ⊎ S) ↔ (Q ⊎ (R ⊎ S))
regroup p = (
  λ x. elim x [
    | inl a ↦ elim (p.0 a) [ inl q ↦ inl q | inr r ↦ inr (inl r) ]
    | inr b ↦ inr (inr b)
  ],
  λ x. elim x [
    | inl q ↦ inl (p.1 (inl q))
    | inr y ↦ elim y [ inl r ↦ inl (p.1 (inr r)) | inr b ↦ inr b ]
  ],
)

pub Shuffled-trans : {h h' h'' : Heap} → Shuffled h h' → Shuffled h' h'' → Shuffled h h''
Shuffled-trans s t = record {
  sized = t.sized;
  indexed = t.indexed;
  same_buffer = t.same_buffer ∙ s.same_buffer;
  same_elements = λ n. ↔-trans (t.same_elements n) (s.same_elements n);
}

-- `add_all` puts the nodes behind those of the heap
pub record Filled (h : Heap) (es : List ℕ) (h' : Heap) : Type 0 where
  pub sized : IsSized h'
  pub indexed : IsIndexed h'
  pub size : h'.b.sz ≡ h.b.sz + length es
  pub elements : (n : ℕ) → In h' n ↔ (In h n ⊎ Member n es)

pub add_all-Filled :
    (h : Heap) (es : List ℕ)
    → IsSized h
    → IsIndexed h
    → IsDistinct es
    → ((n : ℕ) → Member n es → In h n → ⊥)
    → h.b.sz + length es ≤ h.b.limit
    → (h.b.sz + length es) * 2 < u32_mod
    → Returns (Filled h es) (add_all h es)
unfolding add_all
add_all-Filled h [] s x d new room small = returns (record {
  sized = s;
  indexed = x;
  size = omega arith;
  elements = λ n. (λ m. inl m, λ m. elim m [ inl i ↦ i | inr i ↦ absurd i ]);
})
add_all-Filled h (e ∷ es) s x d new room small =
    let fits : h.b.sz < h.b.limit = omega arith in
    let fresh = new e (inl refl) in
    let grown = added-In h e s x fresh in
    rw (adde_lem h e s fits) (
      Returns-map
        (add_all-Filled (added h e) es (added-IsSized h e s fits (omega arith))
          (added-IsIndexed h e s x fresh) d.1
          (λ n m i. elim ((grown n).0 i) [
            | inl old ↦ new n (inr m) old
            | inr same ↦ d.0 (subst (λ k. Member k es) same m)
          ])
          (omega arith) (omega arith))
        λ h' f. record {
          sized = f.sized;
          indexed = f.indexed;
          size = omega (arith, f.size);
          elements = λ n. ↔-trans (f.elements n) (regroup (grown n));
        })
