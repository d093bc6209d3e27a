-- ===== src/Heap/Push.antt =====
-- src/heap.c: valid heaps, `yheap_push`, and elements put behind the last one.
use Prim.Native.Nat.{Ordering, compare}
use ylib.Base.{
  ℕ, ◌+◌, ◌-◌, ◌*◌, ◌%◌, ◌≤◌, ◌<◌, ◌≡◌, ◌≢◌, ◌⊎◌, ◌↔◌, ◌∙◌, refl, Bool, true, false, ltb, ◌==◌,
  if◌then◌else◌, arith, Bool-cases, inl, inr, u32_mod, Status, ok, enomem, einval, is_ok,
}
use ylib.Base.Run.{done, ◌>>=◌, Returns, returns, Returns-map, Returns-bind}
use ylib.Dynb
use ylib.Dynb.{Dynb}
use ylib.Dynb.Growth
use ylib.Heap.{Heap, set, lasti, sete, adde, up, push}
use ylib.Heap.Swap.{IsSized, IsIndexed, In, lasti-count}
use ylib.Heap.Order.{IsOrdered, IsRising}
use ylib.Heap.Up.{up-Settled}

-- A heap whose buffer is valid, whose nodes know their places, and where no element is greater than
-- its parent.
pub record IsHeap (key : ℕ → ℕ) (h : Heap) : Type 0 where
  pub sized : IsSized h
  pub indexed : IsIndexed h
  pub ordered : IsOrdered key 1 h

-- the heap with `e` behind the last element
abbrev pub added : Heap → ℕ → Heap
added h e = record h {
  b = record (h.b) { sz = h.b.sz + 1 };
  slots = set h.slots h.b.sz e;
  index = set h.index e h.b.sz;
}

pub adde_lem : (h : Heap) (e : ℕ) → IsSized h → h.b.sz < h.b.limit → adde h e ≡ done (added h e)
unfolding adde sete Dynb.incsz lasti
adde_lem h e s room =
    let size : (h.b.sz + 1) % u32_mod ≡ h.b.sz + 1 = omega (arith, s.small) in
    let last : (h.b.sz + 1 + u32_mod - 1) % u32_mod ≡ h.b.sz = omega (arith, s.small) in
    let inside : ltb h.b.sz h.b.limit ≡ true = ground arith in
    let positive : ltb 0 h.b.sz ≡ true = ground (arith, s.virtual_root) in
    rw (size, last, inside, positive) refl

pub added-IsSized :
    (h : Heap) (e : ℕ)
    → IsSized h
    → h.b.sz < h.b.limit
    → (h.b.sz + 1) * 2 < u32_mod
    → IsSized (added h e)
added-IsSized h e s room small =
    let v = s.valid in
    record {
      valid = record {
        some_room = v.some_room;
        in_limit = omega arith;
        allocated = v.allocated;
        narrow = v.narrow;
        padded = v.padded;
      };
      virtual_root = omega arith;
      small = small;
    }

module _ (h : Heap) (e : ℕ) (s : IsSized h) (x : IsIndexed h) (new : In h e → ⊥) where
  pub added-IsIndexed : IsIndexed (added h e)
  added-IsIndexed i one k = elim (Bool-cases (i == h.b.sz)) [
    | inl last ↦ ground arith
    | inr earlier ↦
        let other : h.slots i ≢ e = λ same. new (ground (arith, x i one, same)) in
        ground (arith, x i one, other)
  ]

  pub added-In : (n : ℕ) → In (added h e) n ↔ (In h n ⊎ (n ≡ e))
  added-In n = elim (Bool-cases (n == e)) [
    | inl same ↦ (λ m. inr (ground arith), λ m. rw (same) (ground (arith, s.virtual_root)))
    | inr other ↦ (
      λ m. inl (ground (arith, m)),
      λ m. elim m [ inl old ↦ rw other (ground (arith, old)) | inr same ↦ absurd (ground arith) ],
    )
  ]

-- the new last element may be greater than its parent
added-IsRising :
    (key : ℕ → ℕ) (h : Heap) (e : ℕ)
    → 1 ≤ h.b.sz
    → IsOrdered key 1 h
    → IsRising key (added h e) h.b.sz
added-IsRising key h e one o j two k = ground (arith, o j two)

-- a heap in an enlarged buffer
rebased-In : (h : Heap) (c : Dynb) → c.sz ≡ h.b.sz → (n : ℕ) → In (record h { b = c }) n ↔ In h n
rebased-In h c e n = (λ m. (m.0, omega (arith, m.1), m.2), λ m. (m.0, omega (arith, m.1), m.2))

rebased-IsHeap :
    (key : ℕ → ℕ) (h : Heap) (c : Dynb)
    → IsHeap key h
    → Growth.IsValid c
    → c.sz ≡ h.b.sz
    → IsHeap key (record h { b = c })
rebased-IsHeap key h c v w e = record {
  sized = record {
    valid = w;
    virtual_root = omega (arith, v.sized.virtual_root);
    small = omega (arith, v.sized.small);
  };
  indexed = λ i one k. v.indexed i one (omega arith);
  ordered = λ j two k m. v.ordered j two (omega arith) m;
}

pub ↔-trans {ℓ} : {P Q R : Type ℓ} → P ↔ Q → Q ↔ R → P ↔ R
↔-trans p q = (λ x. q.0 (p.0 x), λ x. p.1 (q.1 x))

↔-or {ℓ} : {P Q R : Type ℓ} → P ↔ Q → (P ⊎ R) ↔ (Q ⊎ R)
↔-or p = (
  λ x. elim x [ inl a ↦ inl (p.0 a) | inr b ↦ inr b ],
  λ x. elim x [ inl a ↦ inl (p.1 a) | inr b ↦ inr b ],
)

-- How `yheap_push` ends: with the new node in a valid heap, or with -ENOMEM, a refused request and
-- the old nodes.
abbrev pub Pushed : (ℕ → Bool) → (ℕ → ℕ) → Heap → ℕ → Status × Heap → Type 0
Pushed grant key h e (st, h') =
    IsHeap key h'
    × (((st ≡ ok) × ((n : ℕ) → In h' n ↔ (In h n ⊎ (n ≡ e))))
        ⊎ ((st ≡ enomem) × ((k : ℕ) × (grant k ≡ false)) × ((n : ℕ) → In h' n ↔ In h n)))

module _ (cmp : ℕ → ℕ → Ordering) (key : ℕ → ℕ)
    (by_key : (a b : ℕ) → cmp a b ≡ compare (key a) (key b)) (grant : ℕ → Bool) where
  add_up-IsHeap :
      (h : Heap) (e : ℕ)
      → IsHeap key h
      → (In h e → ⊥)
      → (h.b.sz + 1) * 2 < u32_mod
      → h.b.sz < h.b.limit
      → Returns
          (λ r. IsHeap key r × ((n : ℕ) → In r n ↔ (In h n ⊎ (n ≡ e))))
          (up cmp (added h e) (lasti (added h e)))
  add_up-IsHeap h e v new small room =
      let s = added-IsSized h e v.sized room small in
      let last : lasti (added h e) ≡ h.b.sz = lasti-count (added h e) s ∙ omega arith in
      rw last (
        Returns-map
          (up-Settled cmp key by_key (added h e) h.b.sz s
            (added-IsIndexed h e v.sized v.indexed new)
            (added-IsRising key h e v.sized.virtual_root v.ordered) v.sized.virtual_root
            (omega arith))
          λ r t. (
            record { sized = t.shuffled.sized; indexed = t.shuffled.indexed; ordered = t.ordered },
            λ n. ↔-trans (t.shuffled.same_elements n) (added-In h e v.sized v.indexed new n),
          ))

  -- the part of `yheap_push` after `ydynb_expand2`
  grown-Pushed :
      (h : Heap) (e : ℕ) (st : Status) (c : Dynb)
      → IsHeap key h
      → (In h e → ⊥)
      → (h.b.sz + 1) * 2 < u32_mod
      → Growth.Expanded grant h.b 1 (st, c)
      → Returns (Pushed grant key h e) (
          if is_ok st
          then (adde (record h { b = c }) e >>= λ h''. up cmp h'' (lasti h'') >>= λ r. done (ok, r))
          else done (st, record h { b = c }))
  grown-Pushed h e ok c v new small (g, inl (_, room)) =
      let w = rebased-IsHeap key h c v g.valid g.same_sz in
      let fits : c.sz < c.limit = omega (arith, Growth.freesz_lem c g.valid) in
      rw (adde_lem (record h { b = c }) e w.sized fits) (
        Returns-bind
          (add_up-IsHeap (record h { b = c }) e w (λ m. new ((rebased-In h c g.same_sz e).0 m))
            (rw g.same_sz small) fits)
          λ r t.
            returns (t.0, inl (refl, λ n. ↔-trans (t.1 n) (↔-or (rebased-In h c g.same_sz n)))))
  grown-Pushed h e ok c v new small (g, inr (bad, _, _)) = absurd (cc)
  grown-Pushed h e enomem c v new small (g, inl (bad, _)) = absurd (cc)
  grown-Pushed h e enomem c v new small (g, inr (_, _, no_grant)) =
      returns
        (rebased-IsHeap key h c v g.valid g.same_sz, inr (refl, no_grant, rebased-In h c g.same_sz))
  grown-Pushed h e einval c v new small (g, inl (bad, _)) = absurd (cc)
  grown-Pushed h e einval c v new small (g, inr (bad, _, _)) = absurd (cc)

  -- `yheap_push` of a node that is not in the heap, with the sizes below 2 ^ 31, ends without a
  -- fault: with the node in a valid heap beside the old ones, or with -ENOMEM after a refused
  -- request and a valid heap of the old nodes.
  pub push-Pushed :
      (h : Heap) (e : ℕ)
      → IsHeap key h
      → (In h e → ⊥)
      → (h.b.sz + 1) * h.b.eszex * 2 < u32_mod
      → (h.b.sz + 1) * 2 < u32_mod
      → Returns (Pushed grant key h e) (push cmp grant h e)
  unfolding push
  push-Pushed h e v new wide small =
      let ((st, c), eq, x) =
        Growth.expand2_total grant 2 h.b 1 v.sized.valid wide small
          (omega (arith, v.sized.valid.in_limit)) in
      rw (eq, push) (grown-Pushed h e st c v new small x)
