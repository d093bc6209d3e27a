-- ===== src/Heap/Swap.antt =====
-- src/heap.c: valid heaps, and what exchanging two elements keeps.
use ylib.Base.{
  ℕ, ◌-◌, ◌*◌, ◌≤◌, ◌<◌, ◌≡◌, ◌↔◌, refl, true, ltb, leb, ◌==◌, u32_mod, arith, Bool-cases, inl, inr,
}
use ylib.Base.Run.{done}
use ylib.Dynb.Growth
use ylib.Heap.{Heap, set, lasti, gete, sete, swap}

-- the buffer, with at most 2 ^ 31 elements
pub record IsSized (h : Heap) : Type 0 where
  pub valid : Growth.IsValid h.b
  pub virtual_root : 1 ≤ h.b.sz
  pub small : h.b.sz * 2 < u32_mod

-- the number of elements
abbrev pub count : Heap → ℕ
count h = h.b.sz - 1

-- every node knows its place
abbrev pub IsIndexed : Heap → Type 0
IsIndexed h = (i : ℕ) → 1 ≤ i → i ≤ count h → h.index (h.slots i) ≡ i

-- is the node in the heap?
abbrev pub In : Heap → ℕ → Type 0
In h n = (1 ≤ h.index n) × (h.index n ≤ count h) × (h.slots (h.index n) ≡ n)

pub lasti-count : (h : Heap) → IsSized h → lasti h ≡ count h
unfolding lasti
lasti-count h s = omega (arith, s.valid.narrow, s.valid.in_limit, s.virtual_root, s.small)

abbrev pub swapped : Heap → ℕ → ℕ → Heap
swapped h i j = record h {
  slots = set (set h.slots i (h.slots j)) j (h.slots i);
  index = set (set h.index (h.slots j) i) (h.slots i) j;
}

pub gete_lem : (h : Heap) (i : ℕ) → IsSized h → i ≤ count h → gete h i ≡ done (h.slots i)
unfolding gete
gete_lem h i s k =
    let inside : leb i (lasti h) ≡ true = ground (arith, lasti-count h s) in rw inside refl

pub sete_lem :
    (h : Heap) (i e : ℕ)
    → IsSized h
    → 1 ≤ i
    → i ≤ count h
    → sete h i e ≡ done (record h { slots = set h.slots i e; index = set h.index e i })
unfolding sete
sete_lem h i e s p k =
    let inside : ltb i h.b.limit ≡ true = ground (arith, s.valid.in_limit, s.virtual_root) in
    let positive : ltb 0 i ≡ true = ground arith in rw (inside, positive) refl

pub swap_lem :
    (h : Heap) (i j : ℕ)
    → IsSized h
    → 1 ≤ i
    → i ≤ count h
    → 1 ≤ j
    → j ≤ count h
    → swap h i j ≡ done (swapped h i j)
unfolding swap
swap_lem h i j s p k q l =
    let s' : IsSized
        (record h { slots = set h.slots i (h.slots j); index = set h.index (h.slots j) i }) =
      record { valid = s.valid; virtual_root = s.virtual_root; small = s.small } in
    rw
      (
        gete_lem h i s k,
        gete_lem h j s l,
        sete_lem h i (h.slots j) s p k,
        sete_lem _ j (h.slots i) s' q l,
      )
      refl

pub swapped-IsIndexed :
    (h : Heap) (i j : ℕ)
    → IsIndexed h
    → 1 ≤ i
    → i ≤ count h
    → 1 ≤ j
    → j ≤ count h
    → IsIndexed (swapped h i j)
swapped-IsIndexed h i j x p k q l m a b = ground (arith, x i p k, x j q l, x m a b)

pub swapped-In :
    (h : Heap) (i j n : ℕ)
    → IsIndexed h
    → 1 ≤ i
    → i ≤ count h
    → 1 ≤ j
    → j ≤ count h
    → In (swapped h i j) n ↔ In h n
swapped-In h i j n x p k q l = elim (Bool-cases (n == h.slots i)) [
  | inl e ↦
      let same : n ≡ h.slots i = ground arith in
      rw same ((λ m. ground (arith, x i p k), λ m. ground (arith, x i p k, x j q l)))
  | inr e ↦ elim (Bool-cases (n == h.slots j)) [
    | inl f ↦
        let same : n ≡ h.slots j = ground arith in
        rw same ((λ m. ground (arith, x j q l), λ m. ground (arith, x i p k, x j q l)))
    | inr f ↦
        rw (e, f)
          ((λ m. ground (arith, m, x i p k, x j q l), λ m. ground (arith, m, x i p k, x j q l)))
  ]
]
