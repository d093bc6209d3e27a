-- ===== src/Lru/Without.antt =====
-- src/lru.c: lists of nodes without one of them.
use ylib.Base.{
  ℕ, ◌+◌, ◌≡◌, ◌≢◌, ◌∙◌, refl, subst, List, [], ◌∷◌, ◌==◌, if◌then◌else◌, arith, Bool-cases, inl,
  inr,
}
use ylib.Listl.Links.{Outside, IsDistinct}
use ylib.Lru.{without}
use ylib.Lru.Keeps.{In, total}

pub In-without : (n m : ℕ) (xs : List ℕ) → In m (without n xs) → In m xs
In-without n m [] i = i
In-without n m (x ∷ xs) i = elim (Bool-cases (x == n)) [
  | inl e ↦ inr (subst (λ b. In m (if b then xs else x ∷ without n xs)) e i)
  | inr e ↦ elim (subst (λ b. In m (if b then xs else x ∷ without n xs)) e i) [
    | inl f ↦ inl f
    | inr j ↦ inr (In-without n m xs j)
  ]
]

pub In-stays : (n m : ℕ) (xs : List ℕ) → m ≢ n → In m xs → In m (without n xs)
In-stays n m [] d i = i
In-stays n m (x ∷ xs) d i = elim (Bool-cases (x == n)) [
  | inl e ↦
      rw e (elim i [
        | inl f ↦ let same : x ≡ n = ground (arith, e) in absurd (d (f ∙ same))
        | inr j ↦ j
      ])
  | inr e ↦ rw e (elim i [ inl f ↦ inl f | inr j ↦ inr (In-stays n m xs d j) ])
]

Outside-without : (n m : ℕ) (xs : List ℕ) → Outside m xs → Outside m (without n xs)
Outside-without n m [] o = o
Outside-without n m (x ∷ xs) o = elim (Bool-cases (x == n)) [
  | inl e ↦ rw e (o.1)
  | inr e ↦ rw e (o.0, Outside-without n m xs o.1)
]

pub IsDistinct-without :
    (n : ℕ) (xs : List ℕ) → IsDistinct xs → IsDistinct (without n xs) × Outside n (without n xs)
IsDistinct-without n [] d = (d, tt)
IsDistinct-without n (x ∷ xs) d = elim (Bool-cases (x == n)) [
  | inl e ↦ let same : x ≡ n = ground (arith, e) in rw e (d.1, subst (λ y. Outside y xs) same d.0)
  | inr e ↦
      let (f, o) = IsDistinct-without n xs d.1 in
      rw e ((Outside-without n x xs d.0, f), ((λ s. absurd (ground (arith, s, e))), o))
]

pub total-without :
    (size d : ℕ → ℕ) (n : ℕ) (xs : List ℕ)
    → In n xs
    → total size d xs ≡ size (d n) + total size d (without n xs)
total-without size d n [] i = absurd i
total-without size d n (x ∷ xs) i = elim (Bool-cases (x == n)) [
  | inl e ↦ let same : x ≡ n = ground (arith, e) in rw (e, same) refl
  | inr e ↦ rw e (elim i [
    | inl f ↦ absurd (ground (arith, f, e))
    | inr j ↦ omega (arith, total-without size d n xs j)
  ])
]
