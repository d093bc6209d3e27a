-- ===== src/Hashl/Remap.antt =====
-- src/hashl.c: `yhashl_hremap`.
use ylib.Base.{ℕ, ◌≡◌, ◌⊎◌, sym, subst, List, [], ◌∷◌, ◌++◌, ◌==◌, arith, Bool-cases, inl, inr}
use ylib.Hashl.{Node, hv__, reassign, set_bucket}
use ylib.Hashl.Table.{Has}

module _ {K : Type 0} where
  Has-snoc : (ns : List (Node K)) (n m : Node K) → Has (ns ++ (n ∷ [])) m → Has ns m ⊎ (m ≡ n)
  Has-snoc [] n m (inl e) = inr e
  Has-snoc [] n m (inr i) = absurd i
  Has-snoc (o ∷ ns) n m (inl e) = inl (inl e)
  Has-snoc (o ∷ ns) n m (inr i) = elim (Has-snoc ns n m i) [ inl j ↦ inl (inr j) | inr e ↦ inr e ]

  snoc-Has : (ns : List (Node K)) (n m : Node K) → Has ns m ⊎ (m ≡ n) → Has (ns ++ (n ∷ [])) m
  snoc-Has [] n m (inl i) = absurd i
  snoc-Has [] n m (inr e) = inl e
  snoc-Has (o ∷ ns) n m (inl (inl e)) = inl e
  snoc-Has (o ∷ ns) n m (inl (inr i)) = inr (snoc-Has ns n m (inl i))
  snoc-Has (o ∷ ns) n m (inr e) = inr (snoc-Has ns n m (inr e))

  abbrev with_node : ℕ → (ℕ → List (Node K)) → Node K → ℕ → List (Node K)
  with_node bits map n = let i = hv__ bits n.hv32 in set_bucket map i (map i ++ (n ∷ []))

  Has-with_node :
      (bits : ℕ) (map : ℕ → List (Node K)) (n : Node K) (j : ℕ) (m : Node K)
      → Has (with_node bits map n j) m
      → Has (map j) m ⊎ ((m ≡ n) × (hv__ bits n.hv32 ≡ j))
  Has-with_node bits map n j m i = elim (Bool-cases (j == hv__ bits n.hv32)) [
    | inl e ↦
        let same : j ≡ hv__ bits n.hv32 = ground arith in
        elim (Has-snoc (map (hv__ bits n.hv32)) n m (rw e at i)) [
          | inl k ↦ inl (rw same k)
          | inr f ↦ inr (f, sym same)
        ]
    | inr e ↦ inl (rw e at i)
  ]

  with_node-Has :
      (bits : ℕ) (map : ℕ → List (Node K)) (n : Node K) (j : ℕ) (m : Node K)
      → Has (map j) m ⊎ ((m ≡ n) × (hv__ bits n.hv32 ≡ j))
      → Has (with_node bits map n j) m
  with_node-Has bits map n j m i = elim (Bool-cases (j == hv__ bits n.hv32)) [
    | inl e ↦
        let same : j ≡ hv__ bits n.hv32 = ground arith in
        rw e (
          snoc-Has (map (hv__ bits n.hv32)) n m
            (elim i [ inl k ↦ inl (subst (λ b. Has (map b) m) same k) | inr (f, _) ↦ inr f ]))
    | inr e ↦ elim i [ inl k ↦ rw e k | inr (_, f) ↦ absurd (ground arith) ]
  ]

  pub Has-reassign :
      (bits : ℕ) (ns : List (Node K)) (map : ℕ → List (Node K)) (j : ℕ) (m : Node K)
      → Has (reassign bits ns map j) m
      → Has (map j) m ⊎ (Has ns m × (hv__ bits m.hv32 ≡ j))
  unfolding reassign
  Has-reassign bits [] map j m i = inl i
  Has-reassign bits (n ∷ ns) map j m i = elim (Has-reassign bits ns (with_node bits map n) j m i) [
    | inl k ↦ elim (Has-with_node bits map n j m k) [
      | inl l ↦ inl l
      | inr (e, f) ↦ inr (inl e, rw e f)
    ]
    | inr (k, e) ↦ inr (inr k, e)
  ]

  pub reassign-Has :
      (bits : ℕ) (ns : List (Node K)) (map : ℕ → List (Node K)) (j : ℕ) (m : Node K)
      → Has (map j) m ⊎ (Has ns m × (hv__ bits m.hv32 ≡ j))
      → Has (reassign bits ns map j) m
  unfolding reassign
  reassign-Has bits [] map j m (inl i) = i
  reassign-Has bits [] map j m (inr (i, _)) = absurd i
  reassign-Has bits (n ∷ ns) map j m (inl i) =
      reassign-Has bits ns (with_node bits map n) j m (inl (with_node-Has bits map n j m (inl i)))
  reassign-Has bits (n ∷ ns) map j m (inr (inl e, f)) =
      reassign-Has bits ns (with_node bits map n) j m (
        inl (
          with_node-Has bits map n j m (inr (e, subst (λ (o : Node K). hv__ bits o.hv32 ≡ j) e f))))
  reassign-Has bits (n ∷ ns) map j m (inr (inr i, f)) =
      reassign-Has bits ns (with_node bits map n) j m (inr (i, f))
