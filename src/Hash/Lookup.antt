-- ===== src/Hash/Lookup.antt =====
-- src/hash.c: what `yhash_get` finds after `hash_set` and `yhash_remove2`.
use ylib.Base.{
  ℕ, ◌+◌, ◌-◌, ◌*◌, ◌/◌, ◌%◌, ◌≤◌, max, ◌≡◌, ◌⊎◌, ◌∙◌, sym, ap, refl, subst, Bool, true, Option,
  none, some, ltb, ◌==◌, arith, Bool-cases, inl, inr, u32_mod, Status, ok, enomem,
}
use ylib.Hashl
use ylib.Hashl.{Node, Hashl, hmapsz, buckets, min_hbits, hremap}
use ylib.Hashl.Table.{Has, IsHash, IsTable, Option-cases}
use ylib.Hashl.Rehash.{hremap-IsRemapped}
use ylib.Hash.{Hash, expand_map, shrink_map, get}

-- with few enough buckets that no size overflows
pub record IsValid {K : Type 0} (hfunc : K → ℕ) (keq : K → K → Bool) (hash : Hash K) : Type 0 where
  pub table : IsTable hfunc keq hash.h
  pub bits : hash.h.mapbits ≤ 30

-- a map of 2 ^ 30 buckets is never too small
below_30 : (b n : ℕ) → b ≤ 30 → ltb (buckets b * 2 % u32_mod) n ≡ true → n ≤ 2147483648 → b + 1 ≤ 30
below_30 b n l e s = elim (Bool-cases (b == 30)) [
  | inl f ↦
      let same : b ≡ 30 = ground arith in
      let full : ltb (buckets 30 * 2 % u32_mod) n ≡ true =
        subst (λ c. ltb (buckets c * 2 % u32_mod) n ≡ true) same e in
      absurd (ground (arith, full))
  | inr f ↦ ground arith
]

few_bits :
    {K : Type 0} (h h' : Hashl K) (st : Status) (b : ℕ)
    → b ≤ 30
    → h.mapbits ≤ 30
    → ((st ≡ ok) × (h'.mapbits ≡ max b min_hbits)) ⊎ ((st ≡ enomem) × (h' ≡ h))
    → h'.mapbits ≤ 30
few_bits h h' st b l m (inl (_, e)) = omega arith
few_bits h h' st b l m (inr (_, e)) = rw e m

module _ {K : Type 0} (hfunc : K → ℕ) (keq : K → K → Bool) (x : IsHash hfunc keq) where
  -- the table after a change of its map
  abbrev pub IsSame : Hashl K → Hashl K → Type 0
  IsSame h h' =
      IsTable hfunc keq h'
      × (h'.mapbits ≤ 30)
      × ((k : K) → Hashl.get hfunc keq h' k ≡ Hashl.get hfunc keq h k)
      × ((i : ℕ) (n : Node K) → Has (h'.map i) n → (j : ℕ) × Has (h.map j) n)

  pub expand_map-IsSame :
      (malloc : ℕ → Bool) (h : Hashl K)
      → IsTable hfunc keq h
      → h.mapbits ≤ 30
      → h.sz ≤ 2147483648
      → IsSame h (expand_map malloc h)
  unfolding expand_map
  expand_map-IsSame malloc h t b s = elim (Bool-cases (ltb (hmapsz h * 2 % u32_mod) h.sz)) [
    | inl e ↦
        let (t', g, z, m, i) =
          hremap-IsRemapped hfunc keq malloc h (h.mapbits + 1) x t (omega arith) in
        rw e (t', few_bits h _ _ (h.mapbits + 1) (below_30 h.mapbits h.sz b e s) b m, g, i)
    | inr e ↦ rw e (t, b, (λ k. refl), λ i n m. (i, m))
  ]

  pub shrink_map-IsSame :
      (malloc : ℕ → Bool) (h : Hashl K)
      → IsTable hfunc keq h
      → h.mapbits ≤ 30
      → IsSame h (shrink_map malloc h)
  unfolding shrink_map
  shrink_map-IsSame malloc h t b = elim (Bool-cases (ltb h.sz (hmapsz h / 2))) [
    | inl e ↦
        let (t', g, z, m, i) =
          hremap-IsRemapped hfunc keq malloc h (h.mapbits - 1) x t (omega arith) in
        rw e (t', few_bits h _ _ (h.mapbits - 1) (omega arith) b m, g, i)
    | inr e ↦ rw e (t, b, (λ k. refl), λ i n m. (i, m))
  ]

  -- the value in the node that was found
  abbrev pub value_of : (ℕ → ℕ) → Option (Node K) → Option ℕ
  value_of v none = none
  value_of v (some n) = some (v n.at)

  pub get-value_of :
      (hash : Hash K) (k : K)
      → get hfunc keq hash k ≡ value_of hash.v (Hashl.get hfunc keq hash.h k)
  unfolding get
  get-value_of hash k = elim (Option-cases (Hashl.get hfunc keq hash.h k)) [
    | inl e ↦ rw (e, get) refl
    | inr (n, e) ↦ rw (e, get) refl
  ]

  -- a table that finds the same nodes holds the same values
  pub same-get :
      (hash : Hash K) (h' : Hashl K)
      → ((k : K) → Hashl.get hfunc keq h' k ≡ Hashl.get hfunc keq hash.h k)
      → (k : K) → get hfunc keq (record hash { h = h' }) k ≡ get hfunc keq hash k
  same-get hash h' same k =
      get-value_of (record hash { h = h' }) k
      ∙ ap (value_of hash.v) (same k)
      ∙ sym (get-value_of hash k)
