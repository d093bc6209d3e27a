-- ===== src/Mempool/Expand.antt =====
-- src/mempool.c: the groups that `expand` adds.
use ylib.Base.{
  ℕ, zero, suc, ◌+◌, ◌-◌, ◌*◌, ◌/◌, ◌%◌, ◌≤◌, ◌<◌, ◌≡◌, ◌≢◌, ◌↔◌, ◌⊎◌, ◌∙◌, ap, sym, refl, true,
  false, ltb, leb, ◌==◌, arith, Bool-cases, inl, inr, mul_mono, [], ◌∷◌, ◌++◌, ◌||◌, Status, ok,
  enomem,
}
use ylib.Base.Run.{done}
use ylib.Mempool.{
  Mempool, int_limit, sz, slot, blksz, init_blocks, expanded, Outcome, expand, if_any,
}
use ylib.Mempool.Valid.{IsValid, IsUsed, IsApart, group-lt}

module _ (base bsz first : ℕ) (some_bytes : 0 < bsz) where
  init-strip_before :
      (i n : ℕ) (s : (ℕ → ℕ) × (ℕ → ℕ)) (j : ℕ)
      → j < i
      → (init_blocks base bsz first i n s).0 j ≡ s.0 j
  unfolding init_blocks
  init-strip_before i zero s j k = refl
  init-strip_before i (suc n) s j k = init-strip_before (suc i) n _ j (omega arith) ∙ ground arith

  init-strip :
      (i n : ℕ) (s : (ℕ → ℕ) × (ℕ → ℕ)) (j : ℕ)
      → i ≤ j
      → j < i + n
      → (init_blocks base bsz first i n s).0 j ≡ base + j * bsz
  unfolding init_blocks
  init-strip i zero s j k l = absurd (omega arith)
  init-strip i (suc n) s j k l = elim (Bool-cases (j == i)) [
    | inl e ↦
        let same : j ≡ i = ground arith in
        rw same (init-strip_before (suc i) n _ i (omega arith) ∙ ground arith)
    | inr e ↦ init-strip (suc i) n _ j (ground arith) (omega arith)
  ]

  -- blocks outside the ones that are left keep their index
  init-index_other :
      (i n : ℕ) (s : (ℕ → ℕ) × (ℕ → ℕ)) (c : ℕ)
      → ((j : ℕ) → i ≤ j → j < i + n → c ≢ base + j * bsz)
      → (init_blocks base bsz first i n s).1 c ≡ s.1 c
  unfolding init_blocks
  init-index_other i zero s c o = refl
  init-index_other i (suc n) s c o =
      init-index_other (suc i) n _ c (λ j k l. o j (omega arith) (omega arith))
      ∙ ground (arith, o i (omega arith) (omega arith))

  place-inj : (j k : ℕ) → base + j * bsz ≡ base + k * bsz → j ≡ k
  place-inj j k e = grind arith

  init-index :
      (i n : ℕ) (s : (ℕ → ℕ) × (ℕ → ℕ)) (j : ℕ)
      → i ≤ j
      → j < i + n
      → (init_blocks base bsz first i n s).1 (base + j * bsz) ≡ first + j
  unfolding init_blocks
  init-index i zero s j k l = absurd (omega arith)
  init-index i (suc n) s j k l = elim (Bool-cases (j == i)) [
    | inl e ↦
        let same : j ≡ i = ground arith in
        rw same (
          init-index_other (suc i) n _ (base + i * bsz)
            (λ m p q e. absurd (omega (arith, place-inj i m e)))
          ∙ ground arith)
    | inr e ↦ init-index (suc i) n _ j (ground arith) (omega arith)
  ]

-- the group at this address overlaps no block of the pool
abbrev pub IsFresh : Mempool → ℕ → Type 0
IsFresh mp group =
    (i : ℕ) → i < sz mp → (slot mp i + blksz mp ≤ group) ⊎ (group + mp.grpsz * blksz mp ≤ slot mp i)

old_group : (i g n : ℕ) → 0 < g → i < n * g → (i / g == n) ≡ false
old_group i g n p k = ground (arith, group-lt i g n p k)

new_group : (i g n : ℕ) → 0 < g → n * g ≤ i → i < n * g + g → i / g ≡ n
new_group i g n p k l = grind arith

new_place : (i g n : ℕ) → 0 < g → n * g ≤ i → i < n * g + g → i % g ≡ i - n * g
new_place i g n p k l = grind arith

within : (j n bsz : ℕ) → j < n → j * bsz + bsz ≤ n * bsz
within j n bsz l = ground (arith, mul_mono (j + 1) n bsz)

old-new-IsApart :
    (old group bsz n k : ℕ)
    → (old + bsz ≤ group) ⊎ (group + n * bsz ≤ old)
    → k < n
    → IsApart bsz old (group + k * bsz)
old-new-IsApart old group bsz n k f l = ground (arith, f, within k n bsz l)

new-new-IsApart : (group bsz j k : ℕ) → j ≢ k → IsApart bsz (group + j * bsz) (group + k * bsz)
new-new-IsApart group bsz j k d = elim (Bool-cases (ltb j k)) [
  | inl e ↦ inl (omega (arith, within j k bsz (ground arith)))
  | inr e ↦ inr (omega (arith, within k j bsz (ground (arith, d))))
]

IsApart-sym : (bsz b c : ℕ) → IsApart bsz b c → IsApart bsz c b
IsApart-sym bsz b c (inl l) = inr l
IsApart-sym bsz b c (inr l) = inl l

module _ (mp : Mempool) (newgrp newfbp strip group : ℕ) (v : IsValid mp) where
  abbrev grown : Mempool
  grown = expanded mp newgrp newfbp strip group

  slot-old : (i : ℕ) → i < sz mp → slot grown i ≡ slot mp i
  slot-old i k = rw (old_group i mp.grpsz mp.nrgrp v.some_blocks k) refl

  slot-new :
      (i : ℕ) → sz mp ≤ i → i < sz mp + mp.grpsz → slot grown i ≡ group + (i - sz mp) * blksz mp
  slot-new i k l =
      let same : (mp.nrgrp == mp.nrgrp) ≡ true = ground arith in
      rw
        (
          new_group i mp.grpsz mp.nrgrp v.some_blocks k l,
          new_place i mp.grpsz mp.nrgrp v.some_blocks k l,
          same,
        )
        (init-strip group (blksz mp) (sz mp) (omega arith) 0 mp.grpsz _ (i - sz mp) (omega arith)
          (omega arith))

  index-old :
      IsFresh mp group
      → (c : ℕ) → ((i : ℕ) → i < mp.grpsz → c ≢ group + i * blksz mp)
      → grown.index c ≡ mp.index c
  index-old f c o =
      init-index_other group (blksz mp) (sz mp) (omega arith) 0 mp.grpsz _ c
        λ j k l. o j (omega arith)

  slot-other :
      IsFresh mp group → (i j : ℕ) → i < sz mp → j < mp.grpsz → slot mp i ≢ group + j * blksz mp
  slot-other f i j k l e = absurd (ground (arith, f i k, within j mp.grpsz (blksz mp) l))

  expanded-spaced :
      sz mp + mp.grpsz < int_limit
      → IsFresh mp group
      → (i j : ℕ) → (ltb i (sz mp) ≡ true) ⊎ (ltb i (sz mp) ≡ false)
      → (ltb j (sz mp) ≡ true) ⊎ (ltb j (sz mp) ≡ false)
      → i < sz grown
      → j < sz grown
      → i ≢ j
      → IsApart (blksz mp) (slot grown i) (slot grown j)
  expanded-spaced small f i j (inl e) (inl g) k l d =
      let p : i < sz mp = ground arith in
      let q : j < sz mp = ground arith in rw (slot-old i p, slot-old j q) (v.spaced i j p q d)
  expanded-spaced small f i j (inl e) (inr g) k l d =
      let p : i < sz mp = ground arith in
      rw (slot-old i p, slot-new j (ground arith) (ground arith))
        (old-new-IsApart (slot mp i) group (blksz mp) mp.grpsz (j - sz mp) (f i p) (ground arith))
  expanded-spaced small f i j (inr e) (inl g) k l d =
      let q : j < sz mp = ground arith in
      rw (slot-new i (ground arith) (ground arith), slot-old j q)
        (IsApart-sym (blksz mp) (slot mp j) (group + (i - sz mp) * blksz mp) (
          old-new-IsApart (slot mp j) group (blksz mp) mp.grpsz (i - sz mp) (f j q) (ground arith)))
  expanded-spaced small f i j (inr e) (inr g) k l d =
      rw (slot-new i (ground arith) (ground arith), slot-new j (ground arith) (ground arith))
        (new-new-IsApart group (blksz mp) (i - sz mp) (j - sz mp) (λ x. d (ground arith)))

  pub expanded-IsValid : sz mp + mp.grpsz < int_limit → IsFresh mp group → IsValid grown
  expanded-IsValid small f = record {
    some_blocks = v.some_blocks;
    used = ground (arith, v.used);
    small = ground (arith, small);
    narrow = v.narrow;
    group_fits = v.group_fits;
    indexed = λ i k. elim (Bool-cases (ltb i (sz mp))) [
      | inl e ↦
          let old : i < sz mp = ground arith in
          rw (slot-old i old)
            (index-old f (slot mp i) (λ j l. slot-other f i j old l) ∙ v.indexed i old)
      | inr e ↦
          let above : sz mp ≤ i = ground arith in
          rw (slot-new i above (ground arith)) (
            init-index group (blksz mp) (sz mp) (omega arith) 0 mp.grpsz _ (i - sz mp) (omega arith)
              (ground arith)
            ∙ omega arith)
    ];
    spaced = λ i j k l d.
        expanded-spaced small f i j (Bool-cases (ltb i (sz mp))) (Bool-cases (ltb j (sz mp))) k l d;
  }

  pub expanded-IsUsed : IsFresh mp group → (c : ℕ) → IsUsed grown c ↔ IsUsed mp c
  expanded-IsUsed f c = (
    λ m.
        let old : grown.index c < sz mp = omega (arith, m.0, v.used) in
        let same : slot mp (grown.index c) ≡ c = sym (slot-old (grown.index c) old) ∙ m.1 in
        let place : mp.index c ≡ grown.index c =
          ap mp.index (sym same) ∙ v.indexed (grown.index c) old in
        rw place (m.0, same),
    λ m.
        let old : mp.index c < sz mp = omega (arith, m.0, v.used) in
        let place : grown.index c ≡ mp.index c =
          index-old f c (λ j l e. slot-other f (mp.index c) j old l (m.1 ∙ e)) in
        (rw place m.0, rw place (slot-old (mp.index c) old ∙ m.1)),
  )

-- the allocator refused a request
abbrev pub Refused : (ℕ → ℕ → ℕ) → Type 0
Refused malloc = (k : ℕ) × (n : ℕ) × (malloc k n ≡ 0)

one-Refused :
    (malloc : ℕ → ℕ → ℕ) (j m k n : ℕ)
    → (malloc j m == 0) || (malloc k n == 0) ≡ true
    → Refused malloc
one-Refused malloc j m k n e = elim (Bool-cases (malloc j m == 0)) [
  | inl f ↦ (j, m, ground arith)
  | inr f ↦ (k, n, ground (arith, e, f))
]

-- The ways `expand` ends: there is no memory for the arrays, there is none for the new group, or
-- the pool has grown.
abbrev pub no_arrays : (ℕ → ℕ → ℕ) → Mempool → Outcome (Status × Mempool)
no_arrays malloc mp =
    let n = 8 * (mp.nrgrp + 1) in
    let arrays = if_any (malloc 0 n) ++ if_any (malloc 1 n) in
    record { got = arrays; freed = arrays; value = (enomem, mp) }

abbrev pub no_group : (ℕ → ℕ → ℕ) → Mempool → Outcome (Status × Mempool)
no_group malloc mp =
    let n = 8 * (mp.nrgrp + 1) in
    let arrays = if_any (malloc 0 n) ++ if_any (malloc 1 n) in
    let strip = if_any (malloc 2 (8 * mp.grpsz)) in
    let group = if_any (malloc 3 (mp.grpsz * blksz mp)) in
    record {
      got = arrays ++ (strip ++ group);
      freed = strip ++ (group ++ arrays);
      value = (enomem, mp);
    }

abbrev pub new_group_added : (ℕ → ℕ → ℕ) → Mempool → Outcome (Status × Mempool)
new_group_added malloc mp =
    let newgrp = malloc 0 (8 * (mp.nrgrp + 1)) in
    let newfbp = malloc 1 (8 * (mp.nrgrp + 1)) in
    let strip = malloc 2 (8 * mp.grpsz) in
    let group = malloc 3 (mp.grpsz * blksz mp) in
    record {
      got = newgrp ∷ newfbp ∷ strip ∷ group ∷ [];
      freed = mp.grp ∷ mp.fbp ∷ [];
      value = (ok, expanded mp newgrp newfbp strip group);
    }

pub expand_lem :
    (malloc : ℕ → ℕ → ℕ) (mp : Mempool)
    → sz mp + mp.grpsz < int_limit
    → blksz mp < int_limit
    → (mp.grpsz - 1) * blksz mp < int_limit
    → ((expand malloc mp ≡ done (no_arrays malloc mp)) × Refused malloc)
      ⊎ (((expand malloc mp ≡ done (no_group malloc mp)) × Refused malloc)
          ⊎ ((expand malloc mp ≡ done (new_group_added malloc mp))
              × (0 < malloc 3 (mp.grpsz * blksz mp))))
unfolding expand
expand_lem malloc mp small narrow group_fits =
    let no_overflow : leb int_limit (blksz mp) ≡ false = ground (arith, narrow) in
    let offsets : ltb ((mp.grpsz - 1) * blksz mp) int_limit ≡ true = ground (arith, group_fits) in
    let fits : ltb (sz mp + mp.grpsz) int_limit ≡ true = ground (arith, small) in
    elim (Bool-cases
      ((malloc 0 (8 * (mp.nrgrp + 1)) == 0) || (malloc 1 (8 * (mp.nrgrp + 1)) == 0))) [
        | inl e ↦ inl (rw (no_overflow, e) refl, one-Refused malloc _ _ _ _ e)
        | inr e ↦
            elim (Bool-cases
              ((malloc 2 (8 * mp.grpsz) == 0) || (malloc 3 (mp.grpsz * blksz mp) == 0))) [
                | inl f ↦ inr (inl (rw (no_overflow, e, f) refl, one-Refused malloc _ _ _ _ f))
                | inr f ↦ inr (inr (rw (no_overflow, e, f, fits, offsets) refl, ground (arith, f)))
              ]
      ]
