-- ===== src/Mempool/Ledger.antt =====
-- src/mempool.c: what the pool gets from the allocator, and gives back.
use ylib.Base.{
  ℕ, zero, suc, ◌+◌, ◌-◌, ◌*◌, ◌≤◌, ◌<◌, ◌≡◌, ◌⊎◌, ap, refl, true, false, ltb, ◌==◌, ◌&&◌,
  if◌then◌else◌, arith, Bool-cases, inl, inr, List, [], ◌∷◌, ◌++◌,
}
use ylib.Base.Run.{Returns, returns}
use ylib.Mempool.{
  Mempool, Outcome, set, int_limit, sz, blksz, expanded, create, destroy, groups, if_any, usedsz,
}
use ylib.Mempool.Valid.{IsValid}
use ylib.Mempool.Expand.{Refused, expanded-IsValid, expand_lem, no_arrays, no_group}

-- how many times the address is in the list
abbrev pub times : ℕ → List ℕ → ℕ
times p [] = 0
times p (x ∷ xs) = (if x == p then 1 else 0) + times p xs

times-append : (p : ℕ) (xs ys : List ℕ) → times p (xs ++ ys) ≡ times p xs + times p ys
times-append p [] ys = omega arith
times-append p (x ∷ xs) ys = omega (arith, times-append p xs ys)

-- groups from the `i`-th on that are not touched
groups-set :
    (strips grps : ℕ → ℕ) (n x y i k : ℕ)
    → i + k ≤ n
    → groups (set strips n x) (set grps n y) i k ≡ groups strips grps i k
unfolding groups
groups-set strips grps n x y i zero l = refl
groups-set strips grps n x y i (suc k) l =
    let other : (i == n) ≡ false = ground arith in
    rw (other, groups-set strips grps n x y (suc i) k (omega arith)) refl

times-groups :
    (p : ℕ) (strips grps : ℕ → ℕ) (i k : ℕ)
    → times p (groups strips grps i (suc k))
      ≡ times p (groups strips grps i k) + times p (strips (i + k) ∷ grps (i + k) ∷ [])
unfolding groups
times-groups p strips grps i zero = let same : i + 0 ≡ i = omega arith in rw same omega arith
times-groups p strips grps i (suc k) =
    let same : i + suc k ≡ suc i + k = omega arith in
    rw same omega (arith, times-groups p strips grps (suc i) k)

-- what a pool holds, once it has one more group
times-expanded :
    (p : ℕ) (mp : Mempool) (newgrp newfbp strip group : ℕ)
    → times p (destroy (expanded mp newgrp newfbp strip group)) + times p (mp.grp ∷ mp.fbp ∷ [])
      ≡ times p (destroy mp) + times p (newgrp ∷ newfbp ∷ strip ∷ group ∷ [])
unfolding destroy
times-expanded p mp newgrp newfbp strip group =
    let strips' = set mp.strips mp.nrgrp strip in
    let grps' = set mp.grps mp.nrgrp group in
    let old = groups-set mp.strips mp.grps mp.nrgrp strip group 0 mp.nrgrp (omega arith) in
    let last = times-groups p strips' grps' 0 mp.nrgrp in
    let same : mp.nrgrp + 1 ≡ suc mp.nrgrp = omega arith in
    let self : (mp.nrgrp == mp.nrgrp) ≡ true = ground arith in
    let zero_add : 0 + mp.nrgrp ≡ mp.nrgrp = omega arith in
    rw same omega (
      arith,
      rw (old, zero_add, self) at last,
      times-append p (groups strips' grps' 0 (suc mp.nrgrp)) (newfbp ∷ newgrp ∷ mp.self ∷ []),
      times-append p (groups mp.strips mp.grps 0 mp.nrgrp) (mp.fbp ∷ mp.grp ∷ mp.self ∷ []),
    )

times-rotated :
    (p : ℕ) (arrays strip group : List ℕ)
    → times p (strip ++ (group ++ arrays)) ≡ times p (arrays ++ (strip ++ group))
times-rotated p arrays strip group = omega (
  arith,
  times-append p strip (group ++ arrays),
  times-append p group arrays,
  times-append p arrays (strip ++ group),
  times-append p strip group,
)

-- The addresses that the pool holds are, with what the operation gave back, the ones
-- that it held before and got.
abbrev pub IsBalanced {ℓ} : {V : Type ℓ} → List ℕ → List ℕ → Outcome V → Type 0
IsBalanced before after o =
    (p : ℕ) → times p after + times p o.freed ≡ times p before + times p o.got

no_group-balanced :
    (p : ℕ) (malloc : ℕ → ℕ → ℕ) (mp : Mempool)
    → times p (destroy mp) + times p (no_group malloc mp).freed
      ≡ times p (destroy mp) + times p (no_group malloc mp).got
no_group-balanced p malloc mp =
    ap (λ n. times p (destroy mp) + n)
      (times-rotated p
        (if_any (malloc 0 (8 * (mp.nrgrp + 1))) ++ if_any (malloc 1 (8 * (mp.nrgrp + 1))))
        (if_any (malloc 2 (8 * mp.grpsz))) (if_any (malloc 3 (mp.grpsz * blksz mp))))

-- what `ymempool_create` gives back when `expand` has failed
unwound :
    (p self fbp grp : ℕ) (freed got : List ℕ)
    → times p freed ≡ times p got
    → times p (freed ++ (grp ∷ fbp ∷ self ∷ [])) ≡ times p (self ∷ fbp ∷ grp ∷ got)
unwound p self fbp grp freed got same = omega (arith, times-append p freed (grp ∷ fbp ∷ self ∷ []))

-- what the caller holds after `ymempool_create`
abbrev pub held : ℕ × Mempool → List ℕ
held (p, mp) = if p == 0 then [] else destroy mp

-- the pool before its first group
abbrev pub empty_pool : (malloc : ℕ → ℕ → ℕ) → (index : ℕ → ℕ) → (grpsz elemsz : ℕ) → Mempool
empty_pool malloc index grpsz elemsz = record {
  self = malloc 0 112;
  grp = malloc 2 8;
  grps = λ _. 0;
  grpsz = grpsz;
  nrgrp = 0;
  fbp = malloc 1 8;
  strips = λ _. 0;
  fbps = λ _ _. 0;
  index = index;
  esz = elemsz;
  fbi = 0;
}

pub empty_pool-IsValid :
    (malloc : ℕ → ℕ → ℕ) (index : ℕ → ℕ) (grpsz elemsz : ℕ)
    → 0 < grpsz
    → blksz (empty_pool malloc index grpsz elemsz) < int_limit
    → (grpsz - 1) * blksz (empty_pool malloc index grpsz elemsz) < int_limit
    → IsValid (empty_pool malloc index grpsz elemsz)
empty_pool-IsValid malloc index grpsz elemsz p narrow group_fits = record {
  some_blocks = p;
  used = omega arith;
  small = omega arith;
  narrow = narrow;
  group_fits = group_fits;
  indexed = λ i k. absurd (omega arith);
  spaced = λ i j k l d. absurd (omega arith);
}

held-destroy : (p : ℕ) (mp : Mempool) → (p == 0) ≡ false → held (p, mp) ≡ destroy mp
held-destroy p mp e = rw e refl

destroy-empty :
    (malloc : ℕ → ℕ → ℕ) (index : ℕ → ℕ) (grpsz elemsz : ℕ)
    → destroy (empty_pool malloc index grpsz elemsz) ≡ malloc 1 8 ∷ malloc 2 8 ∷ malloc 0 112 ∷ []
unfolding destroy groups
destroy-empty malloc index grpsz elemsz = refl

-- How `ymempool_create` ends: with NULL after a refused request, or with a valid pool of one group, no block of which is in use.
-- In both cases what it got and did not give back is what the pool holds.
abbrev pub Created : (ℕ → ℕ → ℕ) → ℕ → Outcome (ℕ × Mempool) → Type 0
Created malloc grpsz o =
    IsBalanced [] (held o.value) o
    × (((o.value.0 ≡ 0) × Refused malloc)
        ⊎ (IsValid o.value.1 × (sz o.value.1 ≡ grpsz) × (usedsz o.value.1 ≡ 0)))

-- `ymempool_create`, with fewer than 2 ^ 31 blocks in a group, blocks smaller than 2 ^ 31 bytes, and the last of a
-- group at an offset below 2 ^ 31, returns NULL after a refused request, or a valid pool of one group
-- whose blocks are all free. It leaks nothing, whichever calls of the allocator fail: what it got and did not give back is what
-- `ymempool_destroy` gives back, and nothing after NULL.
pub create-Created :
    (malloc : ℕ → ℕ → ℕ) (index : ℕ → ℕ) (grpsz elemsz : ℕ)
    → 0 < grpsz
    → 0 < elemsz
    → grpsz < int_limit
    → blksz (empty_pool malloc index grpsz elemsz) < int_limit
    → (grpsz - 1) * blksz (empty_pool malloc index grpsz elemsz) < int_limit
    → Returns (Created malloc grpsz) (create malloc index grpsz elemsz)
unfolding create
create-Created malloc index grpsz elemsz p q small narrow group_fits =
    let args : ltb 0 grpsz && ltb 0 elemsz ≡ true = ground arith in
    let mp = empty_pool malloc index grpsz elemsz in
    let self = malloc 0 112 in
    let v = empty_pool-IsValid malloc index grpsz elemsz p narrow group_fits in
    let later : ℕ → ℕ → ℕ = λ k n. malloc (3 + k) n in
    let grown = λ (x : ℕ).
      times-expanded x mp (later 0 8) (later 1 8) (later 2 (8 * grpsz))
        (later 3 (grpsz * blksz mp)) in
    elim (Bool-cases (self == 0)) [
      | inl e ↦ rw (args, e) (returns ((λ _. refl), inl (refl, (0, 112, ground arith))))
      | inr e ↦ elim (Bool-cases (malloc 1 8 == 0)) [
        | inl f ↦ rw (args, e, f) (returns ((λ _. refl), inl (refl, (1, 8, ground arith))))
        | inr f ↦ elim (Bool-cases (malloc 2 8 == 0)) [
          | inl g ↦
              rw (args, e, f, g) (returns ((λ x. omega arith), inl (refl, (2, 8, ground arith))))
          | inr g ↦ elim (expand_lem later mp (omega arith) narrow group_fits) [
            | inl (r, why) ↦
                rw (args, e, f, g, r)
                  (returns (
                    λ x. omega (
                      arith,
                      unwound x self mp.fbp mp.grp (no_arrays later mp).freed
                          (no_arrays later mp).got refl,
                    ),
                    inl (refl, (3 + why.0, why.1, why.2)),
                  ))
            | inr (inl (r, why)) ↦
                rw (args, e, f, g, r)
                  (returns (
                    λ x. omega (
                      arith,
                      unwound x self mp.fbp mp.grp (no_group later mp).freed (no_group later mp).got
                          (omega (arith, no_group-balanced x later mp)),
                    ),
                    inl (refl, (3 + why.0, why.1, why.2)),
                  ))
            | inr (inr (r, _)) ↦
                rw (args, e, f, g, r)
                  (returns (
                    λ x. omega (
                      arith,
                      ap (times x) (
                          held-destroy self
                            (expanded mp (later 0 8) (later 1 8) (later 2 (8 * grpsz))
                              (later 3 (grpsz * blksz mp)))
                            e),
                      grown x,
                      ap (times x) (destroy-empty malloc index grpsz elemsz),
                    ),
                    inr (
                      expanded-IsValid mp (later 0 8) (later 1 8) (later 2 (8 * grpsz))
                          (later 3 (grpsz * blksz mp)) v (omega arith)
                          (λ i k. absurd (omega arith)),
                      omega arith,
                      refl,
                    ),
                  ))
          ]
        ]
      ]
    ]
