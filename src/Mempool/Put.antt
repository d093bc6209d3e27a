-- ===== src/Mempool/Put.antt =====
-- src/mempool.c: `ymempool_put`.
use ylib.Base.{
  ℕ, ◌+◌, ◌-◌, ◌*◌, ◌/◌, ◌≤◌, ◌<◌, ◌≡◌, ◌≢◌, ◌↔◌, ◌∙◌, ap, sym, refl, true, false, ltb, ◌==◌, Bool,
  if◌then◌else◌, arith, Bool-cases, inl, inr,
}
use ylib.Base.Run.{done, fault, Returns, returns}
use ylib.Mempool.{Mempool, int_limit, sz, slot, put, need_shrink, shrink, is_usedblk}
use ylib.Mempool.Valid.{IsValid, IsUsed, placed, setfbp_lem, slot-placed, fbpblk_lem}

-- the pool with the block `b` exchanged for the last used one and taken out of the used ones
abbrev pub returned : Mempool → ℕ → Mempool
returned mp b =
    let last = mp.fbi - 1 in
    placed (placed (record mp { fbi = last }) last b) (mp.index b) (slot mp last)

same_if : (c : Bool) (mp : Mempool) → (if c then shrink mp 1 else mp) ≡ mp
unfolding shrink
same_if true mp = refl
same_if false mp = refl

-- two places exchanged
abbrev pub exchange : ℕ → ℕ → ℕ → ℕ
exchange a b j = if j == a then b else if j == b then a else j

-- The used blocks once `b` is exchanged for `ub`, the last one: `x` is the index of a block `c`
-- and `x'` its index after that.
used_after :
    (last ti b ub c x x' : ℕ) (slots : ℕ → ℕ)
    → slots last ≡ ub
    → slots ti ≡ b
    → ti ≤ last
    → (c ≡ ub → x ≡ last)
    → (c ≡ b → x ≡ ti)
    → x' ≡ (if c == ub then ti else if c == b then last else x)
    → ((x' < last) × (slots (exchange ti last x') ≡ c))
      ↔ (((x < last + 1) × (slots x ≡ c)) × (c ≢ b))
used_after last ti b ub c x x' slots at_last at_ti below of_ub of_b after =
    elim (Bool-cases (c == ub)) [
      | inl e ↦ (λ m. ground arith, λ m. ground arith)
      | inr e ↦ elim (Bool-cases (c == b)) [
        | inl f ↦ (λ m. ground arith, λ m. ground arith)
        | inr f ↦ (λ m. ground arith, λ m. ground arith)
      ]
    ]

module _ (mp : Mempool) (b : ℕ) (v : IsValid mp) (u : IsUsed mp b) where
  pub slot-returned :
      (j : ℕ) → slot (returned mp b) j ≡ slot mp (exchange (mp.index b) (mp.fbi - 1) j)
  slot-returned j =
      rw
        (
          slot-placed (placed (record mp { fbi = mp.fbi - 1 }) (mp.fbi - 1) b) (mp.index b)
              (slot mp (mp.fbi - 1)) j v.some_blocks,
          slot-placed (record mp { fbi = mp.fbi - 1 }) (mp.fbi - 1) b j v.some_blocks,
        )
        ground (arith, u.1)

  pub put-returned : (mp.fbi - 1) * 2 < int_limit → put mp (b + 8) ≡ done (returned mp b)
  unfolding put need_shrink
  put-returned few =
      let last = mp.fbi - 1 in
      let mp1 : Mempool = record mp { fbi = last } in
      let some_used : ltb 0 mp.fbi ≡ true = ground (arith, u.0) in
      let is_used : ltb (mp.index b) mp.fbi ≡ true = ground (arith, u.0) in
      let block : b + 8 - 8 ≡ b = omega arith in
      let below : last < sz mp = omega (arith, v.used, u.0) in
      let at_last = v.indexed last below in
      let fits : ltb (last * 2) int_limit ≡ true = ground (arith, few) in
      rw
        (
          block,
          some_used,
          is_used,
          fbpblk_lem mp1 last v.some_blocks below at_last,
          at_last,
          setfbp_lem mp1 last b v.some_blocks below,
          setfbp_lem (placed mp1 last b) (mp.index b) (slot mp last) v.some_blocks
              (omega (arith, v.used, u.0)),
          fits,
          same_if (ltb (last * 2 / mp.grpsz) mp.nrgrp) (returned mp b),
        )
        refl

  pub returned-IsValid : IsValid (returned mp b)
  returned-IsValid = record {
    some_blocks = v.some_blocks;
    used = omega (arith, v.used);
    small = v.small;
    narrow = v.narrow;
    group_fits = v.group_fits;
    indexed = λ i k.
        rw (slot-returned i) ground (arith, v.indexed i k, v.indexed (mp.fbi - 1), u, v.used);
    spaced = λ i j k l d.
        rw (slot-returned i, slot-returned j)
          (v.spaced (exchange (mp.index b) (mp.fbi - 1) i) (exchange (mp.index b) (mp.fbi - 1) j)
            (ground (arith, u.0, v.used)) (ground (arith, u.0, v.used)) (λ e. d (ground arith)));
  }

  pub returned-IsUsed : (c : ℕ) → IsUsed (returned mp b) c ↔ (IsUsed mp c × (c ≢ b))
  returned-IsUsed c =
      let last = mp.fbi - 1 in
      let at_last = v.indexed last (omega (arith, v.used, u.0)) in
      let x' = (returned mp b).index c in
      let w =
        used_after last (mp.index b) b (slot mp last) c (mp.index c) x' (slot mp) refl u.1
          (omega (arith, u.0)) (λ e. ap mp.index e ∙ at_last) (λ e. ap mp.index e) refl in
      (
        λ m.
            let r = w.0 (m.0, sym (slot-returned x') ∙ m.1) in
            ((omega (arith, r.0.0, u.0), r.0.1), r.1),
        λ m. let r = w.1 ((omega (arith, m.0.0), m.0.1), m.1) in (r.0, slot-returned x' ∙ r.1),
      )

-- `ymempool_put` of a used block of a valid pool with at most 2 ^ 30 used blocks gives back that block
-- alone: the pool stays valid, and the used blocks are the other ones that were used.
pub put-IsUsed :
    (mp : Mempool) (b : ℕ)
    → IsValid mp
    → IsUsed mp b
    → (mp.fbi - 1) * 2 < int_limit
    → Returns
        (λ mp'. IsValid mp' × ((c : ℕ) → IsUsed mp' c ↔ (IsUsed mp c × (c ≢ b))))
        (put mp (b + 8))
put-IsUsed mp b v u few =
    rw (put-returned mp b v u few) (returns (returned-IsValid mp b v u, returned-IsUsed mp b v u))

-- A pointer that is not in use, such as one given back twice, faults in `ymempool_put`.
pub put-fault : (mp : Mempool) (b : ℕ) → is_usedblk mp b ≡ false → put mp (b + 8) ≡ fault
unfolding put
put-fault mp b e =
    let block : b + 8 - 8 ≡ b = omega arith in
    let free : ltb (mp.index b) mp.fbi ≡ false = ground (arith, e) in
    elim (Bool-cases (ltb 0 mp.fbi)) [
      | inl f ↦ rw (block, free, f) refl
      | inr f ↦ rw (block, free, f) refl
    ]
