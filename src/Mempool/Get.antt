-- ===== src/Mempool/Get.antt =====
-- src/mempool.c: `ymempool_get`.
use ylib.Base.{
  ℕ, ◌+◌, ◌-◌, ◌*◌, ◌<◌, ◌≡◌, ◌≢◌, ◌↔◌, ◌⊎◌, ◌∙◌, ap, sym, refl, true, false, leb, ◌==◌, arith,
  Bool-cases, inl, inr, [],
}
use ylib.Base.Run.{done, fault, Returns, returns, Returns-bind}
use ylib.Mempool.{Mempool, int_limit, sz, slot, blksz, expanded, take_block, get, put, is_usedblk}
use ylib.Mempool.Valid.{IsValid, IsUsed, fbpblk_lem}
use ylib.Mempool.Expand.{Refused, IsFresh, expanded-IsValid, expanded-IsUsed, expand_lem}
use ylib.Mempool.Put.{put-returned, returned, returned-IsValid, slot-returned, put-fault}

-- the first free block is handed out
abbrev pub taken : Mempool → Mempool
taken mp = record mp { fbi = mp.fbi + 1 }

pub take_block_lem :
    (mp : Mempool)
    → IsValid mp
    → mp.fbi < sz mp
    → take_block mp ≡ done (slot mp mp.fbi + 8, taken mp)
unfolding take_block
take_block_lem mp v k =
    let x = v.indexed mp.fbi k in
    let numbered : (mp.index (slot mp mp.fbi) == mp.fbi) ≡ true = ground (arith, x) in
    rw (fbpblk_lem mp mp.fbi v.some_blocks k x, numbered) refl

taken-IsValid : (mp : Mempool) → IsValid mp → mp.fbi < sz mp → IsValid (taken mp)
taken-IsValid mp v k = record {
  some_blocks = v.some_blocks;
  used = omega (arith, k);
  small = v.small;
  narrow = v.narrow;
  group_fits = v.group_fits;
  indexed = v.indexed;
  spaced = v.spaced;
}

-- How `ymempool_get` ends on a pool: with NULL, and the used blocks as before, because all blocks are used
-- and the allocator refused a request, or with
-- a block that was not used, which is used from then on, as the other used blocks are.
abbrev pub Got : (ℕ → ℕ → ℕ) → Mempool → ℕ × Mempool → Type 0
Got malloc mp (p, mp') =
    IsValid mp'
    × (((p ≡ 0) × (mp.fbi ≡ sz mp) × Refused malloc × ((c : ℕ) → IsUsed mp' c ↔ IsUsed mp c))
        ⊎ ((b : ℕ) × (p ≡ b + 8)
            × (¬ IsUsed mp b)
            × ((c : ℕ) → IsUsed mp' c ↔ (IsUsed mp c ⊎ (c ≡ b)))))

taken-IsUsed :
    (mp : Mempool)
    → IsValid mp
    → mp.fbi < sz mp
    → (c : ℕ) → IsUsed (taken mp) c ↔ (IsUsed mp c ⊎ (c ≡ slot mp mp.fbi))
taken-IsUsed mp v k c = (
  λ m. elim (Bool-cases (mp.index c == mp.fbi)) [
    | inl e ↦ let last : mp.index c ≡ mp.fbi = ground arith in inr (sym (rw last at m.1))
    | inr e ↦ inl (ground (arith, m.0), m.1)
  ],
  λ m. elim m [
    | inl u ↦ (omega (arith, u.0), u.1)
    | inr e ↦ rw e (let x = v.indexed mp.fbi k in rw x (omega arith, refl))
  ],
)

taken-Got :
    (malloc : ℕ → ℕ → ℕ) (mp : Mempool)
    → IsValid mp
    → mp.fbi < sz mp
    → Returns (λ r. Got malloc mp r × (r.0 ≢ 0)) (take_block mp)
taken-Got malloc mp v k = rw (take_block_lem mp v k) (
    returns (
      (
        taken-IsValid mp v k,
        inr (
          slot mp mp.fbi,
          refl,
          (λ u. absurd (omega (arith, u.0, v.indexed mp.fbi k))),
          taken-IsUsed mp v k,
        ),
      ),
      (λ e. absurd (omega arith)),
    ))

-- the same, once the pool has grown
grown-Got :
    (malloc : ℕ → ℕ → ℕ) (mp mp' : Mempool) (r : ℕ × Mempool)
    → r.0 ≢ 0
    → ((c : ℕ) → IsUsed mp' c ↔ IsUsed mp c)
    → Got malloc mp' r
    → Got malloc mp r
grown-Got malloc mp mp' r some_block same (v, inl (n, _, _, _)) = absurd (some_block n)
grown-Got malloc mp mp' r some_block same (v, inr (b, e, u, g)) = (
  v,
  inr (
    b,
    e,
    (λ w. u ((same b).1 w)),
    λ c. (
      (λ m. elim ((g c).0 m) [ inl w ↦ inl ((same c).0 w) | inr e ↦ inr e ]),
      λ m. elim m [ inl w ↦ (g c).1 (inl ((same c).1 w)) | inr e ↦ (g c).1 (inr e) ],
    ),
  ),
)

-- `ymempool_get` of a valid pool returns. Either it is NULL, all blocks are used, the allocator
-- refused a request, and the used blocks are as before, or it is a block that was not used, and the
-- used blocks are that one and the ones that were used. The pool stays valid, if the memory for a new
-- group is apart from the blocks, and the number of blocks stays below INT_MAX.
pub get-Got :
    (malloc : ℕ → ℕ → ℕ) (mp : Mempool)
    → IsValid mp
    → (0 < malloc 3 (mp.grpsz * blksz mp) → IsFresh mp (malloc 3 (mp.grpsz * blksz mp)))
    → sz mp + mp.grpsz < int_limit
    → Returns (λ o. Got malloc mp o.value) (get malloc mp)
unfolding get
get-Got malloc mp v f small = elim (Bool-cases (leb (sz mp) mp.fbi)) [
  | inl e ↦
      let all : mp.fbi ≡ sz mp = ground (arith, v.used, e) in
      let refused : Refused malloc → Got malloc mp (0, mp) =
        λ why. (v, inl (refl, all, why, λ c. ((λ m. m), λ m. m))) in
      elim (expand_lem malloc mp small v.narrow v.group_fits) [
        | inl (r, why) ↦ rw (e, r) (returns (refused why))
        | inr (inl (r, why)) ↦ rw (e, r) (returns (refused why))
        | inr (inr (r, p)) ↦
            let newgrp = malloc 0 (8 * (mp.nrgrp + 1)) in
            let newfbp = malloc 1 (8 * (mp.nrgrp + 1)) in
            let strip = malloc 2 (8 * mp.grpsz) in
            let group = malloc 3 (mp.grpsz * blksz mp) in
            let mp' = expanded mp newgrp newfbp strip group in
            let room : mp'.fbi < sz mp' = ground (arith, v.some_blocks, v.used) in
            rw (e, r)
              (Returns-bind
                (taken-Got malloc mp' (expanded-IsValid mp newgrp newfbp strip group v small (f p))
                  room)
                λ r' g. returns (
                  grown-Got malloc mp mp' r' g.1
                    (expanded-IsUsed mp newgrp newfbp strip group v (f p)) g.0))
      ]
  | inr e ↦ rw e (Returns-bind (taken-Got malloc mp v (ground arith)) λ r g. returns g.0)
]

free-again :
    (mp : Mempool) (b : ℕ) → IsValid mp → IsUsed mp b → is_usedblk (returned mp b) b ≡ false
free-again mp b v u =
    let at_last = v.indexed (mp.fbi - 1) (omega (arith, v.used, u.0)) in ground (arith, at_last, u)

-- What `ymempool_put` of a used block of a valid pool gives back is what the next `ymempool_get`
-- returns, without the allocator, if at most 2 ^ 30 blocks are used. A second `ymempool_put` of it,
-- before that, faults.
pub get-put :
    (malloc : ℕ → ℕ → ℕ) (mp : Mempool) (b : ℕ)
    → IsValid mp
    → IsUsed mp b
    → (mp.fbi - 1) * 2 < int_limit
    → Returns
        (λ mp'.
          (put mp' (b + 8) ≡ fault)
          × Returns (λ o. (o.value.0 ≡ b + 8) × (o.got ≡ []) × (o.freed ≡ [])) (get malloc mp'))
        (put mp (b + 8))
unfolding get
get-put malloc mp b v u few =
    let mp' = returned mp b in
    let room : mp'.fbi < sz mp' = omega (arith, v.used, u.0) in
    let free : leb (sz mp') mp'.fbi ≡ false = ground (arith, room) in
    let first : slot mp' mp'.fbi ≡ b = slot-returned mp b v u (mp.fbi - 1) ∙ ground (arith, u.1) in
    rw (put-returned mp b v u few) (
      returns (
        put-fault mp' b (free-again mp b v u),
        rw (free, take_block_lem mp' (returned-IsValid mp b v u) room)
            (returns (ap (λ x. x + 8) first, refl, refl)),
      ))
