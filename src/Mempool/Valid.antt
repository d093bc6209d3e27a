-- ===== src/Mempool/Valid.antt =====
-- src/mempool.c: valid pools, and what a write to a slot makes of the slots.
use ylib.Base.{
  ℕ, ◌+◌, ◌-◌, ◌*◌, ◌/◌, ◌%◌, ◌≤◌, ◌<◌, ◌≡◌, ◌≢◌, ◌⊎◌, refl, true, ltb, ◌==◌, if◌then◌else◌, arith,
  Bool-cases, inl, inr,
}
use ylib.Base.Run.{done}
use ylib.Mempool.{Mempool, set, int_limit, sz, slot, blksz, fbpblk, setfbp}

-- two blocks of this size do not overlap
abbrev pub IsApart : ℕ → ℕ → ℕ → Type 0
IsApart bsz b c = (b + bsz ≤ c) ⊎ (c + bsz ≤ b)

pub record IsValid (mp : Mempool) : Type 0 where
  pub some_blocks : 0 < mp.grpsz
  pub used : mp.fbi ≤ sz mp
  pub small : sz mp < int_limit
  pub narrow : blksz mp < int_limit
  pub group_fits : (mp.grpsz - 1) * blksz mp < int_limit
  pub indexed : (i : ℕ) → i < sz mp → mp.index (slot mp i) ≡ i
  pub spaced :
      (i j : ℕ) → i < sz mp → j < sz mp → i ≢ j → IsApart (blksz mp) (slot mp i) (slot mp j)

-- the block is one that the pool has handed out
abbrev pub IsUsed : Mempool → ℕ → Type 0
IsUsed mp b = (mp.index b < mp.fbi) × (slot mp (mp.index b) ≡ b)

pub group-lt : (i g n : ℕ) → 0 < g → i < n * g → i / g < n
group-lt i g n p k = grind arith

same_place : (i j g : ℕ) → 0 < g → i / g ≡ j / g → i % g ≡ j % g → i ≡ j
same_place i j g p e f = grind arith

abbrev pub placed : Mempool → ℕ → ℕ → Mempool
placed mp i b =
    let g = i / mp.grpsz in
    record mp { fbps = set mp.fbps g (set (mp.fbps g) (i % mp.grpsz) b); index = set mp.index b i }

pub setfbp_lem :
    (mp : Mempool) (i b : ℕ) → 0 < mp.grpsz → i < sz mp → setfbp mp i b ≡ done (placed mp i b)
unfolding setfbp
setfbp_lem mp i b p k =
    let inside : ltb (i / mp.grpsz) mp.nrgrp ≡ true =
      ground (arith, group-lt i mp.grpsz mp.nrgrp p k) in
    rw inside refl

pub slot-placed :
    (mp : Mempool) (i b j : ℕ)
    → 0 < mp.grpsz
    → slot (placed mp i b) j ≡ (if j == i then b else slot mp j)
slot-placed mp i b j p = elim (Bool-cases (j == i)) [
  | inl e ↦ let same : j ≡ i = ground arith in rw (e, same) ground arith
  | inr e ↦ rw e ground (arith, same_place j i mp.grpsz p)
]

pub fbpblk_lem :
    (mp : Mempool) (i : ℕ)
    → 0 < mp.grpsz
    → i < sz mp
    → mp.index (slot mp i) ≡ i
    → fbpblk mp i ≡ done (slot mp i)
unfolding fbpblk
fbpblk_lem mp i p k x =
    let inside : ltb (i / mp.grpsz) mp.nrgrp ≡ true =
      ground (arith, group-lt i mp.grpsz mp.nrgrp p k) in
    let numbered : (mp.index (slot mp i) == i) ≡ true = ground arith in rw (inside, numbered) refl
