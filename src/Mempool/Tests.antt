-- ===== src/Mempool/Tests.antt =====
-- src/mempool.c: a pool of groups of two blocks.
use ylib.Base.{ℕ, ◌+◌, ◌*◌, ◌≡◌, ◌≢◌, refl, [], ◌∷◌, arith, zero, suc, inl, ◌≤◌, ◌%◌, ◌↔◌}
use ylib.Base.Run.{fault, Returns}
use ylib.Mempool.{
  Mempool, blksz, init_blocks, expanded, create, get, put, expand, take_block, fbpblk,
}
use ylib.Mempool.Valid.{IsValid, IsUsed, IsApart}
use ylib.Mempool.Expand.{expanded-IsValid, IsFresh}
use ylib.Mempool.Put.{put-IsUsed}
use ylib.Mempool.Get.{get-Got, Got, get-put, taken}
use ylib.Mempool.Reached.{Reached, created, after_get, used-IsApart}
use ylib.Mempool.Ledger.{empty_pool, empty_pool-IsValid, Created, create-Created}

abbrev malloc : ℕ → ℕ → ℕ
malloc k n = (k + 1) * 1000

-- two blocks at 4000, both of them in use
abbrev full : Mempool
full = record (expanded (empty_pool malloc (λ _. 0) 2 4) 1000 2000 3000 4000) { fbi = 2 }

full-IsValid : IsValid full
full-IsValid =
    let v =
      expanded-IsValid (empty_pool malloc (λ _. 0) 2 4) 1000 2000 3000 4000
        (empty_pool-IsValid malloc (λ _. 0) 2 4 (ground arith) (ground arith) (ground arith))
        (ground arith) (λ i k. absurd (omega arith)) in
    record {
      some_blocks = v.some_blocks;
      used = ground arith;
      small = v.small;
      narrow = v.narrow;
      group_fits = v.group_fits;
      indexed = v.indexed;
      spaced = v.spaced;
    }

first-IsUsed : IsUsed full 4000
unfolding init_blocks
first-IsUsed = (ground arith, refl)

second-IsUsed : IsUsed full 4016
unfolding init_blocks
second-IsUsed = (ground arith, refl)

-- the next group stands behind the others
abbrev later : ℕ → ℕ → ℕ
later k n = (k + 1) * 100000

later-IsFresh : IsFresh full 400000
unfolding init_blocks
later-IsFresh zero k = inl (ground arith)
later-IsFresh (suc zero) k = inl (ground arith)
later-IsFresh (suc (suc i)) k = absurd (omega arith)

get-Got_example : Returns (λ o. Got later full o.value) (get later full)
get-Got_example = get-Got later full full-IsValid (λ _. later-IsFresh) (ground arith)

put-IsUsed_example :
    Returns
      (λ mp'. IsValid mp' × ((c : ℕ) → IsUsed mp' c ↔ (IsUsed full c × (c ≢ 4000))))
      (put full 4008)
put-IsUsed_example = put-IsUsed full 4000 full-IsValid first-IsUsed (ground arith)

get-put_example :
    Returns
      (λ mp'.
        (put mp' 4008 ≡ fault)
        × Returns (λ o. (o.value.0 ≡ 4008) × (o.got ≡ []) × (o.freed ≡ [])) (get later mp'))
      (put full 4008)
get-put_example = get-put later full 4000 full-IsValid first-IsUsed (ground arith)

-- the pool that is created, and what two calls of `ymempool_get` make of it
abbrev new_pool : Mempool
new_pool = expanded (empty_pool malloc (λ _. 0) 2 4) 4000 5000 6000 7000

new_pool-Reached : Reached new_pool
unfolding create expand
new_pool-Reached =
    created malloc (λ _. 0) 2 4
      (record {
        got = 1000 ∷ 2000 ∷ 3000 ∷ 4000 ∷ 5000 ∷ 6000 ∷ 7000 ∷ [];
        freed = 3000 ∷ 2000 ∷ [];
        value = (1000, new_pool);
      })
      (ground arith) (ground arith) (ground arith) (ground arith) (ground arith) refl
      (λ e. absurd (omega arith))

next-IsFresh : IsFresh new_pool 400000
unfolding init_blocks
next-IsFresh zero k = inl (ground arith)
next-IsFresh (suc zero) k = inl (ground arith)
next-IsFresh (suc (suc i)) k = absurd (omega arith)

one_used-Reached : Reached (taken new_pool)
unfolding get take_block init_blocks fbpblk
one_used-Reached =
    after_get later new_pool (record { got = []; freed = []; value = (7008, taken new_pool) })
      new_pool-Reached (λ _. next-IsFresh) (ground arith) refl

two_used-Reached : Reached (taken (taken new_pool))
unfolding get take_block init_blocks fbpblk
two_used-Reached =
    after_get later (taken new_pool)
      (record { got = []; freed = []; value = (7024, taken (taken new_pool)) }) one_used-Reached
      (λ _. next-IsFresh) (ground arith) refl

used-IsApart_example :
    IsApart 4 7008 7024
    × (8 + 4 ≤ blksz (taken (taken new_pool)))
    × (blksz (taken (taken new_pool)) % 8 ≡ 0)
unfolding init_blocks
used-IsApart_example =
    used-IsApart (taken (taken new_pool)) 7000 7016 two_used-Reached (ground arith, refl)
      (ground arith, refl) (λ e. absurd (omega arith))

create-Created_example : Returns (Created malloc 2) (create malloc (λ _. 0) 2 4)
create-Created_example =
    create-Created malloc (λ _. 0) 2 4 (ground arith) (ground arith) (ground arith) (ground arith)
      (ground arith)
