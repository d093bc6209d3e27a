-- ===== src/Mempool/Reached.antt =====
-- src/mempool.c: the pools that calls of `ymempool_get` and `ymempool_put` make of a new one.
use ylib.Base.{ℕ, ◌+◌, ◌-◌, ◌*◌, ◌%◌, ◌≤◌, ◌<◌, ◌≡◌, ◌≢◌, ◌∙◌, ap, sym, subst, arith, inl, inr}
use ylib.Base.Run.{done, Returns, returns}
use ylib.Mempool.{Mempool, Outcome, int_limit, sz, slot, blksz, create, get, put}
use ylib.Mempool.Valid.{IsValid, IsUsed, IsApart}
use ylib.Mempool.Expand.{IsFresh}
use ylib.Mempool.Put.{put-IsUsed}
use ylib.Mempool.Get.{get-Got}
use ylib.Mempool.Ledger.{empty_pool, create-Created}

-- A pool that `ymempool_create` returned, or that a call makes of such a pool: a `ymempool_get`, where the allocator
-- gives a new group apart from the blocks of the pool, or a `ymempool_put` of a used block. The
-- sizes stay within an `int`.
pub data Reached : Mempool → Type 0 where
  created :
      (malloc : ℕ → ℕ → ℕ) (index : ℕ → ℕ) (grpsz elemsz : ℕ) (o : Outcome (ℕ × Mempool))
      → 0 < grpsz
      → 0 < elemsz
      → grpsz < int_limit
      → blksz (empty_pool malloc index grpsz elemsz) < int_limit
      → (grpsz - 1) * blksz (empty_pool malloc index grpsz elemsz) < int_limit
      → create malloc index grpsz elemsz ≡ done o
      → o.value.0 ≢ 0
      → Reached o.value.1
  after_get :
      (malloc : ℕ → ℕ → ℕ) (mp : Mempool) (o : Outcome (ℕ × Mempool))
      → Reached mp
      → (0 < malloc 3 (mp.grpsz * blksz mp) → IsFresh mp (malloc 3 (mp.grpsz * blksz mp)))
      → sz mp + mp.grpsz < int_limit
      → get malloc mp ≡ done o
      → Reached o.value.1
  after_put :
      (mp : Mempool) (b : ℕ) (mp' : Mempool)
      → Reached mp
      → IsUsed mp b
      → (mp.fbi - 1) * 2 < int_limit
      → put mp (b + 8) ≡ done mp'
      → Reached mp'

value-Returns {ℓ κ} : {V : Type ℓ} (Good : V → Type κ) (v : V) → Returns Good (done v) → Good v
value-Returns Good v (returns g) = g

pub Reached-IsValid : (mp : Mempool) → Reached mp → IsValid mp
Reached-IsValid _ (created malloc index grpsz elemsz o p q small narrow fits e some_pool) =
    let r =
      value-Returns _ o
        (subst (Returns _) e (create-Created malloc index grpsz elemsz p q small narrow fits)) in
    elim r.1 [ inl (null, _) ↦ absurd (some_pool null) | inr (v, _, _) ↦ v ]
Reached-IsValid _ (after_get malloc old o r fresh small e) =
    (value-Returns _ o
      (subst (Returns _) e (get-Got malloc old (Reached-IsValid old r) fresh small))).0
Reached-IsValid _ (after_put old b mp' r u few e) =
    (value-Returns _ mp' (subst (Returns _) e (put-IsUsed old b (Reached-IsValid old r) u few))).0

-- Whatever calls of `ymempool_get` and `ymempool_put` made the pool of a new one, a block holds the bytes
-- of an element behind its own field, its size is a multiple of 8 bytes, and the elements of two
-- used blocks do not overlap.
pub used-IsApart :
    (mp : Mempool) (b c : ℕ)
    → Reached mp
    → IsUsed mp b
    → IsUsed mp c
    → b ≢ c
    → IsApart mp.esz (b + 8) (c + 8) × (8 + mp.esz ≤ blksz mp) × (blksz mp % 8 ≡ 0)
used-IsApart mp b c r (i, e) (j, f) d =
    let v = Reached-IsValid mp r in
    let apart =
      v.spaced (mp.index b) (mp.index c) (omega (arith, v.used)) (omega (arith, v.used))
        (λ g. d (sym e ∙ ap (slot mp) g ∙ f)) in
    (ground (arith, apart, e, f), omega arith, omega arith)
