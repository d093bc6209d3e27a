-- ===== src/Lru/Put.antt =====
-- src/lru.c: what `ylru_put` does with a key that the cache does not have.
use ylib.Base.{
  ℕ, ◌+◌, ◌≤◌, ◌<◌, ◌≡◌, ◌≢◌, ◌⊎◌, ◌∙◌, sym, refl, subst, Bool, true, false, Option, none, some,
  List, [], ◌∷◌, ◌++◌, ltb, ◌==◌, if◌then◌else◌, u32_mod, arith, Bool-cases, inl, inr, ok, enomem,
  einval,
}
use mathlib.Core.List.{append-nil}
use mathlib.Core.Option.{some-injective}
use ylib.Hashl.{Node}
use ylib.Hashl.Table.{Has, IsHash}
use ylib.Hash.{get, hash_set, SetOutcome}
use ylib.Hash.Lookup.{IsValid}
use ylib.Hash.Set.{hash_set-IsSetTo}
use ylib.Listl.Links.{Outside}
use ylib.Lru.{Lru, PutOutcome, data_size, shrink_to, put}
use ylib.Lru.Keeps.{AreNeeded, IsCache, Shrunk, shrink_to-Shrunk}
use ylib.Lru.Added.{set-added, with_node, added-IsCache}

module _ {K : Type 0} (hfunc : K → ℕ) (keq : K → K → Bool) (malloc : ℕ → Bool)
    (dsize : Option (ℕ → ℕ)) where
  -- the cache before the allocator is asked for a node
  abbrev pub with_room : Lru K → ℕ → Lru K × List ℕ
  with_room l value = shrink_to hfunc keq malloc dsize l.items l (data_size dsize value)

  -- How `ylru_put` ends. Data that is larger than the cache is refused and nothing changes. Else the
  -- oldest nodes are freed, as long as the new data does not fit; the rest of the nodes stay in their order, and the new one, if there is
  -- memory, is the newest and is found under the key.
  abbrev pub IsPut : Lru K → K → (value n : ℕ) → PutOutcome K → Type 0
  IsPut l key value n o =
      IsCache hfunc keq dsize o.lru
      × (((o.status ≡ einval) × (l.maxsz < data_size dsize value) × (o.lru ≡ l) × (o.freed ≡ []))
          ⊎ ((kept : List ℕ) × (l.items ≡ o.freed ++ kept)
              × AreNeeded (data_size dsize) l.node_data l.maxsz (data_size dsize value) o.freed kept
              × (((o.status ≡ enomem) × (n ≡ 0) × (o.lru.items ≡ kept))
                  ⊎ ((o.status ≡ ok)
                      × (o.lru.items ≡ kept ++ (n ∷ []))
                      × (get hfunc keq o.lru.hash key ≡ some n)
                      × (o.lru.node_data n ≡ value)))))

  module _ (x : IsHash hfunc keq) (kcp : K → Option K) (l : Lru K) (key c : K)
      (value n hn : ℕ) where
    -- the last branch
    stored-IsPut :
        (l1 : Lru K) (freed : List ℕ) (o : SetOutcome K)
        → Shrunk hfunc keq dsize x malloc l l.items (data_size dsize value) (l1, freed)
        → keq key c ≡ true
        → Outside n l1.items
        → get hfunc keq l.hash key ≡ none
        → IsValid hfunc keq o.hash
        → (o.phkey ≡ some c)
          × (o.freed.values ≡ [])
          × ((k : K)
              → get hfunc keq o.hash k ≡ (if keq key k then some n else get hfunc keq l1.hash k))
        → IsPut l key value n (record {
          status = ok;
          lru = with_node hfunc keq kcp malloc x dsize l1 o.hash o.phkey value n;
          freed = freed ++ o.freed.values;
        })
    stored-IsPut l1 freed o s copied new absent valid (p, f, values) =
        let gone = s.no_new key absent in
        let same : (n == n) ≡ true = ground arith in
        (
          subst
              (λ q.
                IsCache hfunc keq dsize
                  (with_node hfunc keq kcp malloc x dsize l1 o.hash q value n))
              (sym p)
              (added-IsCache hfunc keq kcp malloc x dsize l1 key c value n o.hash s.keeps new copied
                gone values valid s.room),
          inr (
            l1.items,
            rw (f, append-nil freed) s.oldest,
            rw (f, append-nil freed) s.needed,
            inr (refl, refl, values key ∙ rw (x.same key) refl, rw same refl),
          ),
        )

    pub put-IsPut :
        IsCache hfunc keq dsize l
        → get hfunc keq l.hash key ≡ none
        → l.sz + data_size dsize value < u32_mod
        → kcp key ≡ some c
        → keq key c ≡ true
        → hn ≢ 0
        → Outside n (with_room l value).0.items
        → ((i : ℕ) (m : Node K) → Has ((with_room l value).0.hash.h.map i) m → m.at ≢ hn)
        → (with_room l value).0.hash.h.sz ≤ 2147483648
        → IsPut l key value n (put hfunc keq malloc dsize kcp l key value n hn)
    unfolding put
    put-IsPut v absent fits kc copied pos new fresh few =
        elim (Bool-cases (ltb l.maxsz (data_size dsize value))) [
          | inl big ↦ rw big (v, inl (refl, ground (arith, big), refl, refl))
          | inr small ↦
              let h : data_size dsize value ≤ l.maxsz = ground (arith, small) in
              let s =
                shrink_to-Shrunk hfunc keq dsize x malloc l.items l (data_size dsize value) refl v h
                  fits in
              elim (Bool-cases (n == 0)) [
                | inl null ↦
                    rw (small, null)
                      (s.keeps, inr (_, s.oldest, s.needed, inl (refl, ground (arith, null), refl)))
                | inr positive ↦
                    let l1 = (with_room l value).0 in
                    let o = hash_set hfunc keq kcp malloc l1.hash key false n hn in
                    let is_set =
                      hash_set-IsSetTo hfunc keq x kcp malloc l1.hash key false n hn s.keeps.hashed
                        few fresh
                        (λ d e.
                          subst (λ b. keq key b ≡ true) (some-injective c d (sym kc ∙ e)) copied) in
                    rw (small, positive)
                      (stored-IsPut l1 (with_room l value).1 o s copied new absent is_set.0 (
                        set-added hfunc keq kcp malloc l1.hash key c n hn pos kc
                          (s.no_new key absent) o refl is_set))
              ]
        ]
