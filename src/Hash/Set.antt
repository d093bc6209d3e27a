-- ===== src/Hash/Set.antt =====
-- src/hash.c: `hash_set`, which is `yhash_set`, `yhash_set2` and `yhash_set3`.
use ylib.Base.{
  ℕ, ◌≤◌, ◌≡◌, ◌≢◌, ◌∙◌, sym, ap, refl, arith, Bool, true, false, Option, none, some, [], ◌∷◌, ◌==◌,
  if◌then◌else◌, Bool-cases, inl, inr,
}
use mathlib.Core.Option.{some-ne-none}
use ylib.Hashl
use ylib.Hashl.{Node, Hashl}
use ylib.Hashl.Table.{Has, IsHash, Option-cases}
use ylib.Hash.{
  Hash, expand_map, get, hash_set, finish_set, set_enomem, SetOutcome, set_value, nothing_freed,
}
use ylib.Hash.Finish.{IsSetTo, finish-IsSetTo}
use ylib.Hash.Lookup.{IsValid, expand_map-IsSame, same-get}

module _ {K : Type 0} (hfunc : K → ℕ) (keq : K → K → Bool) where
  -- a hash that holds the same values has the same effect
  IsSetTo-same :
      (kcp : K → Option K) (hash hash1 : Hash K) (key : K) (wants_old : Bool) (value hn : ℕ)
      (o : SetOutcome K)
      → ((k : K) → get hfunc keq hash1 k ≡ get hfunc keq hash k)
      → IsSetTo hfunc keq kcp hash1 key wants_old value hn o
      → IsSetTo hfunc keq kcp hash key wants_old value hn o
  IsSetTo-same kcp hash hash1 key wants_old value hn o same (v, inl (e, why, g, f)) =
      (v, inl (e, why, (λ k. g k ∙ same k), f))
  IsSetTo-same kcp hash hash1 key wants_old value hn o same (v, inr (pos, can, g, r)) = (
    v,
    inr (
      pos,
      can,
      (λ k. g k ∙ ap (λ o'. if keq key k then some value else o') (same k)),
      elim r [
        | inl (e, n, f) ↦ inl (e, sym (same key) ∙ n, f)
        | inr (e, (old, n, f)) ↦ inr (e, (old, sym (same key) ∙ n, f))
      ],
    ),
  )

  module _ (x : IsHash hfunc keq) where
    -- the three ways that `hash_set` takes
    module _ (kcp : K → Option K) (malloc : ℕ → Bool) (hash : Hash K) (key : K) (wants_old : Bool)
        (value hn : ℕ) where
      abbrev mapped : Hash K
      mapped = record hash { h = expand_map malloc hash.h }

      hash_set-null :
          (hn == 0) ≡ true
          → hash_set hfunc keq kcp malloc hash key wants_old value hn ≡ record {
            status = set_enomem;
            hash = mapped;
            freed = nothing_freed;
            phkey = none;
            oldv = none;
          }
      unfolding hash_set
      hash_set-null e = rw (e, hash_set) refl

      hash_set-uncopied :
          (hn == 0) ≡ false
          → kcp key ≡ none
          → hash_set hfunc keq kcp malloc hash key wants_old value hn ≡ record {
            status = set_enomem;
            hash = mapped;
            freed = record nothing_freed { nodes = hn ∷ [] };
            phkey = none;
            oldv = none;
          }
      unfolding hash_set
      hash_set-uncopied e f = rw (e, f, hash_set) refl

      hash_set-copied :
          (c : K)
          → (hn == 0) ≡ false
          → kcp key ≡ some c
          → hash_set hfunc keq kcp malloc hash key wants_old value hn
            ≡ finish_set
                (record {
                  h = (Hashl.set hfunc keq mapped.h c hn).0;
                  v = set_value hash.v hn value;
                })
                c
                wants_old
                (Hashl.set hfunc keq mapped.h c hn).1
                (Hashl.set hfunc keq mapped.h c hn).2
      unfolding hash_set
      hash_set-copied c e f = rw (e, f, hash_set) refl

    -- `hash_set` of a valid hash with at most 2 ^ 31 nodes, whose allocator gives no address that a node of it has,
    -- and whose `kcp` makes equal keys, leaves a valid hash, and ends as `IsSetTo` says: with what `yhash_get`
    -- found before if there is no memory for a node or the key cannot be copied, and else with the value for
    -- the keys that equal this one alone.
    pub hash_set-IsSetTo :
        (kcp : K → Option K) (malloc : ℕ → Bool) (hash : Hash K) (key : K) (wants_old : Bool)
        (value hn : ℕ)
        → IsValid hfunc keq hash
        → hash.h.sz ≤ 2147483648
        → ((i : ℕ) (n : Node K) → Has (hash.h.map i) n → n.at ≢ hn)
        → ((c : K) → kcp key ≡ some c → keq key c ≡ true)
        → IsSetTo hfunc keq kcp hash key wants_old value hn
            (hash_set hfunc keq kcp malloc hash key wants_old value hn)
    hash_set-IsSetTo kcp malloc hash key wants_old value hn v s new copies =
        let (t, b, g, i) = expand_map-IsSame hfunc keq x malloc hash.h v.table v.bits s in
        let hash1 : Hash K = record hash { h = expand_map malloc hash.h } in
        let v1 : IsValid hfunc keq hash1 = record { table = t; bits = b } in
        let new1 = λ (j : ℕ) (n : Node K) (m : Has (hash1.h.map j) n). new _ n (i j n m).1 in
        let same = same-get hfunc keq x hash (expand_map malloc hash.h) g in
        elim (Bool-cases (hn == 0)) [
          | inl e ↦
              rw (hash_set-null kcp malloc hash key wants_old value hn e, e)
                (v1, inl (refl, inl (ground (arith, e)), same, refl))
          | inr e ↦ elim (Option-cases (kcp key)) [
            | inl f ↦
                rw (hash_set-uncopied kcp malloc hash key wants_old value hn e f, e)
                  (v1, inl (refl, inr f, same, refl))
            | inr (c, f) ↦ rw (hash_set-copied kcp malloc hash key wants_old value hn c e f) (
                IsSetTo-same kcp hash hash1 key wants_old value hn
                  (finish_set
                    (record {
                      h = (Hashl.set hfunc keq hash1.h c hn).0;
                      v = set_value hash.v hn value;
                    })
                    c wants_old (Hashl.set hfunc keq hash1.h c hn).1
                    (Hashl.set hfunc keq hash1.h c hn).2)
                  same
                  (finish-IsSetTo hfunc keq x kcp hash1 key c wants_old value hn
                    (λ null. absurd (ground (arith, e, null))) (λ g. some-ne-none c (sym f ∙ g)) v1
                    new1 (copies c f)))
          ]
        ]
