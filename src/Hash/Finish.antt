-- ===== src/Hash/Finish.antt =====
-- src/hash.c: what `hash_set` does once it has a node and a copy of the key.
use ylib.Base.{
  ℕ, ◌≡◌, ◌≢◌, ◌⊎◌, ◌∙◌, sym, ap, refl, Bool, true, false, Option, none, some, [], ◌∷◌, ◌==◌,
  if◌then◌else◌, arith, Bool-cases, inl, inr,
}
use ylib.Hashl
use ylib.Hashl.{Node, Loose, Hashl}
use ylib.Hashl.Table.{Has, IsHash, IsTable, get-Has, get-keq, keq-same}
use ylib.Hashl.Set.{cleared, set-IsSetIn, new_node-at, set-mapbits}
use ylib.Hash.{Hash, get, finish_set, set_enomem, added, replaced, SetOutcome, set_value}
use ylib.Hash.Lookup.{IsValid, get-value_of, value_of}

module _ {K : Type 0} (hfunc : K → ℕ) (keq : K → K → Bool) where
  -- What happened to the value that the hash had for the key: it was written to `oldv`, if that is
  -- given, and else was given to `vfree`.
  abbrev pub IsHandedOver : Bool → ℕ → SetOutcome K → Type 0
  IsHandedOver wants_old old o =
      (o.oldv ≡ (if wants_old then some old else none))
      × (o.freed.values ≡ (if wants_old then [] else old ∷ []))

  -- How `hash_set` ends. If there is no memory for a node, or the key cannot be copied, the hash finds what it found before, and the node that the
  -- allocator gave is given back. Else it finds the value for the keys that equal this key, and what it
  -- found before for the others; it was added if there was none for the key, and replaced else.
  abbrev pub IsSetTo : (K → Option K) → Hash K → K → Bool → (value hn : ℕ) → SetOutcome K → Type 0
  IsSetTo kcp hash key wants_old value hn o =
      IsValid hfunc keq o.hash
      × (((o.status ≡ set_enomem)
            × ((hn ≡ 0) ⊎ (kcp key ≡ none))
            × ((k : K) → get hfunc keq o.hash k ≡ get hfunc keq hash k)
            × (o.freed.nodes ≡ (if hn == 0 then [] else hn ∷ [])))
          ⊎ ((hn ≢ 0)
              × (kcp key ≢ none)
              × ((k : K)
                  → get hfunc keq o.hash k
                    ≡ (if keq key k then some value else get hfunc keq hash k))
              × (((o.status ≡ added) × (get hfunc keq hash key ≡ none) × (o.freed.nodes ≡ []))
                  ⊎ ((o.status ≡ replaced)
                      × ((old : ℕ) × (get hfunc keq hash key ≡ some old)
                          × IsHandedOver wants_old old o)))))

  module _ (x : IsHash hfunc keq) where
    -- values of other nodes do not change
    value_of_set :
        (v : ℕ → ℕ) (hn value : ℕ) (o : Option (Node K))
        → ((n : Node K) → o ≡ some n → n.at ≢ hn)
        → value_of hfunc keq x (set_value v hn value) o ≡ value_of hfunc keq x v o
    value_of_set v hn value none other = refl
    value_of_set v hn value (some n) other =
        let apart : (n.at == hn) ≡ false = ground (arith, other n refl) in rw apart refl

    -- the values after `yhashl_set`
    set-value :
        (hash : Hash K) (c : K) (value hn : ℕ)
        → IsTable hfunc keq hash.h
        → ((i : ℕ) (n : Node K) → Has (hash.h.map i) n → n.at ≢ hn)
        → (k : K)
        → get hfunc keq
            (record { h = (Hashl.set hfunc keq hash.h c hn).0; v = set_value hash.v hn value })
            k
          ≡ (if keq c k then some value else get hfunc keq hash k)
    set-value hash c value hn t new k =
        let (_, _, _, g, _) = set-IsSetIn hfunc keq x hash.h c hn t new in
        let start =
          get-value_of hfunc keq x
            (record { h = (Hashl.set hfunc keq hash.h c hn).0; v = set_value hash.v hn value }) k in
        elim (Bool-cases (keq c k)) [
          | inl e ↦
              let found = new_node-at hfunc keq x hash.h c hn in
              let self : (hn == hn) ≡ true = ground arith in start ∙ rw (g k, e, found, self) refl
          | inr e ↦
              let was = get-value_of hfunc keq x hash k in
              let kept =
                value_of_set hash.v hn value (Hashl.get hfunc keq hash.h k)
                  (λ n f. new _ n (get-Has hfunc keq x hash.h k n f).0) in
              start
              ∙ (ap (value_of hfunc keq x (set_value hash.v hn value)) (g k)
                  ∙ rw e (kept ∙ sym was))
        ]

    -- the rest of `hash_set`, by what `yhashl_set` returned
    finish_set-IsSetTo :
        (kcp : K → Option K) (hash : Hash K) (key c : K) (wants_old : Bool) (value hn : ℕ)
        (h : Hashl K) (n' : Node K) (hln : Option (Node K))
        → hn ≢ 0
        → kcp key ≢ none
        → ((n : Node K) → hln ≡ some n → n.at ≢ hn)
        → IsValid hfunc keq (record { h = h; v = set_value hash.v hn value })
        → ((k : K)
            → get hfunc keq (record { h = h; v = set_value hash.v hn value }) k
              ≡ (if keq key k then some value else get hfunc keq hash k))
        → get hfunc keq hash key ≡ value_of hfunc keq x hash.v hln
        → IsSetTo kcp hash key wants_old value hn (
            finish_set
              (record { h = h; v = set_value hash.v hn value })
              c
              wants_old
              n'
              (cleared hln))
    unfolding finish_set
    finish_set-IsSetTo kcp hash key c wants_old value hn h n' none pos can other v g old =
        (v, inr (pos, can, g, inl (refl, old, refl)))
    finish_set-IsSetTo kcp hash key c wants_old value hn h n' (some n) pos can other v g old =
        let apart : (n.at == hn) ≡ false = ground (arith, other n refl) in
        (v, inr (pos, can, g, inr (refl, (hash.v n.at, old, (rw apart refl, rw apart refl)))))

    -- what `hash_set` does once it has a node and a key
    pub finish-IsSetTo :
        (kcp : K → Option K) (hash : Hash K) (key c : K) (wants_old : Bool) (value hn : ℕ)
        → hn ≢ 0
        → kcp key ≢ none
        → IsValid hfunc keq hash
        → ((i : ℕ) (n : Node K) → Has (hash.h.map i) n → n.at ≢ hn)
        → keq key c ≡ true
        → IsSetTo kcp hash key wants_old value hn (
            finish_set
              (record { h = (Hashl.set hfunc keq hash.h c hn).0; v = set_value hash.v hn value })
              c
              wants_old
              (Hashl.set hfunc keq hash.h c hn).1
              (Hashl.set hfunc keq hash.h c hn).2)
    finish-IsSetTo kcp hash key c wants_old value hn pos can v new e =
        let (t, _, old, _, _) = set-IsSetIn hfunc keq x hash.h c hn v.table new in
        rw old (
          finish_set-IsSetTo kcp hash key c wants_old value hn (Hashl.set hfunc keq hash.h c hn).0
            (Hashl.set hfunc keq hash.h c hn).1 (Hashl.get hfunc keq hash.h c) pos can
            (λ n f. new _ n (get-Has hfunc keq x hash.h c n f).0)
            (record { table = t; bits = rw (set-mapbits hfunc keq x hash.h c hn) v.bits })
            (λ k. rw (keq-same hfunc keq x key c k e) (set-value hash c value hn v.table new k))
            (get-value_of hfunc keq x hash key
              ∙ ap (value_of hfunc keq x hash.v) (get-keq hfunc keq x hash.h key c e)))
