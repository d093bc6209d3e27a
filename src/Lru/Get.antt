-- ===== src/Lru/Get.antt =====
-- src/lru.c: `ylru_get`, which takes the node out of the cache.
use ylib.Base.{
  ℕ, ◌≡◌, ◌≢◌, ◌⊎◌, ◌∙◌, sym, ap, refl, subst, Bool, true, false, Option, none, some, if◌then◌else◌,
  arith, Bool-cases, inl, inr,
}
use mathlib.Core.Option.{some-injective, some-ne-none}
use ylib.Hashl.Table.{IsHash, true_ne_false}
use ylib.Hash
use ylib.Hash.{Hash, Freed, remove2}
use ylib.Hash.Lookup.{IsValid}
use ylib.Hash.Remove.{remove2-IsRemoved}
use ylib.Lru.{Lru, Reply, got, missed, data_size, unlink, without, get, finish_get}
use ylib.Lru.Keeps.{In, Outside-In, IsCache}
use ylib.Lru.Without.{In-without, In-stays, IsDistinct-without, total-without}

-- what `ylru_get` returns for a key that the cache does not have
abbrev pub created : {K : Type 0} → Option (K → ℕ) → K → Reply
created none key = missed
created (some create) key = got (create key)

module _ {K : Type 0} (hfunc : K → ℕ) (keq : K → K → Bool) (malloc : ℕ → Bool)
    (dsize : Option (ℕ → ℕ)) where
  -- How `ylru_get` ends. The cache finds nothing for the keys that equal this key, and what it found
  -- before for the others. The node of the key leaves the list and its data is the result; without
  -- one the list does not change, and the result is what `dcreate` gives, if it is given.
  abbrev pub IsTaken : Option (K → ℕ) → Lru K → K → Reply × Lru K → Type 0
  IsTaken dcreate l key o =
      IsCache hfunc keq dsize o.1
      × ((k : K)
          → Hash.get hfunc keq o.1.hash k
            ≡ (if keq key k then none else Hash.get hfunc keq l.hash k))
      × (((Hash.get hfunc keq l.hash key ≡ none)
            × (o.1.items ≡ l.items)
            × (o.0 ≡ created dcreate key))
          ⊎ ((n : ℕ) × (Hash.get hfunc keq l.hash key ≡ some n)
              × (o.1.items ≡ without n l.items)
              × (o.0 ≡ got (l.node_data n))))

  finish-found :
      (dcreate : Option (K → ℕ)) (l : Lru K) (key : K) (n : ℕ)
      (p : Bool × Hash K × Freed K × Option ℕ)
      → p.0 ≡ true
      → p.3 ≡ some n
      → finish_get hfunc keq malloc dsize dcreate l key p
        ≡ (got (l.node_data n), unlink hfunc keq malloc dsize l n (without n l.items) p.1)
  unfolding finish_get
  finish-found dcreate l key n (true, h, f, some m) e v =
      ap (λ m. (got (l.node_data m), unlink hfunc keq malloc dsize l m (without m l.items) h))
        (some-injective m n v)
  finish-found dcreate l key n (true, h, f, none) e v = absurd (some-ne-none n (sym v))
  finish-found dcreate l key n (false, h, f, v') e v = absurd (true_ne_false (sym e))

  finish-missed :
      (dcreate : Option (K → ℕ)) (l : Lru K) (key : K) (p : Bool × Hash K × Freed K × Option ℕ)
      → p.0 ≡ false
      → finish_get hfunc keq malloc dsize dcreate l key p
        ≡ (created dcreate key, record l { hash = p.1 })
  unfolding finish_get
  finish-missed none l key (false, h, f, v) e = refl
  finish-missed (some create) l key (false, h, f, v) e = refl
  finish-missed dcreate l key (true, h, f, v) e = absurd (true_ne_false e)

  module _ (x : IsHash hfunc keq) (l : Lru K) (key : K) (hash : Hash K)
      (v : IsCache hfunc keq dsize l) (valid : IsValid hfunc keq hash)
      (values : (k : K)
        → Hash.get hfunc keq hash k
          ≡ (if keq key k then none else Hash.get hfunc keq l.hash k)) where
    -- a node whose key equals this key is found under it
    equal-get :
        (k : K) (m : ℕ)
        → In m l.items
        → keq (l.key m) k ≡ true
        → keq key k ≡ true
        → Hash.get hfunc keq l.hash key ≡ some m
    equal-get k m i e t = v.kept key m i (x.joined (l.key m) k key e (x.turned key k t))

    missed-IsCache :
        Hash.get hfunc keq l.hash key ≡ none → IsCache hfunc keq dsize (record l { hash = hash })
    missed-IsCache absent = record {
      hashed = valid;
      found = λ k m e. elim (Bool-cases (keq key k)) [
        | inl t ↦ absurd (some-ne-none m (sym e ∙ values k ∙ rw t refl))
        | inr t ↦ v.found k m (sym (values k ∙ rw t refl) ∙ e)
      ];
      kept = λ k m i e. elim (Bool-cases (keq key k)) [
        | inl t ↦ absurd (some-ne-none m (sym (equal-get k m i e t) ∙ absent))
        | inr t ↦ values k ∙ rw t (v.kept k m i e)
      ];
      distinct = v.distinct;
      counted = v.counted;
      in_limit = v.in_limit;
      narrow = v.narrow;
    }

    found-IsCache :
        (n : ℕ)
        → Hash.get hfunc keq l.hash key ≡ some n
        → IsCache hfunc keq dsize (unlink hfunc keq malloc dsize l n (without n l.items) hash)
    found-IsCache n e =
        let (i, j) = v.found key n e in
        let (d, o) = IsDistinct-without n l.items v.distinct in
        let sizes = total-without (data_size dsize) l.node_data n l.items i in
        record {
          hashed = valid;
          found = λ k m f. elim (Bool-cases (keq key k)) [
            | inl t ↦ absurd (some-ne-none m (sym f ∙ values k ∙ rw t refl))
            | inr t ↦
                let (a, b) = v.found k m (sym (values k ∙ rw t refl) ∙ f) in
                let other : m ≢ n = λ s.
                  let c = subst (λ q. keq (l.key q) k ≡ true) s b in
                  true_ne_false (sym (x.joined key (l.key n) k (x.turned (l.key n) key j) c) ∙ t) in
                (In-stays n m l.items other a, b)
          ];
          kept = λ k m a b. elim (Bool-cases (keq key k)) [
            | inl t ↦
                let same = equal-get k m (In-without n m l.items a) b t in
                absurd (Outside-In n m (without n l.items) o a (some-injective n m (sym e ∙ same)))
            | inr t ↦ values k ∙ rw t (v.kept k m (In-without n m l.items a) b)
          ];
          distinct = d;
          counted = omega (arith, sizes, v.counted, v.in_limit, v.narrow);
          in_limit = omega (arith, sizes, v.counted, v.in_limit, v.narrow);
          narrow = v.narrow;
        }

  -- `ylru_get` of a valid cache, with the pointer `data` given, leaves a valid cache and ends as
  -- `IsTaken` says.
  pub get-IsTaken :
      IsHash hfunc keq
      → (dcreate : Option (K → ℕ)) (l : Lru K) (key : K) → IsCache hfunc keq dsize l
      → IsTaken dcreate l key (get hfunc keq malloc dsize dcreate l true key)
  unfolding get
  get-IsTaken x dcreate l key v =
      let p = remove2 hfunc keq malloc l.hash key true in
      let (valid, values, how) = remove2-IsRemoved hfunc keq x malloc l.hash key true v.hashed in
      elim how [
        | inl (f, absent, _) ↦
            rw (finish-missed dcreate l key p f)
              (missed-IsCache x l key p.1 v valid values absent, values, inl (absent, refl, refl))
        | inr (f, (n, was, value, _)) ↦
            rw (finish-found dcreate l key n p f value)
              (found-IsCache x l key p.1 v valid values n was, values, inr (n, was, refl, refl))
      ]
