-- ===== src/Lru/Added.antt =====
-- src/lru.c: the end of `ylru_put`, where it adds a node for a key that the cache does not have.
use ylib.Base.{
  ℕ, ◌+◌, ◌%◌, ◌≤◌, ◌≡◌, ◌≢◌, ◌⊎◌, ◌∙◌, sym, ap, refl, subst, Bool, true, false, Option, none, some,
  List, [], ◌∷◌, ◌++◌, ◌==◌, if◌then◌else◌, u32_mod, arith, Bool-cases, inl, inr,
}
use mathlib.Core.Option.{some-injective, some-ne-none}
use ylib.Hashl
use ylib.Hashl.{Node, Loose, node_init, Hashl}
use ylib.Hashl.Table.{Option-cases, IsHash}
use ylib.Hash.{
  Hash, get, hash_set, finish_set, SetOutcome, set_enomem, added, set_value, expand_map,
}
use ylib.Hash.Lookup.{IsValid}
use ylib.Hash.Finish.{IsSetTo}
use ylib.Listl.Links.{Outside, IsDistinct}
use ylib.Lru.{Lru, data_size, set_key}
use ylib.Lru.Keeps.{In, Outside-In, total, IsCache}

In-append : (n m : ℕ) (xs : List ℕ) → In m (xs ++ (n ∷ [])) → In m xs ⊎ (m ≡ n)
In-append n m [] (inl e) = inr e
In-append n m [] (inr i) = absurd i
In-append n m (x ∷ xs) (inl e) = inl (inl e)
In-append n m (x ∷ xs) (inr i) = elim (In-append n m xs i) [ inl j ↦ inl (inr j) | inr e ↦ inr e ]

In-last : (n : ℕ) (xs : List ℕ) → In n (xs ++ (n ∷ []))
In-last n [] = inl refl
In-last n (x ∷ xs) = inr (In-last n xs)

In-left : (n m : ℕ) (xs : List ℕ) → In m xs → In m (xs ++ (n ∷ []))
In-left n m [] i = absurd i
In-left n m (x ∷ xs) (inl e) = inl e
In-left n m (x ∷ xs) (inr i) = inr (In-left n m xs i)

Outside-append : (n m : ℕ) (xs : List ℕ) → Outside m xs → m ≢ n → Outside m (xs ++ (n ∷ []))
Outside-append n m [] o e = (e, tt)
Outside-append n m (x ∷ xs) o e = (o.0, Outside-append n m xs o.1 e)

IsDistinct-append :
    (n : ℕ) (xs : List ℕ) → Outside n xs → IsDistinct xs → IsDistinct (xs ++ (n ∷ []))
IsDistinct-append n [] o d = (tt, tt)
IsDistinct-append n (x ∷ xs) o d =
    (Outside-append n x xs d.0 (λ e. o.0 (sym e)), IsDistinct-append n xs o.1 d.1)

-- the size of the data with that of a new node
total-append :
    (size d : ℕ → ℕ) (n value : ℕ) (xs : List ℕ)
    → Outside n xs
    → total size (set_value d n value) (xs ++ (n ∷ [])) ≡ total size d xs + size value
total-append size d n value [] o =
    let same : (n == n) ≡ true = ground arith in rw same (omega arith)
total-append size d n value (x ∷ xs) o =
    let other : (x == n) ≡ false = ground (arith, o.0) in
    rw other (omega (arith, total-append size d n value xs o.1))

set_key-same : {K : Type 0} (key : ℕ → K) (n : ℕ) (c : K) → set_key key n (some c) n ≡ c
set_key-same key n c = let same : (n == n) ≡ true = ground arith in rw same refl

set_key-other :
    {K : Type 0} (key : ℕ → K) (n m : ℕ) (c : K) → n ≢ m → set_key key n (some c) m ≡ key m
set_key-other key n m c e = let other : (m == n) ≡ false = ground (arith, e) in rw other refl

finish-added :
    {K : Type 0} (h : Hash K) (c : K) (n : Node K) (r : Option (Loose K))
    → (finish_set h c false n r).status ≡ added
    → ((finish_set h c false n r).phkey ≡ some n.key)
      × ((finish_set h c false n r).freed.values ≡ [])
      × (r ≡ none)
unfolding finish_set
finish-added h c n none e = (refl, refl, refl)
finish-added h c n (some o) e = absurd (cc)

finish-stored :
    {K : Type 0} (h : Hash K) (c : K) (n : Node K) (r : Option (Loose K))
    → (finish_set h c false n r).status ≢ set_enomem
unfolding finish_set
finish-stored h c n none e = absurd (cc)
finish-stored h c n (some o) e = absurd (cc)

module _ {K : Type 0} (hfunc : K → ℕ) (keq : K → K → Bool) (kcp : K → Option K)
    (malloc : ℕ → Bool) where
  -- what `hash_set` is with memory for a node and the key
  set-granted :
      (hash : Hash K) (key c : K) (value hn : ℕ)
      → hn ≢ 0
      → kcp key ≡ some c
      → hash_set hfunc keq kcp malloc hash key false value hn ≡ (
          let (h, n, r) = Hashl.set hfunc keq (expand_map malloc hash.h) c hn in
          finish_set (record { h = h; v = set_value hash.v hn value }) c false n r)
  unfolding hash_set
  set-granted hash key c value hn pos copied =
      let positive : (hn == 0) ≡ false = ground (arith, pos) in rw (positive, copied) refl

  -- a node that replaces none has the key
  new-key :
      (h : Hashl K) (c : K) (hn : ℕ)
      → (Hashl.set hfunc keq h c hn).2 ≡ none
      → (Hashl.set hfunc keq h c hn).1.key ≡ c
  unfolding Hashl.set
  new-key h c hn e = elim (Option-cases (Hashl.get hfunc keq h c)) [
    | inl f ↦ rw (f, Hashl.set) refl
    | inr (n, f) ↦ absurd (some-ne-none (node_init n) (rw (f, Hashl.set) at e))
  ]

  -- a key that the hash does not have is added
  pub set-added :
      (hash : Hash K) (key c : K) (value hn : ℕ)
      → hn ≢ 0
      → kcp key ≡ some c
      → get hfunc keq hash key ≡ none
      → (o : SetOutcome K) → o ≡ hash_set hfunc keq kcp malloc hash key false value hn
      → IsSetTo hfunc keq kcp hash key false value hn o
      → (o.phkey ≡ some c)
        × (o.freed.values ≡ [])
        × ((k : K)
            → get hfunc keq o.hash k ≡ (if keq key k then some value else get hfunc keq hash k))
  set-added hash key c value hn pos copied absent o oe (_, how) =
      let e = set-granted hash key c value hn pos copied in
      let (t, n, r) = Hashl.set hfunc keq (expand_map malloc hash.h) c hn in
      let h : Hash K = record { h = t; v = set_value hash.v hn value } in
      let same = oe ∙ e in
      elim how [
        | inl (f, _, _, _) ↦
            absurd (finish-stored h c n r (ap (λ (p : SetOutcome K). p.status) (sym same) ∙ f))
        | inr (_, _, values, inl (f, _, _)) ↦
            let (k, v, none_old) =
              finish-added h c n r (ap (λ (p : SetOutcome K). p.status) (sym same) ∙ f) in
            (
              ap (λ (p : SetOutcome K). p.phkey) same
                  ∙ k
                  ∙ ap some (new-key (expand_map malloc hash.h) c hn none_old),
              ap (λ (p : SetOutcome K). p.freed.values) same ∙ v,
              values,
            )
        | inr (_, _, values, inr (_, (old, f, _))) ↦ absurd (some-ne-none old (sym f ∙ absent))
      ]

  module _ (x : IsHash hfunc keq) (dsize : Option (ℕ → ℕ)) where
    -- the cache with a new node
    abbrev pub with_node : Lru K → Hash K → Option K → (value n : ℕ) → Lru K
    with_node l hash phkey value n = record l {
      items = l.items ++ (n ∷ []);
      hash = hash;
      sz = (l.sz + data_size dsize value) % u32_mod;
      key = set_key l.key n phkey;
      node_data = set_value l.node_data n value;
    }

    module _ (l : Lru K) (key c : K) (value n : ℕ) (hash : Hash K) (v : IsCache hfunc keq dsize l)
        (new : Outside n l.items) (copied : keq key c ≡ true)
        (absent : get hfunc keq l.hash key ≡ none)
        (values : (k : K)
          → get hfunc keq hash k ≡ (if keq key k then some n else get hfunc keq l.hash k)) where
      added-found :
          (k : K) (m : ℕ)
          → get hfunc keq hash k ≡ some m
          → In m (l.items ++ (n ∷ [])) × (keq (set_key l.key n (some c) m) k ≡ true)
      added-found k m e = elim (Bool-cases (keq key k)) [
        | inl t ↦
            let same : n ≡ m = some-injective n m (sym (values k ∙ rw t refl) ∙ e) in
            let found = x.joined c key k (x.turned key c copied) t in
            subst (λ m. In m (l.items ++ (n ∷ [])) × (keq (set_key l.key n (some c) m) k ≡ true))
              same (In-last n l.items, rw (set_key-same l.key n c) found)
        | inr t ↦
            let was : get hfunc keq l.hash k ≡ some m = sym (values k ∙ rw t refl) ∙ e in
            let (i, j) = v.found k m was in
            (In-left n m l.items i, rw (set_key-other l.key n m c (Outside-In n m l.items new i)) j)
      ]

      added-kept :
          (k : K) (m : ℕ)
          → In m (l.items ++ (n ∷ []))
          → keq (set_key l.key n (some c) m) k ≡ true
          → get hfunc keq hash k ≡ some m
      added-kept k m i e = elim (In-append n m l.items i) [
        | inl j ↦
            let known = set_key-other l.key n m c (Outside-In n m l.items new j) in
            let f : keq (l.key m) k ≡ true = rw (sym known) e in
            elim (Bool-cases (keq key k)) [
              | inl t ↦
                  let g = x.joined (l.key m) k key f (x.turned key k t) in
                  absurd (some-ne-none m (sym (v.kept key m j g) ∙ absent))
              | inr t ↦ values k ∙ rw t (v.kept k m j f)
            ]
        | inr s ↦
            let f : keq c k ≡ true =
              subst (λ d. keq d k ≡ true) (ap (set_key l.key n (some c)) s ∙ set_key-same l.key n c)
                e in
            values k ∙ rw (x.joined key c k copied f, s) refl
      ]

      pub added-IsCache :
          IsValid hfunc keq hash
          → l.sz + data_size dsize value ≤ l.maxsz
          → IsCache hfunc keq dsize (with_node l hash (some c) value n)
      added-IsCache valid room =
          let size = total-append (data_size dsize) l.node_data n value l.items new in
          record {
            hashed = valid;
            found = added-found;
            kept = added-kept;
            distinct = IsDistinct-append n l.items new v.distinct;
            counted = omega (arith, size, v.counted, v.narrow);
            in_limit = omega (arith, v.narrow);
            narrow = v.narrow;
          }
