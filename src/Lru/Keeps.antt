-- ===== src/Lru/Keeps.antt =====
-- src/lru.c: valid caches, and what the loop of `ylru_put` takes out of them.
use ylib.Base.{
  ℕ, ◌+◌, ◌-◌, ◌%◌, ◌≤◌, ◌<◌, ◌≡◌, ◌≢◌, ◌⊎◌, ◌∙◌, sym, ap, refl, subst, Bool, true, false, Option,
  none, some, List, [], ◌∷◌, ◌++◌, ltb, if◌then◌else◌, u32_mod, arith, Bool-cases, inl, inr,
}
use mathlib.Core.Option.{some-injective, some-ne-none}
use ylib.Hashl.Table.{IsHash, true_ne_false}
use ylib.Hash.{get, remove2}
use ylib.Hash.Lookup.{IsValid}
use ylib.Hash.Remove.{remove2-IsRemoved}
use ylib.Listl.Links.{Outside, IsDistinct}
use ylib.Lru.{Lru, data_size, unlink, shrink_to}

-- the node is in the list
abbrev pub In : ℕ → List ℕ → Type 0
In n [] = ⊥
In n (x ∷ xs) = (n ≡ x) ⊎ In n xs

pub Outside-In : (n m : ℕ) (xs : List ℕ) → Outside n xs → In m xs → n ≢ m
Outside-In n m [] o i = absurd i
Outside-In n m (x ∷ xs) o (inl e) = λ f. o.0 (f ∙ e)
Outside-In n m (x ∷ xs) o (inr i) = Outside-In n m xs o.1 i

-- the size of the data of these nodes
abbrev pub total : (ℕ → ℕ) → (ℕ → ℕ) → List ℕ → ℕ
total size d [] = 0
total size d (x ∷ xs) = size (d x) + total size d xs

-- Every one of the freed nodes, the oldest first, had to go: the data of the nodes from it on exceed the limit with
-- the new data.
abbrev pub AreNeeded : (ℕ → ℕ) → (ℕ → ℕ) → (maxsz dsz : ℕ) → List ℕ → List ℕ → Type 0
AreNeeded size d maxsz dsz [] kept = Unit
AreNeeded size d maxsz dsz (n ∷ ns) kept =
    (maxsz < total size d (n ∷ (ns ++ kept)) + dsz) × AreNeeded size d maxsz dsz ns kept

module _ {K : Type 0} (hfunc : K → ℕ) (keq : K → K → Bool) (dsize : Option (ℕ → ℕ)) where
  -- The hash finds the nodes `xs` and no others, each under its key, and the count is the size of their
  -- data, within the limit of the cache.
  pub record Keeps (l : Lru K) (xs : List ℕ) : Type 0 where
    pub hashed : IsValid hfunc keq l.hash
    pub found :
        (k : K) (n : ℕ) → get hfunc keq l.hash k ≡ some n → In n xs × (keq (l.key n) k ≡ true)
    pub kept : (k : K) (n : ℕ) → In n xs → keq (l.key n) k ≡ true → get hfunc keq l.hash k ≡ some n
    pub distinct : IsDistinct xs
    pub counted : l.sz ≡ total (data_size dsize) l.node_data xs
    pub in_limit : l.sz ≤ l.maxsz
    pub narrow : l.maxsz < u32_mod

  abbrev pub IsCache : Lru K → Type 0
  IsCache l = Keeps l l.items

  module _ (x : IsHash hfunc keq) (malloc : ℕ → Bool) where
    unlinked-found :
        (l : Lru K) (n : ℕ) (ns : List ℕ)
        → Keeps l (n ∷ ns)
        → (r : Option ℕ) (k : K) (m : ℕ)
        → r ≡ (if keq (l.key n) k then none else get hfunc keq l.hash k)
        → r ≡ some m
        → In m ns × (keq (l.key m) k ≡ true) × (get hfunc keq l.hash k ≡ some m)
    unlinked-found l n ns v r k m e f = elim (Bool-cases (keq (l.key n) k)) [
      | inl t ↦ absurd (some-ne-none m (sym f ∙ rw (e, t) refl))
      | inr t ↦
          let was : get hfunc keq l.hash k ≡ some m = rw (sym f, e, t) refl in
          let (i, j) = v.found k m was in
          elim i [ inl i ↦ absurd (true_ne_false (sym j ∙ rw i t)) | inr i ↦ (i, j, was) ]
    ]

    unlinked-kept :
        (l : Lru K) (n : ℕ) (ns : List ℕ)
        → Keeps l (n ∷ ns)
        → (k : K) (m : ℕ) → In m ns
        → keq (l.key m) k ≡ true
        → (if keq (l.key n) k then none else get hfunc keq l.hash k) ≡ some m
    unlinked-kept l n ns v k m i e = elim (Bool-cases (keq (l.key n) k)) [
      | inl t ↦
          let same = some-injective n m (sym (v.kept k n (inl refl) t) ∙ v.kept k m (inr i) e) in
          absurd (Outside-In n m ns v.distinct.0 i same)
      | inr t ↦ rw t (v.kept k m (inr i) e)
    ]

    -- the cache after a round of the loop
    abbrev step : Lru K → ℕ → List ℕ → Lru K
    step l n ns =
        unlink hfunc keq malloc dsize l n ns (remove2 hfunc keq malloc l.hash (l.key n) false).1

    step-Keeps : (l : Lru K) (n : ℕ) (ns : List ℕ) → Keeps l (n ∷ ns) → Keeps (step l n ns) ns
    step-Keeps l n ns v =
        let (valid, values, _) =
          remove2-IsRemoved hfunc keq x malloc l.hash (l.key n) false v.hashed in
        let size : (l.sz + u32_mod - data_size dsize (l.node_data n)) % u32_mod
            ≡ total (data_size dsize) l.node_data ns =
          omega (arith, v.counted, v.in_limit, v.narrow) in
        record {
          hashed = valid;
          found = λ k m e. let (i, j, _) = unlinked-found l n ns v _ k m (values k) e in (i, j);
          kept = λ k m i e. values k ∙ unlinked-kept l n ns v k m i e;
          distinct = v.distinct.1;
          counted = size;
          in_limit = rw size (omega (arith, v.counted, v.in_limit));
          narrow = v.narrow;
        }

    step-freed :
        (l : Lru K) (n : ℕ) (ns : List ℕ)
        → Keeps l (n ∷ ns)
        → (remove2 hfunc keq malloc l.hash (l.key n) false).2.values ≡ n ∷ []
    step-freed l n ns v =
        let (_, _, how) = remove2-IsRemoved hfunc keq x malloc l.hash (l.key n) false v.hashed in
        let was = v.kept (l.key n) n (inl refl) (x.same (l.key n)) in
        elim how [
          | inl (_, e, _) ↦ absurd (some-ne-none n (sym was ∙ e))
          | inr (_, (old, e, _, f)) ↦ f ∙ ap (λ m. m ∷ []) (some-injective old n (sym e ∙ was))
        ]

    -- What the loop leaves of a cache with the nodes `xs`: the freed nodes are the oldest ones, the
    -- others stay, and there is room for the new size.
    pub record Shrunk (l : Lru K) (xs : List ℕ) (dsz : ℕ) (r : Lru K × List ℕ) : Type 0 where
      pub keeps : IsCache r.0
      pub oldest : xs ≡ r.1 ++ r.0.items
      pub needed : AreNeeded (data_size dsize) l.node_data l.maxsz dsz r.1 r.0.items
      pub room : r.0.sz + dsz ≤ r.0.maxsz
      pub same_maxsz : r.0.maxsz ≡ l.maxsz
      pub same_key : r.0.key ≡ l.key
      pub same_data : r.0.node_data ≡ l.node_data
      pub no_new : (k : K) → get hfunc keq l.hash k ≡ none → get hfunc keq r.0.hash k ≡ none

    step-no_new :
        (l : Lru K) (n : ℕ) (ns : List ℕ)
        → Keeps l (n ∷ ns)
        → (k : K) → get hfunc keq l.hash k ≡ none
        → get hfunc keq (step l n ns).hash k ≡ none
    step-no_new l n ns v k e =
        let (_, values, _) = remove2-IsRemoved hfunc keq x malloc l.hash (l.key n) false v.hashed in
        elim (Bool-cases (keq (l.key n) k)) [
          | inl t ↦ values k ∙ rw t refl
          | inr t ↦ values k ∙ rw t e
        ]

    Shrunk-none :
        (l : Lru K) (xs : List ℕ) (dsz : ℕ)
        → l.items ≡ xs
        → Keeps l xs
        → l.sz + dsz ≤ l.maxsz
        → Shrunk l xs dsz (l, [])
    Shrunk-none l xs dsz e v h = record {
      keeps = subst (λ ys. Keeps l ys) (sym e) v;
      oldest = sym e;
      needed = tt;
      room = h;
      same_maxsz = refl;
      same_key = refl;
      same_data = refl;
      no_new = λ k e. e;
    }

    Shrunk-step :
        (l : Lru K) (n : ℕ) (ns : List ℕ) (dsz : ℕ) (r : Lru K × List ℕ)
        → Keeps l (n ∷ ns)
        → l.maxsz < l.sz + dsz
        → Shrunk (step l n ns) ns dsz r
        → Shrunk l
            (n ∷ ns)
            dsz
            (r.0, (remove2 hfunc keq malloc l.hash (l.key n) false).2.values ++ r.1)
    Shrunk-step l n ns dsz r v over s = record {
      keeps = s.keeps;
      oldest = rw (step-freed l n ns v) (ap (λ ys. n ∷ ys) s.oldest);
      needed = rw (step-freed l n ns v) (
        subst (λ ys. l.maxsz < total (data_size dsize) l.node_data (n ∷ ys) + dsz) s.oldest
            (omega (arith, v.counted)),
        s.needed,
      );
      room = s.room;
      same_maxsz = s.same_maxsz;
      same_key = s.same_key;
      same_data = s.same_data;
      no_new = λ k e. s.no_new k (step-no_new l n ns v k e);
    }

    -- the loop of `ylru_put` makes room for data that the cache can hold, if the sum of the sizes does not
    -- wrap
    pub shrink_to-Shrunk :
        (xs : List ℕ) (l : Lru K) (dsz : ℕ)
        → l.items ≡ xs
        → Keeps l xs
        → dsz ≤ l.maxsz
        → l.sz + dsz < u32_mod
        → Shrunk l xs dsz (shrink_to hfunc keq malloc dsize xs l dsz)
    unfolding shrink_to
    shrink_to-Shrunk [] l dsz e v h w = Shrunk-none l [] dsz e v (omega (arith, v.counted))
    shrink_to-Shrunk (n ∷ ns) l dsz e v h w =
        let v' = step-Keeps l n ns v in
        elim (Bool-cases (ltb l.maxsz ((l.sz + dsz) % u32_mod))) [
          | inl full ↦ rw full (
              Shrunk-step l n ns dsz (shrink_to hfunc keq malloc dsize ns (step l n ns) dsz) v
                (ground (arith, w, full))
                (shrink_to-Shrunk ns (step l n ns) dsz refl v' h
                  (omega (arith, v.counted, v'.counted))))
          | inr room ↦ rw room (Shrunk-none l (n ∷ ns) dsz e v (ground (arith, w, room)))
        ]
