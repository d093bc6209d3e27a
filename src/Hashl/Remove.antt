-- ===== src/Hashl/Remove.antt =====
-- src/hashl.c: `yhashl_remove`.
use ylib.Base.{
  ℕ, ◌≡◌, ◌≢◌, ◌∙◌, sym, ap, refl, subst, Bool, true, false, Option, none, some, List, [], ◌∷◌,
  ◌==◌, if◌then◌else◌, arith, Bool-cases, inl, inr,
}
use ylib.Hashl.{Node, Hashl, hv_, is_match, find, get, remove, remove_link, node_remove}
use ylib.Hashl.Table.{
  Has, IsHash, IsTable, Option-cases, get-keq, get-Has, and-false, true_ne_false,
}

Has-removed :
    {K : Type 0} (at : ℕ) (ns : List (Node K)) (m : Node K)
    → Has (remove_link at ns) m
    → Has ns m × (m.at ≢ at)
unfolding remove_link
Has-removed at [] m i = absurd i
Has-removed at (n ∷ ns) m i = elim (Bool-cases (n.at == at)) [
  | inl e ↦ let (j, d) = Has-removed at ns m (rw e at i) in (inr j, d)
  | inr e ↦ elim (rw e at i) [
    | inl f ↦ (inl f, λ g. absurd (ground (arith, ap (λ (o : Node _). o.at) f)))
    | inr j ↦ let (k, d) = Has-removed at ns m j in (inr k, d)
  ]
]

module _ {K : Type 0} (hfunc : K → ℕ) (keq : K → K → Bool) where
  -- a search that does not stop at the removed links ends as before
  find-removed :
      (hv32 : ℕ) (k : K) (at : ℕ) (ns : List (Node K))
      → ((m : Node K) → Has ns m → m.at ≡ at → is_match hfunc keq hv32 k m ≡ false)
      → find hfunc keq hv32 k (remove_link at ns) ≡ find hfunc keq hv32 k ns
  unfolding find remove_link
  find-removed hv32 k at [] u = refl
  find-removed hv32 k at (m ∷ ns) u =
      let rest = find-removed hv32 k at ns (λ o i. u o (inr i)) in
      elim (Bool-cases (m.at == at)) [
        | inl e ↦ let skipped = u m (inl refl) (ground arith) in rw (e, skipped, rest) refl
        | inr e ↦ rw (e, rest) refl
      ]

  module _ (x : IsHash hfunc keq) (h : Hashl K) (key : K) (n : Node K) (t : IsTable hfunc keq h)
      (found : get hfunc keq h key ≡ some n) where
    abbrev pub taken_out : Hashl K
    taken_out = node_remove hfunc keq h n.at

    pub removed-IsTable : IsTable hfunc keq taken_out
    unfolding node_remove
    removed-IsTable = record {
      some_bits = t.some_bits;
      few_bits = t.few_bits;
      placed = λ i m j. t.placed i m (Has-removed n.at (h.map i) m j).0;
      hashed = λ i m j. t.hashed i m (Has-removed n.at (h.map i) m j).0;
      unique = λ i j m o p q.
          t.unique i j m o (Has-removed n.at (h.map i) m p).0 (Has-removed n.at (h.map j) o q).0;
      addressed = λ i j m o p q.
          t.addressed i j m o (Has-removed n.at (h.map i) m p).0 (Has-removed n.at (h.map j) o q).0;
    }

    -- the search for another key does not stop at the node
    other :
        (k : K)
        → keq key k ≡ false
        → (m : Node K) → Has (h.map (hv_ h (hfunc k))) m
        → m.at ≡ n.at
        → is_match hfunc keq (hfunc k) k m ≡ false
    other k e m i f =
        let (l, g) = get-Has hfunc keq x h key n found in
        let same = t.addressed (hv_ h (hfunc k)) (hv_ h (hfunc key)) m n i l f in
        let mismatch : keq k m.key ≡ false = elim (Bool-cases (keq k m.key)) [
          | inl a ↦ absurd (
              true_ne_false (
                sym (
                  x.joined key n.key k g
                    (x.turned k n.key (subst (λ (o : Node K). keq k o.key ≡ true) same a)))
                ∙ e))
          | inr a ↦ a
        ] in
        rw mismatch (and-false (m.hv32 == hfunc k))

    pub removed-get :
        (k : K) → get hfunc keq taken_out k ≡ (if keq key k then none else get hfunc keq h k)
    unfolding node_remove get
    removed-get k = elim (Bool-cases (keq key k)) [
      | inl e ↦ elim (Option-cases (get hfunc keq taken_out k)) [
        | inl f ↦ rw e f
        | inr (m, f) ↦
            let (i, g) = get-Has hfunc keq x taken_out k m f in
            let (j, d) = Has-removed n.at (h.map (hv_ h (hfunc k))) m i in
            let (l, g') = get-Has hfunc keq x h key n found in
            absurd (
              d (
                ap (λ (o : Node K). o.at)
                  (t.unique _ _ m n j l (
                    x.joined m.key k n.key (x.turned k m.key g)
                      (x.joined k key n.key (x.turned key k e) g')))))
      ]
      | inr e ↦
          rw e (find-removed (hfunc k) k n.at (h.map (hv_ h (hfunc k))) (λ m i f. other k e m i f))
    ]

  -- what `yhashl_remove` makes of a table
  abbrev pub IsRemovedFrom : Hashl K → K → Hashl K × Option (Node K) → Type 0
  IsRemovedFrom h key (h', old) =
      IsTable hfunc keq h'
      × (old ≡ get hfunc keq h key)
      × ((k : K) → get hfunc keq h' k ≡ (if keq key k then none else get hfunc keq h k))
      × ((i : ℕ) (n : Node K) → Has (h'.map i) n → Has (h.map i) n)

  pub remove-absent :
      (h : Hashl K) (key : K) → get hfunc keq h key ≡ none → remove hfunc keq h key ≡ (h, none)
  unfolding remove
  remove-absent h key e = rw (e, remove) refl

  pub remove-found :
      (h : Hashl K) (key : K) (n : Node K)
      → get hfunc keq h key ≡ some n
      → remove hfunc keq h key ≡ (node_remove hfunc keq h n.at, some n)
  unfolding remove
  remove-found h key n e = rw (e, remove) refl

  -- a key that the table does not have is not found for an equal key either
  pub absent-get :
      (x : IsHash hfunc keq) (h : Hashl K) (key : K)
      → get hfunc keq h key ≡ none
      → (k : K) → get hfunc keq h k ≡ (if keq key k then none else get hfunc keq h k)
  absent-get x h key e k = elim (Bool-cases (keq key k)) [
    | inl f ↦ let same = sym (get-keq hfunc keq x h key k f) ∙ e in rw (f, same) refl
    | inr f ↦ rw f refl
  ]

  -- `yhashl_remove` of a valid table keeps it valid, returns the node that it had for the key, and changes what
  -- `yhashl_get` finds for the keys that equal this key alone: nothing.
  pub remove-IsRemovedFrom :
      (h : Hashl K) (key : K)
      → IsHash hfunc keq
      → IsTable hfunc keq h
      → IsRemovedFrom h key (remove hfunc keq h key)
  unfolding node_remove
  remove-IsRemovedFrom h key x t = elim (Option-cases (get hfunc keq h key)) [
    | inl absent ↦
        rw (remove-absent h key absent) (t, sym absent, absent-get x h key absent, λ i n m. m)
    | inr (n, found) ↦ rw (remove-found h key n found) (
      removed-IsTable x h key n t found,
      sym found,
      removed-get x h key n t found,
      λ i m j. (Has-removed n.at (h.map i) m j).0,
    )
  ]

  -- the number of buckets does not change
  pub removed-mapbits : (h : Hashl K) (at : ℕ) → (node_remove hfunc keq h at).mapbits ≡ h.mapbits
  unfolding node_remove
  removed-mapbits h at = refl
