-- ===== src/Hashl/Set.antt =====
-- src/hashl.c: `yhashl_set`.
use mathlib.Core.Option.{some-ne-none}
use ylib.Base.{
  ℕ, ◌+◌, ◌%◌, ◌≡◌, ◌≢◌, ◌⊎◌, ◌∙◌, sym, ap, refl, Bool, true, false, Option, none, some, ◌∷◌, ◌==◌,
  if◌then◌else◌, arith, Bool-cases, inl, inr, u32_mod,
}
use ylib.Hashl.{Node, Loose, node_init, Hashl, hv, hv_, find, get, set, replace_link, set_bucket}
use ylib.Hashl.Replace.{moved, replaced-IsTable, replaced-get, Has-replaced_map}
use ylib.Hashl.Table.{and-false, Has, IsHash, IsTable, Option-cases, Has-get, keq-sym}

-- the node, if there is one, as `yhashl_node_init` leaves it
abbrev pub cleared : {K : Type 0} → Option (Node K) → Option (Loose K)
cleared none = none
cleared (some n) = some (node_init n)

self : (n : ℕ) → (n == n) ≡ true
self n = ground arith

module _ {K : Type 0} (hfunc : K → ℕ) (keq : K → K → Bool) (x : IsHash hfunc keq) (h : Hashl K)
    (key : K) (nnew : ℕ) where
  -- no node of the table stands at this address
  abbrev pub IsNew : Type 0
  IsNew = (i : ℕ) (n : Node K) → Has (h.map i) n → n.at ≢ nnew

  -- the node as `yhashl_set` leaves it: it keeps the key of the node that it replaces
  abbrev pub new_node : Node K
  new_node = elim (get hfunc keq h key) [
    | none ↦ record { at = nnew; key = key; hv32 = hfunc key }
    | some n ↦ record n { at = nnew }
  ]

  abbrev first : Node K
  first = record { at = nnew; key = key; hv32 = hfunc key }

  abbrev added : Hashl K
  added = record h {
    map = set_bucket h.map (hv h first) (first ∷ h.map (hv h first));
    sz = (h.sz + 1) % u32_mod;
  }

  added-get :
      (k : K) → get hfunc keq added k ≡ (if keq key k then some first else get hfunc keq h k)
  unfolding get find
  added-get k = elim (Bool-cases (keq key k)) [
    | inl e ↦
        let hashes = x.hashed key k e in
        let back = x.turned key k e in
        rw (e, sym hashes, self (hv_ h (hfunc key)), self (hfunc key), back) refl
    | inr e ↦
        let back : keq k key ≡ false = sym (keq-sym hfunc keq x key k) ∙ e in
        elim (Bool-cases (hv_ h (hfunc k) == hv h first)) [
          | inl f ↦
              let same : hv_ h (hfunc k) ≡ hv h first = ground arith in
              rw (e, f, back, and-false (hfunc key == hfunc k), same) refl
          | inr f ↦ rw (e, f) refl
        ]
  ]

  Has-added :
      (i : ℕ) (n : Node K)
      → Has (added.map i) n
      → ((n ≡ first) × (i ≡ hv h first)) ⊎ Has (h.map i) n
  Has-added i n m = elim (Bool-cases (i == hv h first)) [
    | inl e ↦
        let same : i ≡ hv h first = ground arith in
        elim (rw e at m) [ inl f ↦ inl (f, same) | inr m' ↦ inr (rw same m') ]
    | inr e ↦ inr (rw e at m)
  ]

  module _ (t : IsTable hfunc keq h) (new : IsNew) (absent : get hfunc keq h key ≡ none) where
    -- no node of the table has the key
    key_absent : (i : ℕ) (n : Node K) → Has (h.map i) n → keq key n.key ≡ true → ⊥
    key_absent i n m e = some-ne-none n (sym (Has-get hfunc keq x h key i n t m e) ∙ absent)

    added-IsTable : IsTable hfunc keq added
    added-IsTable = record {
      some_bits = t.some_bits;
      few_bits = t.few_bits;
      placed =
          λ i n m. elim (Has-added i n m) [ inl (e, f) ↦ rw e (sym f) | inr m' ↦ t.placed i n m' ];
      hashed =
          λ i n m. elim (Has-added i n m) [ inl (e, f) ↦ rw e refl | inr m' ↦ t.hashed i n m' ];
      unique = λ i j n n' m m' e. elim (Has-added i n m) [
        | inl (f, _) ↦ elim (Has-added j n' m') [
          | inl (g, _) ↦ f ∙ sym g
          | inr l ↦ absurd (key_absent j n' l (rw f at e))
        ]
        | inr k ↦ elim (Has-added j n' m') [
          | inl (g, _) ↦ absurd (key_absent i n k (x.turned n.key key (rw g at e)))
          | inr l ↦ t.unique i j n n' k l e
        ]
      ];
      addressed = λ i j n n' m m' e. elim (Has-added i n m) [
        | inl (f, _) ↦ elim (Has-added j n' m') [
          | inl (g, _) ↦ f ∙ sym g
          | inr l ↦ absurd (new j n' l (sym (rw f at e)))
        ]
        | inr k ↦ elim (Has-added j n' m') [
          | inl (g, _) ↦ absurd (new i n k (rw g at e))
          | inr l ↦ t.addressed i j n n' k l e
        ]
      ];
    }

  -- what `yhashl_set` makes of a table
  abbrev pub IsSetIn : Hashl K × Node K × Option (Loose K) → Type 0
  IsSetIn (h', n', old) =
      IsTable hfunc keq h'
      × (n' ≡ new_node)
      × (old ≡ cleared (get hfunc keq h key))
      × ((k : K) → get hfunc keq h' k ≡ (if keq key k then some new_node else get hfunc keq h k))
      × ((i : ℕ) (n : Node K) → Has (h'.map i) n → (n.at ≡ nnew) ⊎ Has (h.map i) n)

  set-absent : get hfunc keq h key ≡ none → set hfunc keq h key nnew ≡ (added, first, none)
  unfolding set
  set-absent e = rw (e, set) refl

  set-found :
      (n : Node K)
      → get hfunc keq h key ≡ some n
      → set hfunc keq h key nnew ≡ (
        record h { map = λ i. replace_link n.at (moved n nnew) (h.map i) },
        moved n nnew,
        some (node_init n),
      )
  unfolding set
  set-found n e = rw (e, set) refl

  -- `yhashl_set` of a valid table and a node outside it keeps the table valid, returns the node that the
  -- table had for the key, its key and hash cleared, and changes what `yhashl_get` finds for the keys that
  -- equal this key alone: the new node, with the key that the table had if it had one.
  pub set-IsSetIn : IsTable hfunc keq h → IsNew → IsSetIn (set hfunc keq h key nnew)
  set-IsSetIn t new = elim (Option-cases (get hfunc keq h key)) [
    | inl absent ↦
        let same : new_node ≡ first = rw (absent, new_node) refl in
        rw (set-absent absent, same)
          (
            added-IsTable t new absent,
            refl,
            rw absent refl,
            added-get,
            λ i n m. elim (Has-added i n m) [
              | inl (e, _) ↦ inl (ap (λ (o : Node K). o.at) e)
              | inr m' ↦ inr m'
            ],
          )
    | inr (n, found) ↦
        let same : new_node ≡ moved n nnew = rw (found, new_node) refl in
        rw (set-found n found, same)
          (
            replaced-IsTable hfunc keq x h key nnew n t found new,
            refl,
            rw found refl,
            replaced-get hfunc keq x h key nnew n t found,
            λ i m j. elim (Has-replaced_map hfunc keq x h key nnew n t found i m j) [
              | inl (e, _) ↦ inl (ap (λ (o : Node K). o.at) e)
              | inr (k, _) ↦ inr k
            ],
          )
  ]

  -- the number of buckets does not change
  pub set-mapbits : (set hfunc keq h key nnew).0.mapbits ≡ h.mapbits
  set-mapbits = elim (Option-cases (get hfunc keq h key)) [
    | inl absent ↦ rw (set-absent absent) refl
    | inr (n, found) ↦ rw (set-found n found) refl
  ]

  pub new_node-at : new_node.at ≡ nnew
  new_node-at = elim (Option-cases (get hfunc keq h key)) [
    | inl absent ↦ rw (absent, new_node) refl
    | inr (n, found) ↦ rw (found, new_node) refl
  ]
