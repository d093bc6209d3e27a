-- ===== src/Hashl/Replace.antt =====
-- src/hashl.c: `yhashl_set` of a key that the table has.
use ylib.Base.{
  ℕ, ◌≡◌, ◌≢◌, ◌⊎◌, ◌∙◌, sym, ap, refl, subst, Bool, true, false, Option, none, some, List, [], ◌∷◌,
  ◌==◌, if◌then◌else◌, arith, Bool-cases, inl, inr,
}
use ylib.Hashl.{Node, Hashl, hv_, is_match, find, get, replace_link}
use ylib.Hashl.Table.{Has, IsHash, IsTable, Option-cases, get-keq, get-Has, true_ne_false}

-- the node with another address
abbrev pub moved : {K : Type 0} → Node K → ℕ → Node K
moved n at = record n { at = at }

abbrev replaced_node : {K : Type 0} → Node K → Node K → Node K → Node K
replaced_node n anew m = if m.at == n.at then anew else m

Has-replaced :
    {K : Type 0} (n anew : Node K) (ns : List (Node K)) (m : Node K)
    → Has (replace_link n.at anew ns) m
    → ((m ≡ anew) × ((o : Node K) × Has ns o × (o.at ≡ n.at))) ⊎ (Has ns m × (m.at ≢ n.at))
unfolding replace_link
Has-replaced n anew [] m i = absurd i
Has-replaced n anew (o ∷ ns) m (inl e) = elim (Bool-cases (o.at == n.at)) [
  | inl f ↦ inl (rw f at e, (o, inl refl, ground arith))
  | inr f ↦
      let same : m ≡ o = rw f at e in
      inr (inl same, λ g. absurd (ground (arith, ap (λ (p : Node _). p.at) same)))
]
Has-replaced n anew (o ∷ ns) m (inr i) = elim (Has-replaced n anew ns m i) [
  | inl (e, (p, j, f)) ↦ inl (e, (p, inr j, f))
  | inr (j, f) ↦ inr (inr j, f)
]

map_option : {A B : Type 0} → (A → B) → Option A → Option B
map_option f none = none
map_option f (some a) = some (f a)

if-map :
    {A B : Type 0} (b : Bool) (f : A → B) (a : A) (o : Option A) (o' : Option B)
    → o' ≡ map_option f o
    → (if b then some (f a) else o') ≡ map_option f (if b then some a else o)
unfolding map_option
if-map true f a o o' e = refl
if-map false f a o o' e = e

module _ {K : Type 0} (hfunc : K → ℕ) (keq : K → K → Bool) where
  -- the search stops at the same place, if the new node has the key and the hash of the old one
  find-replaced :
      (hv32 : ℕ) (k : K) (n : Node K) (at : ℕ) (ns : List (Node K))
      → ((m : Node K) → Has ns m → m.at ≡ n.at → m ≡ n)
      → find hfunc keq hv32 k (replace_link n.at (moved n at) ns)
        ≡ map_option (replaced_node n (moved n at)) (find hfunc keq hv32 k ns)
  unfolding find replace_link map_option
  find-replaced hv32 k n at [] u = refl
  find-replaced hv32 k n at (m ∷ ns) u =
      let matches : is_match hfunc keq hv32 k (replaced_node n (moved n at) m)
          ≡ is_match hfunc keq hv32 k m =
        elim (Bool-cases (m.at == n.at)) [
          | inl f ↦ rw f (ap (is_match hfunc keq hv32 k) (sym (u m (inl refl) (ground arith))))
          | inr f ↦ rw f refl
        ] in
      rw matches (
        if-map (is_match hfunc keq hv32 k m) (replaced_node n (moved n at)) m
          (find hfunc keq hv32 k ns) (find hfunc keq hv32 k (replace_link n.at (moved n at) ns))
          (find-replaced hv32 k n at ns (λ o i. u o (inr i))))

  module _ (x : IsHash hfunc keq) (h : Hashl K) (key : K) (nnew : ℕ) (n : Node K)
      (t : IsTable hfunc keq h) (found : get hfunc keq h key ≡ some n) where
    abbrev pub replaced : Hashl K
    replaced = record h { map = λ i. replace_link n.at (moved n nnew) (h.map i) }

    only : (i : ℕ) (m : Node K) → Has (h.map i) m → m.at ≡ n.at → m ≡ n
    only i m j e = t.addressed i (hv_ h (hfunc key)) m n j (get-Has hfunc keq x h key n found).0 e

    pub Has-replaced_map :
        (i : ℕ) (m : Node K)
        → Has (replaced.map i) m
        → ((m ≡ moved n nnew) × Has (h.map i) n) ⊎ (Has (h.map i) m × (m.at ≢ n.at))
    Has-replaced_map i m j = elim (Has-replaced n (moved n nnew) (h.map i) m j) [
      | inl (e, (o, k, f)) ↦ inl (e, subst (Has (h.map i)) (only i o k f) k)
      | inr k ↦ inr k
    ]

    replaced-map_option :
        (k : K)
        → get hfunc keq replaced k ≡ map_option (replaced_node n (moved n nnew)) (get hfunc keq h k)
    unfolding get
    replaced-map_option k =
        find-replaced (hfunc k) k n nnew (h.map (hv_ h (hfunc k)))
          (λ m i e. only (hv_ h (hfunc k)) m i e)

    pub replaced-get :
        (k : K)
        → get hfunc keq replaced k ≡ (if keq key k then some (moved n nnew) else get hfunc keq h k)
    unfolding map_option
    replaced-get k = elim (Bool-cases (keq key k)) [
      | inl e ↦
          let same = sym (get-keq hfunc keq x h key k e) ∙ found in
          let self : (n.at == n.at) ≡ true = ground arith in
          rw e (replaced-map_option k ∙ rw (same, self) refl)
      | inr e ↦ elim (Option-cases (get hfunc keq h k)) [
        | inl f ↦ rw e (replaced-map_option k ∙ rw f refl)
        | inr (m, f) ↦
            let (i, g) = get-Has hfunc keq x h k m f in
            let (_, g') = get-Has hfunc keq x h key n found in
            let other : (m.at == n.at) ≡ false = elim (Bool-cases (m.at == n.at)) [
              | inl a ↦
                  let same = only (hv_ h (hfunc k)) m i (ground arith) in
                  absurd (
                    true_ne_false (
                      sym (
                        x.joined key n.key k g'
                          (x.turned k n.key (subst (λ (o : Node K). keq k o.key ≡ true) same g)))
                      ∙ e))
              | inr a ↦ a
            ] in
            rw e (replaced-map_option k ∙ rw (f, other) refl)
      ]
    ]

    pub replaced-IsTable :
        ((i : ℕ) (m : Node K) → Has (h.map i) m → m.at ≢ nnew) → IsTable hfunc keq replaced
    replaced-IsTable new = record {
      some_bits = t.some_bits;
      few_bits = t.few_bits;
      placed = λ i m j. elim (Has-replaced_map i m j) [
        | inl (e, k) ↦ rw e (t.placed i n k)
        | inr (k, _) ↦ t.placed i m k
      ];
      hashed = λ i m j. elim (Has-replaced_map i m j) [
        | inl (e, k) ↦ rw e (t.hashed i n k)
        | inr (k, _) ↦ t.hashed i m k
      ];
      unique = λ i j m o p q e. elim (Has-replaced_map i m p) [
        | inl (f, k) ↦ elim (Has-replaced_map j o q) [
          | inl (g, _) ↦ f ∙ sym g
          | inr (l, d) ↦
              absurd (d (ap (λ (y : Node K). y.at) (sym (t.unique i j n o k l (rw f at e)))))
        ]
        | inr (k, d) ↦ elim (Has-replaced_map j o q) [
          | inl (g, l) ↦ absurd (d (ap (λ (y : Node K). y.at) (t.unique i j m n k l (rw g at e))))
          | inr (l, _) ↦ t.unique i j m o k l e
        ]
      ];
      addressed = λ i j m o p q e. elim (Has-replaced_map i m p) [
        | inl (f, _) ↦ elim (Has-replaced_map j o q) [
          | inl (g, _) ↦ f ∙ sym g
          | inr (l, _) ↦ absurd (new j o l (sym (rw f at e)))
        ]
        | inr (k, _) ↦ elim (Has-replaced_map j o q) [
          | inl (g, _) ↦ absurd (new i m k (rw g at e))
          | inr (l, _) ↦ t.addressed i j m o k l e
        ]
      ];
    }
