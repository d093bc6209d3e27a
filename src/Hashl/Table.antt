-- ===== src/Hashl/Table.antt =====
-- src/hashl.c: valid hash tables, and what `yhashl_get` finds in them.
use ylib.Base.{
  ℕ, ◌≤◌, ◌<◌, ◌≡◌, ◌⊎◌, ◌∙◌, sym, ap, refl, subst, Bool, true, false, ◌&&◌, Option, none, some,
  List, [], ◌∷◌, ◌==◌, if◌then◌else◌, arith, inl, inr, u32_mod,
}
use mathlib.Core.Option.{some-injective, some-ne-none}
use ylib.Hashl.{Node, Hashl, hv, hv_, is_match, find, get, min_hbits}

-- the node is in the list
abbrev pub Has : {K : Type 0} → List (Node K) → Node K → Type 0
Has [] n = ⊥
Has (m ∷ ms) n = (n ≡ m) ⊎ Has ms n

-- What the two functions of a table have to do: `keq` is an equivalence, and equal keys have the same
-- hash, of 32 bits.
pub record IsHash {K : Type 0} (hfunc : K → ℕ) (keq : K → K → Bool) : Type 0 where
  pub same : (k : K) → keq k k ≡ true
  pub turned : (k l : K) → keq k l ≡ true → keq l k ≡ true
  pub joined : (k l m : K) → keq k l ≡ true → keq l m ≡ true → keq k m ≡ true
  pub hashed : (k l : K) → keq k l ≡ true → hfunc k ≡ hfunc l
  pub narrow : (k : K) → hfunc k < u32_mod

-- Every node is in the bucket that its hash value says, and no two nodes have equal keys, or stand at
-- one address.
pub record IsTable {K : Type 0} (hfunc : K → ℕ) (keq : K → K → Bool) (h : Hashl K) : Type 0 where
  pub some_bits : min_hbits ≤ h.mapbits
  pub few_bits : h.mapbits < 32
  pub placed : (i : ℕ) (n : Node K) → Has (h.map i) n → hv h n ≡ i
  pub hashed : (i : ℕ) (n : Node K) → Has (h.map i) n → n.hv32 ≡ hfunc n.key
  pub unique :
      (i j : ℕ) (n m : Node K) → Has (h.map i) n → Has (h.map j) m → keq n.key m.key ≡ true → n ≡ m
  pub addressed : (i j : ℕ) (n m : Node K) → Has (h.map i) n → Has (h.map j) m → n.at ≡ m.at → n ≡ m

pub Option-cases {ℓ} : {A : Type ℓ} → (o : Option A) → (o ≡ none) ⊎ ((a : A) × (o ≡ some a))
Option-cases none = inl refl
Option-cases (some a) = inr (a, refl)

-- a Boolean that is true on the right only if it is on the left, and conversely
pub Bool-ext : (b c : Bool) → (b ≡ true → c ≡ true) → (c ≡ true → b ≡ true) → b ≡ c
Bool-ext true c f g = sym (f refl)
Bool-ext false true f g = g refl
Bool-ext false false f g = refl

-- which branch gave the node
if-some {ℓ} :
    {A : Type ℓ} (b : Bool) (a a' : A) (rest : Option A)
    → (if b then some a else rest) ≡ some a'
    → ((b ≡ true) × (a' ≡ a)) ⊎ ((b ≡ false) × (rest ≡ some a'))
if-some true a a' rest e = inl (refl, sym (some-injective a a' e))
if-some false a a' rest e = inr (refl, e)

if-none {ℓ} :
    {A : Type ℓ} (b : Bool) (a : A) (rest : Option A)
    → (if b then some a else rest) ≡ none
    → (b ≡ false) × (rest ≡ none)
if-none true a rest e = absurd (some-ne-none a e)
if-none false a rest e = (refl, e)

pub and-false : (b : Bool) → b && false ≡ false
and-false true = refl
and-false false = refl

pub true_ne_false : true ≡ false → ⊥
true_ne_false e = ground (arith, e)

and-right : (b c : Bool) → b && c ≡ true → c ≡ true
and-right true c e = e
and-right false c e = ground (arith, e)

module _ {K : Type 0} (hfunc : K → ℕ) (keq : K → K → Bool) where
  pub find-Has :
      (hv32 : ℕ) (key : K) (ns : List (Node K)) (n : Node K)
      → find hfunc keq hv32 key ns ≡ some n
      → Has ns n × (is_match hfunc keq hv32 key n ≡ true)
  unfolding find
  find-Has hv32 key [] n e = absurd (some-ne-none n (sym e))
  find-Has hv32 key (m ∷ ns) n e =
      elim (if-some (is_match hfunc keq hv32 key m) m n (find hfunc keq hv32 key ns) e) [
        | inl (f, g) ↦ (inl g, rw g f)
        | inr (f, g) ↦ let (i, j) = find-Has hv32 key ns n g in (inr i, j)
      ]

  pub find-none :
      (hv32 : ℕ) (key : K) (ns : List (Node K)) (n : Node K)
      → find hfunc keq hv32 key ns ≡ none
      → Has ns n
      → is_match hfunc keq hv32 key n ≡ false
  unfolding find
  find-none hv32 key [] n e i = absurd i
  find-none hv32 key (m ∷ ns) n e (inl f) =
      rw f (if-none (is_match hfunc keq hv32 key m) m (find hfunc keq hv32 key ns) e).0
  find-none hv32 key (m ∷ ns) n e (inr i) =
      find-none hv32 key ns n
        (if-none (is_match hfunc keq hv32 key m) m (find hfunc keq hv32 key ns) e).1 i

  module _ (x : IsHash hfunc keq) where
    pub keq-sym : (k l : K) → keq k l ≡ keq l k
    keq-sym k l = Bool-ext (keq k l) (keq l k) (x.turned k l) (x.turned l k)

    pub keq-same : (k l m : K) → keq k l ≡ true → keq k m ≡ keq l m
    keq-same k l m e =
        Bool-ext (keq k m) (keq l m) (λ f. x.joined l k m (x.turned k l e) f)
          (λ f. x.joined k l m e f)

    -- equal keys find the same node
    find-keq :
        (k l : K) (ns : List (Node K))
        → keq k l ≡ true
        → find hfunc keq (hfunc k) k ns ≡ find hfunc keq (hfunc l) l ns
    unfolding find
    find-keq k l [] e = refl
    find-keq k l (n ∷ ns) e = rw (x.hashed k l e, keq-same k l n.key e, find-keq k l ns e) refl

    pub get-keq : (h : Hashl K) (k l : K) → keq k l ≡ true → get hfunc keq h k ≡ get hfunc keq h l
    unfolding get
    get-keq h k l e = rw (find-keq k l (h.map (hv_ h (hfunc k))) e, x.hashed k l e) refl

    -- what `yhashl_get` finds is a node of the table with that key, and it finds each one
    pub get-Has :
        (h : Hashl K) (key : K) (n : Node K)
        → get hfunc keq h key ≡ some n
        → Has (h.map (hv_ h (hfunc key))) n × (keq key n.key ≡ true)
    unfolding get
    get-Has h key n e =
        let (i, f) = find-Has (hfunc key) key (h.map (hv_ h (hfunc key))) n e in
        (i, and-right (n.hv32 == hfunc key) (keq key n.key) f)

    -- a node with this key is in the bucket of the key, and the search stops at it
    pub Has-bucket :
        (h : Hashl K) (key : K) (i : ℕ) (n : Node K)
        → IsTable hfunc keq h
        → Has (h.map i) n
        → keq key n.key ≡ true
        → (i ≡ hv_ h (hfunc key)) × (is_match hfunc keq (hfunc key) key n ≡ true)
    Has-bucket h key i n t m e =
        let hashes = t.hashed i n m ∙ sym (x.hashed key n.key e) in
        let same : (n.hv32 == hfunc key) ≡ true = ground (arith, hashes) in
        (sym (t.placed i n m) ∙ ap (hv_ h) hashes, rw (same, e) refl)

    pub Has-get :
        (h : Hashl K) (key : K) (i : ℕ) (n : Node K)
        → IsTable hfunc keq h
        → Has (h.map i) n
        → keq key n.key ≡ true
        → get hfunc keq h key ≡ some n
    unfolding get
    Has-get h key i n t m e =
        let (place, matches) = Has-bucket h key i n t m e in
        elim (Option-cases (get hfunc keq h key)) [
          | inl f ↦ absurd (
              true_ne_false (
                sym matches
                ∙ find-none (hfunc key) key (h.map (hv_ h (hfunc key))) n f
                    (subst (λ j. Has (h.map j) n) place m)))
          | inr (n', f) ↦
              let (m', e') = get-Has h key n' f in
              f
              ∙ ap some (
                  t.unique (hv_ h (hfunc key)) i n' n m' m
                    (x.joined n'.key key n.key (x.turned key n'.key e') e))
        ]
