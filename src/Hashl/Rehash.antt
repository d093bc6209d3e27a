-- ===== src/Hashl/Rehash.antt =====
-- src/hashl.c: a table after `yhashl_hremap`.
use mathlib.Core.Option.{some-ne-none}
use native.Mathlib.Nat.{pow-suc, one-le-pow, pow-le-pow_right}
use ylib.Base.{
  ℕ, zero, suc, ◌+◌, ◌-◌, ◌*◌, ◌/◌, ◌%◌, ◌^◌, ◌≤◌, ◌<◌, max, ◌≡◌, ◌⊎◌, ◌∙◌, sym, refl, subst, Bool,
  List, [], ◌==◌, arith, Bool-cases, inl, inr, u32_mod, Status, ok, enomem,
}
use ylib.Hashl.{
  Node, Hashl, hv__, hmapsz, buckets, get, reassign, reassign_all, hremap, clamp, min_hbits,
}
use ylib.Hashl.Table.{Has, IsHash, IsTable, Option-cases, get-Has, Has-get}
use ylib.Hashl.Remap.{Has-reassign, reassign-Has}

module _ {K : Type 0} where
  -- the node is in one of the buckets from `i` on, and hashed to `j`
  abbrev Moved : ℕ → (ℕ → List (Node K)) → ℕ → ℕ → ℕ → Node K → Type 0
  Moved bits old i left j m =
      ((b : ℕ) × (i ≤ b) × (b < i + left) × Has (old b) m) × (hv__ bits m.hv32 ≡ j)

  Has-reassign_all :
      (bits : ℕ) (old : ℕ → List (Node K)) (i left : ℕ) (map : ℕ → List (Node K)) (j : ℕ)
      (m : Node K)
      → Has (reassign_all bits old i left map j) m
      → Has (map j) m ⊎ Moved bits old i left j m
  unfolding reassign_all
  Has-reassign_all bits old i zero map j m k = inl k
  Has-reassign_all bits old i (suc left) map j m k =
      elim (Has-reassign_all bits old (suc i) left (reassign bits (old i) map) j m k) [
        | inl l ↦ elim (Has-reassign bits (old i) map j m l) [
          | inl n ↦ inl n
          | inr (n, e) ↦ inr ((i, omega arith, omega arith, n), e)
        ]
        | inr ((b, p, q, n), e) ↦ inr ((b, omega arith, omega arith, n), e)
      ]

  reassign_all-Has :
      (bits : ℕ) (old : ℕ → List (Node K)) (i left : ℕ) (map : ℕ → List (Node K)) (j : ℕ)
      (m : Node K)
      → Has (map j) m ⊎ Moved bits old i left j m
      → Has (reassign_all bits old i left map j) m
  unfolding reassign_all
  reassign_all-Has bits old i zero map j m (inl k) = k
  reassign_all-Has bits old i zero map j m (inr ((b, p, q, n), e)) = absurd (omega arith)
  reassign_all-Has bits old i (suc left) map j m (inl k) =
      reassign_all-Has bits old (suc i) left (reassign bits (old i) map) j m
        (inl (reassign-Has bits (old i) map j m (inl k)))
  reassign_all-Has bits old i (suc left) map j m (inr ((b, p, q, n), e)) =
      elim (Bool-cases (b == i)) [
        | inl f ↦
            let same : b ≡ i = ground arith in
            reassign_all-Has bits old (suc i) left (reassign bits (old i) map) j m
              (inl (reassign-Has bits (old i) map j m (inr (subst (λ c. Has (old c) m) same n, e))))
        | inr f ↦
            reassign_all-Has bits old (suc i) left (reassign bits (old i) map) j m
              (inr ((b, ground arith, omega arith, n), e))
      ]

power_add : (a b : ℕ) → 2 ^ a * 2 ^ b ≡ 2 ^ (a + b)
power_add zero b = ground arith
power_add (suc a) b =
    let one_more : suc a + b ≡ suc (a + b) = omega arith in
    rw (one_more, pow-suc 2 a, pow-suc 2 (a + b), sym (power_add a b)) grind arith

power_split : (b : ℕ) → b < 32 → 2 ^ (32 - b) * 2 ^ b ≡ 4294967296
power_split b l = let whole : 32 - b + b ≡ 32 = omega arith in power_add (32 - b) b ∙ rw whole refl

div_below : (v d n : ℕ) → 0 < d → v < d * n → v / d < n
div_below v d n p l = grind arith

-- a hash of 32 bits stands in one of the buckets
pub hv-lt : (bits v : ℕ) → bits < 32 → v < u32_mod → hv__ bits v < buckets bits
unfolding hv__
hv-lt bits v l s =
    let split = power_split bits l in
    let small : 2 ^ bits < 4294967296 =
      ground (arith, pow-le-pow_right {n = 2} (omega arith) {i = bits} {j = 31} (omega arith)) in
    let whole : 2 ^ bits % u32_mod ≡ 2 ^ bits = omega arith in
    rw whole (
      div_below v (2 ^ (32 - bits)) (2 ^ bits) (one-le-pow (32 - bits) 2 (omega arith))
        (rw split s))

module _ {K : Type 0} (hfunc : K → ℕ) (keq : K → K → Bool) (x : IsHash hfunc keq) (h : Hashl K)
    (t : IsTable hfunc keq h) (bits : ℕ) (lo : min_hbits ≤ bits) (hi : bits < 32) where
  -- the table once its nodes are assigned to the new buckets
  abbrev pub rehashed : Hashl K
  rehashed = record h { map = reassign_all bits h.map 0 (hmapsz h) (λ _. []); mapbits = bits }

  Has-rehashed :
      (j : ℕ) (m : Node K)
      → Has (rehashed.map j) m
      → (i : ℕ) × Has (h.map i) m × (hv__ bits m.hv32 ≡ j)
  Has-rehashed j m k = elim (Has-reassign_all bits h.map 0 (hmapsz h) (λ _. []) j m k) [
    | inl i ↦ absurd i
    | inr ((i, _, _, n), e) ↦ (i, n, e)
  ]

  rehashed-Has : (i : ℕ) (m : Node K) → Has (h.map i) m → Has (rehashed.map (hv__ bits m.hv32)) m
  rehashed-Has i m k =
      let narrow : m.hv32 < u32_mod = rw (t.hashed i m k) (x.narrow m.key) in
      let inside : i < hmapsz h =
        subst (λ b. b < hmapsz h) (t.placed i m k) (hv-lt h.mapbits m.hv32 t.few_bits narrow) in
      reassign_all-Has bits h.map 0 (hmapsz h) (λ _. []) (hv__ bits m.hv32) m
        (inr ((i, omega arith, omega (arith, inside), k), refl))

  pub rehashed-IsTable : IsTable hfunc keq rehashed
  rehashed-IsTable = record {
    some_bits = lo;
    few_bits = hi;
    placed = λ j m k. (Has-rehashed j m k).2;
    hashed = λ j m k. let (i, l, _) = Has-rehashed j m k in t.hashed i m l;
    unique = λ i j m o p q.
        let (i', p', _) = Has-rehashed i m p in
        let (j', q', _) = Has-rehashed j o q in t.unique i' j' m o p' q';
    addressed = λ i j m o p q.
        let (i', p', _) = Has-rehashed i m p in
        let (j', q', _) = Has-rehashed j o q in t.addressed i' j' m o p' q';
  }

  pub rehashed-get : (k : K) → get hfunc keq rehashed k ≡ get hfunc keq h k
  rehashed-get k = elim (Option-cases (get hfunc keq h k)) [
    | inr (n, f) ↦
        let (m, e) = get-Has hfunc keq x h k n f in
        Has-get hfunc keq x rehashed k _ n rehashed-IsTable (rehashed-Has _ n m) e ∙ sym f
    | inl f ↦ elim (Option-cases (get hfunc keq rehashed k)) [
      | inl g ↦ g ∙ sym f
      | inr (n, g) ↦
          let (m, e) = get-Has hfunc keq x rehashed k n g in
          let (i, l, _) = Has-rehashed _ n m in
          absurd (some-ne-none n (sym (Has-get hfunc keq x h k i n t l e) ∙ f))
    ]
  ]

  pub rehashed-same : (i : ℕ) (m : Node K) → Has (rehashed.map i) m → (j : ℕ) × Has (h.map j) m
  rehashed-same i m k = let (j, l, _) = Has-rehashed i m k in (j, l)

module _ {K : Type 0} (hfunc : K → ℕ) (keq : K → K → Bool) where
  -- how `yhashl_hremap` ends: the table finds what it found before
  abbrev pub IsRemapped : Hashl K → ℕ → Status × Hashl K → Type 0
  IsRemapped h bits (st, h') =
      IsTable hfunc keq h'
      × ((k : K) → get hfunc keq h' k ≡ get hfunc keq h k)
      × (h'.sz ≡ h.sz)
      × ((st ≡ ok) × (h'.mapbits ≡ max bits min_hbits) ⊎ ((st ≡ enomem) × (h' ≡ h)))
      × ((i : ℕ) (n : Node K) → Has (h'.map i) n → (j : ℕ) × Has (h.map j) n)

  -- `yhashl_hremap` of a valid table to less than 32 bits leaves a valid table in which `yhashl_get` finds what it
  -- found before, for every key, whether the allocator grants the new buckets or not. If it
  -- succeeds, the table has the asked number of bits, and no less than MIN_HBITS.
  pub hremap-IsRemapped :
      (malloc : ℕ → Bool) (h : Hashl K) (bits : ℕ)
      → IsHash hfunc keq
      → IsTable hfunc keq h
      → bits < 32
      → IsRemapped h bits (hremap malloc h bits)
  unfolding hremap
  hremap-IsRemapped malloc h bits x t l =
      let more : clamp bits ≡ max bits min_hbits = ground arith in
      let lo : min_hbits ≤ max bits min_hbits = omega arith in
      let hi : max bits min_hbits < 32 = omega arith in
      elim (Bool-cases (h.mapbits == clamp bits)) [
        | inl e ↦
            let same : h.mapbits ≡ clamp bits = ground arith in
            rw e (t, (λ k. refl), refl, inl (refl, same ∙ more), λ i n m. (i, m))
        | inr e ↦ elim (Bool-cases (malloc (16 * buckets (clamp bits)))) [
          | inl f ↦
              rw (e, f, more)
                (
                  rehashed-IsTable hfunc keq x h t (max bits min_hbits) lo hi,
                  rehashed-get hfunc keq x h t (max bits min_hbits) lo hi,
                  refl,
                  inl (refl, refl),
                  rehashed-same hfunc keq x h t (max bits min_hbits) lo hi,
                )
          | inr f ↦ rw (e, f) (t, (λ k. refl), refl, inr (refl, refl), λ i n m. (i, m))
        ]
      ]
