-- ===== src/Dynb/Growth.antt =====
-- src/dynb.c: what growing and shrinking keep, and where `u32` products wrap.
use ylib.Base.{
  ℕ, zero, suc, ◌+◌, ◌-◌, ◌*◌, ◌%◌, ◌≤◌, ◌<◌, ◌≡◌, ◌⊎◌, ◌↔◌, mul_mono, refl, Bool, true, false,
  some, arith, u32_mod, Status, ok, enomem, ltb, leb, ◌||◌, Bool-cases, inl, inr,
}
use native.Mathlib.Nat.{mod-eq_of_lt}
use ylib.Dynb.{Dynb, freesz, expand, expand_loop, expand2, shrink}

-- The elements in use lie within the limit, and the limit within the allocation.
pub record IsValid (b : Dynb) : Type 0 where
  pub some_room : 1 ≤ b.limit
  pub in_limit : b.sz ≤ b.limit
  pub allocated : b.limit * b.eszex ≤ b.bytes
  pub narrow : b.limit < u32_mod
  pub padded : b.esz ≤ b.eszex

-- `c` is the buffer `b`, perhaps with a larger limit
pub record Grown (b c : Dynb) : Type 0 where
  pub valid : IsValid c
  pub same_sz : c.sz ≡ b.sz
  pub same_esz : c.esz ≡ b.esz
  pub same_eszex : c.eszex ≡ b.eszex

pub freesz_lem : (b : Dynb) → IsValid b → freesz b + b.sz ≡ b.limit
unfolding freesz
freesz_lem b v = omega arith

module _ (grant : ℕ → Bool) where
  expand-granted :
      (b : Dynb)
      → b.limit * b.eszex * 2 < u32_mod
      → b.limit * 2 < u32_mod
      → grant (b.limit * b.eszex * 2) ≡ true
      → expand grant b ≡ (ok, record b { bytes = b.limit * b.eszex * 2; limit = b.limit * 2 })
  unfolding expand
  expand-granted b h k g = rw (mod-eq_of_lt h, mod-eq_of_lt k, g)

  expand-refused :
      (b : Dynb) → grant (b.limit * b.eszex * 2 % u32_mod) ≡ false → expand grant b ≡ (enomem, b)
  unfolding expand
  expand-refused b g = rw g

  doubled-IsValid :
      (b : Dynb)
      → IsValid b
      → b.limit * b.eszex * 2 < u32_mod
      → b.limit * 2 < u32_mod
      → IsValid (record b { bytes = b.limit * b.eszex * 2; limit = b.limit * 2 })
  doubled-IsValid b v h k = record {
    some_room = omega arith;
    in_limit = omega arith;
    allocated = omega arith;
    narrow = k;
    padded = v.padded;
  }

  Grown-refl : {b : Dynb} → IsValid b → Grown b b
  Grown-refl v = record { valid = v; same_sz = refl; same_esz = refl; same_eszex = refl }

  Grown-doubled : {b c : Dynb} {n m : ℕ} → Grown (record b { bytes = n; limit = m }) c → Grown b c
  Grown-doubled g = record {
    valid = g.valid;
    same_sz = g.same_sz;
    same_esz = g.same_esz;
    same_eszex = g.same_eszex;
  }

  -- a buffer grown from `b` that has room for `required` more elements unless the allocator
  -- refused a request
  abbrev pub HasRoom : Dynb → ℕ → Dynb → Type 0
  HasRoom b required c =
      Grown b c
      × ((required ≤ freesz c) ⊎ ((c.limit < c.sz + required) × ((n : ℕ) × (grant n ≡ false))))

  expand_loop_total :
      (fuel : ℕ) (b : Dynb) (required : ℕ)
      → IsValid b
      → (b.sz + required) * b.eszex * 2 < u32_mod
      → (b.sz + required) * 2 < u32_mod
      → b.sz + required - b.limit < fuel
      → (c : Dynb) × (expand_loop grant fuel b required ≡ some c) × HasRoom b required c
  unfolding expand_loop
  expand_loop_total zero b required v h k m = absurd (omega arith)
  expand_loop_total (suc fuel) b required v h k m = elim (Bool-cases (ltb (freesz b) required)) [
    | inl short ↦
        let full : b.limit < b.sz + required = ground (arith, freesz_lem b v) in
        let wide : b.limit * b.eszex * 2 < u32_mod =
          omega (arith, mul_mono b.limit (b.sz + required) b.eszex (omega arith)) in
        elim (Bool-cases (grant (b.limit * b.eszex * 2))) [
          | inl g ↦
              let (c, e, r) =
                expand_loop_total fuel
                  (record b { bytes = b.limit * b.eszex * 2; limit = b.limit * 2 }) required
                  (doubled-IsValid b v wide (omega arith)) h k (omega (arith, v.some_room)) in
              (c, rw (short, expand-granted b wide (omega arith) g) e, (Grown-doubled r.0, r.1))
          | inr g ↦ (
            b,
            rw (short, expand-refused b (rw (mod-eq_of_lt wide) g)),
            (Grown-refl v, inr (full, (_, g))),
          )
        ]
    | inr enough ↦ (b, rw enough, (Grown-refl v, inl (ground arith)))
  ]

  -- How `ydynb_expand2` ends: with room, or after a refusal.
  abbrev pub Expanded : Dynb → ℕ → Status × Dynb → Type 0
  Expanded b required (st, c) =
      Grown b c
      × (((st ≡ ok) × (required ≤ freesz c))
          ⊎ ((st ≡ enomem) × (freesz c < required) × ((n : ℕ) × (grant n ≡ false))))

  -- From a valid buffer, with the sizes below 2 ^ 31, `ydynb_expand2` ends within as many rounds as
  -- elements are missing, and one more: with success and room for the required elements, or with
  -- -ENOMEM, too little room and a refused request. The buffer stays valid, and its elements stay.
  pub expand2_total :
      (fuel : ℕ) (b : Dynb) (required : ℕ)
      → IsValid b
      → (b.sz + required) * b.eszex * 2 < u32_mod
      → (b.sz + required) * 2 < u32_mod
      → b.sz + required - b.limit < fuel
      → (r : Status × Dynb) × (expand2 grant fuel b required ≡ some r) × Expanded b required r
  unfolding expand2
  expand2_total fuel b required v h k m =
      let (c, e, r) = expand_loop_total fuel b required v h k m in
      elim r.1 [
        | inl room ↦ ((ok, c), ground (arith, e), (r.0, inl (refl, room)))
        | inr (full, no_grant) ↦
            let tight : freesz c < required = omega (arith, freesz_lem c r.0.valid, r.0.same_sz) in
            ((enomem, c), ground (arith, e), (r.0, inr (refl, tight, no_grant)))
      ]

  -- `ydynb_shrink` keeps a buffer valid and its elements: it refuses a limit below the size, or
  -- no smaller than the old one, and a refused request changes nothing. (A limit of 0 is left out.)
  pub shrink-Grown :
      (b : Dynb) (to : ℕ)
      → IsValid b
      → b.limit * b.eszex < u32_mod
      → 0 < to
      → Grown b (shrink grant b to).1
        × (((shrink grant b to).0 ≡ ok)
            ↔ ((to < b.limit) × (b.sz ≤ to) × (grant (to * b.eszex) ≡ true)))
  unfolding shrink
  shrink-Grown b to v h z = elim (Bool-cases (leb b.limit to || ltb to b.sz)) [
    | inl bad ↦ (rw bad (Grown-refl v), (λ e. ground arith, λ e. ground arith))
    | inr good ↦
        let fits : to * b.eszex < u32_mod =
          omega (arith, mul_mono to b.limit b.eszex (ground arith)) in
        let same = mod-eq_of_lt fits in
        elim (Bool-cases (grant (to * b.eszex))) [
          | inl g ↦ (
            rw (good, same, g)
                (record {
                  valid = record {
                    some_room = z;
                    in_limit = ground arith;
                    allocated = omega arith;
                    narrow = ground arith;
                    padded = v.padded;
                  };
                  same_sz = refl;
                  same_esz = refl;
                  same_eszex = refl;
                }),
            (λ e. ground arith, λ e. ground (arith, same)),
          )
          | inr g ↦
              (rw (good, same, g) (Grown-refl v), (λ e. ground (arith, same), λ e. ground arith))
        ]
  ]

-- Where the product of `ydynb_expand` wraps and the new limit does not, the new limit exceeds the
-- allocation: after an `ydynb_expand` that succeeds, of a buffer whose limit is below 2 ^ 31 and
-- whose doubled size in bytes reaches 2 ^ 32, the limit needs more bytes than were granted.
pub expand_wraps :
    (grant : ℕ → Bool) (b : Dynb)
    → u32_mod ≤ b.limit * b.eszex * 2
    → b.limit * 2 < u32_mod
    → (expand grant b).0 ≡ ok
    → (expand grant b).1.bytes < (expand grant b).1.limit * (expand grant b).1.eszex
unfolding expand
expand_wraps grant b h k e = elim (Bool-cases (grant (b.limit * b.eszex * 2 % u32_mod))) [
  | inl g ↦ rw (g, mod-eq_of_lt k) (omega arith)
  | inr g ↦ absurd (ground arith)
]
