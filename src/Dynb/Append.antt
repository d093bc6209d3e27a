-- ===== src/Dynb/Append.antt =====
-- src/dynb.c: `ydynb_appends` writes inside the allocation.
use ylib.Base.{
  ℕ, zero, suc, ◌+◌, ◌-◌, ◌*◌, ◌%◌, ◌≤◌, ◌<◌, ◌≡◌, ◌⊎◌, mul_mono, refl, Bool, false, some, arith,
  u32_mod, Status, List, [], ◌∷◌, ok, enomem, einval, inl, inr,
}
use native.Mathlib.Nat.{mod-eq_of_lt}
use ylib.Dynb.{Dynb, Write, freesz, getfree, incsz, copies, append_grown, appends}
use ylib.Dynb.Growth.{IsValid, Grown, freesz_lem, Expanded, expand2_total}

module _ (grant : ℕ → Bool) where
  -- A write lies within the first `bytes` bytes.
  abbrev pub InBytes : ℕ → List Write → Type 0
  InBytes bytes [] = Unit
  InBytes bytes (w ∷ ws) = (w.offset + w.size ≤ bytes) × InBytes bytes ws

  -- the bytes of `n` elements behind the ones in use, without the padding of the last one
  abbrev pub new_bytes : Dynb → ℕ → List Write
  new_bytes b zero = []
  new_bytes b (suc m) =
      record { offset = b.sz * b.eszex; size = b.eszex * m }
      ∷ record { offset = (b.sz + m) * b.eszex; size = b.esz }
      ∷ []

  -- How `ydynb_appends` ends: with `n` more elements, for which exactly their bytes are copied, all of
  -- them inside the allocation; or with -ENOMEM, the old elements, nothing written and a refused
  -- request.
  abbrev pub Appended : Dynb → ℕ → Status × Dynb × List Write → Type 0
  Appended b n (st, c, ws) =
      IsValid c
      × InBytes c.bytes ws
      × (((st ≡ ok) × (c.sz ≡ b.sz + n) × (ws ≡ new_bytes b n))
          ⊎ ((st ≡ enomem) × (c.sz ≡ b.sz) × (ws ≡ []) × ((k : ℕ) × (grant k ≡ false))))

  -- the first free byte, where the products do not wrap
  getfree-incsz :
      (c : Dynb) (m : ℕ)
      → c.sz + m < u32_mod
      → (c.sz + m) * c.eszex < u32_mod
      → getfree (incsz c m) ≡ (c.sz + m) * c.eszex
  unfolding getfree incsz
  getfree-incsz c m h k = rw (mod-eq_of_lt h) (mod-eq_of_lt k)

  append_grown-in_bytes :
      (b c : Dynb) (m : ℕ)
      → (b.sz + suc m) * b.eszex < u32_mod
      → Grown b c
      → suc m ≤ freesz c
      → Appended b (suc m) (append_grown grant c (suc m) ok)
  unfolding append_grown copies getfree
  append_grown-in_bytes b c m h g room =
      let whole = freesz_lem c g.valid in
      let fits = mul_mono (c.sz + suc m) c.limit c.eszex (omega arith) in
      let sized : c.sz + suc m < u32_mod = omega (arith, g.valid.narrow) in
      let less : suc m - 1 ≡ m = omega arith in
      let size : ((c.sz + (suc m - 1)) % u32_mod + 1) % u32_mod ≡ c.sz + suc m = omega arith in
      let asked : (c.sz + suc m) * c.eszex < u32_mod = rw (g.same_sz, g.same_eszex) h in
      let v = g.valid in
      let below = mul_mono (c.sz + m) (c.sz + suc m) c.eszex (omega arith) in
      let before = mul_mono c.sz (c.sz + suc m) c.eszex (omega arith) in
      let few = mul_mono m (c.sz + suc m) c.eszex (omega arith) in
      let first : getfree c ≡ c.sz * c.eszex = mod-eq_of_lt (omega arith) in
      let whole_size : c.eszex * m % u32_mod ≡ c.eszex * m = mod-eq_of_lt (omega arith) in
      let second = getfree-incsz c m (omega arith) (omega arith) in
      let same_bytes : copies grant c (suc m) ≡ new_bytes b (suc m) =
        rw (less, first, second, whole_size, g.same_sz, g.same_eszex, g.same_esz) refl in
      (
        record {
          some_room = v.some_room;
          in_limit = omega arith;
          allocated = v.allocated;
          narrow = v.narrow;
          padded = v.padded;
        },
        (
          rw less (omega (arith, v.allocated)),
          (rw (less, second) (omega (arith, v.allocated, v.padded)), tt),
        ),
        inl (refl, omega (arith, g.same_sz), same_bytes),
      )

  append_grown-Appended :
      (b : Dynb) (n : ℕ) (r : Status × Dynb)
      → 0 < n
      → (b.sz + n) * b.eszex < u32_mod
      → Expanded grant b n r
      → Appended b n (append_grown grant r.1 n r.0)
  unfolding append_grown
  append_grown-Appended b zero r pos h x = absurd (omega arith)
  append_grown-Appended b (suc m) (ok, c) pos h (g, inl (e, room)) =
      append_grown-in_bytes b c m h g room
  append_grown-Appended b (suc m) (ok, c) pos h (g, inr (e, _, _)) = absurd (cc)
  append_grown-Appended b (suc m) (enomem, c) pos h (g, inl (e, r)) = absurd (cc)
  append_grown-Appended b (suc m) (enomem, c) pos h (g, inr (e, tight, no_grant)) =
      (g.valid, tt, inr (refl, g.same_sz, refl, no_grant))
  append_grown-Appended b (suc m) (einval, c) pos h (g, inl (e, r)) = absurd (cc)
  append_grown-Appended b (suc m) (einval, c) pos h (g, inr (e, _, _)) = absurd (cc)

  -- `ydynb_appends` on a valid buffer, with the sizes below 2 ^ 31, ends with success, `n` more
  -- elements and exactly their bytes copied, inside the allocation, or with -ENOMEM, a refused request
  -- and nothing written. The buffer stays valid.
  pub appends_total :
      (fuel : ℕ) (b : Dynb) (n : ℕ)
      → IsValid b
      → (b.sz + n) * b.eszex * 2 < u32_mod
      → (b.sz + n) * 2 < u32_mod
      → b.sz + n - b.limit < fuel
      → (r : Status × Dynb × List Write) × (appends grant fuel b n ≡ some r) × Appended b n r
  unfolding appends
  appends_total fuel b zero v h k m = ((ok, b, []), refl, (v, tt, inl (refl, omega arith, refl)))
  appends_total fuel b (suc n) v h k m =
      let (r, e, x) = expand2_total grant fuel b (suc n) v h k m in
      (
        append_grown grant r.1 (suc n) r.0,
        ground (arith, e),
        append_grown-Appended b (suc n) r (omega arith) (omega arith) x,
      )
