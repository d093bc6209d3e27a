-- ===== src/Dynb/Create.antt =====
-- src/dynb.c: what `ydynb_create` returns.
use ylib.Base.{
  ℕ, ◌*◌, ◌%◌, ◌<◌, ◌≡◌, refl, Bool, none, false, some, arith, u32_mod, ◌==◌, if◌then◌else◌,
}
use native.Mathlib.Nat.{mod-eq_of_lt}
use ylib.Dynb.{Dynb, create, elemsz, padsz}
use ylib.Dynb.Growth.{IsValid}

module _ (grant : ℕ → Bool) where
  -- A buffer that `ydynb_create` returns is valid, empty, and has the requested limit, if its size
  -- in bytes does not wrap.
  pub create-IsValid :
      (init_limit esz align : ℕ) {b : Dynb}
      → init_limit * elemsz esz align < u32_mod
      → init_limit < u32_mod
      → create grant init_limit esz align ≡ some b
      → IsValid b × (b.sz ≡ 0) × (b.limit ≡ init_limit) × (b.eszex ≡ elemsz esz align)
  unfolding create
  create-IsValid init_limit esz align h k e = ground (arith, mod-eq_of_lt h)

  pub create-refused :
      (init_limit esz align : ℕ)
      → 0 < init_limit
      → create grant init_limit esz align ≡ none
      → (n : ℕ) × (grant n ≡ false)
  unfolding create
  create-refused init_limit esz align h e =
      (init_limit * elemsz esz align % u32_mod, ground (arith, e))

-- what `ydynb_create` returns, if its size in bytes does not wrap
abbrev pub new_buffer : ℕ → ℕ → ℕ → Dynb
new_buffer init_limit esz align = record {
  limit = init_limit;
  sz = 0;
  esz = esz;
  eszex = elemsz esz align;
  bytes = init_limit * elemsz esz align;
}

pub create-granted :
    (grant : ℕ → Bool) (init_limit esz align : ℕ)
    → 0 < init_limit
    → init_limit * elemsz esz align < u32_mod
    → create grant init_limit esz align ≡ (
        if grant (init_limit * elemsz esz align)
        then some (new_buffer init_limit esz align)
        else none)
unfolding create
create-granted grant init_limit esz align some_room fits =
    let positive : (init_limit == 0) ≡ false = ground arith in rw (mod-eq_of_lt fits, positive) refl

-- eight bytes need no padding
pub elemsz-band : elemsz 8 1 ≡ 8
unfolding elemsz padsz
elemsz-band = refl
