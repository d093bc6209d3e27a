-- ===== src/Dynb.antt =====
-- src/dynb.c and the inline functions of src/ydynb.h: the header of a growing buffer.
-- The bytes of the buffer are not kept: `bytes` is the size that the allocator was last asked for,
-- and a write is the range of bytes that it touches. `grant n` says whether `ymalloc` or `yrealloc`
-- of n bytes succeeds; C's `u32` products wrap.
pub mod Growth
pub mod Create
pub mod Append
mod Tests
use ylib.Base.{
  ℕ, zero, suc, ◌+◌, ◌-◌, ◌*◌, ◌%◌, ◌^◌, Bool, true, false, ◌||◌, Option, none, some, List, [], ◌∷◌,
  ltb, leb, ◌==◌, if◌then◌else◌, u32_mod, Status, is_ok, ok, enomem, einval,
}

pub record Dynb : Type 0 where
  pub limit : ℕ
  pub sz : ℕ
  pub esz : ℕ
  pub eszex : ℕ
  pub bytes : ℕ

-- of an allocation
pub data Fate : Type 0 where
  returned freed : Fate

-- `padsz`: the `int` arithmetic of the source does not wrap, since `esz` is 16 bits wide and
-- `align` 8
pub padsz : ℕ → ℕ → ℕ
padsz esz align = (align - esz % align) % align

pub elemsz : ℕ → ℕ → ℕ
unfolding padsz
elemsz esz align = esz + padsz esz align

unfoldable pub freesz : Dynb → ℕ
freesz b = (b.limit + u32_mod - b.sz) % u32_mod

unfoldable pub incsz : Dynb → ℕ → Dynb
incsz b n = record b { sz = (b.sz + n) % u32_mod }

unfoldable pub decsz : Dynb → ℕ → Dynb
decsz b n = record b { sz = (b.sz + u32_mod - n) % u32_mod }

pub reset : Dynb → Dynb
reset b = record b { sz = 0 }

-- with the assertion switched off, as the header switches it off
pub setsz : Dynb → ℕ → Dynb
setsz b sz = record b { sz = sz }

-- the offset of the element that `ydynb_get` points to
pub get : Dynb → ℕ → ℕ
get b i = i * b.eszex % u32_mod

pub getfree : Dynb → ℕ
getfree b = b.sz * b.eszex % u32_mod

-- what `ydynb_destroy` does with the elements: they are the result, or freed
pub destroy : (pop_buf : Bool) → Fate
destroy pop_buf = if pop_buf then returned else freed

-- A write of `size` bytes from `offset` on.
pub record Write : Type 0 where
  pub offset : ℕ
  pub size : ℕ

module _ (grant : ℕ → Bool) where
  -- the granted size of the header is not modelled: a refused header is a refused buffer
  unfoldable pub create : ℕ → ℕ → ℕ → Option Dynb
  unfolding elemsz
  create init_limit esz align =
      if init_limit == 0
      then none
      else if grant (init_limit * elemsz esz align % u32_mod)
      then some (record {
        limit = init_limit;
        sz = 0;
        esz = esz;
        eszex = elemsz esz align;
        bytes = init_limit * elemsz esz align % u32_mod;
      })
      else none

  unfoldable pub expand : Dynb → Status × Dynb
  expand b =
      let size = b.limit * b.eszex * 2 % u32_mod in
      if grant size
      then (ok, record b { bytes = size; limit = b.limit * 2 % u32_mod })
      else (enomem, b)

  -- the `while` of `ydynb_expand2`, on fuel
  expand_loop : ℕ → Dynb → ℕ → Option Dynb
  expand_loop zero b required = none
  expand_loop (suc fuel) b required =
      let again = expand_loop fuel (expand b).1 required in
      if ltb (freesz b) required
      then (if is_ok (expand b).0 then again else some (expand b).1)
      else some b

  unfoldable pub expand2 : ℕ → Dynb → ℕ → Option (Status × Dynb)
  unfolding expand_loop
  expand2 fuel b required = elim (expand_loop fuel b required) [
    | none ↦ none
    | some c ↦ some ((if leb required (freesz c) then ok else enomem), c)
  ]

  pub shrink : Dynb → ℕ → Status × Dynb
  shrink b to =
      if leb b.limit to || ltb to b.sz
      then (einval, b)
      else if grant (to * b.eszex % u32_mod)
      then (ok, record b { bytes = to * b.eszex % u32_mod; limit = to })
      else (enomem, b)

  -- the two copies of `ydynb_appends`; the last element is copied without its padding
  copies : Dynb → ℕ → List Write
  unfolding getfree incsz
  copies b n =
      record { offset = getfree b; size = b.eszex * (n - 1) % u32_mod }
      ∷ record { offset = getfree (incsz b (n - 1)); size = b.esz }
      ∷ []

  -- the rest of `ydynb_appends` after `ydynb_expand2`
  append_grown : Dynb → ℕ → Status → Status × Dynb × List Write
  unfolding copies
  append_grown c n ok =
      (ok, record c { sz = ((c.sz + (n - 1)) % u32_mod + 1) % u32_mod }, copies c n)
  append_grown c n enomem = (enomem, c, [])
  append_grown c n einval = (einval, c, [])

  pub appends : ℕ → Dynb → ℕ → Option (Status × Dynb × List Write)
  unfolding append_grown
  appends fuel b n =
      if n == 0
      then some (ok, b, [])
      else elim (expand2 fuel b n) [ none ↦ none | some (st, c) ↦ some (append_grown c n st) ]

  pub append : ℕ → Dynb → Option (Status × Dynb × List Write)
  unfolding appends
  append fuel b = appends fuel b 1
