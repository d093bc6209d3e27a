-- ===== src/Geo/Rect.antt =====
-- src/geo/yrect.h and src/geo/rect.c: rectangles, with `yut_cmpst` of src/yut.h.
pub mod Laws
mod Tests
use ylib.Base.{ℕ, Bool, ◌&&◌, ◌||◌, ltb, leb, if◌then◌else◌}
use ylib.Geo.Band
use ylib.Geo.Band.{Band, band}

-- `yb` is `t` and `b`, `xb` is `l` and `r`
pub record Rect : Type 0 where
  pub yb : Band
  pub xb : Band

-- `small` and `big` of `yut_cmpst`, which compares `key`s
abbrev pub cmpst {ℓ} : {A : Type ℓ} → (A → ℕ) → A → A → A × A
cmpst key d0 d1 = if ltb (key d0) (key d1) then (d0, d1) else (d1, d0)

-- `ygeor_set`, whose assertion is proved where it is called
abbrev pub set : ℕ → ℕ → ℕ → ℕ → Rect
set l t r b = record { yb = band t b; xb = band l r }

abbrev pub set2 : Band → Band → Rect
set2 xb yb = record { yb = yb; xb = xb }

pub set3 : ℕ → ℕ → ℕ → ℕ → Rect
set3 x0 x1 y0 y1 =
    let (l, r) = cmpst (λ x. x) x0 x1 in let (t, b) = cmpst (λ y. y) y0 y1 in set l t r b

-- the y-band stays as it is
abbrev pub set_empty : Rect → Rect
set_empty r = record r { xb = Band.set_empty }

abbrev pub is_empty : Rect → Bool
is_empty r = Band.is_empty r.xb || Band.is_empty r.yb

abbrev pub eq : Rect → Rect → Bool
eq r0 r1 = Band.eq r0.xb r1.xb && Band.eq r0.yb r1.yb

unfoldable pub contain : Rect → ℕ → ℕ → Bool
contain r x y = leb r.xb.s x && leb r.yb.s y && ltb x r.xb.b && ltb y r.yb.b

-- `pr0->r <= pr1->l`, the rectangles ordered by the sides that `key` names
pub x_apart : (Rect → ℕ) → Rect → Rect → Bool
x_apart key r0 r1 = let (pr0, pr1) = cmpst key r0 r1 in leb pr0.xb.b pr1.xb.s

-- `pr0->b <= pr1->t`
pub y_apart : (Rect → ℕ) → Rect → Rect → Bool
y_apart key r0 r1 = let (pr0, pr1) = cmpst key r0 r1 in leb pr0.yb.b pr1.yb.s

pub intersect : Rect → Rect → Rect → Rect
unfolding x_apart y_apart
intersect or r0 r1 =
    if (x_apart (λ r. r.xb.s) r0 r1 || x_apart (λ r. r.xb.b) r0 r1)
      || (y_apart (λ r. r.yb.s) r0 r1 || y_apart (λ r. r.yb.b) r0 r1)
    then set_empty or
    else set (cmpst (λ r. r.xb.s) r0 r1).1.xb.s (cmpst (λ r. r.yb.s) r0 r1).1.yb.s
        (cmpst (λ r. r.xb.b) r0 r1).0.xb.b (cmpst (λ r. r.yb.b) r0 r1).0.yb.b
