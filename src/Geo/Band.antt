-- ===== src/Geo/Band.antt =====
-- src/geo/yband.h: a half-open interval, and how two of them lie. The coordinates are C `int`s.
-- The code only compares and copies them, so an `int` n is the number n + 2 ^ 31, which keeps
-- the order: `INT_MIN` is 0, and the `int` 0 is 2 ^ 31.
use ylib.Base.{ℕ, ◌-◌, ◌^◌, Bool, ◌&&◌, ltb, leb, ◌==◌, if◌then◌else◌}

abbrev pub int_zero : ℕ
int_zero = 2 ^ 31

-- GEO_INVALID_MIN_VALUE
abbrev pub int_min : ℕ
int_min = 0

-- GEO_INVALID_MAX_VALUE
abbrev pub int_max : ℕ
int_max = 2 ^ 32 - 1

pub data BandPos : Type 0 where
  separate overlap subset : BandPos

pub record Band : Type 0 where
  pub s : ℕ
  pub b : ℕ

abbrev pub band : ℕ → ℕ → Band
band s b = record { s = s; b = b }

-- `ygeob_set`, whose assertion is a hypothesis of what is proved
abbrev pub set : ℕ → ℕ → Band
set sv bv = band sv bv

abbrev pub set_empty : Band
set_empty = band int_zero int_zero

abbrev pub is_empty : Band → Bool
is_empty k = leb k.b k.s

abbrev pub eq : Band → Band → Bool
eq k l = (k.s == l.s) && (k.b == l.b)

-- `obs`, `obo` and `obb` of `ygeob_analyze_layout`, with its result
pub record Layout : Type 0 where
  pub small : Band
  pub over : Band
  pub big : Band
  pub pos : BandPos

unfoldable pub analyze_layout : Band → Band → Layout
analyze_layout bs bb =
    if leb bs.b bb.s
    then record { small = bs; over = set_empty; big = bb; pos = BandPos.separate }
    else if leb bb.b bs.b
    then record { small = set bs.s bb.s; over = bb; big = set bb.b bs.b; pos = BandPos.subset }
    else record {
      small = set bs.s bb.s;
      over = set bb.s bs.b;
      big = set bs.b bb.b;
      pos = BandPos.overlap;
    }

-- is the coordinate in the band?
abbrev pub has : Band → ℕ → Bool
has k x = leb k.s x && ltb x k.b
