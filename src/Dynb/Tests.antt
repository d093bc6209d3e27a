-- ===== src/Dynb/Tests.antt =====
-- src/dynb.c: growing, shrinking and appending at concrete buffers.
use ylib.Base.{ℕ, ◌*◌, ◌<◌, ◌≡◌, ◌^◌, refl, Bool, true, some, List, Status, ok, arith, leb}
use ylib.Dynb.{Dynb, Write, create, expand, expand2, appends, elemsz}
use ylib.Dynb.Growth.{IsValid, Expanded, expand2_total, expand_wraps}
use ylib.Dynb.Append.{Appended, appends_total}

abbrev granted : ℕ → Bool
granted n = true

-- up to a kilobyte
abbrev scarce : ℕ → Bool
scarce n = leb n 1024

abbrev small : Dynb
small = record { limit = 8; sz = 6; esz = 12; eszex = 16; bytes = 128 }

small-IsValid : IsValid small
small-IsValid = record {
  some_room = omega arith;
  in_limit = omega arith;
  allocated = omega arith;
  narrow = omega arith;
  padded = omega arith;
}

-- 2 ^ 28 elements of eight bytes
abbrev wide : Dynb
wide = record { limit = 2 ^ 28; sz = 0; esz = 8; eszex = 8; bytes = 2 ^ 31 }

expand2_total_example :
    (r : Status × Dynb) × (expand2 scarce 99 small 100 ≡ some r) × Expanded scarce small 100 r
expand2_total_example =
    expand2_total scarce 99 small 100 small-IsValid (omega arith) (omega arith) (omega arith)

appends_total_example :
    (r : Status × Dynb × List Write) × (appends granted 99 small 100 ≡ some r)
    × Appended granted small 100 r
appends_total_example =
    appends_total granted 99 small 100 small-IsValid (omega arith) (omega arith) (omega arith)

abbrev fresh : Dynb
fresh = record { limit = 4; sz = 0; esz = 5; eszex = 8; bytes = 32 }

fresh_created : (create granted 4 5 8 ≡ some fresh) × (elemsz 5 8 ≡ 8)
unfolding create elemsz
fresh_created = (refl, refl)

wide_expands : (expand granted wide).0 ≡ ok
unfolding expand
wide_expands = refl

expand_wraps_example :
    (expand granted wide).1.bytes < (expand granted wide).1.limit * (expand granted wide).1.eszex
expand_wraps_example = expand_wraps granted wide (omega arith) (omega arith) wide_expands
