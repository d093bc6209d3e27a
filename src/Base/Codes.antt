-- ===== src/Base/Codes.antt =====
-- The results that ylib's `int` functions share: 0, and the two negated error numbers.
use mathlib.Core.Bool.{Bool, true, false}

pub data Status : Type 0 where
  ok enomem einval : Status

abbrev pub is_ok : Status → Bool
is_ok ok = true
is_ok _ = false
