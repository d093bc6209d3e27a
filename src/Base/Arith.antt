-- ===== src/Base/Arith.antt =====
-- Arithmetic that is not linear.
use Prim.Native.Nat.{ℕ, ◌*◌, ◌≤◌}
use native.Mathlib.Omega.{arith}

pub mul_mono : (a b c : ℕ) → a ≤ b → a * c ≤ b * c
mul_mono a b c h = grind arith
