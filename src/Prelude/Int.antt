-- ===== src/Prelude/Int.antt =====
-- Python's signed differences of two counters, with the tests of their sign that the code makes.
use Prim.Native.Nat.{ℕ, ◌-◌}
use mathlib.Core.Path.{◌≡◌}
use mathlib.Core.Bool.{Bool, true, false}
use native.Mathlib.Omega.{arith}
use indy_plenum.Prelude.Tests.{leb, ltb, if◌then◌else◌}

-- `negsuc n` is -(n + 1).
pub data ℤ : Type 0 where
  pos : ℕ → ℤ
  negsuc : ℕ → ℤ

-- a - b, as an integer.
abbrev pub sub_ℕ : ℕ → ℕ → ℤ
sub_ℕ a b = if leb b a then pos (a - b) else negsuc (b - a - 1)

-- z >= 0
abbrev pub is_nonneg : ℤ → Bool
is_nonneg (pos n) = true
is_nonneg (negsuc n) = false

-- z > 0
abbrev pub is_pos : ℤ → Bool
is_pos (pos n) = ltb 0 n
is_pos (negsuc n) = false

pub is_nonneg-sub : (a b : ℕ) → is_nonneg (sub_ℕ a b) ≡ leb b a
is_nonneg-sub a b = ground arith

pub is_pos-sub : (a b : ℕ) → is_pos (sub_ℕ a b) ≡ ltb b a
is_pos-sub a b = ground arith
