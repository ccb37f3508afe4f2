-- ===== src/Common/Int.antt =====
-- Signed machine integers: the number that a bit pattern of `w` bits stands for, and back.
use Prim.Native.Nat.{ℕ, ◌-◌, ◌%◌, ◌^◌, ◌<◌}
use mathlib.Core.Path.{◌≡◌}
use mathlib.Core.Bool.{Bool, true, false}
use mathlib.Core.Logic.{◌↔◌}
use native.Mathlib.Omega.{arith}
use answrapp.Common.Tests.{ltb, ◌==◌, if◌then◌else◌}

-- `negsuc n` is -(n + 1).
pub data ℤ : Type 0 where
  pos : ℕ → ℤ
  negsuc : ℕ → ℤ

-- The value of a pattern below 2 ^ w, in two's complement.
abbrev pub signed : ℕ → ℕ → ℤ
signed w x = if ltb x (2 ^ (w - 1)) then pos x else negsuc (2 ^ w - x - 1)

-- The pattern of a value, as a C cast to an unsigned type of w bits.
abbrev pub pattern_of : ℕ → ℤ → ℕ
pattern_of w (pos n) = n % 2 ^ w
pattern_of w (negsuc n) = 2 ^ w - 1 - n % 2 ^ w

-- A cast to a signed type of w bits.
abbrev pub cast : ℕ → ℤ → ℤ
cast w z = signed w (pattern_of w z)

infix 50 ◌=ℤ◌
abbrev pub ◌=ℤ◌ : ℤ → ℤ → Bool
pos m =ℤ pos n = m == n
negsuc m =ℤ negsuc n = m == n
pos m =ℤ negsuc n = false
negsuc m =ℤ pos n = false

-- The values of a signed type whose largest value is `half` - 1.
abbrev pub Within : ℕ → ℤ → Type 0
Within half (pos n) = n < half
Within half (negsuc n) = n < half

pub =ℤ_iff : (a b : ℤ) → ((a =ℤ b) ≡ true) ↔ (a ≡ b)
=ℤ_iff (pos m) (pos n) = ground arith
=ℤ_iff (negsuc m) (negsuc n) = ground arith
=ℤ_iff (pos m) (negsuc n) = ground arith
=ℤ_iff (negsuc m) (pos n) = ground arith
