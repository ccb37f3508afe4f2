-- ===== src/Common/Bits/Masks.antt =====
-- `a & m` is `a % (m + 1)` for masks of ones, for numbers of any size.
use Prim.Native.Nat.{ℕ, zero, suc, ◌+◌, ◌*◌, ◌/◌, ◌%◌, ◌≤◌, bit_and}
use mathlib.Core.Path.{◌≡◌, ◌∙◌}
use native.Mathlib.Omega.{arith}
use answrapp.Common.Bits.Binary.{zero-bit_and, and_lowest}

-- Nothing is left of a number under an empty mask; `bound` is what the halving counts down.
empty_mask : (bound x : ℕ) → x ≤ bound → bit_and x 0 ≡ 0
empty_mask bound zero h = zero-bit_and 0
empty_mask zero (suc x) h = absurd (omega arith)
empty_mask (suc bound) (suc x) h =
    let half = empty_mask bound (suc x / 2) (omega arith) in
    omega (arith, and_lowest (suc x) 0, half)

-- 2 ^ k - 1.
abbrev ones : ℕ → ℕ
ones zero = 0
ones (suc k) = ones k * 2 + 1

bit_and_odd : (a x : ℕ) → bit_and a (x * 2 + 1) ≡ bit_and (a / 2) x * 2 + a % 2
bit_and_odd a x =
    let half : (x * 2 + 1) / 2 ≡ x = omega arith in and_lowest a (x * 2 + 1) ∙ rw half (omega arith)

-- a % 2 ^ k, digit by digit.
abbrev low_digits : ℕ → ℕ → ℕ
low_digits zero a = 0
low_digits (suc k) a = low_digits k (a / 2) * 2 + a % 2

bit_and-ones : (k a : ℕ) → bit_and a (ones k) ≡ low_digits k a
bit_and-ones zero a = empty_mask a a (omega arith)
bit_and-ones (suc k) a = omega (arith, bit_and_odd a (ones k), bit_and-ones k (a / 2))

pub and_1 : (a : ℕ) → bit_and a 1 ≡ a % 2
and_1 a = omega (arith, bit_and-ones 1 a)

pub and_7 : (a : ℕ) → bit_and a 7 ≡ a % 8
and_7 a = omega (arith, bit_and-ones 3 a)

pub and_7f : (a : ℕ) → bit_and a 0x7f ≡ a % 128
and_7f a = omega (arith, bit_and-ones 7 a)

pub and_ff : (a : ℕ) → bit_and a 0xff ≡ a % 256
and_ff a = omega (arith, bit_and-ones 8 a)

pub and_3 : (a : ℕ) → bit_and a 3 ≡ a % 4
and_3 a = omega (arith, bit_and-ones 2 a)

pub and_f : (a : ℕ) → bit_and a 0x0f ≡ a % 16
and_f a = omega (arith, bit_and-ones 4 a)

pub and_3f : (a : ℕ) → bit_and a 0x3f ≡ a % 64
and_3f a = omega (arith, bit_and-ones 6 a)
