-- ===== src/Common/Bits/Binary.antt =====
-- `&` and `|` by binary digits: the native operations obey the law of the lowest digit.
use Prim.Native.Nat.{
  ℕ, zero, suc, ◌+◌, ◌*◌, ◌/◌, ◌%◌, ◌≤◌, min, max, bit_and, bit_or, digits, bit_and-bitwise,
  bit_or-bitwise,
}
use mathlib.Core.Path.{◌≡◌, refl, sym, ◌∙◌}
use native.Mathlib.Omega.{arith}

-- An operation that combines the digits by `low`, and is `base` where the first number has ended.
module _ (base : ℕ → ℕ) (low : ℕ → ℕ → ℕ) where
  ended : (fuel y : ℕ) → digits base low fuel 0 y ≡ base y
  ended zero y = refl
  ended (suc fuel) y = refl

  same_digits :
      (fuel more x y : ℕ)
      → x ≤ fuel
      → x ≤ more
      → digits base low fuel x y ≡ digits base low more x y
  same_digits fuel more zero y h k = ended fuel y ∙ sym (ended more y)
  same_digits zero more (suc x) y h k = absurd (omega arith)
  same_digits (suc fuel) zero (suc x) y h k = absurd (omega arith)
  same_digits (suc fuel) (suc more) (suc x) y h k =
      let half = same_digits fuel more (suc x / 2) (y / 2) (omega arith) (omega arith) in
      omega (arith, half)

  module _ (op : ℕ → ℕ → ℕ) (law : (x y : ℕ) → op x y ≡ digits base low x x y) where
    lowest_digit : (x y : ℕ) → op (suc x) y ≡ op (suc x / 2) (y / 2) * 2 + low (suc x % 2) (y % 2)
    lowest_digit x y =
        let half = suc x / 2 in
        let shorter = same_digits x half half (y / 2) (omega arith) (omega arith) in
        omega (arith, law (suc x) y, law half (y / 2), shorter)

pub zero-bit_and : (y : ℕ) → bit_and 0 y ≡ 0
zero-bit_and = bit_and-bitwise 0

pub zero-bit_or : (y : ℕ) → bit_or 0 y ≡ y
zero-bit_or = bit_or-bitwise 0

pub and_lowest : (x y : ℕ) → bit_and x y ≡ bit_and (x / 2) (y / 2) * 2 + min (x % 2) (y % 2)
and_lowest zero y = omega (arith, zero-bit_and y, zero-bit_and (y / 2))
and_lowest (suc x) y = lowest_digit (λ y. 0) min bit_and bit_and-bitwise x y

pub or_lowest : (x y : ℕ) → bit_or x y ≡ bit_or (x / 2) (y / 2) * 2 + max (x % 2) (y % 2)
or_lowest zero y = omega (arith, zero-bit_or y, zero-bit_or (y / 2))
or_lowest (suc x) y = lowest_digit (λ y. y) max bit_or bit_or-bitwise x y
