-- ===== src/Common/Bits.antt =====
-- The bit operations that the C code uses, as arithmetic: masks of one byte as tables, and the
-- disjoint `|` that assembles a number from its bytes, for every width.
pub mod Binary
pub mod Masks
use Prim.Native.Nat.{
  ℕ, zero, suc, ◌+◌, ◌*◌, ◌/◌, ◌%◌, ◌^◌, ◌≤◌, ◌<◌, max, bit_and, bit_or, digits, bit_or-bitwise,
}
use mathlib.Core.Path.{◌≡◌, refl, ap, ◌∙◌}
use mathlib.Core.Bool.{Bool, true, ◌&&◌}
use native.Mathlib.Omega.{arith}
use native.Mathlib.Nat.{pow-suc}
use answrapp.Common.Bits.Binary.{zero-bit_or, or_lowest}
use answrapp.Common.Tests.{◌==◌}

module _ (f g : ℕ → ℕ) where
  -- Do two functions agree on every number below n?
  unfoldable pub agree_below : ℕ → Bool
  agree_below zero = true
  agree_below (suc n) = (f n == g n) && agree_below n

  pub agree_below_sound : (n : ℕ) → agree_below n ≡ true → (x : ℕ) → x < n → f x ≡ g x
  unfolding agree_below
  agree_below_sound zero e x h = absurd (omega arith)
  agree_below_sound (suc n) e x h = ground (arith, agree_below_sound n (ground arith) x)

pub mask_7f : (b : ℕ) → b < 256 → bit_and b 0x7f ≡ b % 128
unfolding agree_below
mask_7f = agree_below_sound _ _ 256 refl

pub mask_80 : (b : ℕ) → b < 256 → bit_and b 0x80 ≡ b / 128 * 128
unfolding agree_below
mask_80 = agree_below_sound _ _ 256 refl

pub or_80 : (b : ℕ) → b < 128 → bit_or b 0x80 ≡ b + 128
unfolding agree_below
or_80 = agree_below_sound _ _ 128 refl

bit_or_double : (a x : ℕ) → bit_or a (x * 2) ≡ bit_or (a / 2) x * 2 + a % 2
bit_or_double a x =
    let half : x * 2 / 2 ≡ x = omega arith in or_lowest a (x * 2) ∙ rw half (omega arith)

doubled : (k g : ℕ) → g * 2 ^ suc k ≡ g * 2 ^ k * 2
doubled k g = omega (arith, ap (λ (t : ℕ). g * t) (pow-suc 2 k))

-- Below bit k the one, from bit k on the other: `|` adds.
pub or_disjoint : (k a g : ℕ) → a < 2 ^ k → bit_or a (g * 2 ^ k) ≡ a + g * 2 ^ k
or_disjoint zero a g h = let e : a ≡ 0 = omega arith in rw e (zero-bit_or _ ∙ omega arith)
or_disjoint (suc k) a g h = rw (doubled k g) (
    omega
      (arith, bit_or_double a (g * 2 ^ k), or_disjoint k (a / 2) g (omega (arith, pow-suc 2 k))))

double-bit_or : (x a : ℕ) → bit_or (x * 2) a ≡ bit_or x (a / 2) * 2 + a % 2
double-bit_or x a =
    let half : x * 2 / 2 ≡ x = omega arith in or_lowest (x * 2) a ∙ rw half (omega arith)

bit_or-zero : (k x : ℕ) → x ≤ k → bit_or x 0 ≡ x
bit_or-zero k zero h = zero-bit_or 0
bit_or-zero zero (suc x) h = absurd (omega arith)
bit_or-zero (suc k) (suc x) h =
    omega (arith, or_lowest (suc x) 0, bit_or-zero k (suc x / 2) (omega arith))

-- With the shifted number on the left.
pub or_disjoint_left : (k g a : ℕ) → a < 2 ^ k → bit_or (g * 2 ^ k) a ≡ g * 2 ^ k + a
or_disjoint_left zero g a h =
    let e : a ≡ 0 = omega arith in
    rw e (bit_or-zero (g * 2 ^ 0) (g * 2 ^ 0) (omega arith) ∙ omega arith)
or_disjoint_left (suc k) g a h = rw (doubled k g) (
    omega (
      arith,
      double-bit_or (g * 2 ^ k) a,
      or_disjoint_left k g (a / 2) (omega (arith, pow-suc 2 k)),
    ))

-- A word stays a word under `|`.
pub or-lt-pow : (k a b : ℕ) → a < 2 ^ k → b < 2 ^ k → bit_or a b < 2 ^ k
or-lt-pow zero a b ha hb =
    let ea : a ≡ 0 = omega arith in
    let eb : b ≡ 0 = omega arith in rw (ea, eb) (omega (arith, zero-bit_or 0))
or-lt-pow (suc k) a b ha hb = omega (
  arith,
  pow-suc 2 k,
  or_lowest a b,
  or-lt-pow k (a / 2) (b / 2) (omega (arith, pow-suc 2 k)) (omega (arith, pow-suc 2 k)),
)
