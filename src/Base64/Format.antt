-- ===== src/Base64/Format.antt =====
-- Base 64 in plain arithmetic: three bytes are a number of 24 bits, and the characters are its
-- digits in base 64, the highest first.
use answrapp.Common.{ℕ, ◌+◌, ◌*◌, ◌/◌, ◌%◌, ◌^◌, ◌≡◌, List, [], ◌∷◌, arith}
use answrapp.Common.Bits.Masks.{and_3, and_f, and_3f}
use answrapp.Nanopb.Types.{IsByte}
use answrapp.Base64.{letter, pad}
use answrapp.Base64.Encode.{output_0, output_1, output_2, output_3}

abbrev pub group : ℕ → ℕ → ℕ → ℕ
group a b c = a * 65536 + b * 256 + c

-- The digit of a group from bit `at` on.
abbrev pub digit_at : ℕ → ℕ → ℕ
digit_at n at = n / 2 ^ at % 64

unfoldable pub base64 : List ℕ → List ℕ
base64 [] = []
base64 (a ∷ []) =
    let n = group a 0 0 in letter (digit_at n 18) ∷ letter (digit_at n 12) ∷ pad ∷ pad ∷ []
base64 (a ∷ b ∷ []) =
    let n = group a b 0 in
    letter (digit_at n 18) ∷ letter (digit_at n 12) ∷ letter (digit_at n 6) ∷ pad ∷ []
base64 (a ∷ b ∷ c ∷ rest) =
    let n = group a b c in
    letter (digit_at n 18)
    ∷ letter (digit_at n 12)
    ∷ letter (digit_at n 6)
    ∷ letter (digit_at n 0)
    ∷ base64 rest

module _ (a b c : ℕ) (ha : IsByte a) (hb : IsByte b) (hc : IsByte c) where
  pub output_0_lem : output_0 a ≡ digit_at (group a b c) 18
  output_0_lem = omega arith

  pub output_1_lem : output_1 a b ≡ digit_at (group a b c) 12
  output_1_lem = rw (and_3 a) (omega arith)

  pub output_2_lem : output_2 b c ≡ digit_at (group a b c) 6
  output_2_lem = rw (and_f b) (omega arith)

  pub output_3_lem : output_3 c ≡ digit_at (group a b c) 0
  output_3_lem = rw (and_3f c) (omega arith)
