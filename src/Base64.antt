-- ===== src/Base64.antt =====
-- The base 64 functions of FirebaseDatabase (fbase64.c of SocketRocket): the alphabet, and
-- `f_b64_ntop` and `f_b64_pton` in the children.
-- A C string is the list of its characters before the terminator, each as its bit pattern.
pub mod Encode
pub mod Decode
pub mod Format
pub mod Digits
pub mod Text
pub mod Groups
pub mod Safety
pub mod RoundTrip
mod Tests
use answrapp.Common.{
  ℕ, ◌+◌, Option, none, some, List, [], ◌∷◌, ◌++◌, ◌==◌, if◌then◌else◌, get_or, tabulate,
}
use answrapp.Common.Int.{ℤ, negsuc}
use mathlib.Core.Option

-- `Base64`: A to Z, a to z, 0 to 9, + and /.
abbrev pub alphabet : List ℕ
alphabet =
    tabulate 26 65 (λ c. c) ++ tabulate 26 97 (λ c. c) ++ tabulate 10 48 (λ c. c) ++ 43 ∷ 47 ∷ []

-- `Base64[i]`, and `Pad64`.
unfoldable pub letter : ℕ → ℕ
letter i = get_or alphabet i 0

abbrev pub pad : ℕ
pad = 61

-- `strchr(Base64, ch) - Base64`.
unfoldable pub position : ℕ → ℕ → List ℕ → Option ℕ
position at ch [] = none
position at ch (c ∷ cs) =
    let behind = position (at + 1) ch cs in if ch == c then some at else behind

-- The returned number with the memory at `target` behind the call; `fault` is an access outside of
-- the caller's array.
pub data Outcome {ℓ} (A : Type ℓ) : Type ℓ where
  returned : ℤ → A → Outcome A
  fault : Outcome A

abbrev pub minus_one : ℤ
minus_one = negsuc 0
