-- ===== src/Base64/Tests.antt =====
-- The theorems on base 64 at concrete inputs.
use answrapp.Common.{
  ℕ, ◌+◌, ◌≤◌, ◌<◌, ◌≡◌, some, List, [], ◌∷◌, ◌++◌, arith, length, replicate, All,
}
use answrapp.Common.Int.{pos}
use answrapp.Nanopb.Types.{IsByte}
use answrapp.Base64.{returned, minus_one}
use answrapp.Base64.Encode.{f_b64_ntop}
use answrapp.Base64.Decode.{f_b64_pton}
use answrapp.Base64.Format.{base64}
use answrapp.Base64.Text.{f_b64_ntop_lem}
use answrapp.Base64.Safety.{Keeps, f_b64_pton-Keeps}
use answrapp.Base64.RoundTrip.{base64_round_trip}

abbrev hello : List ℕ
hello = 104 ∷ 101 ∷ 108 ∷ 108 ∷ 111 ∷ []

hello-bytes : All IsByte hello
hello-bytes = (omega arith, (omega arith, (omega arith, (omega arith, (omega arith, tt)))))

abbrev six : List ℕ
six = replicate 6 0

f_b64_ntop_lem_example :
    (length (base64 hello) < 9
      → f_b64_ntop 9 9 hello ≡ returned (pos (length (base64 hello))) (base64 hello ++ 0 ∷ []))
    × (9 ≤ length (base64 hello)
        → (out : List ℕ) × (length out ≤ 9) × (f_b64_ntop 9 9 hello ≡ returned minus_one out))
f_b64_ntop_lem_example = f_b64_ntop_lem 9 9 hello (omega arith) (omega arith) hello-bytes

f_b64_pton-Keeps_example : Keeps 6 (f_b64_pton 6 (some six) (65 ∷ 61 ∷ 61 ∷ []))
f_b64_pton-Keeps_example = f_b64_pton-Keeps 6 six (65 ∷ 61 ∷ 61 ∷ []) (omega arith) (omega arith)

base64_round_trip_example :
    (text : List ℕ) × (after : List ℕ) × (f_b64_ntop 9 9 hello
      ≡ returned (pos (length text)) (text ++ 0 ∷ []))
    × (length hello + length after ≡ length six)
    × (f_b64_pton 6 (some six) text ≡ returned (pos (length hello)) (some (hello ++ after)))
base64_round_trip_example =
    base64_round_trip 9 6 hello six hello-bytes (unfold base64 in omega arith) (omega arith)
      (omega arith) (omega arith) (omega arith)
