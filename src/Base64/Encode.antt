-- ===== src/Base64/Encode.antt =====
-- `f_b64_ntop`: `targsize` is what the caller says of the array at `target`, `capacity` what it has.
-- The array is filled from its start, so it is the list of the characters written so far.
use answrapp.Common.{
  ℕ, ◌+◌, ◌*◌, ◌/◌, ◌%◌, ◌^◌, bit_and, List, [], ◌∷◌, ◌++◌, ltb, leb, if◌then◌else◌, length,
}
use answrapp.Common.Int.{pos, cast}
use answrapp.Base64.{letter, pad, Outcome, returned, fault, minus_one}

-- `output[0]` to `output[3]`, each an `u_char`.
abbrev pub output_0 : ℕ → ℕ
output_0 a = a / 2 ^ 2

abbrev pub output_1 : ℕ → ℕ → ℕ
output_1 a b = (bit_and a 0x03 * 2 ^ 4 + b / 2 ^ 4) % 256

abbrev pub output_2 : ℕ → ℕ → ℕ
output_2 b c = (bit_and b 0x0f * 2 ^ 2 + c / 2 ^ 6) % 256

abbrev pub output_3 : ℕ → ℕ
output_3 c = bit_and c 0x3f

-- The four stores of a group, behind the test for room: `datalength` is the length of `out`.
abbrev pub put : ℕ → ℕ → List ℕ → List ℕ → (List ℕ → Outcome (List ℕ)) → Outcome (List ℕ)
put capacity targsize out four more =
    if ltb targsize ((length out + 4) % 2 ^ 64)
    then returned minus_one out
    else if leb (length out + length four) capacity
    then more (out ++ four)
    else fault

-- The terminator and the return.
unfoldable pub finish : ℕ → ℕ → List ℕ → Outcome (List ℕ)
finish capacity targsize out =
    if leb targsize (length out)
    then returned minus_one out
    else if ltb (length out) capacity
    then returned (cast 32 (pos (length out))) (out ++ 0 ∷ [])
    else fault

-- The loop over groups of three bytes, and the padding of what is left.
unfoldable pub encode_from : ℕ → ℕ → List ℕ → List ℕ → Outcome (List ℕ)
encode_from capacity targsize [] out = finish capacity targsize out
encode_from capacity targsize (a ∷ []) out =
    put capacity targsize out (letter (output_0 a) ∷ letter (output_1 a 0) ∷ pad ∷ pad ∷ [])
      (finish capacity targsize)
encode_from capacity targsize (a ∷ b ∷ []) out =
    put capacity targsize out
      (letter (output_0 a) ∷ letter (output_1 a b) ∷ letter (output_2 b 0) ∷ pad ∷ [])
      (finish capacity targsize)
encode_from capacity targsize (a ∷ b ∷ c ∷ rest) out =
    put capacity targsize out
      (letter (output_0 a)
        ∷ letter (output_1 a b)
        ∷ letter (output_2 b c)
        ∷ letter (output_3 c)
        ∷ [])
      (encode_from capacity targsize rest)

-- `f_b64_ntop`.
unfoldable pub f_b64_ntop : ℕ → ℕ → List ℕ → Outcome (List ℕ)
f_b64_ntop capacity targsize src = encode_from capacity targsize src []
