-- ===== src/Base64/Text.antt =====
-- `f_b64_ntop` against the format.
use answrapp.Common.{
  ℕ, ◌+◌, ◌%◌, ◌^◌, ◌≤◌, ◌<◌, ◌≡◌, refl, true, Bool-cases, inl, inr, List, [], ◌∷◌, ◌++◌,
  append_assoc, append-nil, arith, ltb, leb, All, length, length-append,
}
use answrapp.Common.Int.{pos}
use answrapp.Nanopb.Types.{IsByte}
use answrapp.Base64.{letter, Outcome, returned, minus_one}
use answrapp.Base64.Encode.{put, finish, encode_from, f_b64_ntop}
use answrapp.Base64.Format.{
  group, digit_at, base64, output_0_lem, output_1_lem, output_2_lem, output_3_lem,
}

-- What the function promises for a text, of which `out` is written.
abbrev Writes : ℕ → List ℕ → Outcome (List ℕ) → Type 0
Writes targsize text r =
    (length text < targsize → r ≡ returned (pos (length text)) (text ++ 0 ∷ []))
    × (targsize ≤ length text
        → (out : List ℕ) × (length out ≤ targsize) × (r ≡ returned minus_one out))

abbrev quad : ℕ → List ℕ
quad n =
    letter (digit_at n 18)
    ∷ letter (digit_at n 12)
    ∷ letter (digit_at n 6)
    ∷ letter (digit_at n 0)
    ∷ []

module _ (capacity targsize : ℕ) (room : targsize ≤ capacity) (int : targsize ≤ 2 ^ 31) where
  finish-Writes :
      (out : List ℕ) → length out ≤ targsize → Writes targsize out (finish capacity targsize out)
  unfolding finish
  finish-Writes out h = (
    λ fits. ground arith,
    λ full. let no : leb targsize (length out) ≡ true = ground arith in rw no (out, h, refl),
  )

  put-Writes :
      (out four text : List ℕ) (more : List ℕ → Outcome (List ℕ))
      → length out ≤ targsize
      → length four ≡ 4
      → (length (out ++ four) ≤ targsize
          → Writes targsize (out ++ (four ++ text)) (more (out ++ four)))
      → Writes targsize (out ++ (four ++ text)) (put capacity targsize out four more)
  put-Writes out four text more h e next =
      let total = length-append out four in
      let all = length-append out (four ++ text) in
      let behind = length-append four text in
      elim (Bool-cases (ltb targsize ((length out + 4) % 2 ^ 64))) [
        | inl full ↦ rw full (λ fits. absurd (ground arith), λ _. (out, h, refl))
        | inr free ↦
            let fits : leb (length out + length four) capacity ≡ true = ground arith in
            rw (free, fits) (next (ground arith))
      ]

  encode_from-Writes :
      (bytes out : List ℕ)
      → All IsByte bytes
      → length out ≤ targsize
      → Writes targsize (out ++ base64 bytes) (encode_from capacity targsize bytes out)
  unfolding encode_from base64
  encode_from-Writes [] out hb h = rw append-nil (finish-Writes out h)
  encode_from-Writes (a ∷ []) out hb h =
      let zero_byte : IsByte 0 = omega arith in
      rw (output_0_lem a 0 0 hb.0 zero_byte zero_byte, output_1_lem a 0 0 hb.0 zero_byte zero_byte)
        (put-Writes out (base64 (a ∷ [])) [] (finish capacity targsize) h refl
          (λ fits. finish-Writes (out ++ base64 (a ∷ [])) fits))
  encode_from-Writes (a ∷ b ∷ []) out hb h =
      let zero_byte : IsByte 0 = omega arith in
      rw
        (
          output_0_lem a b 0 hb.0 hb.1.0 zero_byte,
          output_1_lem a b 0 hb.0 hb.1.0 zero_byte,
          output_2_lem a b 0 hb.0 hb.1.0 zero_byte,
        )
        (put-Writes out (base64 (a ∷ b ∷ [])) [] (finish capacity targsize) h refl
          (λ fits. finish-Writes (out ++ base64 (a ∷ b ∷ [])) fits))
  encode_from-Writes (a ∷ b ∷ c ∷ rest) out hb h =
      rw
        (
          output_0_lem a b c hb.0 hb.1.0 hb.1.1.0,
          output_1_lem a b c hb.0 hb.1.0 hb.1.1.0,
          output_2_lem a b c hb.0 hb.1.0 hb.1.1.0,
          output_3_lem a b c hb.0 hb.1.0 hb.1.1.0,
        )
        (put-Writes out (quad (group a b c)) (base64 rest) (encode_from capacity targsize rest) h
          refl
          (λ fits.
            rw (← append_assoc)
              (encode_from-Writes rest (out ++ quad (group a b c)) hb.1.1.1 fits)))

-- `f_b64_ntop` into an array of at least `targsize` bytes, at most 2 ^ 31: if the base 64 of the
-- bytes and its terminator fit in `targsize`, it stores them and returns the number of characters;
-- otherwise it returns -1 with at most `targsize` bytes stored.
pub f_b64_ntop_lem :
    (capacity targsize : ℕ) (bytes : List ℕ)
    → targsize ≤ capacity
    → targsize ≤ 2 ^ 31
    → All IsByte bytes
    → (length (base64 bytes) < targsize
        → f_b64_ntop capacity targsize bytes
          ≡ returned (pos (length (base64 bytes))) (base64 bytes ++ 0 ∷ []))
      × (targsize ≤ length (base64 bytes)
          → (out : List ℕ) × (length out ≤ targsize)
            × (f_b64_ntop capacity targsize bytes ≡ returned minus_one out))
unfolding f_b64_ntop
f_b64_ntop_lem capacity targsize bytes room int hb =
    encode_from-Writes capacity targsize room int bytes [] hb (omega arith)
